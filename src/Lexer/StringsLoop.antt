-- ===== src/Lexer/StringsLoop.antt =====
-- The loop of `scanString` of `src/lexer/Lexer.cpp`: it ends, inside the buffer or one past its end.
use choco_c.Prelude.{
  ℕ, zero, suc, ◌+◌, ◌^◌, ◌≤◌, ◌<◌, ◌≡◌, refl, ◌⊎◌, inl, inr, true, false, not, ◌&&◌, [], ◌∷◌, ◌++◌,
  Option, some, Text, arith, length, Bool-cases, Option-cases, ◌==◌,
}
use choco_c.TokenType.{TokenType, type_eq, invalid, string, id_string}
use choco_c.Diagnostics.{DiagId, Diagnostic, report, at}
use choco_c.Lexer.Characters.{Characters}
use choco_c.Lexer.Scanner.{Lexer, char_at, advance_char, matches_char}
use choco_c.Lexer.Words.{diagnose}
use choco_c.Lexer.Strings.{
  scanned, unescape, scan_escape, is_at_end, narrow, scan_char, string_ends, string_loop,
}
use choco_c.Lexer.Cuts.{position, Moved, Moved-refl, Moved-trans}
use choco_c.Lexer.Moves.{peek_char-some, advance_char-Moved, advance_char-position}

-- The types that a string's token may have.
abbrev pub IsText : TokenType → Type 0
IsText t = (t ≡ invalid) ⊎ (t ≡ string) ⊎ (t ≡ id_string)

-- A report leaves the rest.
diagnose-Moved :
    (b : ℕ) (d : Diagnostic) (lx : Lexer) → position lx ≤ b → Moved b lx (diagnose d lx)
diagnose-Moved b d lx h = record {
  same_tokens = refl;
  same_levels = refl;
  same_start = refl;
  further = omega arith;
  within = h;
}

Moved-wider : {b c : ℕ} {x y : Lexer} → b ≤ c → Moved b x y → Moved c x y
Moved-wider h m = record {
  same_tokens = m.same_tokens;
  same_levels = m.same_levels;
  same_start = m.same_start;
  further = m.further;
  within = omega (arith, h, m.within);
}

narrow-IsText : (cs : Characters) (t : TokenType) (c : ℕ) → IsText t → IsText (narrow cs t c)
unfolding narrow
narrow-IsText cs t c h =
    elim (Bool-cases (not (type_eq t invalid) && not (cs.is_alnum c) && not (c == b'_'))) [
      | inl e ↦ rw (narrow, e) (inr (inl refl))
      | inr e ↦ rw (narrow, e) h
    ]

-- A step over a character or an escape, up to the last `advance()`.
Stepped : ℕ → Lexer → Option (TokenType × Text × Lexer) → Type 0
Stepped b lx r =
    (type : TokenType) × (value : Text) × (lx' : Lexer) × (r ≡ some (type, value, lx'))
    × IsText type
    × Moved b lx lx'

module _ (buffer : Text) where
  scan_escape-Stepped :
      (b : ℕ) (type : TokenType) (value : Text) (c : ℕ) (lx : Lexer)
      → IsText type
      → position lx ≤ b
      → Stepped b lx (some (scan_escape type value c lx))
  unfolding scan_escape Stepped
  scan_escape-Stepped b type value c lx t h = elim (Option-cases (unescape c)) [
    | inl e ↦ (
      invalid,
      value,
      _,
      rw (scan_escape, e) refl,
      inl refl,
      diagnose-Moved b
          (at (report DiagId.invalid_escape_character) (lx.lexeme_start + lx.lexeme_length)) lx h,
    )
    | inr (d, e) ↦ (type, value ++ d ∷ [], lx, rw (scan_escape, e) refl, t, Moved-refl b lx h)
  ]

  string_ends-false : (lx : Lexer) → string_ends buffer lx ≡ false → position lx < length buffer
  unfolding string_ends is_at_end
  string_ends-false lx e = ground arith

  string_ends-true : (lx : Lexer) → length buffer ≤ position lx → string_ends buffer lx ≡ true
  unfolding string_ends is_at_end
  string_ends-true lx e = ground arith

  module _ (cs : Characters) where
    scan_char-Stepped :
        (type : TokenType) (value : Text) (c : ℕ) (lx : Lexer)
        → length buffer < 2 ^ 63
        → IsText type
        → position lx < length buffer
        → Stepped (length buffer) lx (scan_char cs buffer type value c lx)
    unfolding scan_char Stepped
    scan_char-Stepped type value c lx h t i =
        elim (Bool-cases (matches_char buffer (b'\\' ∷ []) lx)) [
          | inl e ↦
              let there = advance_char buffer lx in
              let on = advance_char-position buffer lx h (omega arith) in
              let at_most : position there ≤ length buffer = omega (arith, on) in
              let d = char_at buffer (position there) in
              let (k, v, last, q, s, m) =
                scan_escape-Stepped (length buffer) (narrow cs type c) value d there
                  (narrow-IsText cs type c t) at_most in
              (
                k,
                v,
                last,
                rw (scan_char, e, peek_char-some buffer there at_most) q,
                s,
                Moved-trans (advance_char-Moved buffer (length buffer) lx h (omega arith) i) m,
              )
          | inr e ↦ (
            narrow cs type c,
            value ++ c ∷ [],
            lx,
            rw (scan_char, e) refl,
            narrow-IsText cs type c t,
            Moved-refl (length buffer) lx (omega arith),
          )
        ]

    -- The loop ends, one past the end of the buffer at most.
    pub string_loop-scanned :
        (f : ℕ) (type : TokenType) (value : Text) (lx : Lexer)
        → length buffer < 2 ^ 63
        → IsText type
        → position lx ≤ length buffer + 1
        → length buffer + 1 < position lx + f
        → (type' : TokenType) × (value' : Text) × (lx' : Lexer) × (string_loop cs buffer f type
              value lx
            ≡ scanned type' value' lx')
          × IsText type'
          × Moved (length buffer + 1) lx lx'
    unfolding string_loop Stepped
    string_loop-scanned zero type value lx h t i l = absurd (omega arith)
    string_loop-scanned (suc f) type value lx h t i l = elim (Bool-cases (string_ends buffer lx)) [
      | inl e ↦ (type, value, lx, rw (string_loop, e) refl, t, Moved-refl (length buffer + 1) lx i)
      | inr e ↦
          let there = string_ends-false lx e in
          let (k, v, next, q, s, m) =
            scan_char-Stepped type value (char_at buffer (position lx)) lx h t there in
          let on = advance_char-position buffer next h m.within in
          let (k', v', last, q', s', m') =
            string_loop-scanned f k v (advance_char buffer next) h s (omega (arith, on, m.within))
              (omega (arith, on, m.further)) in
          (
            k',
            v',
            last,
            rw (string_loop, e, peek_char-some buffer lx (omega arith), q) q',
            s',
            Moved-trans
                (Moved-trans (Moved-wider (omega arith) m) (
                  advance_char-Moved buffer (length buffer + 1) next h m.within
                    (omega (arith, m.within))))
                m',
          )
    ]
