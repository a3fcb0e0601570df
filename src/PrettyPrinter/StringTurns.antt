-- ===== src/PrettyPrinter/StringTurns.antt =====
-- A string that `src/ast/PrettyPrinter.cpp` has printed, read by `scanString` of `src/lexer/Lexer.cpp`.
use choco_c.Prelude.{
  ℕ, zero, suc, ◌+◌, ◌^◌, ◌<◌, ◌≡◌, refl, sym, ap, ◌∙◌, false, List, [], ◌∷◌, ◌++◌, append_assoc,
  append-nil, some, Text, arith, length, length-append, drop, get_or, All,
}
use choco_c.TokenType.{TokenType}
use choco_c.Diagnostics.{DiagnosticsManager}
use choco_c.Lexer.Characters.{Characters}
use choco_c.Lexer.Scanner.{peek_char, advance_char, matches_char, is_among}
use choco_c.Lexer.Strings.{
  scanned, scan_escape, is_at_end, string_ends, narrow, scan_char, string_loop,
}
use choco_c.Lexer.Single.{reading}
use choco_c.Lexer.Moves.{peek_char-some, one_on}
use choco_c.PrettyPrinter.{escape}
use choco_c.PrettyPrinter.Escaped.{
  IsString, IsKept, Printed, as_it_is, behind, escaped, narrow-IsString, escape-Printed, drop_cons,
  some_length, zero_add,
}

module _ (buffer : Text) (ds : DiagnosticsManager) where
  -- The character to come, and the rest behind it.
  abbrev pub Comes : ℕ → ℕ → Text → Type 0
  Comes n d r =
      (peek_char buffer (reading ds n) ≡ some d)
      × (advance_char buffer (reading ds n) ≡ reading ds (n + 1))
      × (n < length buffer)
      × (drop (n + 1) buffer ≡ r)

  pub comes : (n d : ℕ) (r : Text) → length buffer < 2 ^ 63 → drop n buffer ≡ d ∷ r → Comes n d r
  comes n d r h e =
      let (g, l, t) = drop_cons n d buffer r e in
      (
        peek_char-some buffer (reading ds n) (omega (arith, l))
            ∙ ap some (ap (λ k. get_or buffer k 0) (zero_add n) ∙ g),
        one_on buffer (reading ds n) h (omega (arith, l)),
        l,
        t,
      )

  pub matches_peek :
      (chs : List ℕ) (n d : ℕ)
      → peek_char buffer (reading ds n) ≡ some d
      → matches_char buffer chs (reading ds n) ≡ is_among d chs
  unfolding matches_char
  matches_peek chs n d e = rw (matches_char, e) refl

  goes_on :
      (n d : ℕ)
      → peek_char buffer (reading ds n) ≡ some d
      → n < length buffer
      → is_among d (b'"' ∷ 0 ∷ b'\r' ∷ b'\n' ∷ []) ≡ false
      → string_ends buffer (reading ds n) ≡ false
  unfolding string_ends is_at_end
  goes_on n d e l m =
      rw (string_ends, matches_peek (b'"' ∷ 0 ∷ b'\r' ∷ b'\n' ∷ []) n d e, m) (ground arith)

  module _ (cs : Characters) where
    -- A turn of the loop reads one character of the string.
    Turned : ℕ → TokenType → Text → ℕ → ℕ → ℕ → Type 0
    Turned f type value n c m =
        (type' : TokenType) × IsString type'
        × (string_loop cs buffer (suc f) type value (reading ds n)
            ≡ string_loop cs buffer f type' (value ++ c ∷ []) (reading ds m))

    one_turn :
        (f : ℕ) (type : TokenType) (value : Text) (n c : ℕ) (p r : Text)
        → length buffer < 2 ^ 63
        → IsString type
        → Printed c p
        → drop n buffer ≡ p ++ r
        → Turned f type value n c (n + length p) × (drop (n + length p) buffer ≡ r)
    unfolding Turned string_loop is_among
    one_turn f type value n c _ r h t (as_it_is e b) d =
        let (k, a, l, rest) = comes n c r h d in
        (
          (
            narrow cs type c,
            narrow-IsString cs type c t,
            rw (string_loop, goes_on n c k l e, k, scan_char, matches_peek (b'\\' ∷ []) n c k, b, a)
                refl,
          ),
          rest,
        )
    one_turn f type value n c _ r h t (behind x u) d =
        let (k, a, l, rest) = comes n b'\\' (x ∷ r) h d in
        let (k', a', l', rest') = comes (n + 1) x r h rest in
        let two : n + 1 + 1 ≡ n + 2 = omega arith in
        (
          (
            narrow cs type b'\\',
            narrow-IsString cs type b'\\' t,
            rw
                (
                  string_loop,
                  goes_on n b'\\' k l refl,
                  k,
                  scan_char,
                  matches_peek (b'\\' ∷ []) n b'\\' k,
                  a,
                  k',
                  scan_escape,
                  u,
                  a,
                  a',
                )
                (ap
                  (λ k.
                    string_loop cs buffer f (narrow cs type b'\\') (value ++ c ∷ []) (reading ds k))
                  two),
          ),
          ap (λ k. drop k buffer) (sym two) ∙ rest',
        )

    -- The loop reads the printed characters back.
    pub escaped_loop :
        (s : Text) (f n : ℕ) (type : TokenType) (value : Text)
        → length buffer < 2 ^ 63
        → IsString type
        → All IsKept s
        → drop n buffer ≡ escaped s ++ b'"' ∷ []
        → length (escaped s) < f
        → (type' : TokenType) × IsString type'
          × (string_loop cs buffer f type value (reading ds n)
              ≡ scanned type' (value ++ s) (reading ds (n + length (escaped s))))
          × (drop (n + length (escaped s)) buffer ≡ b'"' ∷ [])
    unfolding escaped Turned string_loop string_ends is_among
    escaped_loop s zero n type value h t k d l = absurd (omega arith)
    escaped_loop [] (suc f) n type value h t k d l =
        let (c, a, i, rest) = comes n b'"' [] h d in
        let same : n + 0 ≡ n = omega arith in
        (
          type,
          t,
          rw
              (
                string_loop,
                string_ends,
                matches_peek (b'"' ∷ 0 ∷ b'\r' ∷ b'\n' ∷ []) n b'"' c,
                append-nil value,
                same,
              )
              (ground arith),
          rw same d,
        )
    escaped_loop (c ∷ s) (suc f) n type value h t k d l =
        let p = escape-Printed c k.0.0 k.0.1 in
        let (turned, rest) =
          one_turn f type value n c (escape c) (escaped s ++ b'"' ∷ []) h t p
            (d ∙ append_assoc (escape c) (escaped s) (b'"' ∷ [])) in
        let (type', t', q) = turned in
        let sum = length-append (escape c) (escaped s) in
        let (last, u, e, end) =
          escaped_loop s f (n + length (escape c)) type' (value ++ c ∷ []) h t' k.1 rest
            (omega (arith, sum, some_length c (escape c) p)) in
        let whole : n + length (escape c) + length (escaped s)
            ≡ n + length (escape c ++ escaped s) =
          omega (arith, sum) in
        (
          last,
          u,
          q
              ∙ e
              ∙ ap (λ m. scanned last ((value ++ c ∷ []) ++ s) (reading ds m)) whole
              ∙ ap (λ v. scanned last v (reading ds (n + length (escape c ++ escaped s))))
                  (append_assoc value (c ∷ []) s),
          ap (λ m. drop m buffer) (sym whole) ∙ end,
        )
