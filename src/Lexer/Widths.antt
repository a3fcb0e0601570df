-- ===== src/Lexer/Widths.antt =====
-- The white space at the front of a line and the stack of levels, for `handleIndentation` of
-- `src/lexer/Lexer.cpp`: what it reads and which tokens a width calls for, stated with no lexer.
use choco_c.Prelude.{
  ℕ, zero, suc, ◌+◌, ◌≤◌, ◌<◌, ◌^◌, ◌≡◌, refl, sym, ap, subst, ◌∙◌, inl, inr, Bool, true, false,
  List, [], ◌∷◌, ◌++◌, append_assoc, append-nil, some, Text, arith, length, Bool-cases, ltb,
}
use choco_c.TokenType.{TokenType, indent, dedent}
use choco_c.Token.{Token, monostate}
use choco_c.Lexer.Scanner.{Lexer, char_at, matches_char, peek_char, is_among, skip_chars, add_token}
use choco_c.Lexer.Lines.{ok, dedent_loop, handle_level}
use choco_c.Lexer.Stack.{IsStack}
use choco_c.Lexer.Cuts.{position}
use choco_c.Lexer.Moves.{get_or-beyond, matched, one_on}

abbrev pub types_of : List Token → List TokenType
types_of [] = []
types_of (t ∷ ts) = t.type ∷ types_of ts

-- Levels above the width are left, the top first, with a `DEDENT` for each.
pub data Leaves (w : ℕ) : List ℕ → List TokenType → List ℕ → Type 0 where
  stays : {l : ℕ} {ls : List ℕ} → l ≤ w → Leaves w (l ∷ ls) [] (l ∷ ls)
  leaves :
      {l : ℕ} {ls ls' : List ℕ} {ts : List TokenType}
      → w < l
      → Leaves w ls ts ls'
      → Leaves w (l ∷ ls) (dedent ∷ ts) ls'

-- A width above the top is entered, with an `INDENT`; otherwise levels are left.
pub data Relevels (w : ℕ) : List ℕ → List TokenType → List ℕ → Type 0 where
  enters : {l : ℕ} {ls : List ℕ} → l < w → Relevels w (l ∷ ls) (indent ∷ []) (w ∷ l ∷ ls)
  keeps :
      {l : ℕ} {ls ls' : List ℕ} {ts : List TokenType}
      → w ≤ l
      → Leaves w (l ∷ ls) ts ls'
      → Relevels w (l ∷ ls) ts ls'

-- A blank and a tabulator.
abbrev pub blanks : List ℕ
blanks = b' ' ∷ b'\t' ∷ []

-- So many blanks and tabulators stand at an offset of the buffer, and no more.
abbrev pub IsWidth : Text → ℕ → ℕ → Type 0
IsWidth buffer n w =
    ((i : ℕ) → i < w → is_among (char_at buffer (n + i)) blanks ≡ true)
    × (is_among (char_at buffer (n + w)) blanks ≡ false)

module _ (buffer : Text) where
  -- `match` of characters other than zero looks at the byte at the position.
  pub matches_char-is_among :
      (chs : List ℕ) (lx : Lexer)
      → is_among 0 chs ≡ false
      → matches_char buffer chs lx ≡ is_among (char_at buffer (position lx)) chs
  unfolding matches_char peek_char
  matches_char-is_among chs lx z = ground (arith, get_or-beyond buffer (position lx) 0)

  IsWidth-suc :
      (n w : ℕ)
      → is_among (char_at buffer n) blanks ≡ true
      → IsWidth buffer (n + 1) w
      → IsWidth buffer n (suc w)
  IsWidth-suc n w h (inside, behind) = (each, ap at (omega arith) ∙ behind)
    where
      at : ℕ → Bool
      at k = is_among (char_at buffer k) blanks

      each : (i : ℕ) → i < suc w → at (n + i) ≡ true
      each zero l = ap at (omega arith) ∙ h
      each (suc i) l = ap at (omega arith) ∙ inside i (omega arith)

  -- The loop over the white space reads all of it.
  pub skip_chars-IsWidth :
      (f : ℕ) (lx : Lexer)
      → length buffer < 2 ^ 63
      → position lx ≤ length buffer + 1
      → length buffer + 1 < position lx + f
      → (w : ℕ) × (skip_chars buffer f blanks lx
          ≡ some (record lx { lexeme_length = lx.lexeme_length + w }))
        × IsWidth buffer (position lx) w
  unfolding skip_chars is_among
  skip_chars-IsWidth zero lx h i l = absurd (omega arith)
  skip_chars-IsWidth (suc f) lx h i l =
      let none_at_zero : is_among 0 blanks ≡ false = refl in
      let seen = matches_char-is_among blanks lx none_at_zero in
      elim (Bool-cases (matches_char buffer blanks lx)) [
        | inl e ↦
            let m = matched buffer blanks lx none_at_zero e in
            let on = one_on buffer lx h (omega (arith, m)) in
            let there : Lexer = record lx { lexeme_length = lx.lexeme_length + 1 } in
            let (w, q, d) = skip_chars-IsWidth f there h (omega (arith, m)) (omega arith) in
            let sum : lx.lexeme_length + 1 + w ≡ lx.lexeme_length + suc w = omega arith in
            let far : position there ≡ position lx + 1 = omega arith in
            (
              suc w,
              rw (e, on) (q ∙ ap (λ n. some (record lx { lexeme_length = n })) sum),
              IsWidth-suc (position lx) w (sym seen ∙ e) (subst (λ n. IsWidth buffer n w) far d),
            )
        | inr e ↦
            let same : lx.lexeme_length ≡ lx.lexeme_length + 0 = omega arith in
            let here : position lx ≡ position lx + 0 = omega arith in
            (
              0,
              rw e (ap (λ n. some (record lx { lexeme_length = n })) same),
              (
                λ i k. absurd (omega arith),
                ap (λ n. is_among (char_at buffer n) blanks) (sym here) ∙ sym seen ∙ e,
              ),
            )
      ]

  -- What a change of level does to the lexer.
  abbrev pub Changed : Lexer → Lexer → List Token → Type 0
  Changed lx lx' us =
      (lx'.tokens ≡ lx.tokens ++ us)
      × (lx'.is_blank_line ≡ lx.is_blank_line)
      × (position lx' ≡ position lx)

  pub dedent_loop-Leaves :
      (w : ℕ) (ls : List ℕ) (lx : Lexer)
      → lx.indentation_levels ≡ ls
      → IsStack ls
      → (lx' : Lexer) × (us : List Token) × (dedent_loop buffer w ls lx ≡ ok lx')
        × Changed lx lx' us
        × Leaves w ls (types_of us) lx'.indentation_levels
  unfolding dedent_loop add_token
  dedent_loop-Leaves w [] lx e s = absurd s
  dedent_loop-Leaves w (l ∷ []) lx e s =
      let low : ltb w l ≡ false = ground arith in
      (
        lx,
        [],
        rw low refl,
        (sym (append-nil lx.tokens), refl, refl),
        rw e (stays (omega (arith, s))),
      )
  dedent_loop-Leaves w (l ∷ k ∷ ls) lx e s = elim (Bool-cases (ltb w l)) [
    | inl t ↦
        let next : Lexer = record (add_token buffer dedent monostate lx) {
          indentation_levels = k ∷ ls;
        } in
        let (lx', us, q, (added, blank, at), r) = dedent_loop-Leaves w (k ∷ ls) next refl s.1 in
        (
          lx',
          _ ∷ us,
          rw t q,
          (added ∙ append_assoc lx.tokens (_ ∷ []) us, blank, omega (arith, at)),
          leaves (ground arith) r,
        )
    | inr t ↦
        (lx, [], rw t refl, (sym (append-nil lx.tokens), refl, refl), rw e (stays (ground arith)))
  ]

  pub handle_level-Relevels :
      (ls : List ℕ) (lx : Lexer)
      → lx.indentation_levels ≡ ls
      → IsStack ls
      → (lx' : Lexer) × (us : List Token) × (handle_level buffer ls lx ≡ ok lx')
        × Changed lx lx' us
        × Relevels lx.lexeme_length ls (types_of us) lx'.indentation_levels
  unfolding handle_level add_token
  handle_level-Relevels [] lx e s = absurd s
  handle_level-Relevels (l ∷ ls) lx e s = elim (Bool-cases (ltb l lx.lexeme_length)) [
    | inl t ↦
        let entered : Lexer = record (add_token buffer indent monostate lx) {
          indentation_levels = lx.lexeme_length ∷ l ∷ ls;
        } in
        (entered, _ ∷ [], rw t refl, (refl, refl, omega arith), enters (ground arith))
    | inr t ↦
        let (lx', us, q, c, r) = dedent_loop-Leaves lx.lexeme_length (l ∷ ls) lx e s in
        (lx', us, rw t q, c, keeps (ground arith) r)
  ]
