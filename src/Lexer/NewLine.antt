-- ===== src/Lexer/NewLine.antt =====
-- `handleNewLine` of `src/lexer/Lexer.cpp` against the width of the next line and the stack of levels.
use choco_c.Prelude.{
  ℕ, ◌+◌, ◌≤◌, ◌<◌, ◌^◌, ◌≡◌, refl, sym, ◌∙◌, subst, ◌⊎◌, inl, inr, true, false, List, [], ◌∷◌,
  ◌++◌, append-nil, Text, arith, length, Bool-cases, if◌then◌else◌,
}
use choco_c.TokenType.{newline}
use choco_c.Token.{Token, monostate}
use choco_c.Lexer.Scanner.{
  Lexer, char_at, matches_char, is_among, add_token, next_lexeme, lexeme, lexeme_location,
}
use choco_c.Lexer.Lines.{ok, enough, handle_indentation, handle_new_line}
use choco_c.Lexer.Stack.{IsStack}
use choco_c.Lexer.Cuts.{position}
use choco_c.Lexer.Balance.{IsInside}
use choco_c.Lexer.Widths.{
  types_of, Relevels, IsWidth, matches_char-is_among, skip_chars-IsWidth, handle_level-Relevels,
}

-- The characters behind the white space of a line that has nothing else, or a comment.
abbrev pub line_ends : List ℕ
line_ends = b'#' ∷ b'\r' ∷ b'\n' ∷ []

-- The next line, from an offset with a stack: the tokens added, and what the lexer is left with. A line of
-- white space alone, or with a comment, changes nothing but the position; another one has the stack and the
-- tokens that its width calls for, and counts as no blank line.
abbrev pub NextLine : Text → ℕ → List ℕ → List Token → Lexer → Type 0
NextLine buffer n levels ts lx' =
    (w : ℕ) × (us : List Token) × IsWidth buffer n w
    × (lx'.tokens ≡ ts ++ us)
    × (position lx' ≡ n + w)
    × (((is_among (char_at buffer (n + w)) line_ends ≡ true)
          × (us ≡ [])
          × (lx'.indentation_levels ≡ levels)
          × (lx'.is_blank_line ≡ true))
        ⊎ ((is_among (char_at buffer (n + w)) line_ends ≡ false)
            × Relevels w levels (types_of us) lx'.indentation_levels
            × (lx'.is_blank_line ≡ false)))

-- The `NEWLINE` at the end of a line that is not blank, with the lexeme for its text.
abbrev pub line_end : Text → Lexer → List Token
line_end buffer lx =
    if lx.is_blank_line
    then []
    else (record {
      value = monostate;
      type = newline;
      location = lexeme_location buffer lx;
      text = lexeme buffer lx;
    })
      ∷ []

module _ (buffer : Text) where
  -- At the front of a line.
  handle_indentation-NextLine :
      (lx : Lexer)
      → length buffer < 2 ^ 63
      → position lx ≤ length buffer + 1
      → IsStack lx.indentation_levels
      → lx.lexeme_length ≡ 0
      → lx.is_blank_line ≡ true
      → (lx' : Lexer) × (handle_indentation buffer lx ≡ ok lx')
        × NextLine buffer (position lx) lx.indentation_levels lx.tokens lx'
  unfolding handle_indentation is_among
  handle_indentation-NextLine lx h i s z blank =
      let (w, q, d) = skip_chars-IsWidth buffer (enough buffer) lx h i (omega arith) in
      let there : Lexer = record lx { lexeme_length = lx.lexeme_length + w } in
      let far : position there ≡ position lx + w = omega arith in
      let seen =
        subst (λ n. matches_char buffer line_ends there ≡ is_among (char_at buffer n) line_ends) far
          (matches_char-is_among buffer line_ends there refl) in
      elim (Bool-cases (matches_char buffer line_ends there)) [
        | inl e ↦ (
          there,
          rw (handle_indentation, q, e) refl,
          (w, [], d, sym (append-nil lx.tokens), far, inl (sym seen ∙ e, refl, refl, blank)),
        )
        | inr e ↦
            let logical : Lexer = record there { is_blank_line = false } in
            let (lx', us, p, (added, same, at), r) =
              handle_level-Relevels buffer lx.indentation_levels logical refl s in
            let width : lx.lexeme_length + w ≡ w = omega (arith, z) in
            (
              lx',
              rw (handle_indentation, q, e) p,
              (
                w,
                us,
                d,
                added,
                omega (arith, at),
                inr (
                  sym seen ∙ e,
                  subst (λ n. Relevels n lx.indentation_levels (types_of us) lx'.indentation_levels)
                      width r,
                  same,
                ),
              ),
            )
      ]

  -- With the stack in order and the position inside a buffer of fewer than 2^63 bytes, `handleNewLine` ends.
  -- It adds a `NEWLINE` with the lexeme for its text, unless the line was blank. It then reads all the blanks
  -- and tabulators behind. Where `#`, a carriage return or a line feed follows, it adds no more, the stack
  -- stays, and the next line is taken for blank; otherwise the next line is taken for no blank one, and the stack and the
  -- tokens added are those that its width calls for: an `INDENT` and the width on top where it is above the top, or
  -- else a `DEDENT` for each level above it, which are left.
  pub handle_new_line_lem :
      (lx : Lexer)
      → length buffer < 2 ^ 63
      → IsInside buffer lx
      → IsStack lx.indentation_levels
      → (lx' : Lexer) × (handle_new_line buffer lx ≡ ok lx')
        × NextLine buffer (position lx) lx.indentation_levels (lx.tokens ++ line_end buffer lx) lx'
  unfolding handle_new_line add_token
  handle_new_line_lem lx h i s =
      let here : lx.lexeme_start + lx.lexeme_length + 0 ≡ position lx = omega arith in
      elim (Bool-cases lx.is_blank_line) [
        | inl e ↦
            let cut : Lexer = record (next_lexeme buffer lx) { is_blank_line = true } in
            let (lx', q, r) = handle_indentation-NextLine cut h (omega arith) s refl refl in
            (
              lx',
              rw (handle_new_line, e) q,
              rw (e, append-nil lx.tokens)
                  (subst (λ n. NextLine buffer n lx.indentation_levels lx.tokens lx') here r),
            )
        | inr e ↦
            let cut : Lexer = record (add_token buffer newline monostate lx) {
              is_blank_line = true;
            } in
            let (lx', q, r) = handle_indentation-NextLine cut h (omega arith) s refl refl in
            (
              lx',
              rw (handle_new_line, e) q,
              rw e (subst (λ n. NextLine buffer n lx.indentation_levels cut.tokens lx') here r),
            )
      ]
