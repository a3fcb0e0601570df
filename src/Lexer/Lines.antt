-- ===== src/Lexer/Lines.antt =====
-- `skipWhitespace`, `handleNewLine` and `handleIndentation` of `src/lexer/Lexer.cpp`.
use choco_c.Prelude.{
  ℕ, ◌+◌, true, false, List, [], ◌∷◌, none, some, Text, ltb, length, if◌then◌else◌,
}
use choco_c.TokenType.{newline, indent, dedent}
use choco_c.Token.{monostate}
use choco_c.Lexer.Scanner.{Lexer, matches_char, skip_chars, add_token, next_lexeme}

-- The outcome of a method. `undefined` is `top` of an empty stack, or the dereference of an empty
-- optional; `out_of_fuel` has no counterpart in the program.
pub data Outcome : Type 0 where
  ok : Lexer → Outcome
  undefined out_of_fuel : Outcome

module _ (buffer : Text) where
  -- The fuel for a loop over the buffer: its characters, the zero, and one.
  abbrev pub enough : ℕ
  enough = length buffer + 2

  unfoldable pub skip_whitespace : Lexer → Outcome
  skip_whitespace lx = elim (skip_chars buffer enough (b' ' ∷ b'\t' ∷ []) lx) [
    | none ↦ out_of_fuel
    | some lx' ↦ ok (next_lexeme buffer lx')
  ]

  -- The `while` loop of `handleIndentation`, over the levels of the stack.
  unfoldable pub dedent_loop : ℕ → List ℕ → Lexer → Outcome
  dedent_loop level [] lx = undefined
  dedent_loop level (l ∷ ls) lx =
      let rest =
        dedent_loop level ls
          (record (add_token buffer dedent monostate lx) { indentation_levels = ls }) in
      if ltb level l then rest else ok lx

  -- The part of `handleIndentation` for a logical line.
  unfoldable pub handle_level : List ℕ → Lexer → Outcome
  unfolding dedent_loop
  handle_level [] lx = undefined
  handle_level (l ∷ ls) lx =
      if ltb l lx.lexeme_length
      then ok (record (add_token buffer indent monostate lx) {
        indentation_levels = lx.lexeme_length ∷ l ∷ ls;
      })
      else dedent_loop lx.lexeme_length (l ∷ ls) lx

  unfoldable pub handle_indentation : Lexer → Outcome
  unfolding handle_level
  handle_indentation lx = elim (skip_chars buffer enough (b' ' ∷ b'\t' ∷ []) lx) [
    | none ↦ out_of_fuel
    | some lx' ↦
        if matches_char buffer (b'#' ∷ b'\r' ∷ b'\n' ∷ []) lx'
        then ok lx'
        else handle_level lx'.indentation_levels (record lx' { is_blank_line = false })
  ]

  unfoldable pub handle_new_line : Lexer → Outcome
  unfolding handle_indentation
  handle_new_line lx =
      let cut =
        (if lx.is_blank_line
          then next_lexeme buffer lx
          else add_token buffer newline monostate lx) in
      handle_indentation (record cut { is_blank_line = true })
