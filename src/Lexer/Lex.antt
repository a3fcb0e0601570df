-- ===== src/Lexer/Lex.antt =====
-- `lex` of `src/lexer/Lexer.cpp`.
use choco_c.Prelude.{
  ℕ, zero, suc, true, false, ◌||◌, [], ◌∷◌, ◌==◌, none, some, Text, if◌then◌else◌,
}
use choco_c.TokenType.{
  TokenType, invalid, plus, minus, rarrow, mult, div, modulo, equal, assign, nequal, less, less_eq,
  great, great_eq, dot, open_brack, close_brack, comma, colon, open_paren, close_paren,
}
use choco_c.Token.{monostate}
use choco_c.Diagnostics.{DiagId, DiagnosticsManager}
use choco_c.Lexer.Characters.{Characters}
use choco_c.Lexer.Scanner.{Lexer, new_lexer, peek_char, advance_char, matches_char, add_token}
use choco_c.Lexer.Lines.{
  Outcome, ok, undefined, out_of_fuel, enough, skip_whitespace, handle_new_line, handle_indentation,
  dedent_loop,
}
use choco_c.Lexer.Words.{diagnose_start, skip_comment, scan_number, scan_id_or_keyword}
use choco_c.Lexer.Strings.{is_at_end, scan_string}

module _ (buffer : Text) where
  -- `addToken` of a type alone.
  abbrev pub add : TokenType → Lexer → Lexer
  add type lx = add_token buffer type monostate lx

  -- The cases that look for a second character and take the shorter token without it.
  unfoldable pub match_second : ℕ → TokenType → TokenType → Lexer → Lexer
  unfolding matches_char advance_char add_token
  match_second c long short lx =
      if matches_char buffer (c ∷ []) lx then add long (advance_char buffer lx) else add short lx

  -- `expect`, and the cases that cannot do without a second character.
  unfoldable pub expect_second : ℕ → TokenType → Lexer → Lexer
  unfolding matches_char advance_char add_token
  expect_second c long lx =
      if matches_char buffer (c ∷ []) lx
      then add long (advance_char buffer lx)
      else add invalid (diagnose_start DiagId.unexpected_character lx)

  -- The case of a carriage return.
  unfoldable pub carriage_return : Lexer → Outcome
  unfolding matches_char advance_char handle_new_line
  carriage_return lx =
      handle_new_line buffer
        (if matches_char buffer (b'\n' ∷ []) lx then advance_char buffer lx else lx)

  module _ (cs : Characters) where
    -- The `default` case.
    unfoldable pub scan_other : ℕ → Lexer → Outcome
    unfolding scan_id_or_keyword scan_number add_token
    scan_other c lx =
        if cs.is_alpha c || c == b'_'
        then scan_id_or_keyword buffer cs lx
        else if cs.is_digit c
        then scan_number buffer cs lx
        else ok (add invalid (diagnose_start DiagId.unexpected_character lx))

    -- The `switch`, at the character just read.
    unfoldable pub scan_token : ℕ → Lexer → Outcome
    unfolding match_second expect_second carriage_return handle_new_line skip_comment scan_string
        skip_whitespace scan_other add_token
    scan_token c lx =
        if c == b'+'
        then ok (add plus lx)
        else if c == b'-'
        then ok (match_second b'>' rarrow minus lx)
        else if c == b'*'
        then ok (add mult lx)
        else if c == b'/'
        then ok (expect_second b'/' div lx)
        else if c == b'%'
        then ok (add modulo lx)
        else if c == b'='
        then ok (match_second b'=' equal assign lx)
        else if c == b'!'
        then ok (expect_second b'=' nequal lx)
        else if c == b'<'
        then ok (match_second b'=' less_eq less lx)
        else if c == b'>'
        then ok (match_second b'=' great_eq great lx)
        else if c == b'.'
        then ok (add dot lx)
        else if c == b'['
        then ok (add open_brack lx)
        else if c == b']'
        then ok (add close_brack lx)
        else if c == b','
        then ok (add comma lx)
        else if c == b':'
        then ok (add colon lx)
        else if c == b'('
        then ok (add open_paren lx)
        else if c == b')'
        then ok (add close_paren lx)
        else if c == b'\r'
        then carriage_return lx
        else if c == b'\n'
        then handle_new_line buffer lx
        else if c == b'#'
        then skip_comment buffer lx
        else if c == b'"'
        then scan_string cs buffer lx
        else if c == b'\t' || c == b' '
        then skip_whitespace buffer lx
        else scan_other c lx

    -- The loop, a unit of fuel for a turn; it ends at a zero, which ends the buffer or stands in it.
    unfoldable pub lex_loop : ℕ → Lexer → Outcome
    unfolding peek_char advance_char scan_token is_at_end
    lex_loop zero lx = out_of_fuel
    lex_loop (suc f) lx = elim (peek_char buffer lx) [
      | none ↦ undefined
      | some c ↦
          if c == 0
          then ok (advance_char buffer lx)
          else elim (scan_token c (advance_char buffer lx)) [
            | ok lx' ↦ elim (is_at_end buffer lx') [ true ↦ ok lx' | false ↦ lex_loop f lx' ]
            | undefined ↦ undefined
            | out_of_fuel ↦ out_of_fuel
          ]
    ]

    -- The last loop closes the blocks that are still open: it dedents to level 0.
    unfoldable pub close_blocks : Outcome → Outcome
    unfolding dedent_loop
    close_blocks (ok lx) = dedent_loop buffer 0 lx.indentation_levels lx
    close_blocks r = r

    unfoldable pub lex_from : Outcome → Outcome
    unfolding lex_loop
    lex_from (ok lx) = lex_loop (enough buffer) lx
    lex_from r = r

    unfoldable pub lex : DiagnosticsManager → Outcome
    unfolding handle_indentation lex_from close_blocks
    lex ds = close_blocks (lex_from (handle_indentation buffer (new_lexer ds)))
