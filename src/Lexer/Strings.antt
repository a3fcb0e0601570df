-- ===== src/Lexer/Strings.antt =====
-- `scanString` of `src/lexer/Lexer.cpp`.
use choco_c.Prelude.{
  ℕ, zero, suc, ◌+◌, Bool, true, false, not, ◌||◌, ◌&&◌, [], ◌∷◌, ◌++◌, ◌==◌, leb, Option, none,
  some, Text, length, if◌then◌else◌,
}
use choco_c.TokenType.{TokenType, type_eq, invalid, string, id_string}
use choco_c.Token.{Range, monostate, str}
use choco_c.Diagnostics.{DiagId, report, at, with_fixit}
use choco_c.Lexer.Characters.{Characters}
use choco_c.Lexer.Scanner.{
  Lexer, peek_char, advance_char, matches_char, add_token, lexeme, lexeme_location,
}
use choco_c.Lexer.Lines.{Outcome, ok, undefined, out_of_fuel, enough}
use choco_c.Lexer.Words.{diagnose}

-- `token_type` and `value`, with the lexer, at the end of the loop.
pub data StringScan : Type 0 where
  scanned : TokenType → Text → Lexer → StringScan
  crashed exhausted : StringScan

-- The character that a backslash and the given one stand for.
unfoldable pub unescape : ℕ → Option ℕ
unescape c =
    if c == b'\\'
    then some b'\\'
    else if c == b'n'
    then some b'\n'
    else if c == b't'
    then some b'\t'
    else if c == b'"'
    then some b'"'
    else none

-- The `switch` after a backslash, with the type and the value so far.
unfoldable pub scan_escape : TokenType → Text → ℕ → Lexer → TokenType × Text × Lexer
unfolding unescape
scan_escape type value c lx = elim (unescape c) [
  | some d ↦ (type, value ++ d ∷ [], lx)
  | none ↦ (
    invalid,
    value,
    diagnose (at (report DiagId.invalid_escape_character) (lx.lexeme_start + lx.lexeme_length)) lx,
  )
]

module _ (buffer : Text) where
  unfoldable pub is_at_end : Lexer → Bool
  is_at_end lx = leb (length buffer) (lx.lexeme_start + lx.lexeme_length)

  unfoldable pub string_ends : Lexer → Bool
  unfolding matches_char is_at_end
  string_ends lx = is_at_end lx || matches_char buffer (b'"' ∷ 0 ∷ b'\r' ∷ b'\n' ∷ []) lx

  -- The fix-it for a string that does not end.
  abbrev pub missing_quote : Lexer → Range × Text
  missing_quote lx = (lexeme_location buffer lx, lexeme buffer lx ++ b'"' ∷ [])

  -- The two ends of `scanString`: the token is added after the closing quote.
  unfoldable pub add_string : TokenType → Text → Lexer → Lexer
  unfolding add_token advance_char type_eq
  add_string type value lx =
      let closed = advance_char buffer lx in
      if type_eq type invalid
      then add_token buffer type monostate closed
      else add_token buffer type (str value) closed

  unfoldable pub end_string : TokenType → Text → Lexer → Lexer
  unfolding matches_char add_string
  end_string type value lx =
      if matches_char buffer (b'"' ∷ []) lx
      then add_string type value lx
      else add_string invalid value (
          diagnose
            (with_fixit (at (report DiagId.unterminated_string) lx.lexeme_start) (missing_quote lx))
            lx)

-- The type of a string that goes on with the given character.
unfoldable pub narrow : Characters → TokenType → ℕ → TokenType
unfolding type_eq
narrow cs type c =
    if not (type_eq type invalid) && not (cs.is_alnum c) && not (c == b'_') then string else type

module _ (cs : Characters) (buffer : Text) where
  -- The body of the loop up to its last `advance()`, at the current character.
  unfoldable pub scan_char : TokenType → Text → ℕ → Lexer → Option (TokenType × Text × Lexer)
  unfolding narrow scan_escape matches_char peek_char advance_char
  scan_char type value c lx =
      let escaped = advance_char buffer lx in
      if matches_char buffer (b'\\' ∷ []) lx
      then (elim (peek_char buffer escaped) [
        | none ↦ none
        | some d ↦ some (scan_escape (narrow cs type c) value d escaped)
      ])
      else some (narrow cs type c, value ++ c ∷ [], lx)

  -- The `while` loop.
  unfoldable pub string_loop : ℕ → TokenType → Text → Lexer → StringScan
  unfolding string_ends peek_char scan_char advance_char
  string_loop zero type value lx = exhausted
  string_loop (suc f) type value lx = elim (string_ends buffer lx) [
    | true ↦ scanned type value lx
    | false ↦ elim (peek_char buffer lx) [
      | none ↦ crashed
      | some c ↦ elim (scan_char type value c lx) [
        | none ↦ crashed
        | some (type', value', lx') ↦ string_loop f type' value' (advance_char buffer lx')
      ]
    ]
  ]

  unfoldable pub scan_string : Lexer → Outcome
  unfolding peek_char string_loop end_string
  scan_string lx = elim (peek_char buffer lx) [
    | none ↦ undefined
    | some c ↦
        elim (string_loop (enough buffer) (if cs.is_digit c then string else id_string) [] lx) [
          | scanned type value lx' ↦ ok (end_string buffer type value lx')
          | crashed ↦ undefined
          | exhausted ↦ out_of_fuel
        ]
  ]
