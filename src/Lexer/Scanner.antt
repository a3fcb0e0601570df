-- ===== src/Lexer/Scanner.antt =====
-- The state of `Lexer` and the methods that read and cut the buffer.
use choco_c.Prelude.{
  ℕ, zero, suc, ◌+◌, ◌%◌, Bool, true, false, ◌||◌, List, [], ◌∷◌, ◌++◌, ◌==◌, ltb, Option, none,
  some, Text, length, get_or, drop, take, if◌then◌else◌,
}
use choco_c.TokenType.{TokenType}
use choco_c.Token.{Token, TokenValue, Range}
use choco_c.TokenStream.{size_mod}
use choco_c.Diagnostics.{DiagnosticsManager}

-- The pointers are offsets into the buffer. The top of `m_indentation_levels` is the head of the list.
pub record Lexer : Type 0 where
  pub indentation_levels : List ℕ
  pub tokens : List Token
  pub diag_manager : DiagnosticsManager
  pub lexeme_start : ℕ
  pub lexeme_length : ℕ
  pub is_blank_line : Bool

-- The constructor.
abbrev pub new_lexer : DiagnosticsManager → Lexer
new_lexer ds = record {
  indentation_levels = 0 ∷ [];
  tokens = [];
  diag_manager = ds;
  lexeme_start = 0;
  lexeme_length = 0;
  is_blank_line = true;
}

-- Whether a character is one of several: `((current_char == chs) || ...)`.
unfoldable pub is_among : ℕ → List ℕ → Bool
is_among c [] = false
is_among c (d ∷ ds) = c == d || is_among c ds

-- The character at an offset; `llvm::MemoryBuffer` ends the buffer with a zero.
abbrev pub char_at : Text → ℕ → ℕ
char_at buffer i = get_or buffer i 0

module _ (buffer : Text) where
  -- `peek()`.
  unfoldable pub peek_char : Lexer → Option ℕ
  peek_char lx =
      let i = lx.lexeme_start + lx.lexeme_length in
      if ltb (length buffer) i then none else some (char_at buffer i)

  -- `advance()`, its result unused.
  unfoldable pub advance_char : Lexer → Lexer
  unfolding peek_char
  advance_char lx = elim (peek_char lx) [
    | none ↦ lx
    | some c ↦ record lx { lexeme_length = (lx.lexeme_length + 1) % size_mod }
  ]

  -- `match(chs...)`.
  unfoldable pub matches_char : List ℕ → Lexer → Bool
  unfolding peek_char is_among
  matches_char chs lx = elim (peek_char lx) [ none ↦ false | some c ↦ is_among c chs ]

  -- `getCurrentLexemeLocation`.
  abbrev pub lexeme_location : Lexer → Range
  lexeme_location lx = record { start = lx.lexeme_start; end = lx.lexeme_start + lx.lexeme_length }

  -- `getCurrentLexeme`.
  abbrev pub lexeme : Lexer → Text
  lexeme lx = take lx.lexeme_length (drop lx.lexeme_start (buffer ++ 0 ∷ []))

  -- `m_lexeme_start += m_lexeme_length; m_lexeme_length = 0;`.
  abbrev pub next_lexeme : Lexer → Lexer
  next_lexeme lx = record lx {
    lexeme_start = lx.lexeme_start + lx.lexeme_length;
    lexeme_length = 0;
  }

  -- `addToken`.
  unfoldable pub add_token : TokenType → TokenValue → Lexer → Lexer
  add_token type value lx =
      let t : Token = record {
        value = value;
        type = type;
        location = lexeme_location lx;
        text = lexeme lx;
      } in
      next_lexeme (record lx { tokens = lx.tokens ++ t ∷ [] })

  -- The loops `while (match(chs...)) advance();`, a unit of fuel for a turn.
  unfoldable pub skip_chars : ℕ → List ℕ → Lexer → Option Lexer
  unfolding matches_char advance_char
  skip_chars zero chs lx = none
  skip_chars (suc f) chs lx =
      let rest = skip_chars f chs (advance_char lx) in if matches_char chs lx then rest else some lx
