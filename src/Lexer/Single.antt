-- ===== src/Lexer/Single.antt =====
-- `Lexer::lex` of `src/lexer/Lexer.cpp` on a buffer of one lexeme.
use choco_c.Prelude.{
  ℕ, zero, some, suc, ◌+◌, ◌^◌, ◌<◌, ◌≡◌, refl, true, false, List, [], ◌∷◌, Text, arith, length,
  ◌==◌,
}
use choco_c.TokenType.{TokenType}
use choco_c.Token.{TokenValue}
use choco_c.Diagnostics.{DiagnosticsManager}
use choco_c.Lexer.Characters.{Characters}
use choco_c.Lexer.Scanner.{
  Lexer, new_lexer, peek_char, matches_char, is_among, skip_chars, add_token,
}
use choco_c.Lexer.Lines.{ok, enough, handle_indentation, handle_level, dedent_loop}
use choco_c.Lexer.Strings.{is_at_end}
use choco_c.Lexer.Lex.{scan_token, lex_loop, lex_from, close_blocks, lex}
use choco_c.Lexer.Moves.{one_on, peek_char-some}

-- The lexer on its first lexeme, that many characters into it.
abbrev pub reading : DiagnosticsManager → ℕ → Lexer
reading ds n = record {
  indentation_levels = 0 ∷ [];
  tokens = [];
  diag_manager = ds;
  lexeme_start = 0;
  lexeme_length = n;
  is_blank_line = false;
}

-- A first character that is no match.
starts :
    (c : ℕ) (rest : Text) (chs : List ℕ) (lx : Lexer)
    → lx.lexeme_start + lx.lexeme_length ≡ 0
    → is_among c chs ≡ false
    → matches_char (c ∷ rest) chs lx ≡ false
unfolding matches_char peek_char
starts c rest chs lx p e = rw (matches_char, peek_char, p) (ground arith)

module _ (c : ℕ) (rest : Text) where
  stop :
      (f : ℕ) (chs : List ℕ) (lx : Lexer)
      → 0 < f
      → matches_char (c ∷ rest) chs lx ≡ false
      → skip_chars (c ∷ rest) f chs lx ≡ some lx
  unfolding skip_chars
  stop zero chs lx h e = absurd (omega arith)
  stop (suc f) chs lx h e = rw e refl

  let_in :
      (ds : DiagnosticsManager)
      → is_among c (b' ' ∷ b'\t' ∷ []) ≡ false
      → is_among c (b'#' ∷ b'\r' ∷ b'\n' ∷ []) ≡ false
      → handle_indentation (c ∷ rest) (new_lexer ds) ≡ ok (reading ds 0)
  unfolding handle_indentation handle_level dedent_loop skip_chars
  let_in ds e f =
      rw
        (
          handle_indentation,
          stop (enough (c ∷ rest)) (b' ' ∷ b'\t' ∷ []) (new_lexer ds) (omega arith)
              (starts c rest (b' ' ∷ b'\t' ∷ []) (new_lexer ds) refl e),
          starts c rest (b'#' ∷ b'\r' ∷ b'\n' ∷ []) (new_lexer ds) refl f,
        )
        refl

  at_last :
      (type : TokenType) (value : TokenValue) (ds : DiagnosticsManager)
      → is_at_end (c ∷ rest) (add_token (c ∷ rest) type value (reading ds (length (c ∷ rest))))
        ≡ true
  unfolding is_at_end add_token
  at_last type value ds = ground arith

  turn :
      (cs : Characters) (f : ℕ) (ds : DiagnosticsManager) (type : TokenType) (value : TokenValue)
      → length (c ∷ rest) < 2 ^ 63
      → 0 < f
      → c == 0 ≡ false
      → scan_token (c ∷ rest) cs c (reading ds 1)
        ≡ ok (add_token (c ∷ rest) type value (reading ds (length (c ∷ rest))))
      → lex_loop (c ∷ rest) cs f (reading ds 0)
        ≡ ok (add_token (c ∷ rest) type value (reading ds (length (c ∷ rest))))
  unfolding lex_loop
  turn cs zero ds type value h p z e = absurd (omega arith)
  turn cs (suc f) ds type value h p z e =
      let last : is_at_end (c ∷ rest)
            (add_token (c ∷ rest) type value (reading ds (length (c ∷ rest))))
          ≡ true =
        at_last type value ds in
      rw
        (
          lex_loop,
          peek_char-some (c ∷ rest) (reading ds 0) (omega arith),
          one_on (c ∷ rest) (reading ds 0) h (omega arith),
          z,
          e,
          last,
        )
        refl

  -- Where the `switch` takes the whole buffer for one token, `lex` has that token alone.
  pub lex-one :
      (cs : Characters) (ds : DiagnosticsManager) (type : TokenType) (value : TokenValue)
      → length (c ∷ rest) < 2 ^ 63
      → is_among c (b' ' ∷ b'\t' ∷ []) ≡ false
      → is_among c (b'#' ∷ b'\r' ∷ b'\n' ∷ []) ≡ false
      → c == 0 ≡ false
      → scan_token (c ∷ rest) cs c (reading ds 1)
        ≡ ok (add_token (c ∷ rest) type value (reading ds (length (c ∷ rest))))
      → lex (c ∷ rest) cs ds ≡ ok (add_token (c ∷ rest) type value (reading ds (length (c ∷ rest))))
  unfolding lex lex_from close_blocks dedent_loop add_token
  lex-one cs ds type value h e f z s =
      rw
        (
          lex,
          let_in ds e f,
          lex_from,
          turn cs (enough (c ∷ rest)) ds type value h (omega arith) z s,
        )
        refl
