-- ===== src/Lexer/Words.antt =====
-- `skipComment`, `scanNumber` and `scanIdOrKeyword` of `src/lexer/Lexer.cpp`.
use choco_c.Prelude.{
  ℤ, ℕ, zero, suc, Bool, true, false, ◌||◌, ◌&&◌, List, [], ◌∷◌, ◌==◌, ltb, Option, none, some,
  Text, length, if◌then◌else◌,
}
use choco_c.TokenType.{TokenType, int_lit, invalid, id, true_kw, false_kw, keywords, lookup}
use choco_c.Token.{monostate, int, bool, str}
use choco_c.Diagnostics.{DiagId, Diagnostic, report, at, emit}
use choco_c.Lexer.Characters.{Characters}
use choco_c.Lexer.Scanner.{
  Lexer, peek_char, advance_char, matches_char, add_token, next_lexeme, lexeme,
}
use choco_c.Lexer.Lines.{Outcome, ok, undefined, out_of_fuel, enough}

-- A statement `m_diag_manager.report(…)…;`.
abbrev pub diagnose : Diagnostic → Lexer → Lexer
diagnose d lx = record lx { diag_manager = emit lx.diag_manager d }

-- A report at the start of the lexeme.
abbrev pub diagnose_start : DiagId → Lexer → Lexer
diagnose_start i lx = diagnose (at (report i) lx.lexeme_start) lx

-- `StringRef::starts_with`, of one character.
abbrev pub starts_with : Text → ℕ → Bool
starts_with [] c = false
starts_with (x ∷ xs) c = x == c

-- `isAlnum(c) || c == '_'`.
abbrev pub in_word : Characters → ℕ → Bool
in_word cs c = cs.is_alnum c || c == b'_'

module _ (buffer : Text) where
  -- The loop `while (!match(chs...)) advance();`.
  unfoldable pub skip_until : ℕ → List ℕ → Lexer → Outcome
  unfolding matches_char advance_char
  skip_until zero chs lx = out_of_fuel
  skip_until (suc f) chs lx =
      let rest = skip_until f chs (advance_char buffer lx) in
      if matches_char buffer chs lx then ok lx else rest

  unfoldable pub skip_comment : Lexer → Outcome
  unfolding skip_until
  skip_comment lx = elim (skip_until (enough buffer) (b'\r' ∷ b'\n' ∷ 0 ∷ []) lx) [
    | ok lx' ↦ ok (next_lexeme buffer lx')
    | undefined ↦ undefined
    | out_of_fuel ↦ out_of_fuel
  ]

  -- The loops `while (p(*peek())) advance();`.
  unfoldable pub skip_while : (ℕ → Bool) → ℕ → Lexer → Outcome
  unfolding peek_char advance_char
  skip_while p zero lx = out_of_fuel
  skip_while p (suc f) lx = elim (peek_char buffer lx) [
    | none ↦ undefined
    | some c ↦ let rest = skip_while p f (advance_char buffer lx) in if p c then rest else ok lx
  ]

  -- The rest of `scanNumber`, from whether there are leading zeros and the value.
  unfoldable pub add_number : Bool → Option ℤ → Lexer → Lexer
  unfolding add_token
  add_number zeros none lx =
      add_token buffer invalid monostate (diagnose_start DiagId.integer_out_of_range lx)
  add_number true (some n) lx = add_token buffer invalid monostate lx
  add_number false (some n) lx = add_token buffer int_lit (int n) lx

  -- The `switch` of `scanIdOrKeyword`.
  unfoldable pub add_word : TokenType → Text → Lexer → Lexer
  unfolding add_token
  add_word true_kw value lx = add_token buffer true_kw (bool true) lx
  add_word false_kw value lx = add_token buffer false_kw (bool false) lx
  add_word id value lx = add_token buffer id (str value) lx
  add_word type value lx = add_token buffer type monostate lx

  module _ (cs : Characters) where
    -- `scanNumber`, at the number's end.
    unfoldable pub end_number : Lexer → Lexer
    unfolding add_number
    end_number lx =
        let value = lexeme buffer lx in
        let zeros = starts_with value b'0' && ltb 1 (length value) in
        add_number zeros (cs.to_integer value)
          (if zeros then diagnose_start DiagId.leading_zeros lx else lx)

    unfoldable pub scan_number : Lexer → Outcome
    unfolding skip_while end_number
    scan_number lx = elim (skip_while cs.is_digit (enough buffer) lx) [
      | ok lx' ↦ ok (end_number lx')
      | undefined ↦ undefined
      | out_of_fuel ↦ out_of_fuel
    ]

  -- `scanIdOrKeyword`, at the word's end.
  unfoldable pub end_word : Lexer → Lexer
  unfolding lookup add_word
  end_word lx =
      let value = lexeme buffer lx in
      elim (lookup value keywords) [
        | none ↦ add_word id value lx
        | some type ↦ add_word type value lx
      ]

  unfoldable pub scan_id_or_keyword : Characters → Lexer → Outcome
  unfolding skip_while end_word
  scan_id_or_keyword cs lx = elim (skip_while (in_word cs) (enough buffer) lx) [
    | ok lx' ↦ ok (end_word lx')
    | undefined ↦ undefined
    | out_of_fuel ↦ out_of_fuel
  ]
