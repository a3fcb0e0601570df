-- ===== src/Parser/Expressions.antt =====
-- `parseExpression` and `parsePrefix` of `src/parser/Parser.cpp`. What a call leaves of the tokens is
-- no structural part of them, so each call costs a unit of fuel.
use choco_c.Prelude.{
  ℕ, zero, suc, not, ◌||◌, ◌&&◌, [], ◌∷◌, ltb, Option, none, some, pos, negsuc, if◌then◌else◌,
  codes,
}
use choco_c.TokenType.{
  type_eq, and, or, minus, not_kw, string, id_string, false_kw, true_kw, int_lit, none_kw, id,
  open_paren, close_paren,
}
use choco_c.Token.{Token, is_bin_op}
use choco_c.Diagnostics.{DiagId, report, at, with_args}
use choco_c.Ast.{
  Expression, literal, identifier, unary, binary, make_grouping, is_constant_expression,
  get_location,
}
use choco_c.Parser.Power.{get_infix_power, get_prefix_power}
use choco_c.Parser.Monad.{
  Parser, out_of_fuel, pure, fail, ◌>>=◌, ◌>>◌, run, attempt, look, deref, step, expect, diagnose,
  expected,
}

-- A report about an operand that is no constant expression.
abbrev reject_operand : Expression → Parser Expression
reject_operand e = do
  diagnose (expected (codes "a constant expression") (get_location e).start)
  fail

-- The node for an operator and its operands, which are constant expressions unless the operator is
-- `and` or `or`: the second half of the loop's body.
unfoldable pub combine : Expression → Token → Expression → Parser Expression
combine lhs op rhs =
    if type_eq op.type and || type_eq op.type or
    then pure (binary lhs op rhs)
    else if not (is_constant_expression lhs)
    then reject_operand lhs
    else if not (is_constant_expression rhs)
    then reject_operand rhs
    else pure (binary lhs op rhs)

-- The end of the branch for a parenthesis, after the expression inside.
unfoldable pub close_grouping : Token → Option Token → Option Expression → Parser Expression
close_grouping token left_paren expr = do
  closed ← expect (close_paren ∷ [])
  if closed
      then (do
        right_paren ← look (negsuc 0)
        l ← deref left_paren
        r ← deref right_paren
        pure (make_grouping l expr r))
      else (do diagnose (at (report DiagId.unclosed_parenthesis) token.location.start); fail)

abbrev missing_operand : Token → Parser Expression
missing_operand op = do
  diagnose (with_args (at (report DiagId.missing_unary_operand) op.location.start) (op.text ∷ []))
  fail

-- The end of the branch for a prefix operator, after its operand.
unfoldable pub close_unary : Token → Option Expression → Parser Expression
close_unary op none = missing_operand op
close_unary op (some rhs) =
    if type_eq op.type minus && not (is_constant_expression rhs)
    then missing_operand op
    else pure (unary op rhs)

unfoldable mutual
  pub parse_expression : ℕ → ℕ → Parser Expression
  parse_expression zero min_power s = out_of_fuel
  parse_expression (suc f) min_power s =
      run s do lhs ← parse_prefix f; expression_loop f min_power lhs

  -- The `while` loop of `parseExpression`.
  pub expression_loop : ℕ → ℕ → Expression → Parser Expression
  expression_loop zero min_power lhs s = out_of_fuel
  expression_loop (suc f) min_power lhs s = run s do
    current ← look (pos 0)
    elim current [
      | none ↦ pure lhs
      | some token ↦ if not (is_bin_op token) then pure lhs else elim (get_infix_power token.type) [
        | none ↦ pure lhs
        | some (left, right) ↦ if ltb left min_power then pure lhs else (do
          step
          rhs ← parse_expression f right
          lhs' ← combine lhs token rhs
          expression_loop f min_power lhs')
      ]
    ]

  pub parse_prefix : ℕ → Parser Expression
  parse_prefix zero s = out_of_fuel
  parse_prefix (suc f) s = run s do
    current ← look (pos 0)
    elim current [
      | none ↦ fail
      | some token ↦ do
        is_literal ← expect (string ∷ id_string ∷ false_kw ∷ true_kw ∷ int_lit ∷ none_kw ∷ [])
        if is_literal then pure (literal token) else (do
          is_identifier ← expect (id ∷ [])
          if is_identifier then pure (identifier token) else (do
            is_group ← expect (open_paren ∷ [])
            if is_group
                then (do
                  left_paren ← look (negsuc 0)
                  expr ← attempt (parse_expression f 0)
                  close_grouping token left_paren expr)
                else (do
                  is_unary ← expect (not_kw ∷ minus ∷ [])
                  if is_unary
                      then (do
                        behind ← look (negsuc 0)
                        op ← deref behind
                        power ← deref (get_prefix_power op.type)
                        rhs ← attempt (parse_expression f power.1)
                        close_unary op rhs)
                      else fail)))
    ]
