-- ===== src/Parser/Statements.antt =====
-- The other methods of `src/parser/Parser.cpp`: types, variable definitions, statements, programs.
use choco_c.Prelude.{
  ℕ, zero, suc, ◌+◌, ◌*◌, ◌%◌, ◌^◌, Bool, true, false, ◌&&◌, List, [], ◌∷◌, ◌++◌, none, some, pos,
  negsuc, length, codes, if◌then◌else◌,
}
use choco_c.TokenType.{
  TokenType, newline, id, id_string, string, false_kw, true_kw, int_lit, none_kw, open_brack,
  close_brack, colon, assign, if_kw, while, for, pass, return, not_kw, open_paren, minus,
}
use choco_c.Token.{Token, opt_type_eq}
use choco_c.TokenStream.{peek}
use choco_c.Diagnostics.{DiagId, Diagnostic, report, at}
use choco_c.Ast.{
  Expression, identifier, AstType, TypedVariable, VariableDefinition, AssignmentStatement,
  variable_definition, statement, Program,
}
use choco_c.Parser.Monad.{
  State, Parser, ok, out_of_fuel, pure, fail, ◌>>=◌, run, look, deref, matches, expect, reject,
  expected,
}
use choco_c.Parser.Expressions.{parse_expression}

abbrev expected_new_line : ℕ → Diagnostic
expected_new_line l = at (report DiagId.expected_new_line) l

-- `*m_token_stream.peek(-1)`, the token just read.
abbrev last_token : Parser Token
last_token = do behind ← look (negsuc 0); deref behind

-- Each bracket of the type costs a unit of fuel.
unfoldable pub parse_type : ℕ → Parser AstType
parse_type zero s = out_of_fuel
parse_type (suc f) s = run s do
  is_name ← expect (id ∷ id_string ∷ [])
  if is_name then (do t ← last_token; pure (record { base_type = t; dimension = 0 })) else (do
    is_list ← expect (open_brack ∷ [])
    if is_list
        then (do
          ctx ← parse_type f
          closed ← expect (close_brack ∷ [])
          if closed
              then pure
                  (record { base_type = ctx.base_type; dimension = (ctx.dimension + 1) % 2 ^ 32 })
              else reject (pos 0) (expected (codes "]")))
        else reject (pos 0) (expected (codes "a type")))

unfoldable pub parse_typed_variable : ℕ → Parser TypedVariable
parse_typed_variable f = do
  is_name ← expect (id ∷ [])
  if is_name
      then (do
        t ← last_token
        is_typed ← expect (colon ∷ [])
        if is_typed
            then (do ctx ← parse_type f; pure (record { name = t; type = ctx }))
            else reject (pos 0) (expected (codes ":")))
      else reject (pos 0) (expected (codes "an identifier"))

unfoldable pub parse_literal : Parser Token
parse_literal = do
  is_literal ← expect (none_kw ∷ false_kw ∷ true_kw ∷ int_lit ∷ id_string ∷ string ∷ [])
  if is_literal then last_token else reject (pos 0) (expected (codes "a literal value"))

unfoldable pub parse_variable_definition : ℕ → Parser VariableDefinition
parse_variable_definition f = do
  typed ← parse_typed_variable f
  is_assigned ← expect (assign ∷ [])
  if is_assigned
      then (do
        value ← parse_literal
        ended ← expect (newline ∷ [])
        if ended
            then pure (record { name = typed.name; type = typed.type; value = value })
            else reject (negsuc 0) expected_new_line)
      else reject (pos 0) (expected (codes "="))

unfoldable pub parse_target : Parser Expression
parse_target = do
  is_name ← expect (id ∷ [])
  if is_name
      then (do t ← last_token; pure (identifier t))
      else reject (negsuc 0) (expected (codes "an identifier"))

-- `match(TokenType::ID) && m_token_stream.peek(1) == type`.
unfoldable pub name_before : TokenType → State → Bool
name_before type s = matches (id ∷ []) s && opt_type_eq (peek s.token_stream (pos 1)) type

-- The `while` loop of `parseAssignmentStatement`, with the targets found so far.
unfoldable pub targets_loop : ℕ → List Expression → Parser (List Expression)
targets_loop zero targets s = out_of_fuel
targets_loop (suc f) targets s = elim (name_before assign s) [
  | false ↦ ok targets s
  | true ↦ run s do
    target ← parse_target
    is_assigned ← expect (assign ∷ [])
    if is_assigned
        then targets_loop f (targets ++ target ∷ [])
        else reject (pos 0) (expected (codes "="))
]

unfoldable pub parse_assignment_statement : ℕ → Parser AssignmentStatement
parse_assignment_statement f = do
  targets ← targets_loop f []
  expr ← parse_expression f 0
  pure (record { targets = targets; expr = expr })

unfoldable pub parse_simple_statement : ℕ → Parser AssignmentStatement
parse_simple_statement f s = run s (
    if opt_type_eq (peek s.token_stream (pos 1)) assign then parse_assignment_statement f else fail)

-- The types of token with which a simple statement begins.
abbrev pub simple_starts : List TokenType
simple_starts =
    pass ∷ return ∷ id ∷ not_kw ∷ true_kw ∷ false_kw ∷ none_kw ∷ int_lit ∷ id_string ∷ string
    ∷ open_brack ∷ open_paren ∷ minus ∷ []

unfoldable pub parse_statement : ℕ → Parser AssignmentStatement
parse_statement f s = run s (
    if matches (if_kw ∷ []) s
    then fail
    else if matches (while ∷ []) s
    then fail
    else if matches (for ∷ []) s
    then fail
    else if matches simple_starts s
    then (do
      simple ← parse_simple_statement f
      ended ← expect (newline ∷ [])
      if ended then pure simple else reject (negsuc 0) expected_new_line)
    else reject (pos 0) (expected (codes "a statement")))

-- The first `while` loop of `parseProgram`, with the children found so far.
unfoldable pub definitions_loop : ℕ → Program → Parser Program
definitions_loop zero children s = out_of_fuel
definitions_loop (suc f) children s = elim (peek s.token_stream (pos 0)) [
  | none ↦ ok children s
  | some t ↦ elim (name_before colon s) [
    | false ↦ ok children s
    | true ↦ run s do
      definition ← parse_variable_definition f
      definitions_loop f (children ++ variable_definition definition ∷ [])
  ]
]

-- The second one.
unfoldable pub statements_loop : ℕ → Program → Parser Program
statements_loop zero children s = out_of_fuel
statements_loop (suc f) children s = elim (peek s.token_stream (pos 0)) [
  | none ↦ ok children s
  | some t ↦
      run s do simple ← parse_statement f; statements_loop f (children ++ statement simple ∷ [])
]

unfoldable pub parse_program : ℕ → Parser Program
parse_program f s = elim (peek s.token_stream (pos 0)) [
  | none ↦ ok [] s
  | some t ↦ run s do children ← definitions_loop f []; statements_loop f children
]

-- `parse`, with the fuel that its input needs.
unfoldable pub parse : Parser Program
parse s = parse_program (2 * length s.token_stream.tokens + 4) s
