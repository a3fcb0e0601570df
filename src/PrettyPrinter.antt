-- ===== src/PrettyPrinter.antt =====
-- `include/ast/PrettyPrinter.h`, `src/ast/PrettyPrinter.cpp`. Each function appends to the text printed so far, the
-- `std::ostringstream`; it has no value where a null pointer is dereferenced or `std::unreachable` is reached.
pub mod Printable
pub mod Escaped
pub mod StringTurns
pub mod Digits
pub mod Tokens
pub mod ReadBack
use choco_c.Prelude.{
  ℕ, zero, suc, ◌+◌, ◌/◌, ◌%◌, Bool, true, false, List, [], ◌∷◌, ◌++◌, ◌==◌, ltb, Option, none,
  some, Text, codes, ℤ, pos, negsuc, if◌then◌else◌,
}
use choco_c.TokenType.{
  TokenType, plus, minus, mult, div, modulo, equal, nequal, less, great, less_eq, great_eq, and, or,
  not_kw,
}
use choco_c.Token.{Token, TokenValue, monostate, bool, int, str}
use choco_c.Ast.{
  Expression, literal, identifier, grouping, grouping_null, unary, binary, get_text,
  VariableDefinition, AssignmentStatement, Child, variable_definition, statement, Program,
}

infixl 1 ◌>>=◌
abbrev pub ◌>>=◌ : {A B : Type 0} → Option A → (A → Option B) → Option B
none >>= f = none
some a >>= f = f a

-- The `switch` over a character of a string.
unfoldable pub escape : ℕ → Text
escape c =
    if c == b'\t'
    then codes "\\t"
    else if c == b'\n'
    then codes "\\n"
    else if c == b'\\'
    then codes "\\\\"
    else if c == b'"'
    then codes "\\\""
    else c ∷ []

unfoldable pub print_chars : Text → Text → Text
unfolding escape
print_chars [] out = out
print_chars (c ∷ s) out = print_chars s (out ++ escape c)

-- `out << value` of a number: its decimal digits, a unit of fuel for each.
unfoldable pub digits : ℕ → ℕ → Text
digits zero n = []
digits (suc f) n =
    let before = digits f (n / 10) in
    if ltb n 10 then (b'0' + n) ∷ [] else before ++ (b'0' + n % 10) ∷ []

unfoldable pub decimal : ℤ → Text
unfolding digits
decimal (pos n) = digits (n + 1) n
decimal (negsuc n) = b'-' ∷ digits (n + 2) (n + 1)

-- `visit(const Literal&)`.
unfoldable pub print_value : TokenValue → Text → Text
unfolding print_chars decimal
print_value (bool b) out = out ++ (if b then codes "True" else codes "False")
print_value (int n) out = out ++ decimal n
print_value (str s) out = print_chars s (out ++ b'"' ∷ []) ++ b'"' ∷ []
print_value monostate out = out

-- The `switch` of `visit(const BinaryExpression&)`.
unfoldable pub binary_text : TokenType → Option Text
binary_text plus = some (codes " + ")
binary_text minus = some (codes " - ")
binary_text mult = some (codes " * ")
binary_text div = some (codes " // ")
binary_text modulo = some (codes " % ")
binary_text equal = some (codes " == ")
binary_text nequal = some (codes " != ")
binary_text less = some (codes " < ")
binary_text great = some (codes " > ")
binary_text less_eq = some (codes " <= ")
binary_text great_eq = some (codes " >= ")
binary_text and = some (codes " and ")
binary_text or = some (codes " or ")
binary_text _ = none

-- The `switch` of `visit(const UnaryExpression&)`.
unfoldable pub unary_text : TokenType → Option Text
unary_text minus = some (codes "-")
unary_text not_kw = some (codes "not ")
unary_text _ = none

-- The visit of an expression; a `GroupingExpression` has the visit of `ASTVisitor`.
unfoldable pub print_expression : Expression → Text → Option Text
unfolding print_value binary_text unary_text
print_expression (literal t) out = some (print_value t.value out)
print_expression (identifier t) out = some (out ++ t.text)
print_expression (grouping e r) out = print_expression e out
print_expression (grouping_null r) out = none
print_expression (unary op e) out = do
  s ← unary_text op.type
  out' ← print_expression e ((out ++ b'(' ∷ []) ++ s)
  some (out' ++ b')' ∷ [])
print_expression (binary l op r) out = do
  left ← print_expression l (out ++ b'(' ∷ [])
  s ← binary_text op.type
  right ← print_expression r (left ++ s)
  some (right ++ b')' ∷ [])

-- `visit(const VariableDefinition&)`.
unfoldable pub print_definition : VariableDefinition → Text → Text
unfolding print_value get_text
print_definition d out =
    print_value d.value.value
      ((((out ++ d.name.text) ++ codes ": ") ++ get_text d.type) ++ codes " = ")
    ++ b'\n' ∷ []

unfoldable pub print_targets : List Expression → Text → Option Text
unfolding print_expression
print_targets [] out = some out
print_targets (t ∷ ts) out = do
  out' ← print_expression t out
  print_targets ts (out' ++ codes " = ")

-- `visit(const AssignmentStatement&)`.
unfoldable pub print_assignment : AssignmentStatement → Text → Option Text
unfolding print_targets print_expression
print_assignment a out = do
  lhs ← print_targets a.targets out
  rhs ← print_expression a.expr lhs
  some (rhs ++ b'\n' ∷ [])

unfoldable pub print_child : Child → Text → Option Text
unfolding print_definition print_assignment
print_child (variable_definition d) out = some (print_definition d out)
print_child (statement a) out = print_assignment a out

-- `visit(const Program&)`.
unfoldable pub print_program : Program → Text → Option Text
unfolding print_child
print_program [] out = some out
print_program (c ∷ cs) out = do out' ← print_child c out; print_program cs out'
