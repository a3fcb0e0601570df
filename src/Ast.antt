-- ===== src/Ast.antt =====
-- `include/ast`: the nodes of the syntax tree. A node keeps the tokens that it was made from.
pub mod Asserts
pub mod Nodes
use choco_c.Prelude.{
  ℕ, codes, Bool, true, false, not, ◌&&◌, List, ◌++◌, Text, replicate, Option, none, some,
}
use choco_c.Token.{Token, Range, is_bin_op}
use choco_c.TokenType.{
  TokenType, type_eq, and, or, minus, true_kw, false_kw, id_string, string, int_lit, none_kw,
}

-- The subclasses of `ast::Expression`. A `GroupingExpression` keeps its expression and its location;
-- the pointer to the expression may be null, which is a constructor of its own.
pub data Expression : Type 0 where
  literal : Token → Expression
  identifier : Token → Expression
  grouping : Expression → Range → Expression
  grouping_null : Range → Expression
  unary : Token → Expression → Expression
  binary : Expression → Token → Expression → Expression

-- The location that the constructor of `GroupingExpression` takes from the two parentheses.
abbrev pub paren_range : Token → Token → Range
paren_range l r = record { start = l.location.start; end = r.location.end }

abbrev pub make_grouping : Token → Option Expression → Token → Expression
make_grouping l none r = grouping_null (paren_range l r)
make_grouping l (some e) r = grouping e (paren_range l r)

-- `isConstantExpression`: the flag that each constructor passes up.
unfoldable pub is_constant_expression : Expression → Bool
unfolding type_eq is_bin_op
is_constant_expression (literal t) = true
is_constant_expression (identifier t) = true
is_constant_expression (grouping e r) = true
is_constant_expression (grouping_null r) = true
is_constant_expression (unary op e) = type_eq op.type minus
is_constant_expression (binary l op r) =
    is_bin_op op && not (type_eq op.type and) && not (type_eq op.type or)

unfoldable pub is_valid_target : Expression → Bool
is_valid_target (identifier t) = true
is_valid_target _ = false

-- `Literal::getType`, of the literal's token type; no value where it is `std::unreachable`.
unfoldable pub get_literal_type : TokenType → Option Text
get_literal_type true_kw = some (codes "bool")
get_literal_type false_kw = some (codes "bool")
get_literal_type id_string = some (codes "str")
get_literal_type string = some (codes "str")
get_literal_type int_lit = some (codes "int")
get_literal_type none_kw = some (codes "<None>")
get_literal_type _ = none

-- The walk of `ASTVisitor` over an expression, with its own `visit` at every node: nothing happens but
-- that each pointer is dereferenced. No value where one is null.
unfoldable pub walk : Expression → Option (Unit {0})
walk (literal t) = some tt
walk (identifier t) = some tt
walk (grouping e r) = walk e
walk (grouping_null r) = none
walk (unary op e) = walk e
walk (binary l op r) = elim (walk l) [ none ↦ none | some u ↦ walk r ]

-- `getLocation`.
unfoldable pub get_location : Expression → Range
get_location (literal t) = t.location
get_location (identifier t) = t.location
get_location (grouping e r) = r
get_location (grouping_null r) = r
get_location (unary op e) = record { start = op.location.start; end = (get_location e).end }
get_location (binary l op r) = record { start = (get_location l).start; end = (get_location r).end }

-- `ast::Type`: a base type under so many list brackets.
pub record AstType : Type 0 where
  pub base_type : Token
  pub dimension : ℕ

-- `ast::Type::getText`.
unfoldable pub get_text : AstType → Text
get_text t = replicate t.dimension b'[' ++ (t.base_type.text ++ replicate t.dimension b']')

-- `ast::TypedVariable`; the name is the token of its `ast::Identifier`.
pub record TypedVariable : Type 0 where
  pub name : Token
  pub type : AstType

-- `ast::VariableDefinition`; the value is the token of its `ast::Literal`.
pub record VariableDefinition : Type 0 where
  pub name : Token
  pub type : AstType
  pub value : Token

pub record AssignmentStatement : Type 0 where
  pub targets : List Expression
  pub expr : Expression

-- A child of `ast::Program`: a variable definition, or a statement, which is an assignment.
pub data Child : Type 0 where
  variable_definition : VariableDefinition → Child
  statement : AssignmentStatement → Child

abbrev pub Program : Type 0
Program = List Child
