-- ===== src/Ast/Nodes.antt =====
-- `include/ast/ASTNode.h`, and `classof` of the node classes in `src/ast`: the kinds of nodes.
use choco_c.Prelude.{ℕ, ◌≡◌, refl, ◌↔◌, Bool, true, ◌&&◌, ◌||◌, ◌==◌, ltb}
use choco_c.Ast.{
  Expression, literal, identifier, grouping, grouping_null, unary, binary, is_valid_target, AstType,
  VariableDefinition, AssignmentStatement, Program,
}

-- `NodeKind`.
pub data NodeKind : Type 0 where
  nk_expression nk_binary_expression nk_grouping_expression nk_identifier nk_literal : NodeKind
  nk_unary_expression nk_sentinel_expression nk_statement nk_assignment_statement : NodeKind
  nk_sentinel_statement nk_block nk_program nk_type nk_variable_definition : NodeKind

-- The value of an enumerator.
unfoldable pub kind_ordinal : NodeKind → ℕ
kind_ordinal nk_expression = 0
kind_ordinal nk_binary_expression = 1
kind_ordinal nk_grouping_expression = 2
kind_ordinal nk_identifier = 3
kind_ordinal nk_literal = 4
kind_ordinal nk_unary_expression = 5
kind_ordinal nk_sentinel_expression = 6
kind_ordinal nk_statement = 7
kind_ordinal nk_assignment_statement = 8
kind_ordinal nk_sentinel_statement = 9
kind_ordinal nk_block = 10
kind_ordinal nk_program = 11
kind_ordinal nk_type = 12
kind_ordinal nk_variable_definition = 13

-- `ASTNode`, by its classes. Nothing makes a `Block`.
pub data AstNode : Type 0 where
  expression : Expression → AstNode
  assignment : AssignmentStatement → AstNode
  program : Program → AstNode
  type : AstType → AstNode
  definition : VariableDefinition → AstNode

-- `getKind`: the kind that each constructor passes up.
unfoldable pub expression_kind : Expression → NodeKind
expression_kind (literal t) = nk_literal
expression_kind (identifier t) = nk_identifier
expression_kind (grouping e r) = nk_grouping_expression
expression_kind (grouping_null r) = nk_grouping_expression
expression_kind (unary op e) = nk_unary_expression
expression_kind (binary l op r) = nk_binary_expression

unfoldable pub get_kind : AstNode → NodeKind
unfolding expression_kind
get_kind (expression e) = expression_kind e
get_kind (assignment a) = nk_assignment_statement
get_kind (program cs) = nk_program
get_kind (type t) = nk_type
get_kind (definition d) = nk_variable_definition

-- `==` and `<` of enumerators.
unfoldable pub is_kind : AstNode → NodeKind → Bool
unfolding get_kind kind_ordinal
is_kind n k = kind_ordinal (get_kind n) == kind_ordinal k

unfoldable pub is_between : NodeKind → AstNode → NodeKind → Bool
unfolding get_kind kind_ordinal
is_between j n k =
    ltb (kind_ordinal j) (kind_ordinal (get_kind n))
    && ltb (kind_ordinal (get_kind n)) (kind_ordinal k)

-- `Expression::classof`.
unfoldable pub expression_classof : AstNode → Bool
unfolding is_between
expression_classof n = is_between nk_expression n nk_sentinel_expression

-- `Statement::classof`.
unfoldable pub statement_classof : AstNode → Bool
unfolding expression_classof is_between
statement_classof n = expression_classof n || is_between nk_statement n nk_sentinel_statement

-- `classof` of the classes with no subclass.
unfoldable pub binary_expression_classof : AstNode → Bool
unfolding is_kind
binary_expression_classof n = is_kind n nk_binary_expression

unfoldable pub grouping_expression_classof : AstNode → Bool
unfolding is_kind
grouping_expression_classof n = is_kind n nk_grouping_expression

unfoldable pub identifier_classof : AstNode → Bool
unfolding is_kind
identifier_classof n = is_kind n nk_identifier

unfoldable pub literal_classof : AstNode → Bool
unfolding is_kind
literal_classof n = is_kind n nk_literal

unfoldable pub unary_expression_classof : AstNode → Bool
unfolding is_kind
unary_expression_classof n = is_kind n nk_unary_expression

unfoldable pub assignment_statement_classof : AstNode → Bool
unfolding is_kind
assignment_statement_classof n = is_kind n nk_assignment_statement

unfoldable pub program_classof : AstNode → Bool
unfolding is_kind
program_classof n = is_kind n nk_program

unfoldable pub type_classof : AstNode → Bool
unfolding is_kind
type_classof n = is_kind n nk_type

unfoldable pub variable_definition_classof : AstNode → Bool
unfolding is_kind
variable_definition_classof n = is_kind n nk_variable_definition

-- The nodes that are made of the classes below `Expression` and `Statement`.
abbrev IsExpression : AstNode → Type 0
IsExpression (expression e) = Unit
IsExpression _ = ⊥

abbrev IsStatement : AstNode → Type 0
IsStatement (expression e) = Unit
IsStatement (assignment a) = Unit
IsStatement _ = ⊥

kind_inside : (e : Expression) → expression_classof (expression e) ≡ true
unfolding expression_classof
kind_inside (literal t) = refl
kind_inside _ = refl

-- `classof` of the two base classes answers true at just the nodes of the classes below them: the kinds of
-- those lie between the sentinels.
classof_iff :
    (n : AstNode)
    → ((expression_classof n ≡ true) ↔ IsExpression n)
      × ((statement_classof n ≡ true) ↔ IsStatement n)
unfolding statement_classof
classof_iff (expression e) = rw (kind_inside e) ((λ _. tt, λ _. refl), (λ _. tt, λ _. refl))
classof_iff (assignment a) = ((λ h. cc, λ h. absurd h), (λ _. tt, λ _. refl))
classof_iff (program cs) = ((λ h. cc, λ h. absurd h), (λ h. cc, λ h. absurd h))
classof_iff (type t) = ((λ h. cc, λ h. absurd h), (λ h. cc, λ h. absurd h))
classof_iff (definition d) = ((λ h. cc, λ h. absurd h), (λ h. cc, λ h. absurd h))

-- A valid target is an `Identifier`, by its kind.
is_valid_target-identifier_classof :
    (e : Expression) → is_valid_target e ≡ identifier_classof (expression e)
unfolding is_valid_target identifier_classof
is_valid_target-identifier_classof (literal t) = refl
is_valid_target-identifier_classof _ = refl
