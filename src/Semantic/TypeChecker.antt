-- ===== src/Semantic/TypeChecker.antt =====
-- `include/semantic/TypeChecker.h`, `src/semantic/TypeChecker.cpp`: the type checker.
use choco_c.Prelude.{
  ℕ, true, false, not, ◌||◌, List, [], ◌∷◌, Option, none, some, Text, codes, text_eq, if◌then◌else◌,
}
use choco_c.TokenType.{type_eq, and, or}
use choco_c.Token.{Token}
use choco_c.Diagnostics.{
  DiagId, Diagnostic, DiagnosticsManager, report, at, with_args, with_ranges, emit,
}
use choco_c.Ast.{
  Expression, literal, identifier, grouping, grouping_null, unary, binary, get_location,
  get_literal_type, VariableDefinition, AssignmentStatement, Child, variable_definition, statement,
  Program,
}
use choco_c.Semantic.SemaType.{
  SemaType, boolean_type, string_type, integer_type, none_type, is_boolean,
  is_assignment_compatible, to_string,
}
use choco_c.Semantic.SymbolTable.{SymbolTable, type_of, found, missing, unreachable}

-- The `std::any` that a visit returns: an optional type, or nothing at all.
pub data AnyType : Type 0 where
  typed : Option SemaType → AnyType
  empty : AnyType

-- The outcome of a visit, with the diagnostics so far. `undefined` is a null pointer or an empty
-- optional dereferenced, a failed assertion, or `std::unreachable`; `bad_any_cast` is that exception.
pub data Outcome (A : Type 0) : Type 0 where
  ok : A → DiagnosticsManager → Outcome A
  undefined bad_any_cast : Outcome A

abbrev pub Check : Type 0 → Type 0
Check A = DiagnosticsManager → Outcome A

abbrev pub bind : {A B : Type 0} → Outcome A → (A → Check B) → Outcome B
bind (ok a ds) f = f a ds
bind undefined f = undefined
bind bad_any_cast f = bad_any_cast

infixl 1 ◌>>=◌ ◌>>◌
abbrev pub ◌>>=◌ : {A B : Type 0} → Check A → (A → Check B) → Check B
m >>= f = λ ds. bind (m ds) f

abbrev pub ◌>>◌ : {A B : Type 0} → Check A → Check B → Check B
m >> k = m >>= λ _. k

abbrev pub pure : {A : Type 0} → A → Check A
pure a ds = ok a ds

abbrev diagnose : Diagnostic → Check (Unit {0})
diagnose d ds = ok tt (emit ds d)

abbrev stuck : {A : Type 0} → Check A
stuck ds = undefined

-- `std::any_cast<std::optional<const Type>>`.
abbrev pub any_cast : AnyType → Check (Option SemaType)
any_cast (typed o) ds = ok o ds
any_cast empty ds = bad_any_cast

-- `visit(const ast::Identifier&)`.
unfoldable pub visit_identifier : SymbolTable → Token → Check AnyType
visit_identifier m t = elim (type_of m t) [
  | found ty ↦ pure (typed (some ty))
  | missing ↦ do
    diagnose (with_args (at (report DiagId.undefined_name) t.location.start) (t.text ∷ []))
    pure (typed none)
  | unreachable ↦ stuck
]

-- The chain of tests on the literal's type.
abbrev type_named : Text → Option SemaType
type_named n =
    if text_eq n (codes "bool")
    then some boolean_type
    else if text_eq n (codes "str")
    then some string_type
    else if text_eq n (codes "int")
    then some integer_type
    else if text_eq n (codes "<None>")
    then some none_type
    else none

-- `visit(const ast::Literal&)`.
unfoldable pub visit_literal : Token → Check AnyType
unfolding get_literal_type text_eq
visit_literal t = elim (get_literal_type t.type) [
  | none ↦ stuck
  | some n ↦ pure (typed (type_named n))
]

-- The `switch` of `visit(const ast::BinaryExpression&)`, at operands that have types.
unfoldable pub check_operator : Token → ℕ → SemaType → SemaType → Check AnyType
check_operator op start l r =
    if type_eq op.type and || type_eq op.type or
    then (if not (is_boolean l) || not (is_boolean r)
        then (do
          diagnose (
              with_args (at (report DiagId.unsupported_binary_operand_type) start)
                (op.text ∷ to_string l ∷ to_string r ∷ []))
          pure (typed none))
        else pure (typed (some boolean_type)))
    else pure (typed none)

-- The rest of `visit(const ast::BinaryExpression&)`, after the two visits.
unfoldable pub check_operands : Token → ℕ → Option SemaType → Option SemaType → Check AnyType
unfolding check_operator
check_operands op start (some l) (some r) = check_operator op start l r
check_operands op start _ _ = pure (typed none)

-- `accept` of an expression. The checker has no `visit` for unary expressions: that of `ASTVisitor`
-- visits the operand and returns an empty `std::any`.
unfoldable pub visit_expression : SymbolTable → Expression → Check AnyType
visit_expression m (literal t) = visit_literal t
visit_expression m (identifier t) = visit_identifier m t
visit_expression m (grouping e r) = visit_expression m e
visit_expression m (grouping_null r) = stuck
visit_expression m (unary op e) = do a ← visit_expression m e; pure empty
visit_expression m (binary l op r) = do
  a ← visit_expression m l
  lhs_type ← any_cast a
  b ← visit_expression m r
  rhs_type ← any_cast b
  check_operands op (get_location (binary l op r)).start lhs_type rhs_type

-- The test of `isAssignmentCompatible` on the way to a report.
abbrev pub check_compatible : SemaType → SemaType → Diagnostic → Check (Unit {0})
check_compatible rhs lhs d = elim (is_assignment_compatible rhs lhs) [
  | none ↦ stuck
  | some true ↦ pure tt
  | some false ↦ diagnose d
]

-- The report of a mismatch.
abbrev pub mismatch : ℕ → SemaType → SemaType → Diagnostic
mismatch start lhs rhs =
    with_args (at (report DiagId.type_mismatch) start) (to_string lhs ∷ to_string rhs ∷ [])

-- `visit(const ast::VariableDefinition&)`, whose assertion wants the name in the symbol table.
unfoldable pub check_definition : SymbolTable → VariableDefinition → Check (Unit {0})
check_definition m d = elim (type_of m d.name) [
  | found lhs_type ↦ do
    a ← visit_literal d.value
    rhs_type ← any_cast a
    elim rhs_type [
      | none ↦ pure tt
      | some rhs ↦ check_compatible rhs lhs_type (mismatch d.value.location.start lhs_type rhs)
    ]
  | missing ↦ stuck
  | unreachable ↦ stuck
]

-- The body of the loop over the targets, at a target of type `lhs`.
abbrev pub check_target : Option SemaType → Expression → Expression → SemaType → Check (Unit {0})
check_target none expr target lhs = pure tt
check_target (some rhs) expr target lhs = check_compatible rhs lhs (
    with_ranges (mismatch (get_location expr).start lhs rhs)
      (get_location target ∷ get_location expr ∷ []))

unfoldable pub check_targets :
    SymbolTable → Option SemaType → Expression → List Expression → Check (Unit {0})
check_targets m rhs_type expr [] = pure tt
check_targets m rhs_type expr (target ∷ targets) = do
  a ← visit_expression m target
  lhs_type ← any_cast a
  elim lhs_type [ none ↦ pure tt | some lhs ↦ check_target rhs_type expr target lhs ]
  check_targets m rhs_type expr targets

-- `visit(const ast::AssignmentStatement&)`.
unfoldable pub check_assignment : SymbolTable → AssignmentStatement → Check (Unit {0})
check_assignment m s = do
  a ← visit_expression m s.expr
  rhs_type ← any_cast a
  check_targets m rhs_type s.expr s.targets

unfoldable pub check_child : SymbolTable → Child → Check (Unit {0})
unfolding check_definition check_assignment
check_child m (variable_definition d) = check_definition m d
check_child m (statement s) = check_assignment m s

-- `root->accept(type_checker)`.
unfoldable pub check_program : SymbolTable → Program → Check (Unit {0})
check_program m [] = pure tt
check_program m (c ∷ cs) = do check_child m c; check_program m cs
