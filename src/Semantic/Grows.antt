-- ===== src/Semantic/Grows.antt =====
-- The visits of `src/semantic/TypeChecker.cpp` only add to the diagnostics.
use choco_c.Prelude.{
  ℕ, ◌≤◌, ◌≡◌, refl, List, [], ◌∷◌, Option, none, some, arith, length, length-append,
}
use choco_c.Token.{Token}
use choco_c.Diagnostics.{DiagId, Diagnostic, DiagnosticsManager, report, at, with_args}
use choco_c.Ast.{
  Expression, literal, identifier, grouping, grouping_null, unary, binary, VariableDefinition,
  AssignmentStatement, Child, variable_definition, statement, Program,
}
use choco_c.Semantic.SemaType.{SemaType, to_string}
use choco_c.Semantic.SymbolTable.{SymbolTable, Lookup, type_of, found, missing, unreachable}
use choco_c.Semantic.TypeChecker.{
  AnyType, empty, Outcome, ok, undefined, bad_any_cast, Check, bind, ◌>>=◌, pure, any_cast,
  visit_identifier, visit_literal, check_operands, visit_expression, check_compatible,
  check_definition, check_target, check_targets, check_assignment, check_child, check_program,
  mismatch,
}

-- A visit that succeeds has kept the diagnostics, or added to them.
abbrev pub Grows : {A : Type 0} → Check A → Type 0
Grows {A} m = (ds ds' : DiagnosticsManager) (a : A) → m ds ≡ ok a ds' → length ds ≤ length ds'

pub bind-ok :
    {A B : Type 0} (r : Outcome A) (f : A → Check B) (b : B) (ds' : DiagnosticsManager)
    → bind r f ≡ ok b ds'
    → (a : A) × (ds : DiagnosticsManager) × (r ≡ ok a ds) × (f a ds ≡ ok b ds')
bind-ok (ok a ds) f b ds' e = (a, ds, refl, e)
bind-ok undefined f b ds' e = cc
bind-ok bad_any_cast f b ds' e = cc

pub Grows-bind :
    {A B : Type 0} (m : Check A) (f : A → Check B)
    → Grows m
    → ((a : A) → Grows (f a))
    → Grows (m >>= f)
Grows-bind m f h k ds ds' b e =
    let (a, ds₁, p, q) = bind-ok (m ds) f b ds' e in omega (arith, h ds ds₁ a p, k a ds₁ ds' b q)

ok-length :
    {A : Type 0} (a b : A) (ds ds' : DiagnosticsManager)
    → ok a ds ≡ ok b ds'
    → length ds ≤ length ds'
ok-length a b ds ds' e = let same : ds ≡ ds' = cc in rw same (omega arith)

visit_identifier-Grows : (m : SymbolTable) (t : Token) → Grows (visit_identifier m t)
unfolding visit_identifier
visit_identifier-Grows m t ds ds' a e = ground (
  arith,
  length-append ds
      (with_args (at (report DiagId.undefined_name) t.location.start) (t.text ∷ []) ∷ []),
)

visit_literal-Grows : (t : Token) → Grows (visit_literal t)
unfolding visit_literal
visit_literal-Grows t ds ds' a e = ground arith

pub any_cast-Grows : (a : AnyType) → Grows (any_cast a)
any_cast-Grows a ds ds' b e = ground arith

pub pure-Grows : {A : Type 0} (a : A) → Grows (pure a)
pure-Grows a ds ds' b e = ok-length a b ds ds' e

pub check_operands-Grows :
    (op : Token) (start : ℕ) (l r : Option SemaType) → Grows (check_operands op start l r)
unfolding check_operands
check_operands-Grows op start (some l) (some r) ds ds' a e = ground (
  arith,
  length-append ds (
      with_args (at (report DiagId.unsupported_binary_operand_type) start)
        (op.text ∷ to_string l ∷ to_string r ∷ [])
      ∷ []),
)
check_operands-Grows op start none r ds ds' a e = ok-length _ a ds ds' e
check_operands-Grows op start (some l) none ds ds' a e = ok-length _ a ds ds' e

check_compatible-Grows : (t u : SemaType) (d : Diagnostic) → Grows (check_compatible t u d)
check_compatible-Grows t u d ds ds' a e = ground (arith, length-append ds (d ∷ []))

pub visit_expression-Grows : (m : SymbolTable) (e : Expression) → Grows (visit_expression m e)
unfolding visit_expression
visit_expression-Grows m (literal t) = visit_literal-Grows t
visit_expression-Grows m (identifier t) = visit_identifier-Grows m t
visit_expression-Grows m (grouping e r) = visit_expression-Grows m e
visit_expression-Grows m (grouping_null r) = λ ds ds' a q. cc
visit_expression-Grows m (unary op e) =
    Grows-bind (visit_expression m e) (λ a. pure empty) (visit_expression-Grows m e)
      (λ a. pure-Grows empty)
visit_expression-Grows m (binary l op r) =
    Grows-bind (visit_expression m l) _ (visit_expression-Grows m l) (λ a.
      Grows-bind (any_cast a) _ (any_cast-Grows a) (λ lt.
        Grows-bind (visit_expression m r) _ (visit_expression-Grows m r) (λ b.
          Grows-bind (any_cast b) _ (any_cast-Grows b) (λ rt. check_operands-Grows op _ lt rt))))

pub check_target-Grows :
    (o : Option SemaType) (expr target : Expression) (lhs : SemaType)
    → Grows (check_target o expr target lhs)
check_target-Grows none expr target lhs = pure-Grows tt
check_target-Grows (some rhs) expr target lhs = check_compatible-Grows rhs lhs _

-- The check of a target of any type.
abbrev pub typed_target :
    Option SemaType → Option SemaType → Expression → Expression → Check (Unit {0})
typed_target o rhs expr target = elim o [
  | none ↦ pure tt
  | some lhs ↦ check_target rhs expr target lhs
]

pub typed_target-Grows :
    (o rhs : Option SemaType) (expr target : Expression) → Grows (typed_target o rhs expr target)
typed_target-Grows none rhs expr target = pure-Grows tt
typed_target-Grows (some lhs) rhs expr target = check_target-Grows rhs expr target lhs

pub check_targets-Grows :
    (m : SymbolTable) (o : Option SemaType) (expr : Expression) (es : List Expression)
    → Grows (check_targets m o expr es)
unfolding check_targets
check_targets-Grows m o expr [] = pure-Grows tt
check_targets-Grows m o expr (e ∷ es) =
    Grows-bind (visit_expression m e) _ (visit_expression-Grows m e) (λ a.
      Grows-bind (any_cast a) _ (any_cast-Grows a) (λ lhs.
        Grows-bind _ _ (typed_target-Grows lhs o expr e) (λ u. check_targets-Grows m o expr es)))

check_assignment-Grows : (m : SymbolTable) (s : AssignmentStatement) → Grows (check_assignment m s)
unfolding check_assignment
check_assignment-Grows m s =
    Grows-bind (visit_expression m s.expr) _ (visit_expression-Grows m s.expr) (λ a.
      Grows-bind (any_cast a) _ (any_cast-Grows a)
        (λ rhs. check_targets-Grows m rhs s.expr s.targets))

-- The check of a definition, from its literal's type on.
abbrev pub literal_rhs : Option SemaType → SemaType → VariableDefinition → Check (Unit {0})
literal_rhs o lhs d = elim o [
  | none ↦ pure tt
  | some rhs ↦ check_compatible rhs lhs (mismatch d.value.location.start lhs rhs)
]

-- The check of a definition, from what its name stands for on.
abbrev pub looked_up : Lookup → VariableDefinition → Check (Unit {0})
looked_up l d = elim l [
  | found lhs ↦ do a ← visit_literal d.value; o ← any_cast a; literal_rhs o lhs d
  | missing ↦ (λ ds. undefined)
  | unreachable ↦ (λ ds. undefined)
]

pub literal_rhs-Grows :
    (o : Option SemaType) (lhs : SemaType) (d : VariableDefinition) → Grows (literal_rhs o lhs d)
literal_rhs-Grows none lhs d = pure-Grows tt
literal_rhs-Grows (some rhs) lhs d = check_compatible-Grows rhs lhs _

looked_up-Grows : (l : Lookup) (d : VariableDefinition) → Grows (looked_up l d)
looked_up-Grows (found lhs) d =
    Grows-bind (visit_literal d.value) _ (visit_literal-Grows d.value)
      (λ a. Grows-bind (any_cast a) _ (any_cast-Grows a) (λ o. literal_rhs-Grows o lhs d))
looked_up-Grows missing d = λ ds ds' u e. cc
looked_up-Grows unreachable d = λ ds ds' u e. cc

check_definition-Grows : (m : SymbolTable) (d : VariableDefinition) → Grows (check_definition m d)
unfolding check_definition
check_definition-Grows m d = looked_up-Grows (type_of m d.name) d

check_child-Grows : (m : SymbolTable) (c : Child) → Grows (check_child m c)
unfolding check_child
check_child-Grows m (variable_definition d) = check_definition-Grows m d
check_child-Grows m (statement s) = check_assignment-Grows m s

pub check_program-Grows : (m : SymbolTable) (cs : Program) → Grows (check_program m cs)
unfolding check_program
check_program-Grows m [] = pure-Grows tt
check_program-Grows m (c ∷ cs) =
    Grows-bind (check_child m c) _ (check_child-Grows m c) (λ u. check_program-Grows m cs)
