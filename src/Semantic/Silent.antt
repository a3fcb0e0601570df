-- ===== src/Semantic/Silent.antt =====
-- What `src/semantic/TypeChecker.cpp` goes through with nothing to report is accepted.
use choco_c.Prelude.{
  ℕ, ◌≡◌, ◌≢◌, refl, ◌⊎◌, inl, inr, true, false, ◌||◌, List, [], ◌∷◌, Option, none, some,
  Option-cases, All, arith,
}
use choco_c.TokenType.{type_eq, and, or}
use choco_c.Token.{Token}
use choco_c.Diagnostics.{DiagnosticsManager}
use choco_c.Ast.{
  Expression, literal, identifier, grouping, grouping_null, unary, binary, is_valid_target,
  AssignmentStatement, Child, variable_definition, statement, Program,
}
use choco_c.Semantic.SemaType.{SemaType}
use choco_c.Semantic.SymbolTable.{SymbolTable}
use choco_c.Semantic.TypeChecker.{
  AnyType, typed, empty, Outcome, ok, undefined, bad_any_cast, bind, pure, any_cast,
  visit_identifier, visit_expression, check_operands, check_operator, check_definition,
  check_targets, check_assignment, check_child, check_program,
}
use choco_c.Semantic.Typing.{HasType, visit_expression_iff}
use choco_c.Semantic.Tables.{AllSound}
use choco_c.Semantic.Checked.{Takes, HasType-IsRooted}
use choco_c.Semantic.Accepts.{
  Gets, by_rule, grouped, arithmetic, left_untyped, right_untyped, Accepted,
}
use choco_c.Semantic.Grows.{
  Grows-bind, any_cast-Grows, typed_target, typed_target-Grows, check_operands-Grows,
  visit_expression-Grows, check_targets-Grows, check_program-Grows,
}
use choco_c.Semantic.Accepted.{
  NoType, literal-typed, silent_bind, silent_cast, targets_typed, definition_typed,
}

unary-ne :
    (r : Outcome AnyType) {o : Option SemaType} {ds' : DiagnosticsManager}
    → bind r (λ a. pure empty) ≢ ok (typed o) ds'
unary-ne (ok a ds) e = cc
unary-ne undefined e = cc
unary-ne bad_any_cast e = cc

-- A target that the checker goes through with nothing to report has a type.
target-typed : (m : SymbolTable) (e : Expression) → is_valid_target e ≡ true → NoType m e → ⊥
unfolding is_valid_target visit_expression visit_identifier
target-typed m (identifier t) h v = ground arith
target-typed m (literal t) h v = cc
target-typed m (grouping e r) h v = cc
target-typed m (grouping_null r) h v = cc
target-typed m (unary op e) h v = cc
target-typed m (binary l op r) h v = cc

check_operands-silent :
    (op : Token) (start : ℕ) (t u : SemaType)
    → check_operands op start (some t) (some u) [] ≡ ok (typed none) []
    → (type_eq op.type and || type_eq op.type or) ≡ false
unfolding check_operands check_operator
check_operands-silent op start t u h = ground arith

operands-Gets :
    (m : SymbolTable) (op : Token) (start : ℕ) (l r : Expression) (o o' : Option SemaType)
    → Gets m l o
    → Gets m r o'
    → check_operands op start o o' [] ≡ ok (typed none) []
    → Gets m (binary l op r) none
operands-Gets m op start l r none o' gl gr q = left_untyped gl gr
operands-Gets m op start l r (some t) none gl gr q = right_untyped gl gr
operands-Gets m op start l r (some t) (some u) gl gr q =
    arithmetic t u (check_operands-silent op start t u q) gl gr

-- Where the checker goes through an expression with nothing to report, and gives it no type, the rules give
-- none.
visit_expression-silent :
    (m : SymbolTable) (e : Expression) (o : Option SemaType)
    → visit_expression m e [] ≡ ok (typed o) []
    → Gets m e o
unfolding visit_expression
visit_expression-silent m e (some ty) v = by_rule ((visit_expression_iff m e ty [] []).0 v).0
visit_expression-silent m (literal t) none v =
    let (ty, same, _) = literal-typed t.type t (typed none) [] [] refl v in cc
visit_expression-silent m (identifier t) none v =
    absurd (
      target-typed m (identifier t) (unfold is_valid_target in refl) (unfold visit_expression in v))
visit_expression-silent m (grouping e r) none v = grouped (visit_expression-silent m e none v)
visit_expression-silent m (grouping_null r) none v = cc
visit_expression-silent m (unary op e) none v = absurd (unary-ne (visit_expression m e []) v)
visit_expression-silent m (binary l op r) none v =
    let (o, vl, q) =
      silent_cast (visit_expression m l) _ (typed none)
        (λ o. Grows-bind (visit_expression m r) _ (visit_expression-Grows m r) (λ b.
          Grows-bind (any_cast b) _ (any_cast-Grows b) (λ o'. check_operands-Grows op _ o o')))
        v in
    let (o', vr, q') =
      silent_cast (visit_expression m r) _ (typed none) (λ o'. check_operands-Grows op _ o o') q in
    operands-Gets m op _ l r o o' (visit_expression-silent m l o vl)
      (visit_expression-silent m r o' vr) q'

targets-HasType :
    (m : SymbolTable) (rhs : Option SemaType) (expr : Expression) (es : List Expression)
    → All (λ e. is_valid_target e ≡ true) es
    → check_targets m rhs expr es [] ≡ ok tt []
    → All (λ e. (ty : SemaType) × HasType m e ty) es
unfolding check_targets
targets-HasType m rhs expr [] h q = tt
targets-HasType m rhs expr (e ∷ es) h q =
    let others = check_targets-Grows m rhs expr es in
    let (o, v, q₁) =
      silent_cast (visit_expression m e) _ tt
        (λ o. Grows-bind _ _ (typed_target-Grows o rhs expr e) (λ u. others)) q in
    let (u, w, q₂) = silent_bind (typed_target o rhs expr e) _ tt (λ u. others) q₁ in
    (
      elim (Option-cases o) [
        | inl n ↦ absurd (target-typed m e h.0 (rw n at v))
        | inr (ty, k) ↦ (ty, ((visit_expression_iff m e ty [] []).0 (rw k at v)).0)
      ],
      targets-HasType m rhs expr es h.1 q₂,
    )

targets-Takes :
    (m : SymbolTable) (rhs : SemaType) (es : List Expression)
    → All (λ e. is_valid_target e ≡ true) es
    → All (λ e. NoType m e ⊎ Takes m rhs e) es
    → All (Takes m rhs) es
targets-Takes m rhs [] h q = tt
targets-Takes m rhs (e ∷ es) h (inl v, q) = absurd (target-typed m e h.0 v)
targets-Takes m rhs (e ∷ es) h (inr t, q) = (t, targets-Takes m rhs es h.1 q)

assignment-Accepted :
    (m : SymbolTable) (a : AssignmentStatement)
    → AllSound m
    → All (λ e. is_valid_target e ≡ true) a.targets
    → check_assignment m a [] ≡ ok tt []
    → Accepted m (statement a)
unfolding check_assignment
assignment-Accepted m a s h q =
    let (o, v, w) =
      silent_cast (visit_expression m a.expr) _ tt (λ o. check_targets-Grows m o a.expr a.targets)
        q in
    by_type o v w
  where
    by_type :
        (o : Option SemaType)
        → visit_expression m a.expr [] ≡ ok (typed o) []
        → check_targets m o a.expr a.targets [] ≡ ok tt []
        → Accepted m (statement a)
    by_type none v w =
        inl (visit_expression-silent m a.expr none v, targets-HasType m none a.expr a.targets h w)
    by_type (some rhs) v w =
        let t = ((visit_expression_iff m a.expr rhs [] []).0 v).0 in
        inr (
          rhs,
          t,
          targets-Takes m rhs a.targets h
              (targets_typed m rhs a.expr a.targets s (HasType-IsRooted s t) w),
        )

-- The targets of an assignment are names.
abbrev pub NamesChild : Child → Type 0
NamesChild (variable_definition d) = Unit {0}
NamesChild (statement a) = All (λ e. is_valid_target e ≡ true) a.targets

-- Children whose targets are names, and which the checker goes through with nothing to report, are accepted.
pub check_program-silent :
    (m : SymbolTable) (cs : Program)
    → AllSound m
    → All NamesChild cs
    → check_program m cs [] ≡ ok tt []
    → All (Accepted m) cs
unfolding check_program check_child
check_program-silent m [] s h q = tt
check_program-silent m (variable_definition d ∷ cs) s h q =
    let (u, v, w) = silent_bind (check_definition m d) _ tt (λ u. check_program-Grows m cs) q in
    (definition_typed m d v, check_program-silent m cs s h.1 w)
check_program-silent m (statement a ∷ cs) s h q =
    let (u, v, w) = silent_bind (check_assignment m a) _ tt (λ u. check_program-Grows m cs) q in
    (assignment-Accepted m a s h.0 v, check_program-silent m cs s h.1 w)
