-- ===== src/Semantic/Checked.antt =====
-- The checks of definitions and assignments in `src/semantic/TypeChecker.cpp`, at a table that the
-- builder leaves: they run to the end and report exactly the assignments that no rule allows.
use choco_c.Prelude.{
  ◌≡◌, refl, sym, ap, ◌∙◌, subst, ◌↔◌, inr, Bool, true, false, List, [], ◌∷◌, ◌++◌, append_assoc,
  append-nil, Option, none, some, arith, All,
}
use choco_c.Diagnostics.{Diagnostic, DiagnosticsManager, with_ranges}
use choco_c.Ast.{Expression, get_location, VariableDefinition, AssignmentStatement}
use choco_c.TokenType.{TokenType}
use choco_c.Semantic.SemaType.{SemaType, SuperClass, boolean_type, is_assignment_compatible}
use choco_c.Semantic.Assignable.{IsRooted, Assignable, is_assignment_compatible-Assignable}
use choco_c.Semantic.SymbolTable.{
  SymbolTable, SymbolTableEntry, type_of_entry, type, variable, get_entry, type_of, found,
}
use choco_c.Semantic.TypeChecker.{
  ok, typed, check_compatible, check_definition, check_assignment, check_targets, mismatch,
  visit_literal,
}
use choco_c.Semantic.Typing.{
  LiteralType, HasType, of_variable, of_literal, of_grouping, of_logic, visit_literal_iff,
  HasType-visit_expression,
}
use choco_c.Semantic.Tables.{AllSound, IsSound}

pub LiteralType-IsRooted : (k : TokenType) {t : SemaType} → LiteralType k t → IsRooted t
LiteralType-IsRooted k h = inr (ground (arith, boolean_type-super_class))
  where
    boolean_type-super_class : boolean_type.super_class ≡ SuperClass.object
    boolean_type-super_class = refl

entry-IsRooted :
    (o : Option SymbolTableEntry) (t : SemaType)
    → ((e : SymbolTableEntry) → o ≡ some e → IsSound e)
    → type_of_entry o ≡ found t
    → IsRooted t
entry-IsRooted none t s q = cc
entry-IsRooted (some (variable v)) t s q = subst IsRooted (ground arith) (s (variable v) refl)
entry-IsRooted (some (type u)) t s q = cc

pub HasType-IsRooted :
    {m : SymbolTable} {e : Expression} {t : SemaType} → AllSound m → HasType m e t → IsRooted t
unfolding type_of
HasType-IsRooted {m} {t} s (of_variable {t = k} h) =
    entry-IsRooted (get_entry k.text m) t (s k.text) h
HasType-IsRooted s (of_literal {t = k} h) = LiteralType-IsRooted k.type h
HasType-IsRooted s (of_grouping h) = HasType-IsRooted s h
HasType-IsRooted s (of_logic _ _ _ e) = inr (ap (λ (x : SemaType). x.super_class) e)

-- The test reports, or not, by the rules.
pub check_compatible_lem :
    (t u : SemaType) (d : Diagnostic) (ds : DiagnosticsManager)
    → IsRooted t
    → (xs : List Diagnostic) × (check_compatible t u d ds ≡ ok tt (ds ++ xs))
      × ((xs ≡ []) ↔ Assignable t u)
check_compatible_lem t u d ds r = answer (is_assignment_compatible-Assignable t u r)
  where
    answer :
        ((b : Bool) × (is_assignment_compatible t u ≡ some b) × ((b ≡ true) ↔ Assignable t u))
        → (xs : List Diagnostic) × (check_compatible t u d ds ≡ ok tt (ds ++ xs))
          × ((xs ≡ []) ↔ Assignable t u)
    answer (true, e, i) = (
      [],
      rw (check_compatible, e) (ap (ok tt) (sym (append-nil ds))),
      (λ _. i.0 refl, λ _. refl),
    )
    answer (false, e, i) = (
      d ∷ [],
      rw (check_compatible, e),
      (λ h. absurd (ground arith), λ a. absurd (ground (arith, i.1 a))),
    )

check_definition-found :
    (m : SymbolTable) (d : VariableDefinition) (lhs rhs : SemaType) (ds : DiagnosticsManager)
    → type_of m d.name ≡ found lhs
    → visit_literal d.value ds ≡ ok (typed (some rhs)) ds
    → check_definition m d ds
      ≡ check_compatible rhs lhs (mismatch d.value.location.start lhs rhs) ds
unfolding check_definition
check_definition-found m d lhs rhs ds h l = rw (check_definition, h, l)

-- At a name bound to a variable, the check of a definition with a literal value ends, and it reports a
-- mismatch exactly when no rule lets the literal's type into the variable's.
pub check_definition_lem :
    (m : SymbolTable) (d : VariableDefinition) (lhs rhs : SemaType) (ds : DiagnosticsManager)
    → type_of m d.name ≡ found lhs
    → LiteralType d.value.type rhs
    → (xs : List Diagnostic) × (check_definition m d ds ≡ ok tt (ds ++ xs))
      × ((xs ≡ []) ↔ Assignable rhs lhs)
check_definition_lem m d lhs rhs ds h l =
    let e =
      check_definition-found m d lhs rhs ds h
        ((visit_literal_iff d.value.type d.value rhs ds ds refl).1 (l, refl)) in
    let (xs, q, i) =
      check_compatible_lem rhs lhs (mismatch d.value.location.start lhs rhs) ds
        (LiteralType-IsRooted d.value.type l) in
    (xs, e ∙ q, i)

-- The target has a type, and a rule lets the type in.
abbrev pub Takes : SymbolTable → SemaType → Expression → Type 0
Takes m rhs e = (ty : SemaType) × HasType m e ty × Assignable rhs ty

-- Types are unique.
HasType-unique :
    (m : SymbolTable) {e : Expression} {t u : SemaType} → HasType m e t → HasType m e u → t ≡ u
HasType-unique m h k =
    let p = HasType-visit_expression m [] h in let q = HasType-visit_expression m [] k in cc

append_empty : {A : Type 0} (xs ys : List A) → xs ++ ys ≡ [] → (xs ≡ []) × (ys ≡ [])
append_empty [] ys e = (refl, e)
append_empty (x ∷ xs) ys e = cc

check_targets_lem :
    (m : SymbolTable) (rhs : SemaType) (expr : Expression) (targets : List Expression)
    (ds : DiagnosticsManager)
    → IsRooted rhs
    → All (λ e. (ty : SemaType) × HasType m e ty) targets
    → (xs : List Diagnostic) × (check_targets m (some rhs) expr targets ds ≡ ok tt (ds ++ xs))
      × ((xs ≡ []) ↔ All (Takes m rhs) targets)
unfolding check_targets
check_targets_lem m rhs expr [] ds r h =
    ([], ap (ok tt) (sym (append-nil ds)), (λ _. tt, λ _. refl))
check_targets_lem m rhs expr (e ∷ es) ds r ((ty, h), hs) =
    let d =
      with_ranges (mismatch (get_location expr).start ty rhs)
        (get_location e ∷ get_location expr ∷ []) in
    let (xs, q, i) = check_compatible_lem rhs ty d ds r in
    let (ys, p, j) = check_targets_lem m rhs expr es (ds ++ xs) r hs in
    (
      xs ++ ys,
      rw (HasType-visit_expression m ds h, q, p) (ap (ok tt) (append_assoc ds xs ys)),
      (
        (λ n. let (a, b) = append_empty xs ys n in ((ty, h, i.0 a), j.0 b)),
        (λ ((u, k, a), b). rw (j.1 b, i.1 (subst (Assignable rhs) (HasType-unique m k h) a))),
      ),
    )

-- An assignment of an expression that has a type, to targets that have types, is checked to the end
-- at a table whose types have `object` at the root. The check reports nothing exactly when rules let
-- the expression's type into each target's.
pub check_assignment_lem :
    (m : SymbolTable) (s : AssignmentStatement) (rhs : SemaType) (ds : DiagnosticsManager)
    → AllSound m
    → HasType m s.expr rhs
    → All (λ e. (ty : SemaType) × HasType m e ty) s.targets
    → (xs : List Diagnostic) × (check_assignment m s ds ≡ ok tt (ds ++ xs))
      × ((xs ≡ []) ↔ All (Takes m rhs) s.targets)
unfolding check_assignment
check_assignment_lem m s rhs ds r h hs =
    rw (HasType-visit_expression m ds h)
      (check_targets_lem m rhs s.expr s.targets ds (HasType-IsRooted r h) hs)
