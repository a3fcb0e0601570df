-- ===== src/Semantic/Accepted.antt =====
-- What `src/semantic/TypeChecker.cpp` has established of a program that it goes through with nothing to
-- report.
use choco_c.Prelude.{
  ◌≤◌, ◌≡◌, ◌≢◌, refl, subst, ◌⊎◌, inl, inr, List, [], ◌∷◌, All, Option, none, some, arith, length,
  text_eq,
}
use choco_c.Token.{Token}
use choco_c.TokenType.{TokenType, true_kw, false_kw, id_string, string, int_lit, none_kw}
use choco_c.Diagnostics.{Diagnostic, DiagnosticsManager}
use choco_c.Ast.{
  Expression, VariableDefinition, AssignmentStatement, Child, variable_definition, statement,
  Program,
}
use choco_c.Semantic.SemaType.{SemaType, boolean_type, string_type, integer_type, none_type}
use choco_c.Semantic.Assignable.{IsRooted, Assignable}
use choco_c.Semantic.SymbolTable.{SymbolTable, Lookup, type_of, found, missing, unreachable}
use choco_c.Semantic.TypeChecker.{
  AnyType, typed, empty, ok, Check, ◌>>=◌, any_cast, visit_literal, visit_expression,
  check_compatible, check_definition, check_targets, check_assignment, check_child, check_program,
}
use choco_c.Semantic.Typing.{LiteralType, HasType, visit_literal_iff, visit_expression_iff}
use choco_c.Semantic.Tables.{AllSound}
use choco_c.Semantic.Checked.{Takes, check_compatible_lem, LiteralType-IsRooted, HasType-IsRooted}
use choco_c.Semantic.Grows.{
  Grows, Grows-bind, any_cast-Grows, typed_target, typed_target-Grows, literal_rhs,
  literal_rhs-Grows, looked_up, bind-ok, check_targets-Grows, check_program-Grows,
}

-- The checker goes through the expression, but gives it no type.
abbrev pub NoType : SymbolTable → Expression → Type 0
NoType m e = visit_expression m e [] ≡ ok (typed none) []

abbrev pub DefinitionTyped : SymbolTable → VariableDefinition → Type 0
DefinitionTyped m d =
    (lhs rhs : SemaType) × (type_of m d.name ≡ found lhs)
    × LiteralType d.value.type rhs
    × Assignable rhs lhs

abbrev pub AssignmentTyped : SymbolTable → AssignmentStatement → Type 0
AssignmentTyped m s =
    NoType m s.expr
    ⊎ ((rhs : SemaType) × HasType m s.expr rhs × All (λ e. NoType m e ⊎ Takes m rhs e) s.targets)

abbrev pub ChildTyped : SymbolTable → Child → Type 0
ChildTyped m (variable_definition d) = DefinitionTyped m d
ChildTyped m (statement s) = AssignmentTyped m s

pub no_length : {A : Type 0} (xs : List A) → length xs ≤ 0 → xs ≡ []
no_length [] h = refl
no_length (x ∷ xs) h = absurd (omega arith)

pub literal-typed :
    (k : TokenType) (t : Token) (a : AnyType) (ds ds' : DiagnosticsManager)
    → t.type ≡ k
    → visit_literal t ds ≡ ok a ds'
    → (ty : SemaType) × (a ≡ typed (some ty)) × (ds' ≡ ds)
unfolding visit_literal text_eq
literal-typed true_kw t a ds ds' k e = (boolean_type, ground arith, ground arith)
literal-typed false_kw t a ds ds' k e = (boolean_type, ground arith, ground arith)
literal-typed id_string t a ds ds' k e = (string_type, ground arith, ground arith)
literal-typed string t a ds ds' k e = (string_type, ground arith, ground arith)
literal-typed int_lit t a ds ds' k e = (integer_type, ground arith, ground arith)
literal-typed none_kw t a ds ds' k e = (none_type, ground arith, ground arith)
literal-typed _ t a ds ds' k e = absurd (ground arith)

-- A silent test lets the type in.
silent_test :
    (t u : SemaType) (d : Diagnostic)
    → IsRooted t
    → check_compatible t u d [] ≡ ok tt []
    → Assignable t u
silent_test t u d r e = let (xs, q, i) = check_compatible_lem t u d [] r in i.0 cc

silent_target :
    (m : SymbolTable) (rhs : SemaType) (expr e : Expression) (o : Option SemaType)
    → AllSound m
    → IsRooted rhs
    → visit_expression m e [] ≡ ok (typed o) []
    → typed_target o (some rhs) expr e [] ≡ ok tt []
    → NoType m e ⊎ Takes m rhs e
silent_target m rhs expr e none s r v q = inl v
silent_target m rhs expr e (some lhs) s r v q =
    inr (lhs, ((visit_expression_iff m e lhs [] []).0 v).0, silent_test rhs lhs _ r q)

-- A visit that leaves no diagnostics has two parts that leave none.
pub silent_bind :
    {A B : Type 0} (m : Check A) (f : A → Check B) (b : B)
    → ((a : A) → Grows (f a))
    → (m >>= f) [] ≡ ok b []
    → (a : A) × (m [] ≡ ok a []) × (f a [] ≡ ok b [])
silent_bind m f b g e =
    let (a, ds, p, q) = bind-ok (m []) f b [] e in
    let none_yet = no_length ds (g a ds [] b q) in
    (a, subst (λ x. m [] ≡ ok a x) none_yet p, subst (λ x. f a x ≡ ok b []) none_yet q)

-- The same of a visit whose value is cast.
pub silent_cast :
    {B : Type 0} (m : Check AnyType) (f : Option SemaType → Check B) (b : B)
    → ((o : Option SemaType) → Grows (f o))
    → (m >>= λ a. any_cast a >>= f) [] ≡ ok b []
    → (o : Option SemaType) × (m [] ≡ ok (typed o) []) × (f o [] ≡ ok b [])
silent_cast m f b g e =
    let (a, p, q) =
      silent_bind m (λ a. any_cast a >>= f) b (λ a. Grows-bind (any_cast a) f (any_cast-Grows a) g)
        e in
    cast a p q
  where
    cast :
        (a : AnyType)
        → m [] ≡ ok a []
        → (any_cast a >>= f) [] ≡ ok b []
        → (o : Option SemaType) × (m [] ≡ ok (typed o) []) × (f o [] ≡ ok b [])
    cast (typed o) p q = (o, p, q)
    cast empty p q = cc

pub targets_typed :
    (m : SymbolTable) (rhs : SemaType) (expr : Expression) (es : List Expression)
    → AllSound m
    → IsRooted rhs
    → check_targets m (some rhs) expr es [] ≡ ok tt []
    → All (λ e. NoType m e ⊎ Takes m rhs e) es
unfolding check_targets
targets_typed m rhs expr [] s r q = tt
targets_typed m rhs expr (e ∷ es) s r q =
    let others = check_targets-Grows m (some rhs) expr es in
    let (o, v, q₁) =
      silent_cast (visit_expression m e) _ tt
        (λ o. Grows-bind _ _ (typed_target-Grows o (some rhs) expr e) (λ u. others)) q in
    let (u, w, q₂) = silent_bind (typed_target o (some rhs) expr e) _ tt (λ u. others) q₁ in
    (silent_target m rhs expr e o s r v w, targets_typed m rhs expr es s r q₂)

assignment_typed :
    (m : SymbolTable) (a : AssignmentStatement)
    → AllSound m
    → check_assignment m a [] ≡ ok tt []
    → AssignmentTyped m a
unfolding check_assignment
assignment_typed m a s q =
    let (o, v, w) =
      silent_cast (visit_expression m a.expr) _ tt (λ o. check_targets-Grows m o a.expr a.targets)
        q in
    by_type o v w
  where
    by_type :
        (o : Option SemaType)
        → visit_expression m a.expr [] ≡ ok (typed o) []
        → check_targets m o a.expr a.targets [] ≡ ok tt []
        → AssignmentTyped m a
    by_type none v w = inl v
    by_type (some rhs) v w =
        let h = ((visit_expression_iff m a.expr rhs [] []).0 v).0 in
        inr (rhs, h, targets_typed m rhs a.expr a.targets s (HasType-IsRooted s h) w)

pub definition_typed :
    (m : SymbolTable) (d : VariableDefinition)
    → check_definition m d [] ≡ ok tt []
    → DefinitionTyped m d
unfolding check_definition
definition_typed m d e = named (type_of m d.name) refl e
  where
    untyped : (ty : SemaType) → typed none ≢ typed (some ty)
    untyped ty q = cc

    valued :
        (lhs : SemaType) (o : Option SemaType)
        → visit_literal d.value [] ≡ ok (typed o) []
        → literal_rhs o lhs d [] ≡ ok tt []
        → (rhs : SemaType) × LiteralType d.value.type rhs × Assignable rhs lhs
    valued lhs none v w =
        let (ty, same, _) = literal-typed d.value.type d.value (typed none) [] [] refl v in
        absurd (untyped ty same)
    valued lhs (some rhs) v w =
        let h = ((visit_literal_iff d.value.type d.value rhs [] [] refl).0 v).0 in
        (rhs, h, silent_test rhs lhs _ (LiteralType-IsRooted d.value.type h) w)

    named : (l : Lookup) → type_of m d.name ≡ l → looked_up l d [] ≡ ok tt [] → DefinitionTyped m d
    named (found lhs) k q =
        let (o, v, w) =
          silent_cast (visit_literal d.value) (λ o. literal_rhs o lhs d) tt
            (λ o. literal_rhs-Grows o lhs d) q in
        let (rhs, h, a) = valued lhs o v w in (lhs, rhs, k, h, a)
    named missing k q = cc
    named unreachable k q = cc

-- A program that the checker goes through with nothing to report, at a table whose types have `object`
-- at the root, is typed. Each definition's name stands for a variable whose type takes its literal. The
-- expression of each assignment has no type, or it has one, and each target that has a type takes it.
pub check_program-All :
    (m : SymbolTable) (cs : Program)
    → AllSound m
    → check_program m cs [] ≡ ok tt []
    → All (ChildTyped m) cs
unfolding check_program check_child
check_program-All m [] s q = tt
check_program-All m (variable_definition d ∷ cs) s q =
    let (u, v, w) = silent_bind (check_definition m d) _ tt (λ u. check_program-Grows m cs) q in
    (definition_typed m d v, check_program-All m cs s w)
check_program-All m (statement a ∷ cs) s q =
    let (u, v, w) = silent_bind (check_assignment m a) _ tt (λ u. check_program-Grows m cs) q in
    (assignment_typed m a s v, check_program-All m cs s w)
