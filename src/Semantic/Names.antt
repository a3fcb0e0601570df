-- ===== src/Semantic/Names.antt =====
-- The names in a program that `src/semantic/TypeChecker.cpp` goes through with nothing to report.
use choco_c.Prelude.{◌≡◌, refl, List, [], ◌∷◌, All, Option, none, some, Text, arith}
use choco_c.Token.{Token}
use choco_c.Ast.{
  Expression, literal, identifier, grouping, grouping_null, unary, binary, get_location,
  AssignmentStatement, Child, variable_definition, statement, Program,
}
use choco_c.Semantic.SemaType.{SemaType}
use choco_c.Semantic.SymbolTable.{
  SymbolTable, SymbolTableEntry, Variable, variable, type, get_entry, type_of, type_of_entry,
  Lookup, found, missing, unreachable,
}
use choco_c.Semantic.TypeChecker.{
  typed, empty, ok, any_cast, visit_identifier, visit_expression, check_definition, check_targets,
  check_assignment, check_child, check_program,
}
use choco_c.Semantic.Grows.{
  Grows-bind, any_cast-Grows, pure-Grows, visit_expression-Grows, check_operands-Grows,
  typed_target, typed_target-Grows, check_targets-Grows, check_program-Grows,
}
use choco_c.Semantic.Accepted.{silent_bind, silent_cast}

-- A name that leads to a variable.
abbrev pub IsVariable : SymbolTable → Text → Type 0
IsVariable m n = (v : Variable) × (get_entry n m ≡ some (variable v))

-- Every name in the expression leads to a variable; no parentheses are empty, and there is no unary operator.
unfoldable pub KnownNames : SymbolTable → Expression → Type 0
KnownNames m (literal t) = Unit
KnownNames m (identifier t) = IsVariable m t.text
KnownNames m (grouping e r) = KnownNames m e
KnownNames m (grouping_null r) = ⊥
KnownNames m (unary op e) = ⊥
KnownNames m (binary l op r) = KnownNames m l × KnownNames m r

abbrev pub KnownChild : SymbolTable → Child → Type 0
KnownChild m (variable_definition d) = Unit
KnownChild m (statement s) = All (KnownNames m) s.targets × KnownNames m s.expr

found-IsVariable :
    (n : Text) (m : SymbolTable) (o : Option SymbolTableEntry) (ty : SemaType)
    → get_entry n m ≡ o
    → type_of_entry o ≡ found ty
    → IsVariable m n
found-IsVariable n m none ty e q = cc
found-IsVariable n m (some (variable v)) ty e q = (v, e)
found-IsVariable n m (some (type t)) ty e q = cc

silent_identifier :
    (m : SymbolTable) (t : Token) (l : Lookup) (o : Option SemaType)
    → type_of m t ≡ l
    → visit_identifier m t [] ≡ ok (typed o) []
    → IsVariable m t.text
unfolding visit_identifier type_of
silent_identifier m t (found ty) o k e = found-IsVariable t.text m (get_entry t.text m) ty refl k
silent_identifier m t missing o k e = absurd (ground arith)
silent_identifier m t unreachable o k e = absurd (ground arith)

pub silent_expression-KnownNames :
    (m : SymbolTable) (e : Expression) (o : Option SemaType)
    → visit_expression m e [] ≡ ok (typed o) []
    → KnownNames m e
unfolding visit_expression KnownNames
silent_expression-KnownNames m (literal t) o q = tt
silent_expression-KnownNames m (identifier t) o q = silent_identifier m t (type_of m t) o refl q
silent_expression-KnownNames m (grouping e r) o q = silent_expression-KnownNames m e o q
silent_expression-KnownNames m (grouping_null r) o q = cc
silent_expression-KnownNames m (unary op e) o q =
    let (a, v, w) = silent_bind (visit_expression m e) _ (typed o) (λ a. pure-Grows empty) q in
    absurd (cc)
silent_expression-KnownNames m (binary l op r) o q =
    let start = (get_location (binary l op r)).start in
    let (lhs, v, w) =
      silent_cast (visit_expression m l) _ (typed o)
        (λ lt. Grows-bind (visit_expression m r) _ (visit_expression-Grows m r) (λ b.
          Grows-bind (any_cast b) _ (any_cast-Grows b) (λ rt. check_operands-Grows op start lt rt)))
        q in
    let (rhs, v', w') =
      silent_cast (visit_expression m r) _ (typed o) (λ rt. check_operands-Grows op start lhs rt)
        w in
    (silent_expression-KnownNames m l lhs v, silent_expression-KnownNames m r rhs v')

silent_targets :
    (m : SymbolTable) (rhs : Option SemaType) (expr : Expression) (es : List Expression)
    → check_targets m rhs expr es [] ≡ ok tt []
    → All (KnownNames m) es
unfolding check_targets
silent_targets m rhs expr [] q = tt
silent_targets m rhs expr (e ∷ es) q =
    let others = check_targets-Grows m rhs expr es in
    let (o, v, q₁) =
      silent_cast (visit_expression m e) _ tt
        (λ o. Grows-bind _ _ (typed_target-Grows o rhs expr e) (λ u. others)) q in
    let (u, w, q₂) = silent_bind (typed_target o rhs expr e) _ tt (λ u. others) q₁ in
    (silent_expression-KnownNames m e o v, silent_targets m rhs expr es q₂)

silent_assignment :
    (m : SymbolTable) (s : AssignmentStatement)
    → check_assignment m s [] ≡ ok tt []
    → KnownChild m (statement s)
unfolding check_assignment
silent_assignment m s q =
    let (o, v, w) =
      silent_cast (visit_expression m s.expr) _ tt (λ o. check_targets-Grows m o s.expr s.targets)
        q in
    (silent_targets m o s.expr s.targets w, silent_expression-KnownNames m s.expr o v)

-- In a program that the checker goes through with nothing to report, every name in the targets and the
-- expressions of the assignments leads to a variable of the symbol table.
pub check_program-Known :
    (m : SymbolTable) (cs : Program) → check_program m cs [] ≡ ok tt [] → All (KnownChild m) cs
unfolding check_program check_child
check_program-Known m [] q = tt
check_program-Known m (variable_definition d ∷ cs) q =
    let (u, v, w) = silent_bind (check_definition m d) _ tt (λ u. check_program-Grows m cs) q in
    (tt, check_program-Known m cs w)
check_program-Known m (statement s ∷ cs) q =
    let (u, v, w) = silent_bind (check_assignment m s) _ tt (λ u. check_program-Grows m cs) q in
    (silent_assignment m s v, check_program-Known m cs w)
