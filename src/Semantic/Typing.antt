-- ===== src/Semantic/Typing.antt =====
-- The expressions that `src/semantic/TypeChecker.cpp` gives a type to, against typing rules.
use choco_c.Prelude.{
  ℕ, ◌≡◌, ◌≢◌, refl, ◌∙◌, ◌↔◌, ◌⊎◌, true, false, ◌||◌, List, [], ◌∷◌, Option, none, some, arith,
  All,
}
use choco_c.TokenType.{
  TokenType, type_eq, and, or, true_kw, false_kw, id_string, string, int_lit, none_kw,
}
use choco_c.Token.{Token, Range, one_of}
use choco_c.Diagnostics.{DiagnosticsManager}
use choco_c.Ast.{Expression, literal, identifier, grouping, grouping_null, unary, binary}
use choco_c.Semantic.SemaType.{
  SemaType, boolean_type, string_type, integer_type, none_type, is_boolean, same_type_iff,
}
use choco_c.Semantic.SymbolTable.{SymbolTable, type_of, found}
use choco_c.Semantic.TypeChecker.{
  AnyType, typed, empty, Outcome, ok, undefined, bad_any_cast, bind, Check, any_cast, ◌>>=◌, pure,
  visit_identifier, visit_literal, check_operands, visit_expression, check_assignment,
  check_targets,
}

-- The type of a literal, by the type of its token.
abbrev pub LiteralType : TokenType → SemaType → Type 0
LiteralType k ty =
    ((one_of k (true_kw ∷ false_kw ∷ []) ≡ true) × (ty ≡ boolean_type))
    ⊎ ((one_of k (id_string ∷ string ∷ []) ≡ true) × (ty ≡ string_type))
    ⊎ ((one_of k (int_lit ∷ []) ≡ true) × (ty ≡ integer_type))
    ⊎ ((one_of k (none_kw ∷ []) ≡ true) × (ty ≡ none_type))

-- The typing rules: a variable has its type, a literal that of its kind, a grouping that of what it
-- groups, and `and` and `or` take and give `bool`.
pub data HasType (m : SymbolTable) : Expression → SemaType → Type 0 where
  of_variable : {t : Token} {ty : SemaType} → type_of m t ≡ found ty → HasType m (identifier t) ty
  of_literal : {t : Token} {ty : SemaType} → LiteralType t.type ty → HasType m (literal t) ty
  of_grouping :
      {e : Expression} {r : Range} {ty : SemaType} → HasType m e ty → HasType m (grouping e r) ty
  of_logic :
      {op : Token} {l r : Expression} {ty : SemaType}
      → (type_eq op.type and || type_eq op.type or) ≡ true
      → HasType m l boolean_type
      → HasType m r boolean_type
      → ty ≡ boolean_type
      → HasType m (binary l op r) ty

-- A visit and the cast of its value that succeeded, taken apart.
pub cast-ok :
    {B : Type 0} (r : Outcome AnyType) (f : Option SemaType → Check B) {ds' : DiagnosticsManager}
    {b : B}
    → bind r (λ a. any_cast a >>= f) ≡ ok b ds'
    → (o : Option SemaType) × (ds : DiagnosticsManager) × (r ≡ ok (typed o) ds)
      × (f o ds ≡ ok b ds')
cast-ok (ok (typed o) ds) f e = (o, ds, refl, e)
cast-ok (ok empty ds) f e = cc
cast-ok undefined f e = cc
cast-ok bad_any_cast f e = cc

unary-ok :
    (r : Outcome AnyType) {ty : SemaType} {ds' : DiagnosticsManager}
    → bind r (λ a. pure empty) ≢ ok (typed (some ty)) ds'
unary-ok (ok a ds) e = cc
unary-ok undefined e = cc
unary-ok bad_any_cast e = cc

visit_identifier_iff :
    (m : SymbolTable) (t : Token) (ty : SemaType) (ds ds' : DiagnosticsManager)
    → (visit_identifier m t ds ≡ ok (typed (some ty)) ds') ↔ ((type_of m t ≡ found ty) × (ds' ≡ ds))
unfolding visit_identifier
visit_identifier_iff m t ty ds ds' = ground arith

check_operands-ok :
    (op : Token) (start : ℕ) (o o' : Option SemaType) {ty : SemaType} {ds ds' : DiagnosticsManager}
    → check_operands op start o o' ds ≡ ok (typed (some ty)) ds'
    → (o ≡ some boolean_type)
      × (o' ≡ some boolean_type)
      × ((type_eq op.type and || type_eq op.type or) ≡ true)
      × (ty ≡ boolean_type)
      × (ds' ≡ ds)
unfolding check_operands is_boolean
check_operands-ok op start (some l) (some r) e =
    ground (arith, same_type_iff l boolean_type, same_type_iff r boolean_type)
check_operands-ok op start (some l) none e = cc
check_operands-ok op start none o' e = cc

pub visit_literal_iff :
    (k : TokenType) (t : Token) (ty : SemaType) (ds ds' : DiagnosticsManager)
    → t.type ≡ k
    → (visit_literal t ds ≡ ok (typed (some ty)) ds') ↔ (LiteralType k ty × (ds' ≡ ds))
unfolding visit_literal one_of type_eq
visit_literal_iff true_kw t ty ds ds' e = ground arith
visit_literal_iff _ t ty ds ds' e = ground arith

visit_expression-HasType :
    (m : SymbolTable) (e : Expression) {ty : SemaType} {ds ds' : DiagnosticsManager}
    → visit_expression m e ds ≡ ok (typed (some ty)) ds'
    → HasType m e ty × (ds' ≡ ds)
unfolding visit_expression
visit_expression-HasType m (literal t) {ty} {ds} {ds'} q =
    let (h, e) = (visit_literal_iff t.type t ty ds ds' refl).0 q in (of_literal h, e)
visit_expression-HasType m (identifier t) {ty} {ds} {ds'} q =
    let (h, e) = (visit_identifier_iff m t ty ds ds').0 q in (of_variable h, e)
visit_expression-HasType m (grouping e r) q =
    let (h, d) = visit_expression-HasType m e q in (of_grouping h, d)
visit_expression-HasType m (grouping_null r) q = cc
visit_expression-HasType m (unary op e) {ds} q = absurd (unary-ok (visit_expression m e ds) q)
visit_expression-HasType m (binary l op r) {ds} q =
    let (o, ds₁, q₁, q₂) = cast-ok (visit_expression m l ds) _ q in
    let (o', ds₂, q₃, q₄) = cast-ok (visit_expression m r ds₁) _ q₂ in
    let (l_bool, r_bool, logic, is_bool, d) = check_operands-ok op _ o o' q₄ in
    let (hl, dl) = visit_expression-HasType m l (rw l_bool at q₁) in
    let (hr, dr) = visit_expression-HasType m r (rw r_bool at q₃) in
    (of_logic logic hl hr is_bool, d ∙ dr ∙ dl)

check_operands_logic :
    (op : Token) (start : ℕ) (ds : DiagnosticsManager)
    → (type_eq op.type and || type_eq op.type or) ≡ true
    → check_operands op start (some boolean_type) (some boolean_type) ds
      ≡ ok (typed (some boolean_type)) ds
unfolding check_operands is_boolean
check_operands_logic op start ds h = ground (arith, same_type_iff boolean_type boolean_type)

pub HasType-visit_expression :
    (m : SymbolTable) {e : Expression} {ty : SemaType} (ds : DiagnosticsManager)
    → HasType m e ty
    → visit_expression m e ds ≡ ok (typed (some ty)) ds
unfolding visit_expression
HasType-visit_expression m ds (of_variable {t} {ty} h) =
    (visit_identifier_iff m t ty ds ds).1 (h, refl)
HasType-visit_expression m ds (of_literal {t} {ty} h) =
    (visit_literal_iff t.type t ty ds ds refl).1 (h, refl)
HasType-visit_expression m ds (of_grouping h) = HasType-visit_expression m ds h
HasType-visit_expression m ds (of_logic {op} logic hl hr e) =
    rw (HasType-visit_expression m ds hl, HasType-visit_expression m ds hr, e)
      (check_operands_logic op _ ds logic)

-- The checker gives an expression a type exactly where the typing rules do, the same type, and then it
-- reports nothing.
pub visit_expression_iff :
    (m : SymbolTable) (e : Expression) (ty : SemaType) (ds ds' : DiagnosticsManager)
    → (visit_expression m e ds ≡ ok (typed (some ty)) ds') ↔ (HasType m e ty × (ds' ≡ ds))
visit_expression_iff m e ty ds ds' =
    (visit_expression-HasType m e, λ (h, d). rw d (HasType-visit_expression m ds h))

-- A unary expression on the right of an assignment ends the checker by an exception, whatever its
-- operand is, where the checker gets through the operand at all.
pub check_assignment_unary :
    (m : SymbolTable) (op : Token) (e : Expression) (targets : List Expression) (a : AnyType)
    (ds ds' : DiagnosticsManager)
    → visit_expression m e ds ≡ ok a ds'
    → check_assignment m (record { targets = targets; expr = unary op e }) ds ≡ bad_any_cast
unfolding check_assignment visit_expression
check_assignment_unary m op e targets a ds ds' h = rw h

pub check_targets-none :
    (m : SymbolTable) (expr : Expression) (targets : List Expression) (ds : DiagnosticsManager)
    → All (λ e. (ty : SemaType) × HasType m e ty) targets
    → check_targets m none expr targets ds ≡ ok tt ds
unfolding check_targets
check_targets-none m expr [] ds h = refl
check_targets-none m expr (e ∷ es) ds ((ty, h), hs) =
    rw (HasType-visit_expression m ds h) (check_targets-none m expr es ds hs)

-- Arithmetic and comparisons on operands that have types have no type for the checker: an assignment of
-- one is no mismatch, of whatever types its targets are.
pub check_assignment_arithmetic :
    (m : SymbolTable) (op : Token) (l r : Expression) (lhs rhs : SemaType)
    (targets : List Expression) (ds : DiagnosticsManager)
    → HasType m l lhs
    → HasType m r rhs
    → (type_eq op.type and || type_eq op.type or) ≡ false
    → All (λ e. (ty : SemaType) × HasType m e ty) targets
    → check_assignment m (record { targets = targets; expr = binary l op r }) ds ≡ ok tt ds
unfolding check_assignment visit_expression check_operands
check_assignment_arithmetic m op l r lhs rhs targets ds hl hr h hs =
    rw (HasType-visit_expression m ds hl, HasType-visit_expression m ds hr, h)
      (check_targets-none m _ targets ds hs)
