-- ===== src/Semantic/Accepts.antt =====
-- Programs that `src/semantic/SymbolTableBuilder.cpp` and `src/semantic/TypeChecker.cpp` go through with
-- nothing to report, stated with neither.
use choco_c.Prelude.{
  ℕ, ◌≡◌, refl, ap, ◌∙◌, ◌⊎◌, inl, inr, true, false, ◌||◌, List, [], ◌∷◌, append-nil, Option, none,
  some, All,
}
use choco_c.TokenType.{type_eq, and, or}
use choco_c.Token.{Token, Range}
use choco_c.Diagnostics.{DiagnosticsManager}
use choco_c.Ast.{
  Expression, literal, identifier, grouping, grouping_null, unary, binary, walk, is_valid_target,
  VariableDefinition, AssignmentStatement, Child, variable_definition, statement, Program, get_text,
}
use choco_c.Semantic.SemaType.{SemaType}
use choco_c.Semantic.Assignable.{Assignable}
use choco_c.Semantic.SymbolTable.{
  SymbolTable, variable, type, make_variable, get_entry, add_entry, type_of, found,
}
use choco_c.Semantic.SymbolTableBuilder.{
  SymbolTableBuilder, enter, visit_definition, visit_child, walk_all, build,
}
use choco_c.Semantic.TypeChecker.{
  ok, typed, visit_expression, check_operands, check_operator, check_assignment, check_child,
  check_program,
}
use choco_c.Semantic.Typing.{LiteralType, HasType, HasType-visit_expression, check_targets-none}
use choco_c.Semantic.Tables.{AllSound}
use choco_c.Semantic.Checked.{Takes, check_definition_lem, check_assignment_lem}
use choco_c.Parser.Grammar.{Filled}

-- The definitions of a program, each of a new name at a type of the table, take one table to another.
pub data Declares : SymbolTable → Program → SymbolTable → Type 0 where
  no_more : {m : SymbolTable} → Declares m [] m
  declares :
      {d : VariableDefinition} {t : SemaType} {m m' : SymbolTable} {cs : Program}
      → get_entry d.name.text m ≡ none
      → get_entry (get_text d.type) m ≡ some (type t)
      → Declares (add_entry d.name.text (variable (make_variable t)) m) cs m'
      → Declares m (variable_definition d ∷ cs) m'
  assigns :
      {a : AssignmentStatement} {m m' : SymbolTable} {cs : Program}
      → Declares m cs m'
      → Declares m (statement a ∷ cs) m'

-- The type that an expression gets, if any: arithmetic and comparisons get none, nor does what has an operand
-- without a type.
pub data Gets (m : SymbolTable) : Expression → Option SemaType → Type 0 where
  by_rule : {e : Expression} {ty : SemaType} → HasType m e ty → Gets m e (some ty)
  grouped :
      {e : Expression} {r : Range} {o : Option SemaType} → Gets m e o → Gets m (grouping e r) o
  arithmetic :
      (t u : SemaType) {op : Token} {l r : Expression}
      → (type_eq op.type and || type_eq op.type or) ≡ false
      → Gets m l (some t)
      → Gets m r (some u)
      → Gets m (binary l op r) none
  left_untyped :
      {op : Token} {l r : Expression} {o : Option SemaType}
      → Gets m l none
      → Gets m r o
      → Gets m (binary l op r) none
  right_untyped :
      {op : Token} {l r : Expression} {o : Option SemaType}
      → Gets m l o
      → Gets m r none
      → Gets m (binary l op r) none

-- A literal that its variable takes; an expression that each target takes, if it gets a type.
abbrev pub Accepted : SymbolTable → Child → Type 0
Accepted m (variable_definition d) =
    (lhs rhs : SemaType) × (type_of m d.name ≡ found lhs)
    × LiteralType d.value.type rhs
    × Assignable rhs lhs
Accepted m (statement a) =
    (Gets m a.expr none × All (λ e. (ty : SemaType) × HasType m e ty) a.targets)
    ⊎ ((rhs : SemaType) × HasType m a.expr rhs × All (Takes m rhs) a.targets)

Filled-walk : (e : Expression) → Filled e → walk e ≡ some tt
unfolding walk
Filled-walk (literal t) h = refl
Filled-walk (identifier t) h = refl
Filled-walk (grouping e r) h = Filled-walk e h
Filled-walk (grouping_null r) h = absurd h
Filled-walk (unary op e) h = Filled-walk e h
Filled-walk (binary l op r) h = rw (Filled-walk l h.0) (Filled-walk r h.1)

targets-walk_all :
    (es : List Expression) → All (λ e. is_valid_target e ≡ true) es → walk_all es ≡ some tt
unfolding walk_all is_valid_target walk
targets-walk_all [] h = refl
targets-walk_all (identifier t ∷ es) h = targets-walk_all es h.1
targets-walk_all (literal t ∷ es) h = cc
targets-walk_all (grouping e r ∷ es) h = cc
targets-walk_all (grouping_null r ∷ es) h = cc
targets-walk_all (unary op e ∷ es) h = cc
targets-walk_all (binary l op r ∷ es) h = cc

-- The targets are names and the expression has no empty parentheses.
abbrev pub Walkable : Child → Type 0
Walkable (variable_definition d) = Unit {0}
Walkable (statement a) = All (λ e. is_valid_target e ≡ true) a.targets × Filled a.expr

abbrev builder : SymbolTable → DiagnosticsManager → SymbolTableBuilder
builder m ds = record { symbol_table = m; diag_manager = ds }

-- The builder goes through declarations with nothing to report.
pub build-Declares :
    (ds : DiagnosticsManager) {m m' : SymbolTable} {cs : Program}
    → Declares m cs m'
    → All Walkable cs
    → build (builder m ds) cs ≡ some (builder m' ds)
unfolding build visit_child visit_definition enter get_entry
build-Declares ds no_more w = refl
build-Declares ds (declares {d} new known more) w =
    rw (build, new, known) (build-Declares ds more w.1)
build-Declares ds (assigns {a} more) w =
    rw (build, targets-walk_all a.targets w.0.0, Filled-walk a.expr w.0.1)
      (build-Declares ds more w.1)

check_operands-arithmetic :
    (op : Token) (start : ℕ) (t u : SemaType) (ds : DiagnosticsManager)
    → (type_eq op.type and || type_eq op.type or) ≡ false
    → check_operands op start (some t) (some u) ds ≡ ok (typed none) ds
unfolding check_operands check_operator
check_operands-arithmetic op start t u ds h = rw h

check_operands-untyped :
    (op : Token) (start : ℕ) (o o' : Option SemaType) (ds : DiagnosticsManager)
    → (o ≡ none) ⊎ (o' ≡ none)
    → check_operands op start o o' ds ≡ ok (typed none) ds
unfolding check_operands
check_operands-untyped op start none o' ds h = refl
check_operands-untyped op start (some t) none ds h = refl
check_operands-untyped op start (some t) (some u) ds (inl h) = cc
check_operands-untyped op start (some t) (some u) ds (inr h) = cc

pub visit_expression-Gets :
    (m : SymbolTable) (ds : DiagnosticsManager) {e : Expression} {o : Option SemaType}
    → Gets m e o
    → visit_expression m e ds ≡ ok (typed o) ds
unfolding visit_expression
visit_expression-Gets m ds (by_rule h) = HasType-visit_expression m ds h
visit_expression-Gets m ds (grouped h) = visit_expression-Gets m ds h
visit_expression-Gets m ds (arithmetic t u {op} n hl hr) =
    rw (visit_expression-Gets m ds hl, visit_expression-Gets m ds hr)
      (check_operands-arithmetic op _ t u ds n)
visit_expression-Gets m ds (left_untyped {op} {o} hl hr) =
    rw (visit_expression-Gets m ds hl, visit_expression-Gets m ds hr)
      (check_operands-untyped op _ none o ds (inl refl))
visit_expression-Gets m ds (right_untyped {op} {o} hl hr) =
    rw (visit_expression-Gets m ds hl, visit_expression-Gets m ds hr)
      (check_operands-untyped op _ o none ds (inr refl))

All-typed :
    (m : SymbolTable) (rhs : SemaType) (es : List Expression)
    → All (Takes m rhs) es
    → All (λ e. (ty : SemaType) × HasType m e ty) es
All-typed m rhs [] h = tt
All-typed m rhs (e ∷ es) ((ty, k, a), hs) = ((ty, k), All-typed m rhs es hs)

check_child-Accepted :
    (m : SymbolTable) (c : Child) (ds : DiagnosticsManager)
    → AllSound m
    → Accepted m c
    → check_child m c ds ≡ ok tt ds
unfolding check_child
check_child-Accepted m (variable_definition d) ds s (lhs, rhs, h, l, a) =
    let (xs, q, i) = check_definition_lem m d lhs rhs ds h l in
    q ∙ ap (ok tt) (rw (i.1 a) (append-nil ds))
check_child-Accepted m (statement a) ds s (inl (h, hs)) =
    unfold check_assignment in
    rw (visit_expression-Gets m ds h) (check_targets-none m a.expr a.targets ds hs)
check_child-Accepted m (statement a) ds s (inr (rhs, h, hs)) =
    let (xs, q, i) = check_assignment_lem m a rhs ds s h (All-typed m rhs a.targets hs) in
    q ∙ ap (ok tt) (rw (i.1 hs) (append-nil ds))

-- The checker goes through accepted children with nothing to report.
pub check_program-Accepted :
    (m : SymbolTable) (cs : Program) (ds : DiagnosticsManager)
    → AllSound m
    → All (Accepted m) cs
    → check_program m cs ds ≡ ok tt ds
unfolding check_program
check_program-Accepted m [] ds s h = refl
check_program-Accepted m (c ∷ cs) ds s h =
    rw (check_child-Accepted m c ds s h.0) (check_program-Accepted m cs ds s h.1)
