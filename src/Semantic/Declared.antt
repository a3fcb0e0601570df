-- ===== src/Semantic/Declared.antt =====
-- What `src/semantic/SymbolTableBuilder.cpp` goes through with nothing to report has been declared.
use choco_c.Prelude.{
  ◌≤◌, ◌≡◌, sym, subst, inl, inr, [], ◌∷◌, some, Option-cases, All, arith, length,
}
use choco_c.Ast.{
  Expression, literal, identifier, grouping, grouping_null, unary, binary, walk,
  AssignmentStatement, Child, variable_definition, statement, Program,
}
use choco_c.Semantic.SymbolTable.{variable, make_variable, add_entry}
use choco_c.Semantic.SymbolTableBuilder.{SymbolTableBuilder, visit_child, build}
use choco_c.Semantic.Built.{visit_definition-cases, Extends-build, build-cons}
use choco_c.Semantic.Accepts.{Declares, no_more, declares, assigns}
use choco_c.Parser.Grammar.{Filled}

walk-Filled : (e : Expression) → walk e ≡ some tt → Filled e
unfolding walk
walk-Filled (literal t) h = tt
walk-Filled (identifier t) h = tt
walk-Filled (grouping e r) h = walk-Filled e h
walk-Filled (grouping_null r) h = cc
walk-Filled (unary op e) h = walk-Filled e h
walk-Filled (binary l op r) h = elim (Option-cases (walk l)) [
  | inl n ↦ absurd (ground arith)
  | inr (u, k) ↦ (walk-Filled l k, walk-Filled r (ground arith))
]

-- An assignment's expression has no empty parentheses.
abbrev pub FilledChild : Child → Type 0
FilledChild (variable_definition d) = Unit {0}
FilledChild (statement a) = Filled a.expr

visit_child-Filled :
    (b b' : SymbolTableBuilder) (a : AssignmentStatement)
    → visit_child b (statement a) ≡ some b'
    → Filled a.expr × (b ≡ b')
unfolding visit_child
visit_child-Filled b b' a h = elim (Option-cases (walk a.expr)) [
  | inl n ↦ absurd (ground arith)
  | inr (u, k) ↦ (walk-Filled a.expr k, ground arith)
]

-- A program that the builder goes through with nothing to report declares its variables, and none of its
-- expressions has empty parentheses.
pub build-Declared :
    (b b' : SymbolTableBuilder) (cs : Program)
    → build b cs ≡ some b'
    → length b'.diag_manager ≤ length b.diag_manager
    → Declares b.symbol_table cs b'.symbol_table × All FilledChild cs
unfolding build visit_child
build-Declared b b' [] e l =
    let same : b ≡ b' = cc in
    (subst (λ x. Declares b.symbol_table [] x.symbol_table) same no_more, tt)
build-Declared b b' (variable_definition d ∷ cs) e l =
    let (b₁, h, k) = build-cons b (variable_definition d) cs e in
    let later = Extends-build b₁ cs k in
    elim (visit_definition-cases b d) [
      | inl (q, r) ↦ absurd (ground (arith, later.longer))
      | inr (t, known, new, q) ↦
          let next : SymbolTableBuilder = record b {
            symbol_table = add_entry d.name.text (variable (make_variable t)) b.symbol_table;
          } in
          let same : b₁ ≡ next = ground arith in
          let (more, w) = build-Declared next b' cs (subst (λ x. build x cs ≡ some b') same k) l in
          (declares new known more, (tt, w))
    ]
build-Declared b b' (statement a ∷ cs) e l =
    let (b₁, h, k) = build-cons b (statement a) cs e in
    let (f, same) = visit_child-Filled b b₁ a h in
    let (more, w) = build-Declared b b' cs (subst (λ x. build x cs ≡ some b') (sym same) k) l in
    (assigns more, (f, w))
