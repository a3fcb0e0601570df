-- ===== src/Semantic/ListTypes.antt =====
-- Types in the symbol table that `src/semantic/SymbolTableBuilder.cpp` leaves: those of a new table.
use choco_c.Prelude.{
  ℕ, zero, suc, ◌≡◌, refl, subst, ◌⊎◌, inl, inr, [], ◌∷◌, ◌++◌, replicate, none, some, Text,
  text_eq, arith, Option-cases, ◌≤◌,
}
use choco_c.Diagnostics.{DiagnosticsManager}
use choco_c.Ast.{VariableDefinition, Child, variable_definition, statement, Program, get_text}
use choco_c.Semantic.SemaType.{SemaType}
use choco_c.Semantic.SymbolTable.{
  SymbolTable, variable, type, make_variable, get_entry, add_entry, initial_entries,
}
use choco_c.Semantic.SymbolTableBuilder.{
  SymbolTableBuilder, visit_definition, visit_child, build, new_builder,
}
use choco_c.Semantic.Tables.{entry_eq, add_entry-Keeps}
use choco_c.Semantic.Built.{IsReported, Entered, visit_definition-cases, build-cons}

-- No types but those of a new table.
NoNewType : SymbolTable → Type 0
NoNewType m =
    (name : Text) (t : SemaType)
    → get_entry name m ≡ some (type t)
    → get_entry name initial_entries ≡ some (type t)

add_entry-NoNewType :
    (name : Text) (v : SemaType) (m : SymbolTable)
    → NoNewType m
    → NoNewType (add_entry name (variable (make_variable v)) m)
unfolding NoNewType
add_entry-NoNewType name v m h j t q = elim (Option-cases (get_entry j m)) [
  | inr (y, k) ↦ h j t (ground (arith, add_entry-Keeps name (variable (make_variable v)) m j y k))
  | inl k ↦ absurd (ground (arith, entry_eq name j (variable (make_variable v)) (type t) m k q))
]

visit_child-NoNewType :
    (b : SymbolTableBuilder) (c : Child) (b' : SymbolTableBuilder)
    → visit_child b c ≡ some b'
    → NoNewType b.symbol_table
    → NoNewType b'.symbol_table
unfolding visit_child
visit_child-NoNewType b (variable_definition d) b' e h =
    let same : visit_definition b d ≡ b' = ground arith in
    subst (λ (x : SymbolTableBuilder). NoNewType x.symbol_table) same
      (after (visit_definition-cases b d))
  where
    after :
        IsReported b (visit_definition b d) ⊎ Entered b d (visit_definition b d)
        → NoNewType (visit_definition b d).symbol_table
    after (inl (q, l)) = rw q h
    after (inr (t, _, _, q)) = rw q (add_entry-NoNewType d.name.text t b.symbol_table h)
visit_child-NoNewType b (statement a) b' e h =
    let same : b ≡ b' = ground arith in
    subst (λ (x : SymbolTableBuilder). NoNewType x.symbol_table) same h

build-NoNewType :
    (b : SymbolTableBuilder) (p : Program) (b' : SymbolTableBuilder)
    → build b p ≡ some b'
    → NoNewType b.symbol_table
    → NoNewType b'.symbol_table
unfolding build
build-NoNewType b [] b' e h =
    let same : b ≡ b' = ground arith in
    subst (λ (x : SymbolTableBuilder). NoNewType x.symbol_table) same h
build-NoNewType b (c ∷ cs) b' e h =
    let (b₁, q, k) = build-cons b c cs e in
    build-NoNewType b₁ cs b' k (visit_child-NoNewType b c b₁ q h)

initial_entries-bracket : (n : Text) → get_entry (b'[' ∷ n) initial_entries ≡ none
unfolding get_entry text_eq
initial_entries-bracket n = refl

-- A definition at a list type is always reported: the pass never finds the list type's name, not even
-- after the lines before, since it enters no types.
pub visit_definition-IsReported :
    (ds : DiagnosticsManager) (p : Program) (b : SymbolTableBuilder) (d : VariableDefinition)
    → build (new_builder ds) p ≡ some b
    → 1 ≤ d.type.dimension
    → IsReported b (visit_definition b d)
unfolding NoNewType get_text
visit_definition-IsReported ds p b d e h = elim (visit_definition-cases b d) [
  | inl r ↦ r
  | inr (t, q, _, _) ↦
      absurd
        (not_found d.type.dimension h t (build-NoNewType (new_builder ds) p b e (λ n t q. q) _ t q))
]
  where
    not_found :
        (n : ℕ)
        → 1 ≤ n
        → (t : SemaType)
        → get_entry
            (replicate n b'[' ++ (d.type.base_type.text ++ replicate n b']'))
            initial_entries
          ≡ some (type t)
        → ⊥
    not_found zero l t q = absurd (omega arith)
    not_found (suc n) l t q = cc (
      initial_entries-bracket
          (replicate n b'[' ++ (d.type.base_type.text ++ replicate (suc n) b']')),
      q,
    )
