-- ===== src/Semantic/Defined.antt =====
-- Where the variables come from that `src/semantic/SymbolTableBuilder.cpp` leaves in the symbol table.
use choco_c.Prelude.{
  ◌≡◌, sym, subst, ◌⊎◌, inl, inr, [], ◌∷◌, some, some-injective, Bool-cases, Text, text_eq,
  text_eq_iff, arith,
}
use choco_c.Diagnostics.{DiagnosticsManager}
use choco_c.Ast.{VariableDefinition, variable_definition, statement, Program}
use choco_c.Semantic.SymbolTable.{
  Variable, SymbolTable, SymbolTableEntry, variable, make_variable, get_entry, add_entry,
  get_entry-add_entry, initial_entries,
}
use choco_c.Semantic.SymbolTableBuilder.{
  SymbolTableBuilder, visit_definition, visit_child, build, new_builder,
}
use choco_c.Semantic.Built.{visit_definition-cases, build-cons}
use choco_c.Semantic.Names.{IsVariable}

-- The program defines the name.
unfoldable pub DefinedIn : Text → Program → Type 0
DefinedIn n [] = ⊥
DefinedIn n (variable_definition d ∷ cs) = (d.name.text ≡ n) ⊎ DefinedIn n cs
DefinedIn n (statement s ∷ cs) = DefinedIn n cs

-- An entry that is not the new one was there before.
earlier_entry :
    (name n : Text) (e x : SymbolTableEntry) (m : SymbolTable)
    → get_entry n (add_entry name e m) ≡ some x
    → (name ≡ n) ⊎ (get_entry n m ≡ some x)
unfolding get_entry add_entry
earlier_entry name n e x m q = elim (Bool-cases (text_eq name n)) [
  | inl t ↦ inl ((text_eq_iff name n).0 t)
  | inr t ↦ inr rw t at (rw (get_entry-add_entry name n e m) at q)
]

definition-IsVariable :
    (b : SymbolTableBuilder) (d : VariableDefinition) (n : Text)
    → IsVariable (visit_definition b d).symbol_table n
    → (d.name.text ≡ n) ⊎ IsVariable b.symbol_table n
definition-IsVariable b d n (v, q) = elim (visit_definition-cases b d) [
  | inl (same, k) ↦ inr (v, rw same at q)
  | inr (t, h, new, same) ↦
      elim (earlier_entry d.name.text n (variable (make_variable t)) (variable v) b.symbol_table
        (rw same at q)) [ inl e ↦ inl e | inr e ↦ inr (v, e) ]
]

build-DefinedIn :
    (b b' : SymbolTableBuilder) (p : Program) (n : Text)
    → build b p ≡ some b'
    → IsVariable b'.symbol_table n
    → DefinedIn n p ⊎ IsVariable b.symbol_table n
unfolding build DefinedIn visit_child
build-DefinedIn b b' [] n e v = inr (
    subst (λ (x : SymbolTableBuilder). IsVariable x.symbol_table n) (sym (some-injective b b' e)) v)
build-DefinedIn b b' (variable_definition d ∷ cs) n e v =
    elim (build-DefinedIn (visit_definition b d) b' cs n e v) [
      | inl h ↦ inl (inr h)
      | inr h ↦ elim (definition-IsVariable b d n h) [ inl q ↦ inl (inl q) | inr q ↦ inr q ]
    ]
build-DefinedIn b b' (statement s ∷ cs) n e v =
    let (b₁, h, k) = build-cons b (statement s) cs e in
    let same : b₁ ≡ b = ground arith in
    build-DefinedIn b b' cs n (subst (λ x. build x cs ≡ some b') same k) v

no_variables : (n : Text) (v : Variable) → get_entry n initial_entries ≡ some (variable v) → ⊥
unfolding get_entry
no_variables n v q = ground arith

-- A new builder has no variable, so every variable of the table that the pass over a program leaves is defined
-- in the program.
pub new_builder-DefinedIn :
    (ds : DiagnosticsManager) (b : SymbolTableBuilder) (p : Program) (n : Text)
    → build (new_builder ds) p ≡ some b
    → IsVariable b.symbol_table n
    → DefinedIn n p
new_builder-DefinedIn ds b p n e v = elim (build-DefinedIn (new_builder ds) b p n e v) [
  | inl h ↦ h
  | inr (w, q) ↦ absurd (no_variables n w q)
]
