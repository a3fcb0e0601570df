-- ===== src/CodeGenerator/Tables.antt =====
-- The symbol table under the code generator of `src/ir/LLVM.cpp`.
use choco_c.Prelude.{
  ℕ, ◌≡◌, refl, inl, inr, false, [], ◌∷◌, Option, some, Text, text_eq, text_eq_iff, Bool-cases, ap,
  ◌∙◌, arith, if◌then◌else◌,
}
use choco_c.Semantic.SymbolTable.{
  Variable, SymbolTableEntry, variable, type, SymbolTable, get_entry,
}
use choco_c.CodeGenerator.Visits.{set_allocation}

with_allocation : ℕ → Option SymbolTableEntry → Option SymbolTableEntry
with_allocation a (some (variable v)) = some (variable (record v { allocation = some a }))
with_allocation a o = o

-- The name that was allocated.
pub get_entry-set_allocation :
    (name : Text) (a : ℕ) (x : Variable) (m : SymbolTable)
    → get_entry name m ≡ some (variable x)
    → get_entry name (set_allocation name a m) ≡ some (variable (record x { allocation = some a }))
unfolding get_entry set_allocation with_allocation
get_entry-set_allocation name a x [] e = cc
get_entry-set_allocation name a x ((n, type t) ∷ m) e = elim (Bool-cases (text_eq n name)) [
  | inl q ↦ absurd (ground arith)
  | inr q ↦
      rw (set_allocation, q, get_entry, q)
        (get_entry-set_allocation name a x m (rw (get_entry, q) at e))
]
get_entry-set_allocation name a x ((n, variable y) ∷ m) e = elim (Bool-cases (text_eq n name)) [
  | inl q ↦ rw (set_allocation, q, get_entry, q) (ap (with_allocation a) (rw (get_entry, q) at e))
  | inr q ↦
      rw (set_allocation, q, get_entry, q)
        (get_entry-set_allocation name a x m (rw (get_entry, q) at e))
]

-- Other names.
pub get_entry-set_allocation_other :
    (name n : Text) (a : ℕ) (m : SymbolTable)
    → text_eq name n ≡ false
    → get_entry n (set_allocation name a m) ≡ get_entry n m
unfolding get_entry set_allocation
get_entry-set_allocation_other name n a [] h = refl
get_entry-set_allocation_other name n a ((k, type t) ∷ m) h = elim (Bool-cases (text_eq k name)) [
  | inl q ↦ rw (set_allocation, q) refl
  | inr q ↦
      rw (set_allocation, q)
        (ap (λ o. if text_eq k n then some (type t) else o)
          (get_entry-set_allocation_other name n a m h))
]
get_entry-set_allocation_other name n a ((k, variable y) ∷ m) h =
    elim (Bool-cases (text_eq k name)) [
      | inl q ↦
          let f : text_eq k n ≡ false = ap (λ z. text_eq z n) ((text_eq_iff k name).0 q) ∙ h in
          rw (set_allocation, q, f) refl
      | inr q ↦
          rw (set_allocation, q)
            (ap (λ o. if text_eq k n then some (variable y) else o)
              (get_entry-set_allocation_other name n a m h))
    ]
