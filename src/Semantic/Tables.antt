-- ===== src/Semantic/Tables.antt =====
-- `addEntry` and `getEntry` of `src/semantic/SymbolTable.cpp`: what an entry keeps and what it adds.
use choco_c.Prelude.{
  ◌≡◌, refl, subst, inl, inr, [], ◌∷◌, none, some, Text, text_eq, text_eq_iff, arith, All,
  Bool-cases, Option-cases,
}
use choco_c.Semantic.Assignable.{IsRooted}
use choco_c.Semantic.SymbolTable.{
  SymbolTable, SymbolTableEntry, variable, type, get_entry, add_entry, get_entry-add_entry,
  initial_entries,
}

-- Each entry's type has `object` for its super class, or is `object`.
abbrev pub IsSound : SymbolTableEntry → Type 0
IsSound (variable v) = IsRooted v.type
IsSound (type t) = IsRooted t

abbrev pub AllSound : SymbolTable → Type 0
AllSound m = (name : Text) (e : SymbolTableEntry) → get_entry name m ≡ some e → IsSound e

-- A later table keeps every entry of an earlier one.
abbrev pub Keeps : SymbolTable → SymbolTable → Type 0
Keeps m m' =
    (name : Text) (e : SymbolTableEntry) → get_entry name m ≡ some e → get_entry name m' ≡ some e

pub add_entry-Keeps :
    (name : Text) (e : SymbolTableEntry) (m : SymbolTable) → Keeps m (add_entry name e m)
unfolding get_entry add_entry
add_entry-Keeps name e [] j x h = cc
add_entry-Keeps name e ((n, y) ∷ m) j x h = ground (arith, add_entry-Keeps name e m j x)

-- The name entered is found.
pub get_entry-added :
    (name : Text) (e : SymbolTableEntry) (m : SymbolTable)
    → get_entry name m ≡ none
    → get_entry name (add_entry name e m) ≡ some e
get_entry-added name e m h =
    ground (arith, get_entry-add_entry name name e m, text_eq_iff name name)

-- What is found under a new name is what was entered.
pub entry_eq :
    (name j : Text) (e x : SymbolTableEntry) (m : SymbolTable)
    → get_entry j m ≡ none
    → get_entry j (add_entry name e m) ≡ some x
    → e ≡ x
unfolding get_entry add_entry
entry_eq name j e x [] k q = ground arith
entry_eq name j e x ((n, y) ∷ m) k q = ground (arith, entry_eq name j e x m)

pub add_entry-AllSound :
    (name : Text) (e : SymbolTableEntry) (m : SymbolTable)
    → AllSound m
    → IsSound e
    → AllSound (add_entry name e m)
add_entry-AllSound name e m s h j x q = elim (Option-cases (get_entry j m)) [
  | inr (y, k) ↦ s j x (ground (arith, add_entry-Keeps name e m j y k))
  | inl k ↦ subst IsSound (entry_eq name j e x m k q) h
]

AllSound-cons :
    (n : Text) (y : SymbolTableEntry) (m : SymbolTable)
    → IsSound y
    → AllSound m
    → AllSound ((n, y) ∷ m)
unfolding get_entry
AllSound-cons n y m h s name e q = elim (Bool-cases (text_eq n name)) [
  | inl k ↦ subst IsSound (ground arith) h
  | inr k ↦ s name e (ground arith)
]

-- The same, entry by entry.
All-AllSound : (m : SymbolTable) → All (λ p. IsSound p.1) m → AllSound m
unfolding get_entry
All-AllSound [] h = λ name e q. absurd (ground arith)
All-AllSound ((n, y) ∷ m) h = AllSound-cons n y m h.0 (All-AllSound m h.1)

pub initial_entries-AllSound : AllSound initial_entries
initial_entries-AllSound =
    All-AllSound initial_entries
      (inl refl, (inr refl, (inr refl, (inr refl, (inr refl, (inr refl, tt))))))
