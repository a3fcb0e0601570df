-- ===== src/Semantic/SymbolTable.antt =====
-- `include/semantic/SymbolTable.h`, `Variable.h`, `TypeEnvironment.h` and their sources: the symbols in
-- scope. The `llvm::StringMap` of entries is an association list.
use choco_c.Prelude.{
  ℕ, ◌≡◌, refl, List, [], ◌∷◌, Option, none, some, Text, codes, text_eq, text_eq_iff, arith,
  if◌then◌else◌,
}
use choco_c.Token.{Token}
use choco_c.Semantic.SemaType.{
  SemaType, object_type, integer_type, string_type, boolean_type, none_type, empty_type,
}

-- `sema::Variable`; the allocation is an `llvm::Value*`, none for the null pointer.
pub record Variable : Type 0 where
  pub type : SemaType
  pub allocation : Option ℕ

-- The constructor of `Variable`.
abbrev pub make_variable : SemaType → Variable
make_variable t = record { type = t; allocation = none }

-- `SymbolTableEntry`.
pub data SymbolTableEntry : Type 0 where
  variable : Variable → SymbolTableEntry
  type : SemaType → SymbolTableEntry

abbrev pub SymbolTable : Type 0
SymbolTable = List (Text × SymbolTableEntry)

-- The entries of a new table.
abbrev pub initial_entries : SymbolTable
initial_entries =
    (codes "object", type object_type)
    ∷ (codes "int", type integer_type)
    ∷ (codes "str", type string_type)
    ∷ (codes "bool", type boolean_type)
    ∷ (codes "<None>", type none_type)
    ∷ (codes "<Empty>", type empty_type)
    ∷ []

-- `getEntry`.
unfoldable pub get_entry : Text → SymbolTable → Option SymbolTableEntry
get_entry name [] = none
get_entry name ((n, e) ∷ m) = if text_eq n name then some e else get_entry name m

-- `addEntry`: `try_emplace` leaves an entry that is there.
unfoldable pub add_entry : Text → SymbolTableEntry → SymbolTable → SymbolTable
add_entry name entry [] = (name, entry) ∷ []
add_entry name entry ((n, e) ∷ m) =
    if text_eq n name then (n, e) ∷ m else (n, e) ∷ add_entry name entry m

-- The outcome of `TypeEnvironment::typeOf`; the last is `std::unreachable`.
pub data Lookup : Type 0 where
  found : SemaType → Lookup
  missing unreachable : Lookup

abbrev pub type_of_entry : Option SymbolTableEntry → Lookup
type_of_entry none = missing
type_of_entry (some (variable v)) = found v.type
type_of_entry (some (type t)) = unreachable

-- `TypeEnvironment::typeOf`, of the identifier whose token is given.
unfoldable pub type_of : SymbolTable → Token → Lookup
type_of m t = type_of_entry (get_entry t.text m)

-- The entry found after `addEntry`: that of the name, unless it had one, and any other as before.
pub get_entry-add_entry :
    (name j : Text) (e : SymbolTableEntry) (m : SymbolTable)
    → get_entry j (add_entry name e m) ≡ (
        if text_eq name j
        then (elim (get_entry name m) [ none ↦ some e | some old ↦ some old ])
        else get_entry j m)
unfolding get_entry add_entry
get_entry-add_entry name j e [] = refl
get_entry-add_entry name j e ((n, x) ∷ m) =
    ground (
      arith,
      get_entry-add_entry name j e m,
      text_eq_iff n name,
      text_eq_iff n j,
      text_eq_iff name j,
    )
