-- ===== src/CodeGenerator.antt =====
-- `include/ir/LLVM.h`, `src/ir/LLVM.cpp`: the code generator, over what it calls of LLVM.
pub mod Visits
pub mod Tables
pub mod Generates
pub mod Programs
pub mod Rejects
use choco_c.Prelude.{
  ℕ, Bool, true, false, ◌==◌, List, [], ◌∷◌, Option, none, some, Text, text_eq, codes, ℤ, pos,
  if◌then◌else◌,
}
use choco_c.TokenType.{
  TokenType, plus, minus, mult, div, modulo, equal, nequal, less, great, less_eq, great_eq, and, or,
  not_kw,
}
use choco_c.Token.{Token, TokenValue, monostate, bool, int, str}
use choco_c.Ast.{
  Expression, literal, identifier, grouping, grouping_null, unary, binary, get_literal_type,
  VariableDefinition, AssignmentStatement, Child, variable_definition, statement, Program,
}
use choco_c.Semantic.SymbolTable.{
  Variable, SymbolTableEntry, variable, type, SymbolTable, get_entry,
}

-- The calls of LLVM, with what the module and the builder are as a parameter. An `llvm::Value*`, or a pointer
-- to a type, a function or a block, is a number, and a call that makes an object returns it with the
-- module after it. What class an object is of does not change.
pub record Llvm : Type 1 where
  pub Module : Type 0
  pub new_module : Text → Module
  pub is_global : ℕ → Bool
  pub is_constant : ℕ → Bool
  pub function_type : Module → ℕ × Module
  pub create_function : ℕ → Text → Module → ℕ × Module
  pub create_block : Text → ℕ → Module → ℕ × Module
  pub set_insert_point : ℕ → Module → Module
  pub const_int32 : ℤ → Module → ℕ × Module
  pub const_int1 : Bool → Module → ℕ × Module
  pub create_global_string : Text → Module → ℕ × Module
  pub create_global_variable : Text → ℕ → Module → ℕ × Module
  pub create_load : ℕ → Module → ℕ × Module
  pub create_store : ℕ → ℕ → Module → Module
  pub create_ret : ℕ → Module → Module
  pub create_neg : ℕ → Module → ℕ × Module
  pub create_not : ℕ → Module → ℕ × Module
  pub create_add : ℕ → ℕ → Module → ℕ × Module
  pub create_sub : ℕ → ℕ → Module → ℕ × Module
  pub create_mul : ℕ → ℕ → Module → ℕ × Module
  pub create_sdiv : ℕ → ℕ → Module → ℕ × Module
  pub create_srem : ℕ → ℕ → Module → ℕ × Module
  pub create_icmp_eq : ℕ → ℕ → Module → ℕ × Module
  pub create_icmp_ne : ℕ → ℕ → Module → ℕ × Module
  pub create_icmp_slt : ℕ → ℕ → Module → ℕ × Module
  pub create_icmp_sgt : ℕ → ℕ → Module → ℕ × Module
  pub create_icmp_sle : ℕ → ℕ → Module → ℕ × Module
  pub create_icmp_sge : ℕ → ℕ → Module → ℕ × Module
  pub create_and : ℕ → ℕ → Module → ℕ × Module
  pub create_or : ℕ → ℕ → Module → ℕ × Module

-- The `std::any` of a visit: an `llvm::Value*`, which may be null, or nothing.
pub data AnyValue : Type 0 where
  held : Option ℕ → AnyValue
  empty : AnyValue

module _ (llvm : Llvm) where
  -- `IRGen`; the symbol table is the one of the builder, which the generator changes.
  pub record Generator : Type 0 where
    pub ir : llvm.Module
    pub symbol_table : SymbolTable
    pub scope : ℕ
    pub string_allocations : List (Text × ℕ)

  -- The outcome of a visit. `undefined` is a null pointer or an empty optional dereferenced, a failed assertion or
  -- cast, or `std::unreachable`; the other two are exceptions.
  pub data Outcome (A : Type 0) : Type 0 where
    ok : A → Generator → Outcome A
    undefined bad_any_cast bad_variant_access : Outcome A

  abbrev pub Emit : Type 0 → Type 0
  Emit A = Generator → Outcome A

module _ {llvm : Llvm} where
  abbrev pub bind : {A B : Type 0} → Outcome llvm A → (A → Emit llvm B) → Outcome llvm B
  bind (ok a g) f = f a g
  bind undefined f = undefined
  bind bad_any_cast f = bad_any_cast
  bind bad_variant_access f = bad_variant_access

  infixl 1 ◌>>=◌ ◌>>◌
  abbrev pub ◌>>=◌ : {A B : Type 0} → Emit llvm A → (A → Emit llvm B) → Emit llvm B
  m >>= f = λ g. bind (m g) f

  abbrev pub ◌>>◌ : {A B : Type 0} → Emit llvm A → Emit llvm B → Emit llvm B
  m >> k = m >>= λ _. k

  abbrev pub pure : {A : Type 0} → A → Emit llvm A
  pure a g = ok a g

  abbrev pub stuck : {A : Type 0} → Emit llvm A
  stuck g = undefined

  -- A call of LLVM that returns an object.
  abbrev pub make : (llvm.Module → ℕ × llvm.Module) → Emit llvm ℕ
  make f g = let (v, ir) = f g.ir in ok v (record g { ir = ir })

  -- A call that returns nothing that is used.
  abbrev pub run : (llvm.Module → llvm.Module) → Emit llvm (Unit {0})
  run f g = ok tt (record g { ir = f g.ir })

  -- `std::any_cast<llvm::Value*>`.
  abbrev pub any_cast : AnyValue → Emit llvm (Option ℕ)
  any_cast (held v) g = ok v g
  any_cast empty g = bad_any_cast

  -- A pointer that is dereferenced, or asserted not to be null.
  abbrev pub not_null : Option ℕ → Emit llvm ℕ
  not_null none g = undefined
  not_null (some v) g = ok v g

  -- `createLoadOrConstant`; `llvm::dyn_cast` takes no null pointer.
  unfoldable pub create_load_or_constant : Option ℕ → Emit llvm ℕ
  create_load_or_constant none = stuck
  create_load_or_constant (some v) = if llvm.is_global v then make (llvm.create_load v) else pure v

  unfoldable pub prologue : Emit llvm (Unit {0})
  prologue = do
    func_type ← make llvm.function_type
    entry_func ← make (llvm.create_function func_type (codes "main"))
    entry_bb ← make (llvm.create_block (codes "main") entry_func)
    run (llvm.set_insert_point entry_bb)

  unfoldable pub epilogue : Emit llvm (Unit {0})
  epilogue = do ret_val ← make (llvm.const_int32 (pos 0)); run (llvm.create_ret ret_val)
