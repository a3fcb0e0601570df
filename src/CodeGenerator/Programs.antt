-- ===== src/CodeGenerator/Programs.antt =====
-- The programs that `src/ir/LLVM.cpp` generates code for.
use choco_c.Prelude.{
  ℕ, ◌≡◌, refl, inl, inr, [], ◌∷◌, All, some, Bool-cases, Text, codes, text_eq, text_eq_iff, subst,
  ◌∙◌, pos,
}
use choco_c.Ast.{VariableDefinition, Child, variable_definition, statement, Program}
use choco_c.Semantic.SymbolTable.{Variable, variable, SymbolTable, get_entry}
use choco_c.CodeGenerator.{Llvm, Generator, ok, prologue, epilogue}
use choco_c.CodeGenerator.Visits.{
  find_string, set_allocation, define_global, cast_constant, define, generate_definition,
  generate_children, generate_program, new_generator,
}
use choco_c.CodeGenerator.Tables.{get_entry-set_allocation, get_entry-set_allocation_other}
use choco_c.CodeGenerator.Generates.{
  MakesConstants, IsConstant, Including, GenerableProgram, IsAllocated, Ready, Done,
  generate_literal-Constant, generate_assignment-Ready,
}

-- A name is allocated after its own allocation, and stays so after another's.
own_allocation :
    (name n : Text) (a : ℕ) (x : Variable) (m : SymbolTable)
    → get_entry name m ≡ some (variable x)
    → name ≡ n
    → IsAllocated (set_allocation name a m) n
own_allocation name n a x m e q =
    subst (IsAllocated (set_allocation name a m)) q
      (record x { allocation = some a }, a, get_entry-set_allocation name a x m e, refl)

other_allocation :
    (name n : Text) (a : ℕ) (x : Variable) (m : SymbolTable)
    → get_entry name m ≡ some (variable x)
    → IsAllocated m n
    → IsAllocated (set_allocation name a m) n
other_allocation name n a x m e (v, b, f, r) = elim (Bool-cases (text_eq name n)) [
  | inl q ↦ own_allocation name n a x m e ((text_eq_iff name n).0 q)
  | inr q ↦ (v, b, get_entry-set_allocation_other name n a m q ∙ f, r)
]

set_allocation-variable :
    (name n : Text) (a : ℕ) (x v : Variable) (m : SymbolTable)
    → get_entry name m ≡ some (variable x)
    → get_entry n m ≡ some (variable v)
    → (w : Variable) × (get_entry n (set_allocation name a m) ≡ some (variable w))
set_allocation-variable name n a x v m e f = elim (Bool-cases (text_eq name n)) [
  | inl q ↦ (
    record x { allocation = some a },
    subst
        (λ k.
          get_entry k (set_allocation name a m)
          ≡ some (variable (record x { allocation = some a })))
        ((text_eq_iff name n).0 q) (get_entry-set_allocation name a x m e),
  )
  | inr q ↦ (v, get_entry-set_allocation_other name n a m q ∙ f)
]

-- A child whose variable, where it defines one, is allocated.
abbrev pub AllocatedChild : SymbolTable → Child → Type 0
AllocatedChild t (variable_definition d) = IsAllocated t d.name.text
AllocatedChild t (statement s) = Unit

module _ (llvm : Llvm) (m : SymbolTable) where
  set_allocation-Ready :
      (P : Text → Type 0) (name : Text) (a : ℕ) (x : Variable) (ir : llvm.Module)
      (g : Generator llvm)
      → get_entry name g.symbol_table ≡ some (variable x)
      → Ready llvm m P g
      → Ready llvm m
          (Including name P)
          (record g { ir = ir; symbol_table = set_allocation name a g.symbol_table })
  set_allocation-Ready P name a x ir g e r = record {
    at_global = r.at_global;
    allocated = λ n p. elim p [
      | inl q ↦ own_allocation name n a x g.symbol_table e q
      | inr q ↦ other_allocation name n a x g.symbol_table e (r.allocated n q)
    ];
    variables = λ n v f.
        let (w, h) = r.variables n v f in set_allocation-variable name n a x w g.symbol_table e h;
    interned = r.interned;
  }

  generate_definition-Ready :
      (P : Text → Type 0) (d : VariableDefinition) (v : Variable) (g : Generator llvm)
      → MakesConstants llvm
      → get_entry d.name.text m ≡ some (variable v)
      → IsConstant d.value
      → Ready llvm m P g
      → Done llvm m (Including d.name.text P) (generate_definition llvm d g)
  unfolding generate_definition define cast_constant define_global
  generate_definition-Ready P d v g k e c r =
      let (w, f) = r.variables d.name.text v e in
      let (a, g₁, q, s, r₁) = generate_literal-Constant llvm m P d.value g k c r in
      let (x, h) = r₁.variables d.name.text v e in
      let (b, ir) = llvm.create_global_variable d.name.text a g₁.ir in
      (
        record g₁ { ir = ir; symbol_table = set_allocation d.name.text b g₁.symbol_table },
        rw (generate_definition, f, q, cast_constant, s, define_global, r₁.at_global) refl,
        set_allocation-Ready P d.name.text b x ir g₁ h r₁,
      )

  generate_children-ok :
      (P : Text → Type 0) (root : Program) (g : Generator llvm)
      → MakesConstants llvm
      → GenerableProgram m P root
      → Ready llvm m P g
      → (g' : Generator llvm) × (generate_children llvm root g ≡ ok tt g')
        × All (AllocatedChild g'.symbol_table) root
        × ((n : Text) → P n → IsAllocated g'.symbol_table n)
  unfolding generate_children GenerableProgram
  generate_children-ok P [] g k h r = (g, refl, tt, r.allocated)
  generate_children-ok P (variable_definition d ∷ cs) g k ((v, e), c, h) r =
      let (g₁, q, r₁) = generate_definition-Ready P d v g k e c r in
      let (g₂, u, a, p) = generate_children-ok (Including d.name.text P) cs g₁ k h r₁ in
      (g₂, rw q u, (p d.name.text (inl refl), a), λ n x. p n (inr x))
  generate_children-ok P (statement s ∷ cs) g k (t, e, h) r =
      let (g₁, q, r₁) = generate_assignment-Ready llvm m P s g k t e r in
      let (g₂, u, a, p) = generate_children-ok P cs g₁ k h r₁ in (g₂, rw q u, (tt, a), p)

  -- Where LLVM takes its integers and strings for constants, the code generator ends normally on any program
  -- whose definitions are of variables of the symbol table and have literals other than `None`, whose
  -- assignments are to variables defined before, and whose expressions are over such literals and variables
  -- and operators other than `is`, with no empty parentheses: no cast fails, no pointer that is
  -- dereferenced is null, and no exception is thrown. Every variable defined has an allocation then.
  pub generate_program-ok :
      (name : Text) (root : Program)
      → MakesConstants llvm
      → GenerableProgram m (λ n. ⊥) root
      → (g : Generator llvm) × (generate_program llvm root (new_generator llvm name m) ≡ ok tt g)
        × All (AllocatedChild g.symbol_table) root
  unfolding generate_program prologue epilogue find_string
  generate_program-ok name root k h =
      let g : Generator llvm = new_generator llvm name m in
      let (func_type, ir₁) = llvm.function_type g.ir in
      let (entry_func, ir₂) = llvm.create_function func_type (codes "main") ir₁ in
      let (entry_bb, ir₃) = llvm.create_block (codes "main") entry_func ir₂ in
      let started : Generator llvm = record g { ir = llvm.set_insert_point entry_bb ir₃ } in
      let ready : Ready llvm m (λ n. ⊥) started = record {
        at_global = refl;
        allocated = λ n p. absurd p;
        variables = λ n v e. (v, e);
        interned = λ s a e. cc;
      } in
      let (last, q, a, p) = generate_children-ok (λ n. ⊥) root started k h ready in
      let (ret_val, ir₄) = llvm.const_int32 (pos 0) last.ir in
      (record last { ir = llvm.create_ret ret_val ir₄ }, rw q refl, a)
