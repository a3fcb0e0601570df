-- ===== src/Tests/Generating.antt =====
-- `src/ir/LLVM.cpp` at concrete inputs, with a module that lists the calls made.
use choco_c.Prelude.{
  false, ℕ, ◌+◌, ◌*◌, ◌%◌, ◌≡◌, refl, ◌==◌, ltb, List, [], ◌∷◌, ◌++◌, All, inl, Text, codes, arith,
  pos, text_eq,
}
use choco_c.Token.{is_bin_op}
use choco_c.TokenType.{type_eq, ordinal}
use choco_c.CodeGenerator.{Llvm, Generator, Outcome, ok}
use choco_c.CodeGenerator.Visits.{generate_program, new_generator}
use choco_c.CodeGenerator.Generates.{MakesConstants, Generable, GenerableProgram}
use choco_c.CodeGenerator.Programs.{AllocatedChild, generate_program-ok}
use choco_c.CodeGenerator.Rejects.{ChildHasNoNone, generate_program-HasNoNone}
use choco_c.Semantic.SemaType.{integer_type}
use choco_c.Semantic.SymbolTable.{get_entry, make_variable}
use choco_c.Driver.InOrder.{IsPlain, PlainChild}
use choco_c.Driver.Reaches.{compile-generates}
use choco_c.Tests.Inputs.{source, two_lines, table}
use choco_c.Tests.Driving.{compile-source}

-- A call: its name, its operands and its result.
abbrev pub Call : Type 0
Call = Text × List ℕ × ℕ

-- The number of objects made, and the calls.
abbrev pub Calls : Type 0
Calls = ℕ × List Call

-- An object is numbered by its class: 0 for a constant, 1 for a global variable, 2 for another.
abbrev pub called : ℕ → Text → List ℕ → Calls → ℕ × Calls
called class name operands (n, calls) =
    (3 * n + class, (n + 1, calls ++ (name, operands, 3 * n + class) ∷ []))

abbrev pub noted : Text → List ℕ → Calls → Calls
noted name operands (n, calls) = (n, calls ++ (name, operands, 0) ∷ [])

abbrev pub listing : Llvm
listing = record {
  Module = Calls;
  new_module = λ name. (0, []);
  is_global = λ v. v % 3 == 1;
  is_constant = λ v. ltb (v % 3) 2;
  function_type = called 2 (codes "function type") [];
  create_function = λ t name. called 2 name (t ∷ []);
  create_block = λ name f. called 2 name (f ∷ []);
  set_insert_point = λ b. noted (codes "insert point") (b ∷ []);
  const_int32 = λ n. called 0 (codes "i32") [];
  const_int1 = λ b. called 0 (codes "i1") [];
  create_global_string = λ s. called 1 s [];
  create_global_variable = λ name init. called 1 name (init ∷ []);
  create_load = λ v. called 2 (codes "load") (v ∷ []);
  create_store = λ v a. noted (codes "store") (v ∷ a ∷ []);
  create_ret = λ v. noted (codes "ret") (v ∷ []);
  create_neg = λ v. called 2 (codes "neg") (v ∷ []);
  create_not = λ v. called 2 (codes "not") (v ∷ []);
  create_add = λ l r. called 2 (codes "add") (l ∷ r ∷ []);
  create_sub = λ l r. called 2 (codes "sub") (l ∷ r ∷ []);
  create_mul = λ l r. called 2 (codes "mul") (l ∷ r ∷ []);
  create_sdiv = λ l r. called 2 (codes "sdiv") (l ∷ r ∷ []);
  create_srem = λ l r. called 2 (codes "srem") (l ∷ r ∷ []);
  create_icmp_eq = λ l r. called 2 (codes "eq") (l ∷ r ∷ []);
  create_icmp_ne = λ l r. called 2 (codes "ne") (l ∷ r ∷ []);
  create_icmp_slt = λ l r. called 2 (codes "slt") (l ∷ r ∷ []);
  create_icmp_sgt = λ l r. called 2 (codes "sgt") (l ∷ r ∷ []);
  create_icmp_sle = λ l r. called 2 (codes "sle") (l ∷ r ∷ []);
  create_icmp_sge = λ l r. called 2 (codes "sge") (l ∷ r ∷ []);
  create_and = λ l r. called 2 (codes "and") (l ∷ r ∷ []);
  create_or = λ l r. called 2 (codes "or") (l ∷ r ∷ []);
}

pub listing-MakesConstants : MakesConstants listing
listing-MakesConstants = record {
  int32 = λ n ir. ground arith;
  int1 = λ b ir. ground arith;
  global_string = λ s ir. ground arith;
}

abbrev calls_of : Outcome listing (Unit {0}) → List Call
calls_of (ok u g) = g.ir.1
calls_of _ = []

-- `x` is defined, and the sum stored to it.
two_lines-calls :
    calls_of (generate_program listing two_lines (new_generator listing [] table))
    ≡ (codes "function type", [], 2)
      ∷ (codes "main", 2 ∷ [], 5)
      ∷ (codes "main", 5 ∷ [], 8)
      ∷ (codes "insert point", 8 ∷ [], 0)
      ∷ (codes "i32", [], 9)
      ∷ (codes "x", 9 ∷ [], 13)
      ∷ (codes "i32", [], 15)
      ∷ (codes "i32", [], 18)
      ∷ (codes "i32", [], 21)
      ∷ (codes "mul", 18 ∷ 21 ∷ [], 26)
      ∷ (codes "add", 15 ∷ 26 ∷ [], 29)
      ∷ (codes "store", 29 ∷ 13 ∷ [], 0)
      ∷ (codes "i32", [], 30)
      ∷ (codes "ret", 30 ∷ [], 0)
      ∷ []
unfolding generate_program text_eq
two_lines-calls = refl

two_lines-Generable : GenerableProgram table (λ n. ⊥) two_lines
unfolding GenerableProgram Generable get_entry text_eq is_bin_op type_eq ordinal
two_lines-Generable = (
  (make_variable integer_type, refl),
  inl (refl, (pos 1, refl)),
  (
    (inl refl, tt),
    (refl, inl (refl, (pos 1, refl)), (refl, inl (refl, (pos 2, refl)), inl (refl, (pos 3, refl)))),
    tt,
  ),
)

abbrev Generates : Type 0
Generates =
    (g : Generator listing) × (generate_program listing two_lines (new_generator listing [] table)
      ≡ ok tt g)
    × All (AllocatedChild g.symbol_table) two_lines

generate_program-ok_example : Generates
generate_program-ok_example =
    generate_program-ok listing table [] two_lines listing-MakesConstants two_lines-Generable

abbrev generated_two_lines : Generates
generated_two_lines =
    generate_program-ok listing table [] two_lines listing-MakesConstants two_lines-Generable

generate_program-HasNoNone_example : All ChildHasNoNone two_lines
generate_program-HasNoNone_example =
    generate_program-HasNoNone listing two_lines (new_generator listing [] table)
      generated_two_lines.0 generated_two_lines.1

pub two_lines-Plain : All PlainChild two_lines
unfolding IsPlain is_bin_op type_eq ordinal
two_lines-Plain = (
  inl (refl, (pos 1, refl)),
  (
    (refl, inl (refl, (pos 1, refl)), (refl, inl (refl, (pos 2, refl)), inl (refl, (pos 3, refl)))),
    tt,
  ),
)

compile-generates_example : Generates
compile-generates_example =
    compile-generates listing [] false source [] two_lines table listing-MakesConstants
      (omega arith) compile-source two_lines-Plain
