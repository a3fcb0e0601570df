-- ===== src/CodeGenerator/Visits.antt =====
-- The visits of `src/ir/LLVM.cpp`.
use choco_c.Prelude.{
  ℕ, ◌==◌, List, [], ◌∷◌, Option, none, some, Text, text_eq, codes, if◌then◌else◌,
}
use choco_c.TokenType.{
  TokenType, plus, minus, mult, div, modulo, equal, nequal, less, great, less_eq, great_eq, and, or,
  not_kw,
}
use choco_c.Token.{Token, TokenValue, bool, int, str}
use choco_c.Ast.{
  Expression, literal, identifier, grouping, grouping_null, unary, binary, get_literal_type,
  VariableDefinition, AssignmentStatement, variable_definition, statement, Program,
}
use choco_c.Semantic.SymbolTable.{SymbolTableEntry, variable, type, SymbolTable, get_entry}
use choco_c.CodeGenerator.{
  Llvm, AnyValue, held, empty, Generator, ok, bad_variant_access, Emit, ◌>>=◌, ◌>>◌, pure, stuck,
  make, run, any_cast, not_null, create_load_or_constant, prologue, epilogue,
}

-- The entry of a text in the map of strings.
unfoldable pub find_string : Text → List (Text × ℕ) → Option ℕ
find_string text [] = none
find_string text ((t, v) ∷ m) = if text_eq t text then some v else find_string text m

-- The table with the allocation of a variable set, at the entry that its name leads to.
unfoldable pub set_allocation : Text → ℕ → SymbolTable → SymbolTable
set_allocation name v [] = []
set_allocation name v ((n, type t) ∷ m) =
    let rest = set_allocation name v m in
    if text_eq n name then (n, type t) ∷ m else (n, type t) ∷ rest
set_allocation name v ((n, variable x) ∷ m) =
    let rest = set_allocation name v m in
    if text_eq n name
    then (n, variable (record x { allocation = some v })) ∷ m
    else (n, variable x) ∷ rest

module _ (llvm : Llvm) where
  -- `std::get` of a token's value, and the constant for it.
  unfoldable pub int_constant : TokenValue → Emit llvm ℕ
  int_constant (int n) = make (llvm.const_int32 n)
  int_constant _ = λ g. bad_variant_access

  unfoldable pub bool_constant : TokenValue → Emit llvm ℕ
  bool_constant (bool b) = make (llvm.const_int1 b)
  bool_constant _ = λ g. bad_variant_access

  -- A string that has been met before keeps its allocation.
  unfoldable pub intern : Text → Emit llvm ℕ
  unfolding find_string
  intern text g = elim (find_string text g.string_allocations) [
    | some v ↦ ok v g
    | none ↦
        let (v, ir) = llvm.create_global_string text g.ir in
        ok v (record g { ir = ir; string_allocations = (text, v) ∷ g.string_allocations })
  ]

  unfoldable pub string_constant : TokenValue → Emit llvm ℕ
  unfolding intern
  string_constant (str s) = intern s
  string_constant _ = λ g. bad_variant_access

  -- `visit(const ast::Literal&)`, from the text of the literal's type.
  unfoldable pub literal_named : Text → TokenValue → Emit llvm AnyValue
  unfolding int_constant bool_constant string_constant
  literal_named name value =
      if text_eq name (codes "int")
      then (do v ← int_constant value; pure (held (some v)))
      else if text_eq name (codes "bool")
      then (do v ← bool_constant value; pure (held (some v)))
      else if text_eq name (codes "str")
      then (do v ← string_constant value; pure (held (some v)))
      else pure empty

  unfoldable pub generate_literal : Token → Emit llvm AnyValue
  unfolding literal_named get_literal_type
  generate_literal t = elim (get_literal_type t.type) [
    | none ↦ stuck
    | some name ↦ literal_named name t.value
  ]

  -- `visit(const ast::Identifier&)`, from the entry of its name.
  unfoldable pub allocation_of : Option SymbolTableEntry → Emit llvm AnyValue
  allocation_of none = stuck
  allocation_of (some (variable v)) = pure (held v.allocation)
  allocation_of (some (type t)) = stuck

  unfoldable pub generate_identifier : Token → Emit llvm AnyValue
  unfolding allocation_of get_entry
  generate_identifier t g = allocation_of (get_entry t.text g.symbol_table) g

  -- The `switch` of `visit(const ast::BinaryExpression&)`.
  unfoldable pub binary_call : TokenType → Option (ℕ → ℕ → llvm.Module → ℕ × llvm.Module)
  binary_call plus = some llvm.create_add
  binary_call minus = some llvm.create_sub
  binary_call mult = some llvm.create_mul
  binary_call div = some llvm.create_sdiv
  binary_call modulo = some llvm.create_srem
  binary_call equal = some llvm.create_icmp_eq
  binary_call nequal = some llvm.create_icmp_ne
  binary_call less = some llvm.create_icmp_slt
  binary_call great = some llvm.create_icmp_sgt
  binary_call less_eq = some llvm.create_icmp_sle
  binary_call great_eq = some llvm.create_icmp_sge
  binary_call and = some llvm.create_and
  binary_call or = some llvm.create_or
  binary_call _ = none

  -- The `switch` of `visit(const ast::UnaryExpression&)`.
  unfoldable pub unary_call : TokenType → Option (ℕ → llvm.Module → ℕ × llvm.Module)
  unary_call minus = some llvm.create_neg
  unary_call not_kw = some llvm.create_not
  unary_call _ = none

  unfoldable pub emit_binary : TokenType → ℕ → ℕ → Emit llvm AnyValue
  unfolding binary_call
  emit_binary op l r = elim (binary_call op) [
    | none ↦ stuck
    | some call ↦ (do v ← make (call l r); pure (held (some v)))
  ]

  unfoldable pub emit_unary : TokenType → ℕ → Emit llvm AnyValue
  unfolding unary_call
  emit_unary op r = elim (unary_call op) [
    | none ↦ stuck
    | some call ↦ (do v ← make (call r); pure (held (some v)))
  ]

  -- The visit of an expression.
  unfoldable pub generate_expression : Expression → Emit llvm AnyValue
  unfolding generate_literal generate_identifier emit_binary emit_unary create_load_or_constant
  generate_expression (literal t) = generate_literal t
  generate_expression (identifier t) = generate_identifier t
  generate_expression (grouping e r) = generate_expression e
  generate_expression (grouping_null r) = stuck
  generate_expression (unary op e) = do
    a ← generate_expression e
    v ← any_cast a
    rhs ← create_load_or_constant v
    emit_unary op.type rhs
  generate_expression (binary l op r) = do
    a ← generate_expression l
    v ← any_cast a
    lhs ← create_load_or_constant v
    b ← generate_expression r
    w ← any_cast b
    rhs ← create_load_or_constant w
    emit_binary op.type lhs rhs

  -- The loop of `visit(const ast::AssignmentStatement&)`.
  unfoldable pub store_targets : ℕ → List Expression → Emit llvm (Unit {0})
  unfolding generate_expression
  store_targets expr [] = pure tt
  store_targets expr (t ∷ ts) = do
    a ← generate_expression t
    v ← any_cast a
    allocation ← not_null v
    run (llvm.create_store expr allocation)
    store_targets expr ts

  unfoldable pub generate_assignment : AssignmentStatement → Emit llvm (Unit {0})
  unfolding generate_expression store_targets create_load_or_constant
  generate_assignment s = do
    a ← generate_expression s.expr
    v ← any_cast a
    expr ← create_load_or_constant v
    store_targets expr s.targets

  -- What a variable definition does at global scope: the variable, made from its value.
  unfoldable pub define_global : Text → ℕ → Emit llvm (Unit {0})
  unfolding set_allocation
  define_global name init g =
      if g.scope == 0
      then (let (v, ir) = llvm.create_global_variable name init g.ir in
          ok tt (record g { ir = ir; symbol_table = set_allocation name v g.symbol_table }))
      else ok tt g

  -- `cast<llvm::Constant>`.
  unfoldable pub cast_constant : Option ℕ → Emit llvm ℕ
  cast_constant none = stuck
  cast_constant (some v) = if llvm.is_constant v then pure v else stuck

  -- `visit(const ast::VariableDefinition&)`, from the entry of the name.
  unfoldable pub define :
      Token → VariableDefinition → Option SymbolTableEntry → Emit llvm (Unit {0})
  unfolding generate_literal define_global cast_constant
  define name d none = stuck
  define name d (some (type t)) = λ g. bad_variant_access
  define name d (some (variable x)) = do
    a ← generate_literal d.value
    v ← any_cast a
    init ← cast_constant v
    define_global name.text init

  unfoldable pub generate_definition : VariableDefinition → Emit llvm (Unit {0})
  unfolding define get_entry
  generate_definition d g = define d.name d (get_entry d.name.text g.symbol_table) g

  unfoldable pub generate_children : Program → Emit llvm (Unit {0})
  unfolding generate_definition generate_assignment
  generate_children [] = pure tt
  generate_children (variable_definition d ∷ cs) = generate_definition d >> generate_children cs
  generate_children (statement s ∷ cs) = generate_assignment s >> generate_children cs

  -- `visit(const ast::Program&)`.
  unfoldable pub generate_program : Program → Emit llvm (Unit {0})
  unfolding generate_children prologue epilogue
  generate_program root = prologue >> (generate_children root >> epilogue)

  -- `IRGen` of a module's name and a symbol table.
  abbrev pub new_generator : Text → SymbolTable → Generator llvm
  new_generator name table = record {
    ir = llvm.new_module name;
    symbol_table = table;
    scope = 0;
    string_allocations = [];
  }
