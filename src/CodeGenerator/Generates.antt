-- ===== src/CodeGenerator/Generates.antt =====
-- The expressions and assignments that `src/ir/LLVM.cpp` generates code for.
use choco_c.Prelude.{
  ℕ, ◌≡◌, refl, ◌⊎◌, inl, inr, Bool, true, not, ◌&&◌, List, [], ◌∷◌, All, some, some-injective, ◌↔◌,
  Option-cases, Bool-cases, Text, text_eq, subst, ℤ,
}
use choco_c.TokenType.{
  TokenType, type_eq, ordinal, is, plus, minus, int_lit, true_kw, false_kw, string, id_string,
}
use choco_c.Token.{Token, int, bool, str, is_bin_op, is_unary_op}
use choco_c.Ast.{
  Expression, literal, identifier, grouping, grouping_null, unary, binary, get_literal_type,
  AssignmentStatement, variable_definition, statement, Program,
}
use choco_c.Semantic.SymbolTable.{Variable, variable, SymbolTable, get_entry}
use choco_c.CodeGenerator.{Llvm, AnyValue, held, Generator, Outcome, ok, create_load_or_constant}
use choco_c.CodeGenerator.Visits.{
  find_string, int_constant, bool_constant, intern, string_constant, literal_named,
  generate_literal, allocation_of, generate_identifier, binary_call, unary_call, emit_binary,
  emit_unary, generate_expression, store_targets, generate_assignment,
}
use choco_c.PrettyPrinter.Printable.{is_some, is_some-Defined, Defined}

-- What LLVM says of the classes of its objects: `ConstantInt` and `GlobalVariable` are constants.
pub record MakesConstants (llvm : Llvm) : Type 0 where
  pub int32 : (n : ℤ) (ir : llvm.Module) → llvm.is_constant (llvm.const_int32 n ir).0 ≡ true
  pub int1 : (b : Bool) (ir : llvm.Module) → llvm.is_constant (llvm.const_int1 b ir).0 ≡ true
  pub global_string :
      (s : Text) (ir : llvm.Module) → llvm.is_constant (llvm.create_global_string s ir).0 ≡ true

-- A literal with a value that there are constants for: any but `None`.
abbrev pub IsConstant : Token → Type 0
IsConstant t =
    ((t.type ≡ int_lit) × ((n : ℤ) × (t.value ≡ int n)))
    ⊎ (((t.type ≡ true_kw) ⊎ (t.type ≡ false_kw)) × ((b : Bool) × (t.value ≡ bool b)))
    ⊎ (((t.type ≡ string) ⊎ (t.type ≡ id_string)) × ((s : Text) × (t.value ≡ str s)))

-- An expression over variables whose names have a property.
unfoldable pub Generable : (Text → Type 0) → Expression → Type 0
Generable P (literal t) = IsConstant t
Generable P (identifier t) = P t.text
Generable P (grouping e r) = Generable P e
Generable P (grouping_null r) = ⊥
Generable P (unary op e) = (is_unary_op op ≡ true) × Generable P e
Generable P (binary l op r) =
    (is_bin_op op && not (type_eq op.type is) ≡ true) × Generable P l × Generable P r

abbrev pub IsTarget : (Text → Type 0) → Expression → Type 0
IsTarget P (identifier t) = P t.text
IsTarget P _ = ⊥

-- The names defined so far, and one more.
abbrev pub Including : Text → (Text → Type 0) → Text → Type 0
Including name P n = (name ≡ n) ⊎ P n

-- Definitions of variables of the table, with constants, and assignments over variables defined before.
unfoldable pub GenerableProgram : SymbolTable → (Text → Type 0) → Program → Type 0
GenerableProgram m P [] = Unit
GenerableProgram m P (variable_definition d ∷ cs) =
    ((v : Variable) × (get_entry d.name.text m ≡ some (variable v)))
    × IsConstant d.value
    × GenerableProgram m (Including d.name.text P) cs
GenerableProgram m P (statement s ∷ cs) =
    All (IsTarget P) s.targets × Generable P s.expr × GenerableProgram m P cs

-- A name that leads to a variable with an allocation.
abbrev pub IsAllocated : SymbolTable → Text → Type 0
IsAllocated m n =
    (v : Variable) × (a : ℕ) × (get_entry n m ≡ some (variable v)) × (v.allocation ≡ some a)

module _ (llvm : Llvm) where
  -- The generator between two visits.
  pub record Ready (m : SymbolTable) (P : Text → Type 0) (g : Generator llvm) : Type 0 where
    pub at_global : g.scope ≡ 0
    pub allocated : (n : Text) → P n → IsAllocated g.symbol_table n
    pub variables :
        (n : Text) (v : Variable)
        → get_entry n m ≡ some (variable v)
        → (w : Variable) × (get_entry n g.symbol_table ≡ some (variable w))
    pub interned :
        (s : Text) (a : ℕ) → find_string s g.string_allocations ≡ some a → llvm.is_constant a ≡ true

  binary_call_type :
      (ty : TokenType) (t : Token)
      → t.type ≡ ty
      → is_bin_op t && not (type_eq t.type is) ≡ is_some (binary_call llvm ty)
  unfolding is_bin_op type_eq ordinal binary_call is_some
  binary_call_type plus t e = rw e
  binary_call_type _ t e = rw e

  unary_call_type :
      (ty : TokenType) (t : Token) → t.type ≡ ty → is_unary_op t ≡ is_some (unary_call llvm ty)
  unfolding is_unary_op type_eq ordinal unary_call is_some
  unary_call_type minus t e = rw e
  unary_call_type _ t e = rw e

  binary_call-Defined :
      (t : Token)
      → (is_bin_op t && not (type_eq t.type is) ≡ true) ↔ Defined (binary_call llvm t.type)
  binary_call-Defined t =
      rw (binary_call_type t.type t refl) (is_some-Defined (binary_call llvm t.type))

  unary_call-Defined : (t : Token) → (is_unary_op t ≡ true) ↔ Defined (unary_call llvm t.type)
  unary_call-Defined t =
      rw (unary_call_type t.type t refl) (is_some-Defined (unary_call llvm t.type))

  module _ (m : SymbolTable) (P : Text → Type 0) where
    -- A visit that ends with a value, or with a constant.
    abbrev Yields : Outcome llvm AnyValue → Type 0
    Yields o = (v : ℕ) × (g : Generator llvm) × (o ≡ ok (held (some v)) g) × Ready m P g

    abbrev pub YieldsConstant : Outcome llvm AnyValue → Type 0
    YieldsConstant o =
        (v : ℕ) × (g : Generator llvm) × (o ≡ ok (held (some v)) g)
        × (llvm.is_constant v ≡ true)
        × Ready m P g

    -- A call of LLVM leaves the rest of the generator.
    changed :
        (g : Generator llvm) (ir : llvm.Module) → Ready m P g → Ready m P (record g { ir = ir })
    changed g ir r = record {
      at_global = r.at_global;
      allocated = r.allocated;
      variables = r.variables;
      interned = r.interned;
    }

    generate_literal-int :
        (t : Token) (n : ℤ) (g : Generator llvm)
        → MakesConstants llvm
        → t.type ≡ int_lit
        → t.value ≡ int n
        → Ready m P g
        → YieldsConstant (generate_literal llvm t g)
    unfolding generate_literal literal_named int_constant get_literal_type text_eq
    generate_literal-int t n g k e v r =
        let (c, ir) = llvm.const_int32 n g.ir in
        (c, record g { ir = ir }, rw (generate_literal, e, v) refl, k.int32 n g.ir, changed g ir r)

    generate_literal-bool :
        (t : Token) (b : Bool) (g : Generator llvm)
        → MakesConstants llvm
        → (t.type ≡ true_kw) ⊎ (t.type ≡ false_kw)
        → t.value ≡ bool b
        → Ready m P g
        → YieldsConstant (generate_literal llvm t g)
    unfolding generate_literal literal_named bool_constant get_literal_type text_eq
    generate_literal-bool t b g k (inl e) v r =
        let (c, ir) = llvm.const_int1 b g.ir in
        (c, record g { ir = ir }, rw (generate_literal, e, v) refl, k.int1 b g.ir, changed g ir r)
    generate_literal-bool t b g k (inr e) v r =
        let (c, ir) = llvm.const_int1 b g.ir in
        (c, record g { ir = ir }, rw (generate_literal, e, v) refl, k.int1 b g.ir, changed g ir r)

    -- A string that is new, with its allocation.
    kept :
        (s : Text) (a : ℕ) (ir : llvm.Module) (g : Generator llvm)
        → llvm.is_constant a ≡ true
        → Ready m P g
        → Ready m P (record g { ir = ir; string_allocations = (s, a) ∷ g.string_allocations })
    unfolding find_string
    kept s a ir g k r = record {
      at_global = r.at_global;
      allocated = r.allocated;
      variables = r.variables;
      interned = λ t b e. elim (Bool-cases (text_eq s t)) [
        | inl q ↦
            subst (λ x. llvm.is_constant x ≡ true) (some-injective a b (rw (find_string, q) at e)) k
        | inr q ↦ r.interned t b (rw (find_string, q) at e)
      ];
    }

    intern-Ready :
        (s : Text) (g : Generator llvm)
        → MakesConstants llvm
        → Ready m P g
        → (a : ℕ) × (g' : Generator llvm) × (intern llvm s g ≡ ok a g')
          × (llvm.is_constant a ≡ true)
          × Ready m P g'
    unfolding intern
    intern-Ready s g k r = elim (Option-cases (find_string s g.string_allocations)) [
      | inl e ↦
          let (a, ir) = llvm.create_global_string s g.ir in
          (
            a,
            _,
            rw (intern, e) refl,
            k.global_string s g.ir,
            kept s a ir g (k.global_string s g.ir) r,
          )
      | inr (a, e) ↦ (a, g, rw (intern, e) refl, r.interned s a e, r)
    ]

    generate_literal-str :
        (t : Token) (s : Text) (g : Generator llvm)
        → MakesConstants llvm
        → (t.type ≡ string) ⊎ (t.type ≡ id_string)
        → t.value ≡ str s
        → Ready m P g
        → YieldsConstant (generate_literal llvm t g)
    unfolding generate_literal literal_named string_constant get_literal_type text_eq
    generate_literal-str t s g k (inl e) v r =
        let (a, g', q, c, r') = intern-Ready s g k r in
        (a, g', rw (generate_literal, e, v, q) refl, c, r')
    generate_literal-str t s g k (inr e) v r =
        let (a, g', q, c, r') = intern-Ready s g k r in
        (a, g', rw (generate_literal, e, v, q) refl, c, r')

    pub generate_literal-Constant :
        (t : Token) (g : Generator llvm)
        → MakesConstants llvm
        → IsConstant t
        → Ready m P g
        → YieldsConstant (generate_literal llvm t g)
    generate_literal-Constant t g k (inl (e, (n, v))) r = generate_literal-int t n g k e v r
    generate_literal-Constant t g k (inr (inl (e, (b, v)))) r = generate_literal-bool t b g k e v r
    generate_literal-Constant t g k (inr (inr (e, (s, v)))) r = generate_literal-str t s g k e v r

    load-Ready :
        (v : ℕ) (g : Generator llvm)
        → Ready m P g
        → (w : ℕ) × (g' : Generator llvm) × (create_load_or_constant (some v) g ≡ ok w g')
          × Ready m P g'
    unfolding create_load_or_constant
    load-Ready v g r = elim (Bool-cases (llvm.is_global v)) [
      | inl e ↦
          let (w, ir) = llvm.create_load v g.ir in
          (w, record g { ir = ir }, rw (create_load_or_constant, e) refl, changed g ir r)
      | inr e ↦ (v, g, rw (create_load_or_constant, e) refl, r)
    ]

    generate_identifier-Ready :
        (t : Token) (g : Generator llvm)
        → P t.text
        → Ready m P g
        → Yields (generate_identifier llvm t g)
    unfolding generate_identifier allocation_of
    generate_identifier-Ready t g p r =
        let (v, a, e, q) = r.allocated t.text p in (a, g, rw (generate_identifier, e, q) refl, r)

    emit_binary-Ready :
        (op : Token) (l r : ℕ) (g : Generator llvm)
        → is_bin_op op && not (type_eq op.type is) ≡ true
        → Ready m P g
        → Yields (emit_binary llvm op.type l r g)
    unfolding emit_binary
    emit_binary-Ready op l r g h d =
        let (call, e) = (binary_call-Defined op).0 h in
        let (w, ir) = call l r g.ir in
        (w, record g { ir = ir }, rw (emit_binary, e) refl, changed g ir d)

    emit_unary-Ready :
        (op : Token) (r : ℕ) (g : Generator llvm)
        → is_unary_op op ≡ true
        → Ready m P g
        → Yields (emit_unary llvm op.type r g)
    unfolding emit_unary
    emit_unary-Ready op r g h d =
        let (call, e) = (unary_call-Defined op).0 h in
        let (w, ir) = call r g.ir in
        (w, record g { ir = ir }, rw (emit_unary, e) refl, changed g ir d)

    -- An expression over allocated variables has a value.
    generate_expression-Ready :
        (e : Expression) (g : Generator llvm)
        → MakesConstants llvm
        → Generable P e
        → Ready m P g
        → Yields (generate_expression llvm e g)
    unfolding generate_expression Generable
    generate_expression-Ready (literal t) g k h r =
        let (v, g', q, c, r') = generate_literal-Constant t g k h r in (v, g', q, r')
    generate_expression-Ready (identifier t) g k h r = generate_identifier-Ready t g h r
    generate_expression-Ready (grouping e p) g k h r = generate_expression-Ready e g k h r
    generate_expression-Ready (grouping_null p) g k h r = absurd h
    generate_expression-Ready (unary op e) g k h r =
        let (v, g₁, q, r₁) = generate_expression-Ready e g k h.1 r in
        let (w, g₂, u, r₂) = load-Ready v g₁ r₁ in
        let (x, g₃, z, r₃) = emit_unary-Ready op w g₂ h.0 r₂ in (x, g₃, rw (q, u) z, r₃)
    generate_expression-Ready (binary l op s) g k h r =
        let (v, g₁, q, r₁) = generate_expression-Ready l g k h.1 r in
        let (w, g₂, u, r₂) = load-Ready v g₁ r₁ in
        let (v', g₃, q', r₃) = generate_expression-Ready s g₂ k h.2 r₂ in
        let (w', g₄, u', r₄) = load-Ready v' g₃ r₃ in
        let (x, g₅, z, r₅) = emit_binary-Ready op w w' g₄ h.0 r₄ in (x, g₅, rw (q, u, q', u') z, r₅)

    -- A visit that ends, with nothing.
    abbrev pub Done : Outcome llvm (Unit {0}) → Type 0
    Done o = (g : Generator llvm) × (o ≡ ok tt g) × Ready m P g

    target-Ready :
        (v : ℕ) (t : Expression) (g : Generator llvm)
        → IsTarget P t
        → Ready m P g
        → Yields (generate_expression llvm t g)
    unfolding generate_expression
    target-Ready v (identifier t) g h r = generate_identifier-Ready t g h r
    target-Ready v _ g h r = absurd h

    store_targets-Ready :
        (v : ℕ) (ts : List Expression) (g : Generator llvm)
        → All (IsTarget P) ts
        → Ready m P g
        → Done (store_targets llvm v ts g)
    unfolding store_targets
    store_targets-Ready v [] g h r = (g, refl, r)
    store_targets-Ready v (t ∷ ts) g h r =
        let (a, g₁, q, r₁) = target-Ready v t g h.0 r in
        let stored = record g₁ { ir = llvm.create_store v a g₁.ir } in
        let (g₂, u, r₂) = store_targets-Ready v ts stored h.1 (changed g₁ stored.ir r₁) in
        (g₂, rw q u, r₂)

    pub generate_assignment-Ready :
        (s : AssignmentStatement) (g : Generator llvm)
        → MakesConstants llvm
        → All (IsTarget P) s.targets
        → Generable P s.expr
        → Ready m P g
        → Done (generate_assignment llvm s g)
    unfolding generate_assignment
    generate_assignment-Ready s g k h e r =
        let (v, g₁, q, r₁) = generate_expression-Ready s.expr g k e r in
        let (w, g₂, u, r₂) = load-Ready v g₁ r₁ in
        let (g₃, z, r₃) = store_targets-Ready w s.targets g₂ h r₂ in (g₃, rw (q, u) z, r₃)
