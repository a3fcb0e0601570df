-- ===== src/CodeGenerator/Rejects.antt =====
-- `None` in `src/ir/LLVM.cpp`, which has no value for it.
use choco_c.Prelude.{
  ℕ, ◌≡◌, refl, ap, ◌∙◌, subst, inl, inr, true, false, [], ◌∷◌, All, Option, none, some, Bool-cases,
  codes, text_eq,
}
use choco_c.TokenType.{TokenType, type_eq, ordinal, none_kw, invalid}
use choco_c.Token.{Token}
use choco_c.Ast.{
  Expression, literal, identifier, grouping, grouping_null, unary, binary, get_literal_type,
  VariableDefinition, Child, variable_definition, statement, Program,
}
use choco_c.Semantic.SymbolTable.{SymbolTableEntry, variable, type, get_entry}
use choco_c.CodeGenerator.{
  Llvm, AnyValue, held, empty, Generator, Outcome, ok, undefined, bad_any_cast, bad_variant_access,
  Emit, bind, any_cast, ◌>>=◌, ◌>>◌, prologue, epilogue, create_load_or_constant,
}
use choco_c.CodeGenerator.Visits.{
  literal_named, generate_literal, generate_expression, generate_assignment, define,
  generate_definition, generate_children, generate_program,
}

-- No `None` among the literals of an expression.
pub HasNoNone : Expression → Type 0
HasNoNone (literal t) = type_eq t.type none_kw ≡ false
HasNoNone (identifier t) = Unit
HasNoNone (grouping e r) = HasNoNone e
HasNoNone (grouping_null r) = Unit
HasNoNone (unary op e) = HasNoNone e
HasNoNone (binary l op r) = HasNoNone l × HasNoNone r

abbrev pub ChildHasNoNone : Child → Type 0
ChildHasNoNone (variable_definition d) = type_eq d.value.type none_kw ≡ false
ChildHasNoNone (statement s) = HasNoNone s.expr

none_type :
    (ty : TokenType) → type_eq ty none_kw ≡ true → get_literal_type ty ≡ some (codes "<None>")
unfolding type_eq ordinal get_literal_type
none_type invalid e = cc
none_type none_kw e = refl
none_type _ e = cc

module _ {llvm : Llvm} where
  -- The parts of a chain that ends normally.
  bind-ok :
      {A B : Type 0} (o : Outcome llvm A) (f : A → Emit llvm B) (b : B) (g : Generator llvm)
      → bind o f ≡ ok b g
      → (a : A) × (g₁ : Generator llvm) × (o ≡ ok a g₁) × (f a g₁ ≡ ok b g)
  bind-ok (ok a g₁) f b g e = (a, g₁, refl, e)
  bind-ok undefined f b g e = cc
  bind-ok bad_any_cast f b g e = cc
  bind-ok bad_variant_access f b g e = cc

  -- A visit whose result is cast to a value.
  any_cast-held :
      (a : AnyValue) (v : Option ℕ) (g g' : Generator llvm)
      → any_cast a g ≡ ok v g'
      → (a ≡ held v) × (g' ≡ g)
  any_cast-held (held w) v g g' e = (cc, cc)
  any_cast-held empty v g g' e = cc

module _ (llvm : Llvm) where
  generate_literal-None :
      (t : Token) (g g' : Generator llvm) (v : Option ℕ)
      → generate_literal llvm t g ≡ ok (held v) g'
      → type_eq t.type none_kw ≡ false
  unfolding generate_literal literal_named text_eq
  generate_literal-None t g g' v e = elim (Bool-cases (type_eq t.type none_kw)) [
    | inl q ↦
        let r : generate_literal llvm t g ≡ ok empty g =
          rw (generate_literal, none_type t.type q) refl in
        absurd (cc)
    | inr q ↦ q
  ]

  cast_literal :
      {B : Type 0} (t : Token) (f : Option ℕ → Emit llvm B) (b : B) (g g' : Generator llvm)
      → bind (generate_literal llvm t g) (λ a. any_cast a >>= f) ≡ ok b g'
      → type_eq t.type none_kw ≡ false
  cast_literal t f b g g' h =
      let (a, g₁, q, h₁) = bind-ok (generate_literal llvm t g) _ b g' h in
      let (v, g₂, u, h₂) = bind-ok (any_cast a g₁) f b g' h₁ in
      generate_literal-None t g g₁ v (q ∙ ap (λ x. ok x g₁) ((any_cast-held a v g₁ g₂ u).0))

  -- The expression before a cast, where the whole ends normally.
  cast_first :
      {B : Type 0} (e : Expression) (f : Option ℕ → Emit llvm B) (b : B) (g g' : Generator llvm)
      → bind (generate_expression llvm e g) (λ a. any_cast a >>= f) ≡ ok b g'
      → (v : Option ℕ) × (g₁ : Generator llvm) × (generate_expression llvm e g ≡ ok (held v) g₁)
        × (f v g₁ ≡ ok b g')
  cast_first e f b g g' h =
      let (a, g₁, q, h₁) = bind-ok (generate_expression llvm e g) _ b g' h in
      let (v, g₂, u, h₂) = bind-ok (any_cast a g₁) f b g' h₁ in
      let (same, stays) = any_cast-held a v g₁ g₂ u in
      (v, g₁, q ∙ ap (λ x. ok x g₁) same, subst (λ x. f v x ≡ ok b g') stays h₂)

  generate_expression-HasNoNone :
      (e : Expression) (g g' : Generator llvm) (v : Option ℕ)
      → generate_expression llvm e g ≡ ok (held v) g'
      → HasNoNone e
  unfolding generate_expression HasNoNone
  generate_expression-HasNoNone (literal t) g g' v h = generate_literal-None t g g' v h
  generate_expression-HasNoNone (identifier t) g g' v h = tt
  generate_expression-HasNoNone (grouping e r) g g' v h = generate_expression-HasNoNone e g g' v h
  generate_expression-HasNoNone (grouping_null r) g g' v h = tt
  generate_expression-HasNoNone (unary op e) g g' v h =
      let (w, g₁, q, h₁) = cast_first e _ (held v) g g' h in
      generate_expression-HasNoNone e g g₁ w q
  generate_expression-HasNoNone (binary l op r) g g' v h =
      let (w, g₁, q, h₁) = cast_first l _ (held v) g g' h in
      let (x, g₂, u, h₂) = bind-ok (create_load_or_constant w g₁) _ (held v) g' h₁ in
      let (y, g₃, z, h₃) = cast_first r _ (held v) g₂ g' h₂ in
      (generate_expression-HasNoNone l g g₁ w q, generate_expression-HasNoNone r g₂ g₃ y z)

  generate_definition-HasNoNone :
      (d : VariableDefinition) (o : Option SymbolTableEntry) (g g' : Generator llvm)
      → define llvm d.name d o g ≡ ok tt g'
      → type_eq d.value.type none_kw ≡ false
  unfolding define
  generate_definition-HasNoNone d none g g' h = cc
  generate_definition-HasNoNone d (some (type t)) g g' h = cc
  generate_definition-HasNoNone d (some (variable x)) g g' h = cast_literal d.value _ tt g g' h

  generate_children-HasNoNone :
      (root : Program) (g g' : Generator llvm)
      → generate_children llvm root g ≡ ok tt g'
      → All ChildHasNoNone root
  unfolding generate_children generate_assignment generate_definition
  generate_children-HasNoNone [] g g' h = tt
  generate_children-HasNoNone (variable_definition d ∷ cs) g g' h =
      let (u, g₁, q, h₁) = bind-ok (generate_definition llvm d g) _ tt g' h in
      (
        generate_definition-HasNoNone d (get_entry d.name.text g.symbol_table) g g₁ q,
        generate_children-HasNoNone cs g₁ g' h₁,
      )
  generate_children-HasNoNone (statement s ∷ cs) g g' h =
      let (u, g₁, q, h₁) = bind-ok (generate_assignment llvm s g) _ tt g' h in
      let (v, g₂, z, h₂) = cast_first s.expr _ tt g g₁ q in
      (generate_expression-HasNoNone s.expr g g₂ v z, generate_children-HasNoNone cs g₁ g' h₁)

  -- Where the code generator ends normally, no definition has the literal `None`, and no expression of an
  -- assignment contains it: on any other program it ends with an exception or in undefined behaviour.
  pub generate_program-HasNoNone :
      (root : Program) (g g' : Generator llvm)
      → generate_program llvm root g ≡ ok tt g'
      → All ChildHasNoNone root
  unfolding generate_program
  generate_program-HasNoNone root g g' h =
      let (u, g₁, q, h₁) =
        bind-ok (prologue g) (λ _. generate_children llvm root >> epilogue) tt g' h in
      let (w, g₂, z, h₂) = bind-ok (generate_children llvm root g₁) (λ _. epilogue) tt g' h₁ in
      generate_children-HasNoNone root g₁ g₂ z
