-- ===== src/Parser/DefinitionsSound.antt =====
-- `parseType`, `parseTypedVariable`, `parseLiteral` and `parseVariableDefinition` of
-- `src/parser/Parser.cpp` against the grammar.
use choco_c.Prelude.{
  ℕ, zero, suc, ◌+◌, ◌-◌, ◌<◌, ◌≡◌, refl, sym, ap, ◌∙◌, true, false, List, [], ◌∷◌, ◌++◌,
  append_assoc, All, All-append, arith, inl, inr, length, subst, pos, negsuc,
}
use choco_c.TokenType.{
  newline, type_eq, id, id_string, string, false_kw, true_kw, int_lit, none_kw, open_brack,
  close_brack, colon, assign,
}
use choco_c.Token.{Token, one_of, is_literal}
use choco_c.TokenStream.{IsValid, remaining}
use choco_c.TokenStream.Laws.{peek_behind}
use choco_c.Diagnostics.{Diagnostic}
use choco_c.Ast.{AstType, TypedVariable}
use choco_c.Parser.Monad.{State, reject}
use choco_c.Parser.Statements.{
  parse_type, parse_typed_variable, parse_literal, parse_variable_definition,
}
use choco_c.Parser.ProgramGrammar.{SpellsType, base, list, SpellsDefinition, definition}
use choco_c.Parser.Branches.{look_end, look_first}
use choco_c.Parser.Ensures.{
  Ensures, returned, rejected, crashed, Ensures-bind, Reads, Reads-refl, Reads-trans, Took,
  Took-Reads, Took-length, List-cases, Ensures-expect, one_of-newline, one_of_single,
}

-- No token that is left ends a line.
abbrev pub Unended : State → Type 0
Unended s = All (λ t. type_eq t.type newline ≡ false) (remaining s.token_stream)

abbrev pub Any : State → Type 0
Any s = Unit {0}

pub Unended-before : {s s' : State} {ts : List Token} → Reads s ts s' → Unended s' → Unended s
Unended-before {ts} rd u =
    subst (All (λ t. type_eq t.type newline ≡ false)) (sym rd.split) (All-append _ ts _ rd.within u)

-- A report at the current token dereferences nothing, unless all tokens are read.
pub reject-Ensures :
    {A : Type 0} {P : A → State → Type 0} (d : ℕ → Diagnostic) (s₀ s : State) (ts : List Token)
    → Reads s₀ ts s
    → Ensures P Any (Unended s₀) (reject (pos 0) d s)
reject-Ensures d s₀ s ts rd = elim (List-cases (remaining s.token_stream)) [
  | inl e ↦
      rw (look_end s rd.valid e)
        (crashed (Unended-before rd (subst (All (λ t. type_eq t.type newline ≡ false)) (sym e) tt)))
  | inr (t, r, e) ↦ rw (look_first s rd.valid t r e) (rejected tt)
]

type_newline : one_of newline (id ∷ id_string ∷ []) ≡ false
unfolding one_of type_eq
type_newline = refl

abbrev pub Typed : State → AstType → State → Type 0
Typed s a s' = (ts : List Token) × Reads s ts s' × SpellsType ts a

-- `parseType` reads a type, or reports.
pub parse_type-Typed :
    (f : ℕ) (s : State)
    → IsValid s.token_stream
    → length (remaining s.token_stream) < f
    → Ensures (Typed s) Any (Unended s) (parse_type f s)
unfolding parse_type one_of type_eq
parse_type-Typed zero s v h = absurd (omega arith)
parse_type-Typed (suc f) s v h =
    Ensures-expect (id ∷ id_string ∷ []) _ _ s v
      (λ t s₁ m k. rw k.behind (
        returned
          (t ∷ [], Took-Reads k (one_of-newline (id ∷ id_string ∷ []) _ type_newline m), base m)))
      (λ _.
        Ensures-expect (open_brack ∷ []) _ _ s v
          (λ o s₁ m k.
            let is_open = one_of_single o.type open_brack m in
            let took = Took-Reads k (rw is_open) in
            Ensures-bind (parse_type-Typed f s₁ k.valid (omega (arith, Took-length k))) (λ _ n. n)
              (Unended-before took)
              (λ a s₂ (ts, rd, sp).
                let inner = Reads-trans took rd in
                Ensures-expect (close_brack ∷ []) _ _ s₂ rd.valid
                  (λ c s₃ m' k'.
                    let is_close = one_of_single c.type close_brack m' in
                    returned (
                      o ∷ (ts ++ c ∷ []),
                      Reads-trans inner (Took-Reads k' (rw is_close)),
                      list o c is_open is_close refl sp,
                    ))
                  (λ _. reject-Ensures _ s s₂ _ inner)))
          (λ _. reject-Ensures _ s s [] (Reads-refl s v)))

abbrev TypedVar : State → TypedVariable → State → Type 0
TypedVar s v s' =
    (c : Token) × (ts : List Token) × Reads s (v.name ∷ c ∷ ts) s'
    × (v.name.type ≡ id)
    × (c.type ≡ colon)
    × SpellsType ts v.type

parse_typed_variable-TypedVar :
    (f : ℕ) (s : State)
    → IsValid s.token_stream
    → length (remaining s.token_stream) < f
    → Ensures (TypedVar s) Any (Unended s) (parse_typed_variable f s)
unfolding parse_typed_variable one_of type_eq
parse_typed_variable-TypedVar f s v h =
    Ensures-expect (id ∷ []) _ _ s v
      (λ n s₁ m k.
        let is_id = one_of_single n.type id m in
        let name = Took-Reads k (rw is_id) in
        rw k.behind (
          Ensures-expect (colon ∷ []) _ _ s₁ k.valid
            (λ c s₂ m' k'.
              let is_colon = one_of_single c.type colon m' in
              let before = Reads-trans name (Took-Reads k' (rw is_colon)) in
              Ensures-bind
                (parse_type-Typed f s₂ k'.valid (omega (arith, Took-length k, Took-length k')))
                (λ _ n. n) (Unended-before before)
                (λ a s₃ (ts, rd, sp). returned (c, ts, Reads-trans before rd, is_id, is_colon, sp)))
            (λ _. reject-Ensures _ s s₁ _ name)))
      (λ _. reject-Ensures _ s s [] (Reads-refl s v))

literal_newline :
    one_of newline (none_kw ∷ false_kw ∷ true_kw ∷ int_lit ∷ id_string ∷ string ∷ []) ≡ false
unfolding one_of type_eq
literal_newline = refl

-- `parseLiteral` reads one literal, or reports.
parse_literal-Ensures :
    (s : State)
    → IsValid s.token_stream
    → Ensures
        (λ l s'. (is_literal l ≡ true) × Reads s (l ∷ []) s')
        Any
        (Unended s)
        (parse_literal s)
unfolding parse_literal is_literal
parse_literal-Ensures s v =
    Ensures-expect (none_kw ∷ false_kw ∷ true_kw ∷ int_lit ∷ id_string ∷ string ∷ []) _ _ s v
      (λ l s₁ m k. rw k.behind (
        returned (
          m,
          Took-Reads k (
              one_of-newline (none_kw ∷ false_kw ∷ true_kw ∷ int_lit ∷ id_string ∷ string ∷ []) _
                literal_newline m),
        )))
      (λ _. reject-Ensures _ s s [] (Reads-refl s v))

-- The method has read the tokens `ws`, the end of the line included.
pub record Line (s : State) (ws : List Token) (s' : State) : Type 0 where
  pub valid : IsValid s'.token_stream
  pub split : remaining s.token_stream ≡ ws ++ remaining s'.token_stream

pub Line-end :
    {s s₁ s₂ : State} {ts : List Token} {t : Token}
    → Reads s ts s₁
    → Took s₁ t s₂
    → Line s (ts ++ t ∷ []) s₂
Line-end {ts} {t} rd k = record {
  valid = k.valid;
  split = rd.split ∙ ap (◌++◌ ts) k.split ∙ sym (append_assoc ts (t ∷ []) _);
}

-- A report at `peek(-1)`, once a token is read, dereferences nothing.
pub reject_behind-Ensures :
    {A : Type 0} {P : A → State → Type 0} {U : Type 0} (d : ℕ → Diagnostic) (s₀ s : State)
    (ts : List Token)
    → Reads s₀ ts s
    → 0 < length ts
    → Ensures P Any U (reject (negsuc 0) d s)
reject_behind-Ensures d s₀ s ts rd h =
    let (b, e) =
      peek_behind s.token_stream (s₀.token_stream.current_idx + length ts - 1) rd.valid
        (omega (arith, rd.moved)) in
    rw e (rejected tt)

-- `parseVariableDefinition` reads a definition to the end of its line, or reports.
pub parse_variable_definition-Ensures :
    (f : ℕ) (s : State)
    → IsValid s.token_stream
    → length (remaining s.token_stream) < f
    → Ensures
        (λ d s'. (ws : List Token) × Line s ws s' × SpellsDefinition ws d)
        Any
        (Unended s)
        (parse_variable_definition f s)
unfolding parse_variable_definition type_eq
parse_variable_definition-Ensures f s v h =
    Ensures-bind (parse_typed_variable-TypedVar f s v h) (λ _ n. n) (λ u. u)
      (λ tv s₁ (c, ts, rd, is_id, is_colon, sp).
        Ensures-expect (assign ∷ []) _ _ s₁ rd.valid
          (λ a s₂ m k.
            let is_assign = one_of_single a.type assign m in
            let upto = Reads-trans rd (Took-Reads k (rw is_assign)) in
            Ensures-bind (parse_literal-Ensures s₂ k.valid) (λ _ n. n) (Unended-before upto)
              (λ l s₃ (is_lit, rl).
                let all = Reads-trans upto rl in
                Ensures-expect (newline ∷ []) _ _ s₃ rl.valid
                  (λ e s₄ m' k'. returned (
                    _,
                    Line-end all k',
                    definition c a e is_id is_colon sp is_assign is_lit
                        (one_of_single e.type newline m')
                        (append_assoc ((tv.name ∷ c ∷ ts) ++ a ∷ []) (l ∷ []) (e ∷ [])
                          ∙ append_assoc (tv.name ∷ c ∷ ts) (a ∷ []) (l ∷ e ∷ [])),
                  ))
                  (λ _. reject_behind-Ensures _ s s₃ _ all (omega arith))))
          (λ _. reject-Ensures _ s s₁ _ rd))
