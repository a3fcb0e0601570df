-- ===== src/Parser/Branches.antt =====
-- What the branches of `parseExpression` and `parsePrefix` return, given what their calls return.
use choco_c.Prelude.{
  ℕ, ◌≡◌, refl, sym, ap, ◌∙◌, true, false, List, [], ◌∷◌, ◌++◌, Option, none, some, pos, arith,
  Bool-cases, inl, inr, subst, ◌||◌, ◌&&◌, not,
}
use choco_c.TokenType.{
  TokenType, newline, type_eq, type_eq_iff, and, or, minus, not_kw, string, id_string, false_kw,
  true_kw, int_lit, none_kw, id, open_paren, close_paren, invalid,
}
use choco_c.Token.{Token, one_of, is_literal, is_unary_op}
use choco_c.TokenStream.{IsValid, remaining, peek}
use choco_c.TokenStream.Laws.{first, peek-first}
use choco_c.Ast.{Expression, binary, make_grouping, is_constant_expression}
use choco_c.Parser.Power.{get_infix_power, get_prefix_power}
use choco_c.Parser.Monad.{State, matches}
use choco_c.Parser.Expressions.{combine, close_grouping, close_unary}
use choco_c.Parser.Grammar.{
  Below, EndsAbove, Operands, Spells, Fails, group, group_null, prefix, no_operand, no_constant,
  Follows, Stops,
}
use choco_c.Parser.Ensures.{
  Ensures, returned, rejected, Ensures-if, Caught, Reads, Reads-trans, Took, Took-Reads,
  Reads-diagnose, Ensures-expect, one_of_single, List-cases, matches-one_of,
}

-- A closing parenthesis is next.
abbrev pub Closes : List Token → Type 0
Closes [] = ⊥
Closes (t ∷ ts) = t.type ≡ close_paren

-- The method has returned `nullptr` at the power `p`, having read some tokens; where a closing parenthesis
-- stands behind them, they are no expression.
abbrev pub Gone : ℕ → State → State → Type 0
Gone p s s' = (ts : List Token) × Reads s ts s' × (Closes (remaining s'.token_stream) → Fails p ts)

-- The same at every power.
abbrev pub PrefixGone : State → State → Type 0
PrefixGone s s' =
    (ts : List Token) × Reads s ts s' × (Closes (remaining s'.token_stream) → (p : ℕ) → Fails p ts)

-- The node returned spells the tokens read.
abbrev pub Parsed : ℕ → State → Expression → State → Type 0
Parsed p s e s' =
    (ts : List Token) × Reads s ts s'
    × Spells p ts e
    × Follows e (remaining s'.token_stream)
    × Stops p (remaining s'.token_stream)

abbrev pub Prefixed : State → Expression → State → Type 0
Prefixed s e s' =
    (ts : List Token) × Reads s ts s'
    × ((p : ℕ) → Spells p ts e)
    × Follows e (remaining s'.token_stream)

pub literal_kinds :
    (ty : TokenType)
    → one_of ty (string ∷ id_string ∷ false_kw ∷ true_kw ∷ int_lit ∷ none_kw ∷ [])
      ≡ one_of ty (none_kw ∷ false_kw ∷ true_kw ∷ int_lit ∷ id_string ∷ string ∷ [])
unfolding one_of type_eq
literal_kinds invalid = refl
literal_kinds _ = refl

pub unary_kinds :
    (ty : TokenType)
    → one_of ty (not_kw ∷ minus ∷ []) ≡ true
    → (one_of ty (minus ∷ not_kw ∷ []) ≡ true) × (q : ℕ × ℕ) × (get_prefix_power ty ≡ some q)
unfolding one_of type_eq get_prefix_power
unary_kinds not_kw h = (refl, (40, 40), refl)
unary_kinds minus h = (refl, (80, 80), refl)
unary_kinds _ h = cc

make_grouping-Spells :
    (l r : Token) (o : Option Expression) (ts : List Token) (p : ℕ)
    → l.type ≡ open_paren
    → r.type ≡ close_paren
    → ((e : Expression) → o ≡ some e → Spells 0 ts e)
    → (o ≡ none → Fails 0 ts)
    → Spells p (l ∷ (ts ++ r ∷ [])) (make_grouping l o r)
make_grouping-Spells l r none ts p hl hr sp broken = group_null l r hl hr refl (broken refl)
make_grouping-Spells l r (some e) ts p hl hr sp broken = group l r hl hr refl (sp e refl)

make_grouping-EndsAbove :
    (l r : Token) (o : Option Expression) (k : ℕ) → EndsAbove k (make_grouping l o r)
make_grouping-EndsAbove l r none k = tt
make_grouping-EndsAbove l r (some e) k = tt

pub is_literal_of :
    (t : Token)
    → one_of t.type (string ∷ id_string ∷ false_kw ∷ true_kw ∷ int_lit ∷ none_kw ∷ []) ≡ true
    → is_literal t ≡ true
unfolding is_literal
is_literal_of t h = sym (literal_kinds t.type) ∙ h

pub is_unary_of : (t : Token) → one_of t.type (minus ∷ not_kw ∷ []) ≡ true → is_unary_op t ≡ true
unfolding is_unary_op
is_unary_of t h = h

-- What the call inside the parentheses leaves.
pub inside_Reads :
    (o : Option Expression) (s₁ s₂ : State)
    → Caught (Parsed 0 s₁) (Gone 0 s₁) o s₂
    → (ts : List Token) × Reads s₁ ts s₂
      × ((e : Expression) → o ≡ some e → Spells 0 ts e)
      × (Closes (remaining s₂.token_stream) → o ≡ none → Fails 0 ts)
inside_Reads none s₁ s₂ (ts, rd, broken) = (ts, rd, λ e h. cc, λ c h. broken c)
inside_Reads (some a) s₁ s₂ (ts, rd, sp, fo, st) =
    (ts, rd, λ e h. let same : a ≡ e = cc in subst (Spells 0 ts) same sp, λ c h. cc)

-- Where `expect` finds no closing parenthesis, there is none.
not_closed :
    (s : State)
    → IsValid s.token_stream
    → matches (close_paren ∷ []) s ≡ false
    → Closes (remaining s.token_stream)
    → ⊥
unfolding one_of type_eq
not_closed s v h c = elim (List-cases (remaining s.token_stream)) [
  | inl e ↦ rw e at c
  | inr (t, r, e) ↦
      let is_close : t.type ≡ close_paren = rw e at c in
      let found = matches-one_of (close_paren ∷ []) s t r v e in cc (h, rw is_close at found)
]

-- No token that begins an expression ends a line.
pub literal_newline :
    one_of newline (string ∷ id_string ∷ false_kw ∷ true_kw ∷ int_lit ∷ none_kw ∷ []) ≡ false
unfolding one_of type_eq
literal_newline = refl

pub id_newline : one_of newline (id ∷ []) ≡ false
unfolding one_of type_eq
id_newline = refl

pub unary_newline : one_of newline (not_kw ∷ minus ∷ []) ≡ false
unfolding one_of type_eq
unary_newline = refl

-- The rest of a grouping, behind the parenthesis `l` and what stands inside.
pub close_grouping-Prefixed :
    (l : Token) (s s₁ s₂ : State) (o : Option Expression) (ts : List Token)
    → l.type ≡ open_paren
    → Took s l s₁
    → Reads s₁ ts s₂
    → ((e : Expression) → o ≡ some e → Spells 0 ts e)
    → (Closes (remaining s₂.token_stream) → o ≡ none → Fails 0 ts)
    → Ensures (Prefixed s) (PrefixGone s) ⊥ (close_grouping l (some l) o s₂)
unfolding close_grouping one_of type_eq
close_grouping-Prefixed l s s₁ s₂ o ts is_open k rd sp broken =
    let inner = Reads-trans (Took-Reads k (rw is_open)) rd in
    Ensures-expect (close_paren ∷ []) _ _ s₂ rd.valid
      (λ r s₃ m kr.
        let is_close = one_of_single r.type close_paren m in
        rw kr.behind (
          returned (
            l ∷ (ts ++ r ∷ []),
            Reads-trans inner (Took-Reads kr (rw is_close)),
            λ p.
                make_grouping-Spells l r o ts p is_open is_close sp (broken (rw kr.split is_close)),
            λ k' _. make_grouping-EndsAbove l r o k',
          )))
      (λ h. rejected (_, Reads-diagnose _ inner, λ c. absurd (not_closed s₂ rd.valid h c)))

-- The rest of a unary expression, behind the operator.
pub close_unary-Prefixed :
    (op : Token) (s s₁ s₂ : State) (o : Option Expression) (q : ℕ × ℕ)
    → get_prefix_power op.type ≡ some q
    → is_unary_op op ≡ true
    → type_eq op.type newline ≡ false
    → Took s op s₁
    → Caught (Parsed q.1 s₁) (Gone q.1 s₁) o s₂
    → Ensures (Prefixed s) (PrefixGone s) ⊥ (close_unary op o s₂)
unfolding close_unary
close_unary-Prefixed op s s₁ s₂ none q power is_op nn k (ts, rd, broken) = rejected (
  _,
  Reads-diagnose _ (Reads-trans (Took-Reads k nn) rd),
  λ c p. no_operand q.0 q.1 op is_op power refl (broken c),
)
close_unary-Prefixed op s s₁ s₂ (some rhs) q power is_op nn k (ts, rd, sp, fo, st) =
    Ensures-if (type_eq op.type minus && not (is_constant_expression rhs)) _ _ s₂
      (λ h. rejected (
        _,
        Reads-diagnose _ (Reads-trans (Took-Reads k nn) rd),
        λ c p.
            no_constant q.0 q.1 op (ground (arith, type_eq_iff op.type minus)) power refl sp
              (ground arith),
      ))
      (λ h. returned (
        op ∷ ts,
        Reads-trans (Took-Reads k nn) rd,
        λ p. prefix q.0 q.1 is_op power refl sp (λ m. ground arith),
        λ k' e. (subst (Below k') (sym power) (st k' e), fo k' e),
      ))

-- The second half of the loop's body makes the node, with operands as they must be, or gives up.
pub combine-Ensures :
    (p : ℕ) (lhs rhs : Expression) (op : Token) (s s₁ : State) (ts : List Token)
    → Reads s ts s₁
    → ((type_eq op.type and || type_eq op.type or) ≡ false
        → (is_constant_expression lhs && is_constant_expression rhs) ≡ false
        → Fails p ts)
    → Ensures
        (λ e s₂. (e ≡ binary lhs op rhs) × Operands op lhs rhs × (s₂ ≡ s₁))
        (Gone p s)
        ⊥
        (combine lhs op rhs s₁)
unfolding combine
combine-Ensures p lhs rhs op s s₁ ts rd broken =
    Ensures-if (type_eq op.type and || type_eq op.type or) _ _ s₁
      (λ h. returned (refl, (λ k. cc), refl))
      (λ h.
        Ensures-if (not (is_constant_expression lhs)) _ _ s₁
          (λ hl. rejected (ts, Reads-diagnose _ rd, λ c. broken h (ground arith)))
          (λ hl.
            Ensures-if (not (is_constant_expression rhs)) _ _ s₁
              (λ hr. rejected (ts, Reads-diagnose _ rd, λ c. broken h (ground arith)))
              (λ hr. returned (refl, (λ _. ground arith), refl))))

pub infix_newline :
    (t : Token) {q : ℕ × ℕ} → get_infix_power t.type ≡ some q → type_eq t.type newline ≡ false
unfolding get_infix_power
infix_newline t h = elim (Bool-cases (type_eq t.type newline)) [
  | inl e ↦ cc (ap get_infix_power ((type_eq_iff t.type newline).0 e))
  | inr e ↦ e
]

module _ (s : State) (v : IsValid s.token_stream) where
  pub look_end : remaining s.token_stream ≡ [] → peek s.token_stream (pos 0) ≡ none
  look_end e = peek-first s.token_stream v ∙ ap first e

  pub look_first :
      (t : Token) (r : List Token)
      → remaining s.token_stream ≡ t ∷ r
      → peek s.token_stream (pos 0) ≡ some t
  look_first t r e = peek-first s.token_stream v ∙ ap first e
