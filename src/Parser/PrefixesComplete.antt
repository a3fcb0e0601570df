-- ===== src/Parser/PrefixesComplete.antt =====
-- `parsePrefix` of `src/parser/Parser.cpp` reads literals, names, groupings and unary expressions.
use choco_c.Prelude.{
  ℕ, zero, suc, ◌+◌, ◌*◌, ◌<◌, ◌≡◌, refl, ap, ◌∙◌, List, [], ◌∷◌, ◌++◌, some, arith, Bool-cases,
  inl, inr, length, subst, true, false, none,
}
use choco_c.TokenType.{
  TokenType, type_eq, minus, not_kw, string, id_string, false_kw, true_kw, int_lit, none_kw, id,
  open_paren, close_paren,
}
use choco_c.Token.{Token, one_of, is_literal, is_unary_op}
use choco_c.Diagnostics.{DiagnosticsManager}
use choco_c.Ast.{Expression, unary, grouping, paren_range, is_constant_expression}
use choco_c.Parser.Power.{get_infix_power, get_prefix_power}
use choco_c.Parser.Monad.{State}
use choco_c.Parser.Expressions.{parse_expression, parse_prefix, close_unary, close_grouping}
use choco_c.Parser.Grammar.{next_power, Below, Follows, Stops}
use choco_c.Parser.Branches.{look_first, literal_kinds}
use choco_c.Parser.Gives.{
  At, Gives, gives, Gives-bind, Gives-caught, Gives-expect, Gives-expect_not,
}

abbrev literals : List TokenType
literals = string ∷ id_string ∷ false_kw ∷ true_kw ∷ int_lit ∷ none_kw ∷ []

-- The expression spelled by `ts` is read at the power `p`, whatever follows that it may not draw in.
abbrev pub Completes : ℕ → List Token → Expression → Type 0
Completes p ts e =
    (d : DiagnosticsManager) (rest : List Token) (f : ℕ) (s : State)
    → At d (ts ++ rest) s
    → Follows e rest
    → Stops p rest
    → 2 * length (ts ++ rest) + 1 < f
    → Gives e d rest (parse_expression f p s)

-- `parsePrefix` at a literal and at a name.
pub prefix_literal :
    (t : Token) (d : DiagnosticsManager) (rest : List Token) (f : ℕ) (s : State)
    → is_literal t ≡ true
    → At d (t ∷ rest) s
    → 0 < f
    → Gives (Expression.literal t) d rest (parse_prefix f s)
unfolding parse_prefix is_literal
prefix_literal t d rest zero s m a h = absurd (omega arith)
prefix_literal t d rest (suc f) s m a h =
    rw (look_first s a.valid t rest a.left, parse_prefix)
      (Gives-expect literals _ _ s t rest a (literal_kinds t.type ∙ m) (λ s₁ a₁ b. gives a₁))

pub prefix_name :
    (t : Token) (d : DiagnosticsManager) (rest : List Token) (f : ℕ) (s : State)
    → t.type ≡ id
    → At d (t ∷ rest) s
    → 0 < f
    → Gives (Expression.identifier t) d rest (parse_prefix f s)
unfolding parse_prefix one_of type_eq
prefix_name t d rest zero s m a h = absurd (omega arith)
prefix_name t d rest (suc f) s m a h =
    rw (look_first s a.valid t rest a.left, parse_prefix)
      (Gives-expect_not literals _ _ s t rest a (rw m refl)
        (Gives-expect (id ∷ []) _ _ s t rest a (rw m refl) (λ s₁ a₁ b. gives a₁)))

closed_grouping :
    (token l r : Token) (e : Expression) (d : DiagnosticsManager) (rest : List Token) (s : State)
    → r.type ≡ close_paren
    → At d (r ∷ rest) s
    → Gives (grouping e (paren_range l r)) d rest (close_grouping token (some l) (some e) s)
unfolding close_grouping one_of type_eq
closed_grouping token l r e d rest s m a =
    Gives-expect (close_paren ∷ []) _ _ s r rest a (rw m refl) (λ s₁ a₁ b. rw b (gives a₁))

-- Nothing is drawn in by what is no operator.
pub no_power :
    (t : Token) (rest : List Token)
    → get_infix_power t.type ≡ none
    → (k : ℕ) → next_power (t ∷ rest) ≡ some k
    → ⊥
no_power t rest h k n = let none_is : none ≡ some k = rw h at n in cc

no_operator : get_infix_power close_paren ≡ none
unfolding get_infix_power
no_operator = refl

-- `parsePrefix` at a parenthesis, where the expression inside is read.
pub prefix_group :
    (l r : Token) (e : Expression) (ts : List Token) (d : DiagnosticsManager) (rest : List Token)
    (f : ℕ) (s : State)
    → Completes 0 ts e
    → l.type ≡ open_paren
    → r.type ≡ close_paren
    → At d (l ∷ (ts ++ r ∷ rest)) s
    → 2 * length (l ∷ (ts ++ r ∷ rest)) < f
    → Gives (grouping e (paren_range l r)) d rest (parse_prefix f s)
unfolding parse_prefix one_of type_eq
prefix_group l r e ts d rest zero s co hl hr a h = absurd (omega arith)
prefix_group l r e ts d rest (suc f) s co hl hr a h =
    let no_close = ap get_infix_power hr ∙ no_operator in
    rw (look_first s a.valid l _ a.left, parse_prefix)
      (Gives-expect_not literals _ _ s l _ a (rw hl refl) (
        Gives-expect_not (id ∷ []) _ _ s l _ a (rw hl refl) (
          Gives-expect (open_paren ∷ []) _ _ s l _ a (rw hl refl) (λ s₁ a₁ b. rw b (
            Gives-bind _
              (Gives-caught (
                co d (r ∷ rest) f s₁ a₁ (λ k n. absurd (no_power r rest no_close k n))
                  (λ k n. absurd (no_power r rest no_close k n)) (omega arith)))
              (λ s₂ a₂. closed_grouping l l r e d rest s₂ hr a₂))))))

unary_starts :
    (ty : TokenType)
    → one_of ty (minus ∷ not_kw ∷ []) ≡ true
    → (one_of ty literals ≡ false)
      × (one_of ty (id ∷ []) ≡ false)
      × (one_of ty (open_paren ∷ []) ≡ false)
      × (one_of ty (not_kw ∷ minus ∷ []) ≡ true)
unfolding one_of type_eq
unary_starts not_kw h = (refl, refl, refl, refl)
unary_starts minus h = (refl, refl, refl, refl)
unary_starts _ h = cc

closed_unary :
    (op : Token) (e : Expression) (d : DiagnosticsManager) (rest : List Token) (s : State)
    → (type_eq op.type minus ≡ true → is_constant_expression e ≡ true)
    → At d rest s
    → Gives (unary op e) d rest (close_unary op (some e) s)
unfolding close_unary
closed_unary op e d rest s c a = elim (Bool-cases (type_eq op.type minus)) [
  | inl m ↦ rw (m, c m) (gives a)
  | inr m ↦ rw m (gives a)
]

-- `parsePrefix` at a prefix operator, where the operand is read.
pub prefix_unary :
    (k q : ℕ) (op : Token) (e : Expression) (ts : List Token) (d : DiagnosticsManager)
    (rest : List Token) (f : ℕ) (s : State)
    → Completes q ts e
    → is_unary_op op ≡ true
    → get_prefix_power op.type ≡ some (k, q)
    → (type_eq op.type minus ≡ true → is_constant_expression e ≡ true)
    → Follows (unary op e) rest
    → At d (op ∷ (ts ++ rest)) s
    → 2 * length (op ∷ (ts ++ rest)) < f
    → Gives (unary op e) d rest (parse_prefix f s)
unfolding parse_prefix is_unary_op
prefix_unary k q op e ts d rest zero s co hu power c fo a h = absurd (omega arith)
prefix_unary k q op e ts d rest (suc f) s co hu power c fo a h =
    let (no_literal, no_id, no_group, hit) = unary_starts op.type hu in
    rw (look_first s a.valid op _ a.left, parse_prefix)
      (Gives-expect_not literals _ _ s op _ a no_literal (
        Gives-expect_not (id ∷ []) _ _ s op _ a no_id (
          Gives-expect_not (open_paren ∷ []) _ _ s op _ a no_group (
            Gives-expect (not_kw ∷ minus ∷ []) _ _ s op _ a hit (λ s₁ a₁ b.
              rw (b, power)
                (Gives-bind _
                  (Gives-caught (
                    co d rest f s₁ a₁ (λ j n. (fo j n).1) (λ j n. subst (Below j) power (fo j n).0)
                      (omega arith)))
                  (λ s₂ a₂. closed_unary op e d rest s₂ c a₂)))))))
