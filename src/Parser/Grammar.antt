-- ===== src/Parser/Grammar.antt =====
-- The grammar of expressions that `src/parser/Parser.cpp` is to implement, stated with no parser: which
-- tokens an expression stands for, and how tightly its operators bind.
use choco_c.Prelude.{
  ℕ, ◌≤◌, ◌<◌, ◌≡◌, true, false, ◌||◌, ◌&&◌, List, [], ◌∷◌, ◌++◌, Option, none, some,
}
use choco_c.TokenType.{type_eq, and, or, minus, id, open_paren, close_paren}
use choco_c.Token.{Token, is_literal, is_unary_op}
use choco_c.Ast.{
  Expression, literal, identifier, grouping, grouping_null, unary, binary, paren_range,
  is_constant_expression,
}
use choco_c.Parser.Power.{get_infix_power, get_prefix_power, BindingPower}

abbrev pub left_power : BindingPower → Option ℕ
left_power none = none
left_power (some p) = some p.0

-- The left power of the operator that the tokens begin with, if they begin with one.
abbrev pub next_power : List Token → Option ℕ
next_power [] = none
next_power (t ∷ ts) = left_power (get_infix_power t.type)

abbrev pub Below : ℕ → BindingPower → Type 0
Below k none = ⊥
Below k (some p) = k < p.1

-- An operator of left power `k` behind the expression is not drawn into its right edge: each operator
-- on the edge binds its right operand tighter than `k`.
abbrev pub EndsAbove : ℕ → Expression → Type 0
EndsAbove k (literal t) = Unit {0}
EndsAbove k (identifier t) = Unit {0}
EndsAbove k (grouping e r) = Unit {0}
EndsAbove k (grouping_null r) = Unit {0}
EndsAbove k (unary op e) = Below k (get_prefix_power op.type) × EndsAbove k e
EndsAbove k (binary l op r) = Below k (get_infix_power op.type) × EndsAbove k r

-- Operators other than `and` and `or` take constant expressions only.
abbrev pub Operands : Token → Expression → Expression → Type 0
Operands op l r =
    (type_eq op.type and || type_eq op.type or) ≡ false
    → (is_constant_expression l ≡ true) × (is_constant_expression r ≡ true)

mutual
  -- The tokens `ws` spell the expression, and its outermost operators have at least the power `p`.
  pub data Spells : ℕ → List Token → Expression → Type 0 where
    atom : {p : ℕ} {t : Token} → is_literal t ≡ true → Spells p (t ∷ []) (literal t)
    name : {p : ℕ} {t : Token} → t.type ≡ id → Spells p (t ∷ []) (identifier t)
    group :
        {p : ℕ} (l r : Token) {e : Expression} {ts ws : List Token}
        → l.type ≡ open_paren
        → r.type ≡ close_paren
        → ws ≡ l ∷ (ts ++ r ∷ [])
        → Spells 0 ts e
        → Spells p ws (grouping e (paren_range l r))
    group_null :
        {p : ℕ} (l r : Token) {ts ws : List Token}
        → l.type ≡ open_paren
        → r.type ≡ close_paren
        → ws ≡ l ∷ (ts ++ r ∷ [])
        → Fails 0 ts
        → Spells p ws (grouping_null (paren_range l r))
    prefix :
        {p : ℕ} (k q : ℕ) {op : Token} {e : Expression} {ts ws : List Token}
        → is_unary_op op ≡ true
        → get_prefix_power op.type ≡ some (k, q)
        → ws ≡ op ∷ ts
        → Spells q ts e
        → (type_eq op.type minus ≡ true → is_constant_expression e ≡ true)
        → Spells p ws (unary op e)
    infixed :
        {p : ℕ} (k q : ℕ) {op : Token} {l r : Expression} {ts us ws : List Token}
        → get_infix_power op.type ≡ some (k, q)
        → p ≤ k
        → ws ≡ ts ++ op ∷ us
        → Spells p ts l
        → EndsAbove k l
        → Spells q us r
        → Operands op l r
        → Spells p ws (binary l op r)

  -- The tokens `ws`, with a closing parenthesis behind them, are no expression of the power `p`: there are
  -- none, an operator lacks its operand, or has one that is no constant expression as it must be.
  pub data Fails : ℕ → List Token → Type 0 where
    nothing : {p : ℕ} → Fails p []
    no_operand :
        {p : ℕ} (k q : ℕ) (op : Token) {ts ws : List Token}
        → is_unary_op op ≡ true
        → get_prefix_power op.type ≡ some (k, q)
        → ws ≡ op ∷ ts
        → Fails q ts
        → Fails p ws
    no_constant :
        {p : ℕ} (k q : ℕ) (op : Token) {e : Expression} {ts ws : List Token}
        → op.type ≡ minus
        → get_prefix_power op.type ≡ some (k, q)
        → ws ≡ op ∷ ts
        → Spells q ts e
        → is_constant_expression e ≡ false
        → Fails p ws
    no_right :
        {p : ℕ} (k q : ℕ) (op : Token) {l : Expression} {ts us ws : List Token}
        → get_infix_power op.type ≡ some (k, q)
        → p ≤ k
        → ws ≡ ts ++ op ∷ us
        → Spells p ts l
        → EndsAbove k l
        → Fails q us
        → Fails p ws
    no_constants :
        {p : ℕ} (k q : ℕ) (op : Token) {l r : Expression} {ts us ws : List Token}
        → get_infix_power op.type ≡ some (k, q)
        → p ≤ k
        → ws ≡ ts ++ op ∷ us
        → Spells p ts l
        → EndsAbove k l
        → Spells q us r
        → (type_eq op.type and || type_eq op.type or) ≡ false
        → (is_constant_expression l && is_constant_expression r) ≡ false
        → Fails p ws

-- What follows an expression read at power `p`: an operator that binds less than `p`, and that no
-- operator on the right edge would draw in, or none.
abbrev pub Follows : Expression → List Token → Type 0
Follows e ts = (k : ℕ) → next_power ts ≡ some k → EndsAbove k e

abbrev pub Stops : ℕ → List Token → Type 0
Stops p ts = (k : ℕ) → next_power ts ≡ some k → k < p

-- No parentheses of the expression stand around nothing that could be read.
abbrev pub Filled : Expression → Type 0
Filled (literal t) = Unit {0}
Filled (identifier t) = Unit {0}
Filled (grouping e r) = Filled e
Filled (grouping_null r) = ⊥
Filled (unary op e) = Filled e
Filled (binary l op r) = Filled l × Filled r
