-- ===== src/Parser/ExpressionsComplete.antt =====
-- `parseExpression` of `src/parser/Parser.cpp` reads each expression of the grammar.
use choco_c.Prelude.{
  ℕ, some-injective, zero, suc, ◌+◌, ◌*◌, ◌<◌, ◌≤◌, ◌≡◌, sym, ap, ◌∙◌, List, [], ◌∷◌, ◌++◌, some,
  arith, Option-cases, Bool-cases, inl, inr, length, length-append, subst, ltb, true, false,
  append_assoc, ◌||◌,
}
use choco_c.TokenType.{type_eq, and, or}
use choco_c.Token.{Token, is_bin_op}
use choco_c.Diagnostics.{DiagnosticsManager}
use choco_c.Ast.{Expression, binary}
use choco_c.Parser.Power.{get_infix_power, is_bin_op-get_infix_power}
use choco_c.Parser.Monad.{State}
use choco_c.Parser.Expressions.{parse_expression, expression_loop, combine}
use choco_c.Parser.Grammar.{
  Below, Spells, atom, name, group, group_null, prefix, infixed, EndsAbove, Filled, Follows, Stops,
  Operands, left_power,
}
use choco_c.Parser.Branches.{look_end, look_first}
use choco_c.Parser.Gives.{At, Gives, gives, At-left, Gives-bind, step-At}
use choco_c.Parser.PrefixesComplete.{
  Completes, no_power, prefix_literal, prefix_name, prefix_group, prefix_unary,
}

-- The same where more may follow: the loop goes on behind the expression.
abbrev Resumes : ℕ → List Token → Expression → Type 0
Resumes p ts e =
    (x : Expression) (us : List Token) (d : DiagnosticsManager) (rest : List Token) (f : ℕ)
    (s : State)
    → At d (ts ++ rest) s
    → Follows e rest
    → 2 * length (ts ++ rest) + 1 < f
    → ((g : ℕ) (s₁ : State)
        → At d rest s₁
        → 2 * length rest < g
        → Gives x d us (expression_loop g p e s₁))
    → Gives x d us (parse_expression f p s)

-- The loop ends before what is no operator that binds at `p` or above.
loop_ends :
    (p : ℕ) (e : Expression) (d : DiagnosticsManager) (rest : List Token) (g : ℕ) (s : State)
    → At d rest s
    → Stops p rest
    → 0 < g
    → Gives e d rest (expression_loop g p e s)
unfolding expression_loop
loop_ends p e d rest zero s a st h = absurd (omega arith)
loop_ends p e d [] (suc g) s a st h = rw (look_end s a.valid a.left, expression_loop) (gives a)
loop_ends p e d (t ∷ r) (suc g) s a st h =
    rw (look_first s a.valid t r a.left, expression_loop)
      (elim (Option-cases (get_infix_power t.type)) [
        | inl no_power ↦
            let n : is_bin_op t ≡ false = ground (arith, is_bin_op-get_infix_power t) in
            rw n (gives a)
        | inr (q, power) ↦
            let b : is_bin_op t ≡ true = ground (arith, is_bin_op-get_infix_power t) in
            let lt : ltb q.0 p ≡ true = ground (arith, st q.0 (ap left_power power)) in
            rw (b, power, lt) (gives a)
      ])

ended : (p : ℕ) (ts : List Token) (e : Expression) → Resumes p ts e → Completes p ts e
ended p ts e re d rest f s a fo st h =
    re e rest d rest f s a fo h (λ g s₁ a₁ h₁. loop_ends p e d rest g s₁ a₁ st (omega arith))

combined :
    (l r : Expression) (op : Token) (d : DiagnosticsManager) (rest : List Token) (s : State)
    → Operands op l r
    → At d rest s
    → Gives (binary l op r) d rest (combine l op r s)
unfolding combine
combined l r op d rest s c a = elim (Bool-cases (type_eq op.type and || type_eq op.type or)) [
  | inl m ↦ rw m (gives a)
  | inr m ↦ rw (m, (c m).0, (c m).1) (gives a)
]

-- A turn of the loop, where the right operand is read.
loop_turns :
    (p k q : ℕ) (op : Token) (l r : Expression) (us vs : List Token) (x : Expression)
    (d : DiagnosticsManager) (rest : List Token) (g : ℕ) (s : State)
    → Completes q us r
    → get_infix_power op.type ≡ some (k, q)
    → p ≤ k
    → Operands op l r
    → Follows (binary l op r) rest
    → At d (op ∷ (us ++ rest)) s
    → 2 * length (op ∷ (us ++ rest)) < g
    → ((j : ℕ) (s₁ : State)
        → At d rest s₁
        → 2 * length rest < j
        → Gives x d vs (expression_loop j p (binary l op r) s₁))
    → Gives x d vs (expression_loop g p l s)
unfolding expression_loop
loop_turns p k q op l r us vs x d rest zero s co power le ops fo a h next = absurd (omega arith)
loop_turns p k q op l r us vs x d rest (suc g) s co power le ops fo a h next =
    let is_op : is_bin_op op ≡ true = ground (arith, is_bin_op-get_infix_power op) in
    let tight : ltb k p ≡ false = ground arith in
    let (s₁, stepped, a₁, b) = step-At s op (us ++ rest) a in
    rw (look_first s a.valid op _ a.left, expression_loop, is_op, power, tight, stepped)
      (Gives-bind _
        (co d rest g s₁ a₁ (λ j n. (fo j n).1) (λ j n. subst (Below j) power (fo j n).0)
          (omega arith))
        (λ s₂ a₂.
          Gives-bind _ (combined l r op d rest s₂ ops a₂)
            (λ s₃ a₃. next g s₃ a₃ (omega (arith, length-append us rest)))))

-- An expression of the grammar is read, and the loop goes on behind it.
spelled-Resumes :
    {p : ℕ} {ts : List Token} {e : Expression} → Spells p ts e → Filled e → Resumes p ts e
unfolding parse_expression
spelled-Resumes sp w x us d rest zero s a fo h k = absurd (omega arith)
spelled-Resumes (atom {t} m) w x us d rest (suc f) s a fo h k =
    Gives-bind _ (prefix_literal t d rest f s m a (omega arith)) (λ s₁ a₁. k f s₁ a₁ (omega arith))
spelled-Resumes (name {t} m) w x us d rest (suc f) s a fo h k =
    Gives-bind _ (prefix_name t d rest f s m a (omega arith)) (λ s₁ a₁. k f s₁ a₁ (omega arith))
spelled-Resumes (group l r {e} {ts} hl hr eq sp) w x us d rest (suc f) s a fo h k =
    let co = ended 0 ts e (spelled-Resumes sp w) in
    let ends = ap (λ vs. vs ++ rest) eq ∙ ap (◌∷◌ l) (append_assoc ts (r ∷ []) rest) in
    Gives-bind _
      (prefix_group l r e ts d rest f s co hl hr (At-left ends a) (omega (arith, ap length ends)))
      (λ s₁ a₁. k f s₁ a₁ (omega (arith, ap length ends, length-append ts (r ∷ rest))))
spelled-Resumes (group_null l r hl hr eq broken) w x us d rest (suc f) s a fo h k = absurd w
spelled-Resumes (prefix k q {op} {e} {ts} m power eq sp c) w x us d rest (suc f) s a fo h next =
    let co = ended q ts e (spelled-Resumes sp w) in
    let ends = ap (λ vs. vs ++ rest) eq in
    Gives-bind _
      (prefix_unary k q op e ts d rest f s co m power c fo (At-left ends a)
        (omega (arith, ap length ends)))
      (λ s₁ a₁. next f s₁ a₁ (omega (arith, ap length ends, length-append ts rest)))
spelled-Resumes (infixed k q {op} {l} {r} {ts} {us} power le eq spl above spr ops) w x vs d rest
      (suc f) s a fo h next =
    let co = ended q us r (spelled-Resumes spr w.1) in
    let ends = ap (λ vs. vs ++ rest) eq ∙ append_assoc ts (op ∷ us) rest in
    spelled-Resumes spl w.0 x vs d (op ∷ (us ++ rest)) (suc f) s (At-left ends a)
      (λ j n. subst (λ i. EndsAbove i l) (some-injective _ _ (sym (ap left_power power) ∙ n)) above)
      (omega (arith, ap length ends))
      (λ g s₁ a₁ h₁. loop_turns _ k q op l r us vs x d rest g s₁ co power le ops fo a₁ h₁ next)

-- The tokens of an expression are read as that expression.
pub spelled-Completes :
    {p : ℕ} {ts : List Token} {e : Expression} → Spells p ts e → Filled e → Completes p ts e
spelled-Completes {p} {ts} {e} sp w = ended p ts e (spelled-Resumes sp w)
