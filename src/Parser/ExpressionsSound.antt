-- ===== src/Parser/ExpressionsSound.antt =====
-- `parseExpression` and `parsePrefix` of `src/parser/Parser.cpp` against the grammar, by one induction
-- on the fuel.
use choco_c.Prelude.{
  ℕ, zero, suc, ◌+◌, ◌*◌, ◌<◌, ◌≤◌, ◌≡◌, refl, sym, ap, ◌∙◌, List, [], ◌∷◌, ◌++◌, some, arith,
  Option-cases, inl, inr, length, subst, not, ltb,
}
use choco_c.TokenType.{
  minus, not_kw, string, id_string, false_kw, true_kw, int_lit, none_kw, id, open_paren,
}
use choco_c.Token.{Token, is_bin_op}
use choco_c.TokenStream.{IsValid, remaining}
use choco_c.Ast.{Expression, binary}
use choco_c.Parser.Power.{get_infix_power, is_bin_op-get_infix_power}
use choco_c.Parser.Monad.{State, ok}
use choco_c.Parser.Expressions.{parse_expression, expression_loop, parse_prefix}
use choco_c.Parser.Grammar.{
  next_power, Below, Spells, atom, name, infixed, nothing, no_right, no_constants, Follows,
  left_power,
}
use choco_c.Parser.Branches.{
  Gone, PrefixGone, Parsed, Prefixed, unary_kinds, inside_Reads, literal_newline, id_newline,
  unary_newline, is_literal_of, is_unary_of, close_grouping-Prefixed, close_unary-Prefixed,
  combine-Ensures, infix_newline, look_end, look_first,
}
use choco_c.Parser.Ensures.{
  Ensures, returned, rejected, Ensures-bind, Ensures-caught, Ensures-if, Reads, Reads-refl,
  Reads-trans, Took-Reads, Reads-length, Took-length, List-cases, step-Took, Ensures-expect_at,
  one_of-newline, one_of_single,
}

-- The loop ends before a token that is no operator, or one that binds less than `p`.
loop_stop :
    (p : ℕ) (lhs : Expression) (s₀ s : State) (ts : List Token) (t : Token) (r : List Token)
    → remaining s.token_stream ≡ t ∷ r
    → Reads s₀ ts s
    → Spells p ts lhs
    → Follows lhs (remaining s.token_stream)
    → ((q : ℕ × ℕ) → get_infix_power t.type ≡ some q → q.0 < p)
    → Ensures (Parsed p s₀) (Gone p s₀) ⊥ (ok lhs s)
loop_stop p lhs s₀ s ts t r e rd sp fo low = returned (ts, rd, sp, fo, stops)
  where
    stops : (k : ℕ) → next_power (remaining s.token_stream) ≡ some k → k < p
    stops k e' = elim (Option-cases (get_infix_power t.type)) [
      | inl n ↦ ground (arith, ap next_power e)
      | inr (q, power) ↦ ground (arith, ap next_power e, low q power)
    ]

mutual
  unfolding parse_expression

  pub parse_expression-Parsed :
      (f p : ℕ) (s : State)
      → IsValid s.token_stream
      → 2 * length (remaining s.token_stream) + 1 < f
      → Ensures (Parsed p s) (Gone p s) ⊥ (parse_expression f p s)
  parse_expression-Parsed zero p s v h = absurd (omega arith)
  parse_expression-Parsed (suc f) p s v h =
      Ensures-bind (parse_prefix-Prefixed f s v (omega arith))
        (λ s' (ts, rd, broken). (ts, rd, λ c. broken c p)) (λ u. u)
        (λ lhs s₁ (ts, rd, sp, fo).
          expression_loop-Parsed f p lhs s s₁ ts (omega (arith, Reads-length rd)) rd (sp p) fo)

  expression_loop-Parsed :
      (f p : ℕ) (lhs : Expression) (s₀ s : State) (ts : List Token)
      → 2 * length (remaining s.token_stream) < f
      → Reads s₀ ts s
      → Spells p ts lhs
      → Follows lhs (remaining s.token_stream)
      → Ensures (Parsed p s₀) (Gone p s₀) ⊥ (expression_loop f p lhs s)
  expression_loop-Parsed zero p lhs s₀ s ts h rd sp fo = absurd (omega arith)
  expression_loop-Parsed (suc f) p lhs s₀ s ts h rd sp fo =
      elim (List-cases (remaining s.token_stream)) [
        | inl e ↦ rw (look_end s rd.valid e) (returned (ts, rd, sp, fo, (λ k e'. ground arith)))
        | inr (t, r, e) ↦ rw (look_first s rd.valid t r e) (
            let stop = loop_stop p lhs s₀ s ts t r e rd sp fo in
            Ensures-if (not (is_bin_op t)) _ _ s
              (λ n. stop (λ q e'. ground (arith, is_bin_op-get_infix_power t)))
              (λ n. elim (Option-cases (get_infix_power t.type)) [
                | inl no_power ↦ rw no_power (stop (λ q e'. cc))
                | inr (q, power) ↦ rw power (
                    Ensures-if (ltb q.0 p) _ _ s (λ lt. stop (λ q' e'. ground arith))
                      (λ ge.
                        let (s₁, stepped, k) = step-Took s t r rd.valid e in
                        let took = Took-Reads k (infix_newline t power) in
                        let above = fo q.0 (ap next_power e ∙ ap left_power power) in
                        let binds : p ≤ q.0 = ground arith in
                        rw stepped (
                          Ensures-bind
                            (parse_expression-Parsed f q.1 s₁ k.valid
                              (omega (arith, Took-length k)))
                            (λ s' (us, rd', broken). (
                              ts ++ t ∷ us,
                              Reads-trans rd (Reads-trans took rd'),
                              λ c. no_right q.0 q.1 t power binds refl sp above (broken c),
                            ))
                            (λ u. u)
                            (λ rhs s₂ (us, rd₂, sp₂, fo₂, st₂).
                              Ensures-bind
                                (combine-Ensures p lhs rhs t s₀ s₂ (ts ++ t ∷ us)
                                  (Reads-trans rd (Reads-trans took rd₂))
                                  (no_constants q.0 q.1 t power binds refl sp above sp₂))
                                (λ _ n. n) (λ u. u)
                                (λ lhs' s₃ (e₁, ops, e₂).
                                  rw (e₁, e₂)
                                    (expression_loop-Parsed f p (binary lhs t rhs) s₀ s₂
                                      (ts ++ t ∷ us)
                                      (omega (arith, Took-length k, Reads-length rd₂))
                                      (Reads-trans rd (Reads-trans took rd₂))
                                      (infixed q.0 q.1 power binds refl sp above sp₂ ops)
                                      (λ k' e'.
                                        (subst (Below k') (sym power) (st₂ k' e'), fo₂ k' e'))))))))
              ]))
      ]

  parse_prefix-Prefixed :
      (f : ℕ) (s : State)
      → IsValid s.token_stream
      → 2 * length (remaining s.token_stream) < f
      → Ensures (Prefixed s) (PrefixGone s) ⊥ (parse_prefix f s)
  parse_prefix-Prefixed zero s v h = absurd (omega arith)
  parse_prefix-Prefixed (suc f) s v h = elim (List-cases (remaining s.token_stream)) [
    | inl e ↦ rw (look_end s v e) (rejected ([], Reads-refl s v, λ c p. nothing))
    | inr (t, r, e) ↦ rw (look_first s v t r e) (
        Ensures-expect_at (string ∷ id_string ∷ false_kw ∷ true_kw ∷ int_lit ∷ none_kw ∷ []) _ _ s t
          r v e
          (λ s₁ m k. returned (
            t ∷ [],
            Took-Reads k (one_of-newline _ _ literal_newline m),
            (λ p. atom (is_literal_of t m)),
            (λ k e'. tt),
          ))
          (λ _.
            Ensures-expect_at (id ∷ []) _ _ s t r v e
              (λ s₁ m k. returned (
                t ∷ [],
                Took-Reads k (one_of-newline _ _ id_newline m),
                (λ p. name (one_of_single t.type id m)),
                (λ k e'. tt),
              ))
              (λ _.
                Ensures-expect_at (open_paren ∷ []) _ _ s t r v e
                  (λ s₁ m k. rw k.behind (
                    Ensures-bind
                      (Ensures-caught {M = PrefixGone s}
                        (parse_expression-Parsed f 0 s₁ k.valid (omega (arith, Took-length k))))
                      (λ _ n. n) (λ u. u)
                      (λ o s₂ c.
                        let (ts, rd, sp, broken) = inside_Reads o s₁ s₂ c in
                        close_grouping-Prefixed t s s₁ s₂ o ts (one_of_single t.type open_paren m) k
                          rd sp broken)))
                  (λ _.
                    Ensures-expect_at (not_kw ∷ minus ∷ []) _ _ s t r v e
                      (λ s₁ m k.
                        let (is_op, q, power) = unary_kinds t.type m in
                        rw (k.behind, power)
                          (Ensures-bind
                            (Ensures-caught {M = PrefixGone s} (
                              parse_expression-Parsed f q.1 s₁ k.valid
                                (omega (arith, Took-length k))))
                            (λ _ n. n) (λ u. u)
                            (λ o s₂ c.
                              close_unary-Prefixed t s s₁ s₂ o q power (is_unary_of t is_op)
                                (one_of-newline _ _ unary_newline m) k c)))
                      (λ _. rejected ([], Reads-refl s v, λ c p. nothing))))))
  ]
