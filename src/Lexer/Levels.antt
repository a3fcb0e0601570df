-- ===== src/Lexer/Levels.antt =====
-- The stack of levels of `src/lexer/Lexer.cpp`: a change of level ends, with the tokens for it.
use choco_c.Prelude.{
  ℕ, ◌≤◌, ◌<◌, ◌≡◌, refl, ap, subst, inl, inr, false, List, [], ◌∷◌, Text, arith, length,
  Bool-cases, ltb,
}
use choco_c.TokenType.{type_eq, ordinal, indent, dedent}
use choco_c.Token.{monostate, has_value_of}
use choco_c.Lexer.Scanner.{Lexer, add_token}
use choco_c.Lexer.Lines.{ok, dedent_loop, handle_level}
use choco_c.Lexer.Stack.{IsStack}
use choco_c.Lexer.Cuts.{position, Extends, Extends-quiet, Extends-token, Runs, Runs-after}

module _ (buffer : Text) where
  -- Where a loop runs that was called with the stack as it is.
  stays : (b : ℕ) (lx : Lexer) → position lx ≤ b → Runs buffer b lx (ok lx)
  stays b lx h = (lx, refl, Extends-quiet buffer lx lx refl refl (omega arith) (omega arith), h)

  leave-Extends :
      (l k : ℕ) (ls : List ℕ) (lx : Lexer)
      → lx.indentation_levels ≡ l ∷ k ∷ ls
      → Extends buffer lx
          (record (add_token buffer dedent monostate lx) { indentation_levels = k ∷ ls })
  unfolding has_value_of type_eq ordinal
  leave-Extends l k ls lx e =
      Extends-token buffer dedent monostate lx (k ∷ ls) refl (λ d. cc) (λ s. (subst IsStack e s).1)
        (omega (arith, ap length e))

  add_token-position :
      (lx : Lexer) (ls : List ℕ)
      → position (record (add_token buffer dedent monostate lx) { indentation_levels = ls })
        ≡ position lx
  unfolding add_token
  add_token-position lx ls = omega arith

  -- The loop that leaves levels, from a stack in order.
  pub dedent_loop-Runs :
      (b level : ℕ) (ls : List ℕ) (lx : Lexer)
      → lx.indentation_levels ≡ ls
      → IsStack ls
      → position lx ≤ b
      → Runs buffer b lx (dedent_loop buffer level ls lx)
  unfolding dedent_loop
  dedent_loop-Runs b level [] lx e s h = absurd s
  dedent_loop-Runs b level (l ∷ []) lx e s h =
      let low : ltb level l ≡ false = ground arith in
      subst (Runs buffer b lx) (rw low refl) (stays b lx h)
  dedent_loop-Runs b level (l ∷ k ∷ ls) lx e s h = elim (Bool-cases (ltb level l)) [
    | inl t ↦
        let next =
          dedent_loop-Runs b level (k ∷ ls)
            (record (add_token buffer dedent monostate lx) { indentation_levels = k ∷ ls }) refl s.1
            (omega (arith, add_token-position lx (k ∷ ls))) in
        subst (Runs buffer b lx) (rw t refl)
          (Runs-after buffer b lx _ _ (leave-Extends l k ls lx e) next)
    | inr t ↦ subst (Runs buffer b lx) (rw t refl) (stays b lx h)
  ]

  -- The loop to level 0 leaves the lowest level alone.
  pub dedent_loop-lowest :
      (ls : List ℕ) (lx lx' : Lexer)
      → lx.indentation_levels ≡ ls
      → IsStack ls
      → dedent_loop buffer 0 ls lx ≡ ok lx'
      → length lx'.indentation_levels ≡ 1
  unfolding dedent_loop
  dedent_loop-lowest [] lx lx' e s q = absurd s
  dedent_loop-lowest (l ∷ []) lx lx' e s q =
      let same : lx ≡ lx' = ground arith in
      omega (arith, ap (λ (x : Lexer). length x.indentation_levels) same, ap length e)
  dedent_loop-lowest (l ∷ k ∷ ls) lx lx' e s q =
      dedent_loop-lowest (k ∷ ls)
        (record (add_token buffer dedent monostate lx) { indentation_levels = k ∷ ls }) lx' refl s.1
        (ground arith)

  enter-Extends :
      (l : ℕ) (ls : List ℕ) (lx : Lexer)
      → lx.indentation_levels ≡ l ∷ ls
      → l < lx.lexeme_length
      → Extends buffer lx (record (add_token buffer indent monostate lx) {
        indentation_levels = lx.lexeme_length ∷ l ∷ ls;
      })
  unfolding has_value_of type_eq ordinal
  enter-Extends l ls lx e h =
      Extends-token buffer indent monostate lx (lx.lexeme_length ∷ l ∷ ls) refl
        (λ _. omega (arith, h)) (λ s. (h, subst IsStack e s)) (omega (arith, ap length e))

  pub handle_level-Runs :
      (b : ℕ) (ls : List ℕ) (lx : Lexer)
      → lx.indentation_levels ≡ ls
      → IsStack ls
      → position lx ≤ b
      → Runs buffer b lx (handle_level buffer ls lx)
  unfolding handle_level add_token
  handle_level-Runs b [] lx e s h = absurd s
  handle_level-Runs b (l ∷ ls) lx e s h = elim (Bool-cases (ltb l lx.lexeme_length)) [
    | inl t ↦
        subst (Runs buffer b lx) (rw t refl)
          (_, refl, enter-Extends l ls lx e (ground arith), omega arith)
    | inr t ↦
        subst (Runs buffer b lx) (rw t refl) (dedent_loop-Runs b lx.lexeme_length (l ∷ ls) lx e s h)
  ]
