-- ===== src/Parser/StatementsComplete.antt =====
-- `parseStatement` of `src/parser/Parser.cpp` reads the assignments of the grammar.
use choco_c.Prelude.{
  ℕ, ◌+◌, ◌*◌, ◌<◌, ◌≡◌, ◌≢◌, refl, ap, ◌∙◌, true, false, List, [], ◌∷◌, ◌++◌, append_assoc, arith,
  length, length-append, pos, none,
}
use choco_c.TokenType.{TokenType, newline, type_eq, id, assign, if_kw, while, for}
use choco_c.Token.{Token, one_of, opt_type_eq}
use choco_c.TokenStream.{peek}
use choco_c.Diagnostics.{DiagnosticsManager}
use choco_c.Ast.{Expression, identifier, AssignmentStatement}
use choco_c.Parser.Monad.{State, matches}
use choco_c.Parser.Power.{get_infix_power}
use choco_c.Parser.Statements.{
  parse_assignment_statement, parse_simple_statement, parse_statement, simple_starts,
}
use choco_c.Parser.Grammar.{Spells, Filled}
use choco_c.Parser.ProgramGrammar.{SpellsTargets, none, more, SpellsAssignment, assignment}
use choco_c.Parser.Ensures.{matches-one_of}
use choco_c.Parser.Gives.{At, Gives, gives, At-left, Gives-bind, Gives-expect}
use choco_c.Parser.ExpressionsComplete.{spelled-Completes}
use choco_c.Parser.PrefixesComplete.{no_power}
use choco_c.Parser.TargetsComplete.{second_type, no_target, spelled_targets, targets_end}

-- An assignment with its line's end is read.
assigned :
    (d : DiagnosticsManager) (left : List Token) (f : ℕ) (s : State) (end : Token)
    {es : List Expression} {e : Expression} {ts us : List Token}
    → SpellsTargets ts es
    → Spells 0 us e
    → Filled e
    → end.type ≡ newline
    → At d (ts ++ (us ++ end ∷ left)) s
    → 2 * length (ts ++ (us ++ end ∷ left)) + 1 < f
    → Gives (record { targets = es; expr = e }) d (end ∷ left) (parse_assignment_statement f s)
unfolding parse_assignment_statement get_infix_power type_eq
assigned d left f s end {es} {e} {ts} {us} st sp w hend p h =
    let no_more : get_infix_power end.type ≡ none = rw hend refl in
    Gives-bind _
      (spelled_targets st [] es (us ++ end ∷ left) d (us ++ end ∷ left) f s p (omega arith)
        (λ g s₁ p₁ h₁.
          targets_end es (us ++ end ∷ left) d g s₁ (no_target end left (rw hend refl) sp) p₁
            (omega arith)))
      (λ s₁ p₁.
        Gives-bind _
          (spelled-Completes sp w d (end ∷ left) f s₁ p₁
            (λ k n. absurd (no_power end left no_more k n))
            (λ k n. absurd (no_power end left no_more k n))
            (omega (arith, length-append ts (us ++ end ∷ left))))
          (λ s₂ p₂. gives p₂))

snoc-ne-nil : (es : List Expression) (e : Expression) → es ++ e ∷ [] ≢ []
snoc-ne-nil [] e = cc
snoc-ne-nil (x ∷ es) e = cc

-- A target comes first, where there is one.
pub target_first :
    {ts : List Token} {es : List Expression} (left : List Token)
    → SpellsTargets ts es
    → es ≢ []
    → (t : Token) × (u : Token) × (r : List Token) × (ts ++ left ≡ t ∷ u ∷ r)
      × (t.type ≡ id)
      × (u.type ≡ assign)
target_first left none h = absurd (h refl)
target_first left (more t a none ht ha eq) h = (t, a, left, ap (λ vs. vs ++ left) eq, ht, ha)
target_first left (more t a {ts} (more t' a' {es} sp ht' ha' eq') ht ha eq) h =
    let (x, y, r, e, hx, hy) =
      target_first (t ∷ a ∷ left) (more t' a' sp ht' ha' eq') (snoc-ne-nil es (identifier t')) in
    (x, y, r, ap (λ vs. vs ++ left) eq ∙ append_assoc ts (t ∷ a ∷ []) left ∙ e, hx, hy)

-- A statement of the grammar, with a target and no empty parentheses, is read.
pub spelled_statement :
    (d : DiagnosticsManager) (left : List Token) (f : ℕ) (s : State) {ws : List Token}
    {a : AssignmentStatement}
    → SpellsAssignment ws a
    → a.targets ≢ []
    → Filled a.expr
    → At d (ws ++ left) s
    → 2 * length (ws ++ left) + 1 < f
    → Gives a d left (parse_statement f s)
unfolding parse_statement parse_simple_statement one_of type_eq opt_type_eq
spelled_statement d left f s (assignment end {es} {e} {ts} {us} st sp hend eq) ne w p h =
    let ends =
      ap (λ vs. vs ++ left) eq
      ∙ append_assoc (ts ++ us) (end ∷ []) left
      ∙ append_assoc ts us (end ∷ left) in
    let p' = At-left ends p in
    let (t, u, r, front, ht, hu) = target_first (us ++ end ∷ left) st ne in
    let q = At-left front p' in
    let here = λ (types : List TokenType). matches-one_of types s t (u ∷ r) q.valid q.left in
    let no_if : matches (if_kw ∷ []) s ≡ false = here (if_kw ∷ []) ∙ rw ht refl in
    let no_while : matches (while ∷ []) s ≡ false = here (while ∷ []) ∙ rw ht refl in
    let no_for : matches (for ∷ []) s ≡ false = here (for ∷ []) ∙ rw ht refl in
    let simple : matches simple_starts s ≡ true = here simple_starts ∙ rw ht refl in
    let assigns : opt_type_eq (peek s.token_stream (pos 1)) assign ≡ true =
      second_type (t ∷ u ∷ r) s q assign ∙ rw hu refl in
    rw (no_if, no_while, no_for, simple, assigns)
      (Gives-bind _ (assigned d left f s end st sp w hend p' (omega (arith, ap length ends)))
        (λ s₁ p₁.
          Gives-expect (newline ∷ []) _ _ s₁ end left p₁ (rw hend refl) (λ s₂ p₂ b. gives p₂)))
