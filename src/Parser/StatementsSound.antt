-- ===== src/Parser/StatementsSound.antt =====
-- `parseAssignmentStatement`, `parseSimpleStatement` and `parseStatement` of `src/parser/Parser.cpp`
-- against the grammar.
use choco_c.Prelude.{
  ℕ, zero, suc, ◌+◌, ◌*◌, ◌<◌, ◌≡◌, refl, sym, ap, ◌∙◌, true, List, [], ◌∷◌, ◌++◌, length-append,
  arith, inl, inr, length, pos, Bool-cases, none,
}
use choco_c.TokenType.{TokenType, newline, type_eq, type_eq_iff, id, assign, while, for, if_kw}
use choco_c.Token.{Token, one_of, opt_type_eq}
use choco_c.TokenStream.{IsValid, remaining, peek}
use choco_c.TokenStream.Laws.{first, rest, peek-second}
use choco_c.Ast.{Expression, identifier, AssignmentStatement, statement}
use choco_c.Parser.Monad.{State, matches}
use choco_c.Parser.Statements.{
  parse_target, name_before, targets_loop, parse_assignment_statement, parse_simple_statement,
  parse_statement, simple_starts,
}
use choco_c.Parser.Grammar.{Spells, atom, name, group, group_null, prefix, infixed}
use choco_c.Parser.ProgramGrammar.{SpellsTargets, none, more, SpellsAssignment, assignment}
use choco_c.Parser.Headed.{HeadedChild, has_target}
use choco_c.Parser.Branches.{look_first}
use choco_c.Parser.ExpressionsSound.{parse_expression-Parsed}
use choco_c.Parser.DefinitionsSound.{Any, Line, Line-end, reject_behind-Ensures}
use choco_c.Parser.Ensures.{
  Ensures, returned, rejected, Ensures-bind, Ensures-map, Ensures-if, Reads, Reads-refl,
  Reads-trans, Took, Took-Reads, Reads-length, Took-length, List-cases, Ensures-expect,
  one_of_single, matches-first, matches-one_of, Ensures-expect_at,
}

-- A name with a token of the type behind it is what the guard of the loops finds.
pub name_before-first :
    (u : TokenType) (s : State)
    → IsValid s.token_stream
    → name_before u s ≡ true
    → (t a : Token) × (r : List Token) × (remaining s.token_stream ≡ t ∷ a ∷ r)
      × (t.type ≡ id)
      × (a.type ≡ u)
unfolding name_before opt_type_eq
name_before-first u s v h =
    let (t, m, r, e) = matches-first (id ∷ []) s v (ground arith) in
    elim (List-cases r) [
      | inl e' ↦ absurd (ground (arith, peek-second s.token_stream v, ap (λ l. first (rest l)) e))
      | inr (a, r', e') ↦ (
        t,
        a,
        r',
        rw e' at e,
        one_of_single t.type id m,
        ground
            (arith, peek-second s.token_stream v, ap (λ l. first (rest l)) e, type_eq_iff a.type u),
      )
    ]

-- Where the guard has looked, `parseTarget` and the `expect` behind it read the two tokens.
abbrev Targets : State → List Expression → State → Type 0
Targets s es s' = (ts : List Token) × Reads s ts s' × SpellsTargets ts es

one_of_self : (u : TokenType) → one_of u (u ∷ []) ≡ true
unfolding one_of
one_of_self u = ground (arith, type_eq_iff u u)

module _ (u : TokenType) (s : State) (t : Token) (r : List Token) where
  -- The current token is of type `u`, so `match` answers true.
  matches_self :
      IsValid s.token_stream
      → remaining s.token_stream ≡ t ∷ r
      → t.type ≡ u
      → matches (u ∷ []) s ≡ true
  matches_self v e is_u =
      matches-one_of (u ∷ []) s t r v e ∙ ap (λ y. one_of y (u ∷ [])) is_u ∙ one_of_self u

parse_target-Took :
    {U : Type 0} (s : State) (t : Token) (r : List Token)
    → IsValid s.token_stream
    → remaining s.token_stream ≡ t ∷ r
    → t.type ≡ id
    → Ensures (λ x s'. (x ≡ identifier t) × Took s t s') Any U (parse_target s)
unfolding parse_target
parse_target-Took s t r v e is_id =
    Ensures-expect_at (id ∷ []) _ _ s t r v e (λ s₁ m k. rw k.behind (returned (refl, k)))
      (λ miss. cc (miss, matches_self id s t r v e is_id))

-- The loop reads `name =` as long as the guard finds it. It gives up nowhere.
targets_loop-Targets :
    {U : Type 0} (f : ℕ) (es : List Expression) (s₀ s : State) (ts : List Token)
    → length (remaining s.token_stream) < f
    → Reads s₀ ts s
    → SpellsTargets ts es
    → Ensures (Targets s₀) Any U (targets_loop f es s)
unfolding targets_loop type_eq
targets_loop-Targets zero es s₀ s ts h rd sp = absurd (omega arith)
targets_loop-Targets (suc f) es s₀ s ts h rd sp = elim (Bool-cases (name_before assign s)) [
  | inl go ↦
      let (t, a, r, e, is_id, is_assign) = name_before-first assign s rd.valid go in
      rw (go, targets_loop)
        (Ensures-bind (parse_target-Took s t (a ∷ r) rd.valid e is_id) (λ _ n. n) (λ u. u)
          (λ x s₁ (same, k).
            let e₁ : remaining s₁.token_stream ≡ a ∷ r = cc (k.split, e) in
            Ensures-expect_at (assign ∷ []) _ _ s₁ a r k.valid e₁
              (λ s₂ m k'. rw same (
                targets_loop-Targets f (es ++ identifier t ∷ []) s₀ s₂ (ts ++ t ∷ a ∷ [])
                  (omega (arith, Took-length k, Took-length k'))
                  (Reads-trans rd
                    (Reads-trans (Took-Reads k (rw is_id)) (Took-Reads k' (rw is_assign))))
                  (more t a sp is_id is_assign refl)))
              (λ miss. cc (miss, matches_self assign s₁ a r k.valid e₁ is_assign))))
  | inr stop ↦ rw (stop, targets_loop) (returned (ts, rd, sp))
]

-- What an assignment has read, before the end of the line.
abbrev Assigned : State → AssignmentStatement → State → Type 0
Assigned s a s' =
    (ts us : List Token) × Reads s (ts ++ us) s' × SpellsTargets ts a.targets × Spells 0 us a.expr

parse_assignment_statement-Assigned :
    (f : ℕ) (s : State)
    → IsValid s.token_stream
    → 2 * length (remaining s.token_stream) + 1 < f
    → Ensures (Assigned s) Any ⊥ (parse_assignment_statement f s)
unfolding parse_assignment_statement
parse_assignment_statement-Assigned f s v h =
    Ensures-bind (targets_loop-Targets f [] s s [] (omega arith) (Reads-refl s v) none) (λ _ n. n)
      (λ u. u)
      (λ es s₁ (ts, rd, sp).
        Ensures-bind (parse_expression-Parsed f 0 s₁ rd.valid (omega (arith, Reads-length rd)))
          (λ _ _. tt) (λ u. u)
          (λ e s₂ (us, rd', sp', fo, st). returned (ts, us, Reads-trans rd rd', sp, sp')))

pub Spells-length : {p : ℕ} {ts : List Token} {e : Expression} → Spells p ts e → 0 < length ts
Spells-length (atom h) = omega arith
Spells-length (name h) = omega arith
Spells-length (group l r hl hr e sp) = omega (arith, ap length e)
Spells-length (group_null l r hl hr e broken) = omega (arith, ap length e)
Spells-length (prefix k q h h' e sp g) = omega (arith, ap length e)
Spells-length (infixed k q {ts} h h' e sp g sp' g') =
    omega (arith, ap length e, length-append ts _, Spells-length sp)

parse_simple_statement-Assigned :
    (f : ℕ) (s : State)
    → IsValid s.token_stream
    → 2 * length (remaining s.token_stream) + 1 < f
    → Ensures
        (λ a s'. Assigned s a s' × (opt_type_eq (peek s.token_stream (pos 1)) assign ≡ true))
        Any
        ⊥
        (parse_simple_statement f s)
unfolding parse_simple_statement
parse_simple_statement-Assigned f s v h =
    Ensures-if (opt_type_eq (peek s.token_stream (pos 1)) assign) _ _ s
      (λ guard. Ensures-map (λ a s' k. (k, guard)) (parse_assignment_statement-Assigned f s v h))
      (λ _. rejected tt)

-- What the guard of `parseSimpleStatement` has seen behind the first token.
guard_behind :
    (s : State) (ws : List Token)
    → IsValid s.token_stream
    → remaining s.token_stream ≡ ws
    → opt_type_eq (peek s.token_stream (pos 1)) assign ≡ true
    → opt_type_eq (first (rest ws)) assign ≡ true
guard_behind s ws v e guard =
    sym (ap (λ o. opt_type_eq o assign) (peek-second s.token_stream v ∙ ap (λ l. first (rest l)) e))
    ∙ guard

-- `parseStatement` reads an assignment to the end of its line, or returns `nullptr`; it never
-- dereferences an empty optional. An assignment that has no empty parentheses has a target.
pub parse_statement-Ensures :
    (f : ℕ) (s : State) (t : Token) (r : List Token)
    → IsValid s.token_stream
    → remaining s.token_stream ≡ t ∷ r
    → 2 * length (remaining s.token_stream) + 1 < f
    → Ensures
        (λ a s'.
          (ws : List Token) × Line s ws s' × SpellsAssignment ws a × HeadedChild (statement a))
        Any
        ⊥
        (parse_statement f s)
unfolding parse_statement
parse_statement-Ensures f s t r v e h =
    Ensures-if (matches (if_kw ∷ []) s) _ _ s (λ _. rejected tt)
      (λ _.
        Ensures-if (matches (while ∷ []) s) _ _ s (λ _. rejected tt)
          (λ _.
            Ensures-if (matches (for ∷ []) s) _ _ s (λ _. rejected tt)
              (λ _.
                Ensures-if (matches simple_starts s) _ _ s
                  (λ _.
                    Ensures-bind (parse_simple_statement-Assigned f s v h) (λ _ n. n) (λ u. u)
                      (λ a s₁ ((ts, us, rd, sp, sp'), guard).
                        Ensures-expect (newline ∷ []) _ _ s₁ rd.valid
                          (λ end s₂ m k.
                            let is_end = one_of_single end.type newline m in
                            let line = Line-end rd k in
                            returned (
                              _,
                              line,
                              assignment end sp sp' is_end refl,
                              has_target (remaining s₂.token_stream) end sp sp' (Spells-length sp')
                                  is_end (guard_behind s _ v line.split guard),
                            ))
                          (λ _.
                            reject_behind-Ensures _ s s₁ _ rd
                              (omega (arith, length-append ts us, Spells-length sp')))))
                  (λ _. rw (look_first s v t r e) (rejected tt)))))
