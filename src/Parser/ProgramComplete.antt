-- ===== src/Parser/ProgramComplete.antt =====
-- `parseProgram` and `parse` of `src/parser/Parser.cpp` read each program of the grammar.
use choco_c.Prelude.{
  ℕ, zero, suc, ◌+◌, ◌*◌, ◌<◌, ◌≡◌, refl, ap, ◌∙◌, true, false, List, [], ◌∷◌, ◌++◌, append_assoc,
  append-nil, arith, length, length-append, All, inl, inr, subst, sym,
}
use choco_c.TokenType.{type_eq, colon}
use choco_c.Token.{Token}
use choco_c.Diagnostics.{DiagnosticsManager}
use choco_c.Ast.{VariableDefinition, AssignmentStatement, variable_definition, statement, Program}
use choco_c.Parser.Monad.{State, ok, bind}
use choco_c.Parser.Ensures.{List-cases}
use choco_c.Parser.Statements.{name_before, definitions_loop, statements_loop, parse_program}
use choco_c.Parser.ProgramGrammar.{
  SpellsDefinition, definition, SpellsAssignment, assignment, SpellsDefinitions, no_definitions,
  then_definition, SpellsStatements, no_statements, then_statement, SpellsProgram, program,
  ReadableChild, Readable,
}
use choco_c.Parser.Branches.{look_end, look_first}
use choco_c.Parser.Gives.{At, Gives, gives, At-left, Gives-bind}
use choco_c.Parser.DefinitionsComplete.{spelled_definition}
use choco_c.Parser.TargetsComplete.{names_before, name_before-names_before}
use choco_c.Parser.StatementsComplete.{target_first, spelled_statement}

All-snoc {ℓ κ} :
    {A : Type ℓ} (P : A → Type κ) (xs : List A) (x : A) → All P (xs ++ x ∷ []) → All P xs × P x
All-snoc P [] x h = (tt, h.0)
All-snoc P (y ∷ xs) x h = let (a, b) = All-snoc P xs x h.1 in ((h.0, a), b)

-- A turn of the first loop over a definition.
definition_turns :
    (us : List Token) (v : VariableDefinition) (left : List Token) (acc x : Program)
    (vs : List Token) (d : DiagnosticsManager) (f : ℕ) (s : State)
    → SpellsDefinition us v
    → At d (us ++ left) s
    → 2 * length (us ++ left) + 1 < f
    → ((g : ℕ) (s₁ : State)
        → At d left s₁
        → 2 * length left + 1 < g
        → Gives x d vs (definitions_loop g (acc ++ variable_definition v ∷ []) s₁))
    → Gives x d vs (definitions_loop f acc s)
unfolding definitions_loop type_eq
definition_turns us v left acc x vs d zero s sp p h k = absurd (omega arith)
definition_turns us v left acc x vs d (suc f) s
      (definition c e end {n} {l} {a} {ts} hn hc st he hl hend eq) p h k =
    let ends = ap (λ vs. vs ++ left) eq ∙ append_assoc (n ∷ c ∷ ts) (e ∷ l ∷ end ∷ []) left in
    let p' = At-left ends p in
    let go : name_before colon s ≡ true =
      name_before-names_before colon _ s p' ∙ rw (hn, hc) refl in
    rw (look_first s p'.valid n _ p'.left, definitions_loop, go)
      (Gives-bind _
        (spelled_definition d left f s (definition c e end hn hc st he hl hend eq) p (omega arith))
        (λ s₁ p₁. k f s₁ p₁ (omega (arith, ap length ends, length-append ts (e ∷ l ∷ end ∷ left)))))

spelled_definitions :
    {ts : List Token} {ds : Program}
    → SpellsDefinitions ts ds
    → (x : Program) (vs : List Token) (d : DiagnosticsManager) (left : List Token) (f : ℕ)
      (s : State)
    → At d (ts ++ left) s
    → 2 * length (ts ++ left) + 1 < f
    → ((g : ℕ) (s₁ : State)
        → At d left s₁
        → 2 * length left + 1 < g
        → Gives x d vs (definitions_loop g ds s₁))
    → Gives x d vs (definitions_loop f [] s)
spelled_definitions no_definitions x vs d left f s p h k = k f s p h
spelled_definitions (then_definition {ts} {us} {ws} {d = v} {cs} sp sd eq) x vs d left f s p h k =
    let ends = ap (λ vs. vs ++ left) eq ∙ append_assoc ts us left in
    spelled_definitions sp x vs d (us ++ left) f s (At-left ends p) (omega (arith, ap length ends))
      (λ g s₁ p₁ h₁. definition_turns us v left cs x vs d g s₁ sd p₁ h₁ k)

-- The first loop ends before what is no definition.
definitions_end :
    (ds : Program) (left : List Token) (d : DiagnosticsManager) (f : ℕ) (s : State)
    → names_before colon left ≡ false
    → At d left s
    → 0 < f
    → Gives ds d left (definitions_loop f ds s)
unfolding definitions_loop
definitions_end ds left d zero s h p l = absurd (omega arith)
definitions_end ds [] d (suc f) s h p l = rw (look_end s p.valid p.left, definitions_loop) (gives p)
definitions_end ds (t ∷ r) d (suc f) s h p l =
    rw
      (
        look_first s p.valid t r p.left,
        definitions_loop,
        name_before-names_before colon (t ∷ r) s p ∙ h,
      )
      (gives p)

SpellsAssignment-length :
    {ws : List Token} {a : AssignmentStatement} → SpellsAssignment ws a → 0 < length ws
SpellsAssignment-length (assignment end {ts} {us} sp sp' h eq) =
    omega (arith, ap length eq, length-append (ts ++ us) (end ∷ []))

-- A turn of the second loop.
statement_turns :
    (us : List Token) (a : AssignmentStatement) (left : List Token) (acc x : Program)
    (vs : List Token) (d : DiagnosticsManager) (f : ℕ) (s : State)
    → SpellsAssignment us a
    → ReadableChild (statement a)
    → At d (us ++ left) s
    → 2 * length (us ++ left) + 2 < f
    → ((g : ℕ) (s₁ : State)
        → At d left s₁
        → 2 * length left + 2 < g
        → Gives x d vs (statements_loop g (acc ++ statement a ∷ []) s₁))
    → Gives x d vs (statements_loop f acc s)
unfolding statements_loop
statement_turns us a left acc x vs d zero s sp w p h k = absurd (omega arith)
statement_turns [] a left acc x vs d (suc f) s sp w p h k =
    absurd (omega (arith, SpellsAssignment-length sp))
statement_turns (t ∷ us) a left acc x vs d (suc f) s sp (ne, w) p h k =
    rw (look_first s p.valid t (us ++ left) p.left, statements_loop)
      (Gives-bind _ (spelled_statement d left f s sp ne w p (omega arith))
        (λ s₁ p₁. k f s₁ p₁ (omega (arith, length-append us left))))

spelled_statements :
    {ts : List Token} {ss : Program}
    → SpellsStatements ts ss
    → Readable ss
    → (acc x : Program) (vs : List Token) (d : DiagnosticsManager) (left : List Token) (f : ℕ)
      (s : State)
    → At d (ts ++ left) s
    → 2 * length (ts ++ left) + 2 < f
    → ((g : ℕ) (s₁ : State)
        → At d left s₁
        → 2 * length left + 2 < g
        → Gives x d vs (statements_loop g (acc ++ ss) s₁))
    → Gives x d vs (statements_loop f acc s)
spelled_statements no_statements w acc x vs d left f s p h k = rw (append-nil acc) at (k f s p h)
spelled_statements (then_statement {ts} {us} {ws} {a} {cs} sp sa eq) w acc x vs d left f s p h k =
    let ends = ap (λ vs. vs ++ left) eq ∙ append_assoc ts us left in
    let (ws', wa) = All-snoc ReadableChild cs (statement a) w in
    spelled_statements sp ws' acc x vs d (us ++ left) f s (At-left ends p)
      (omega (arith, ap length ends))
      (λ g s₁ p₁ h₁.
        statement_turns us a left (acc ++ cs) x vs d g s₁ sa wa p₁ h₁
          (rw (append_assoc acc cs (statement a ∷ [])) k))

no_definition_first :
    (us : List Token) (a : AssignmentStatement) (left : List Token)
    → SpellsAssignment us a
    → ReadableChild (statement a)
    → names_before colon (us ++ left) ≡ false
unfolding type_eq
no_definition_first us a left (assignment end {es} {e} {ts} {us = vs} st sp hend eq) (ne, w) =
    let (t, u, r, front, ht, hu) = target_first (vs ++ end ∷ left) st ne in
    let ends =
      ap (λ ws. ws ++ left) eq
      ∙ append_assoc (ts ++ vs) (end ∷ []) left
      ∙ append_assoc ts vs (end ∷ left) in
    rw (ends ∙ front, ht, hu) refl

-- Statements do not begin like a definition.
no_definition :
    {ts : List Token} {ss : Program} (left : List Token)
    → SpellsStatements ts ss
    → Readable ss
    → names_before colon left ≡ false
    → names_before colon (ts ++ left) ≡ false
unfolding type_eq
no_definition left no_statements w h = h
no_definition left (then_statement {ts} {us} {ws} {a} {cs} sp sa eq) w h =
    let (ws', wa) = All-snoc ReadableChild cs (statement a) w in
    rw (eq, append_assoc ts us left)
      (no_definition (us ++ left) sp ws' (no_definition_first us a left sa wa))

statements_end :
    (cs : Program) (d : DiagnosticsManager) (f : ℕ) (s : State)
    → At d [] s
    → 0 < f
    → Gives cs d [] (statements_loop f cs s)
unfolding statements_loop
statements_end cs d zero s p l = absurd (omega arith)
statements_end cs d (suc f) s p l = rw (look_end s p.valid p.left, statements_loop) (gives p)

All-after {ℓ κ} : {A : Type ℓ} (P : A → Type κ) (xs ys : List A) → All P (xs ++ ys) → All P ys
All-after P [] ys h = h
All-after P (x ∷ xs) ys h = All-after P xs ys h.1

-- Both loops read a program of the grammar, to the end of the tokens.
loops_read :
    {ts : List Token} {cs : Program} (d : DiagnosticsManager) (f : ℕ) (s : State)
    → SpellsProgram ts cs
    → Readable cs
    → At d ts s
    → 2 * length ts + 2 < f
    → Gives cs d [] (bind (definitions_loop f [] s) (statements_loop f))
loops_read d f s (program {ts} {us} {ds} {ss} sd st eq ec) w p h =
    let readable = All-after ReadableChild ds ss (subst (All ReadableChild) ec w) in
    let starts : names_before colon us ≡ false =
      rw (append-nil us) at (no_definition [] st readable refl) in
    Gives-bind _
      (spelled_definitions sd ds us d us f s (At-left eq p) (omega (arith, ap length eq))
        (λ g s₁ p₁ h₁. definitions_end ds us d g s₁ starts p₁ (omega arith)))
      (λ s₁ p₁. rw ec (
        spelled_statements st readable ds (ds ++ ss) [] d [] f s₁ (At-left (sym (append-nil us)) p₁)
          (omega (arith, ap length eq, length-append ts us, length-append us []))
          (λ g s₂ p₂ h₂. statements_end (ds ++ ss) d g s₂ p₂ (omega arith))))

loops_end :
    (d : DiagnosticsManager) (f : ℕ) (s : State)
    → At d [] s
    → bind (definitions_loop (suc f) [] s) (statements_loop (suc f)) ≡ ok [] s
unfolding definitions_loop statements_loop
loops_end d f s p =
    let ends = look_end s p.valid p.left in
    rw (ends, definitions_loop) (rw (ends, statements_loop) refl)

-- The same of the whole method, which ends at once where there are no tokens.
pub spelled_program :
    {ts : List Token} {cs : Program} (d : DiagnosticsManager) (f : ℕ) (s : State)
    → SpellsProgram ts cs
    → Readable cs
    → At d ts s
    → 2 * length ts + 2 < f
    → Gives cs d [] (parse_program f s)
unfolding parse_program
spelled_program d zero s sp w p h = absurd (omega arith)
spelled_program {ts} d (suc f) s sp w p h = elim (List-cases ts) [
  | inl e ↦
      let ends = look_end s p.valid (p.left ∙ e) in
      rw (ends, parse_program)
        (subst (Gives _ d []) (loops_end d f s (At-left e p)) (loops_read d (suc f) s sp w p h))
  | inr (t, r, e) ↦
      rw (look_first s p.valid t r (p.left ∙ e), parse_program) (loops_read d (suc f) s sp w p h)
]
