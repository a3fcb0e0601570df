-- ===== src/Parser/ProgramSound.antt =====
-- `parseProgram` and `parse` of `src/parser/Parser.cpp` against the grammar.
use choco_c.Prelude.{
  ℕ, zero, suc, ◌+◌, ◌*◌, ◌<◌, ◌≡◌, refl, sym, ap, ◌∙◌, false, List, [], ◌∷◌, ◌++◌, append_assoc,
  append-nil, All, All-append, arith, inl, inr, length, length-append, length-drop, Bool-cases,
  subst,
}
use choco_c.TokenType.{newline, type_eq, colon}
use choco_c.Token.{Token}
use choco_c.TokenStream.{IsValid, remaining}
use choco_c.Ast.{VariableDefinition, AssignmentStatement, statement, Program}
use choco_c.Parser.Monad.{State}
use choco_c.Parser.Statements.{name_before, definitions_loop, statements_loop, parse_program, parse}
use choco_c.Parser.ProgramGrammar.{
  SpellsDefinition, definition, SpellsAssignment, assignment, SpellsDefinitions, no_definitions,
  then_definition, SpellsStatements, no_statements, then_statement, SpellsProgram, program,
}
use choco_c.Parser.Headed.{HeadedChild, definitions-Headed}
use choco_c.Parser.Branches.{look_end, look_first}
use choco_c.Parser.DefinitionsSound.{Any, Unended, Line, parse_variable_definition-Ensures}
use choco_c.Parser.StatementsSound.{parse_statement-Ensures}
use choco_c.Parser.Ensures.{Ensures, returned, Ensures-bind, Ensures-map, List-cases}

-- The tokens left end in a line that is not ended.
abbrev pub Cut : List Token → Type 0
Cut ws =
    (us : List Token) × (n : Token) × (ts : List Token) × (ws ≡ us ++ n ∷ ts)
    × All (λ t. type_eq t.type newline ≡ false) (n ∷ ts)

Line-refl : (s : State) → IsValid s.token_stream → Line s [] s
Line-refl s v = record { valid = v; split = refl }

Line-trans :
    {s s' s'' : State} {ts us : List Token} → Line s ts s' → Line s' us s'' → Line s (ts ++ us) s''
Line-trans {ts} {us} a b = record {
  valid = b.valid;
  split = a.split ∙ ap (◌++◌ ts) b.split ∙ sym (append_assoc ts us _);
}

Line-length :
    {s s' : State} {ts : List Token}
    → Line s ts s'
    → length (remaining s.token_stream) ≡ length ts + length (remaining s'.token_stream)
Line-length {ts} a = ap length a.split ∙ length-append ts _

Cut-before :
    {s s' : State} {ts : List Token}
    → Line s ts s'
    → Cut (remaining s'.token_stream)
    → Cut (remaining s.token_stream)
Cut-before {ts} a (us, n, vs, e, h) =
    (ts ++ us, n, vs, a.split ∙ ap (◌++◌ ts) e ∙ sym (append_assoc ts us _), h)

-- A definition that is cut off has at least the token that the loop saw.
Unended-Cut :
    (s : State) (t : Token) (r : List Token)
    → remaining s.token_stream ≡ t ∷ r
    → Unended s
    → Cut (remaining s.token_stream)
Unended-Cut s t r e u = ([], t, r, e, subst (All (λ x. type_eq x.type newline ≡ false)) e u)

SpellsDefinition-length :
    {ws : List Token} {d : VariableDefinition} → SpellsDefinition ws d → 0 < length ws
SpellsDefinition-length (definition c a e h₁ h₂ sp h₃ h₄ h₅ eq) = omega (arith, ap length eq)

SpellsAssignment-length :
    {ws : List Token} {a : AssignmentStatement} → SpellsAssignment ws a → 0 < length ws
SpellsAssignment-length (assignment end {ts} {us} sp sp' h eq) =
    omega (arith, ap length eq, length-append (ts ++ us) (end ∷ []))

definitions_loop-Ensures :
    (f : ℕ) (cs : Program) (s₀ s : State) (ts : List Token)
    → 2 * length (remaining s.token_stream) + 2 < f
    → Line s₀ ts s
    → SpellsDefinitions ts cs
    → Ensures
        (λ ds s'. (us : List Token) × Line s₀ us s' × SpellsDefinitions us ds)
        Any
        (Cut (remaining s₀.token_stream))
        (definitions_loop f cs s)
unfolding definitions_loop
definitions_loop-Ensures zero cs s₀ s ts h ln sp = absurd (omega arith)
definitions_loop-Ensures (suc f) cs s₀ s ts h ln sp = elim (List-cases (remaining s.token_stream)) [
  | inl e ↦ rw (look_end s ln.valid e, definitions_loop) (returned (ts, ln, sp))
  | inr (t, r, e) ↦ elim (Bool-cases (name_before colon s)) [
    | inl go ↦
        rw (look_first s ln.valid t r e, definitions_loop, go)
          (Ensures-bind (parse_variable_definition-Ensures f s ln.valid (omega arith)) (λ _ n. n)
            (λ u. Cut-before ln (Unended-Cut s t r e u))
            (λ d s₁ (us, ln', sp').
              definitions_loop-Ensures f _ s₀ s₁ (ts ++ us)
                (omega (arith, Line-length ln', SpellsDefinition-length sp')) (Line-trans ln ln')
                (then_definition sp sp' refl)))
    | inr stop ↦ rw (look_first s ln.valid t r e, definitions_loop, stop) (returned (ts, ln, sp))
  ]
]

statements_loop-Ensures :
    {U : Type 0} (f : ℕ) (ds cs : Program) (s₀ s : State) (ts : List Token)
    → 2 * length (remaining s.token_stream) + 2 < f
    → Line s₀ ts s
    → SpellsStatements ts cs
    → All HeadedChild cs
    → Ensures
        (λ all s'.
          (us : List Token) × (ss : Program) × Line s₀ us s'
          × SpellsStatements us ss
          × All HeadedChild ss
          × (all ≡ ds ++ ss)
          × (remaining s'.token_stream ≡ []))
        Any
        U
        (statements_loop f (ds ++ cs) s)
unfolding statements_loop
statements_loop-Ensures zero ds cs s₀ s ts h ln sp hd = absurd (omega arith)
statements_loop-Ensures (suc f) ds cs s₀ s ts h ln sp hd =
    elim (List-cases (remaining s.token_stream)) [
      | inl e ↦ rw (look_end s ln.valid e, statements_loop) (returned (ts, cs, ln, sp, hd, refl, e))
      | inr (t, r, e) ↦
          rw (look_first s ln.valid t r e, statements_loop)
            (Ensures-bind (parse_statement-Ensures f s t r ln.valid e (omega arith)) (λ _ n. n)
              (λ u. absurd u)
              (λ a s₁ (us, ln', sp', hd'). rw (append_assoc ds cs (statement a ∷ [])) (
                statements_loop-Ensures f ds _ s₀ s₁ (ts ++ us)
                  (omega (arith, Line-length ln', SpellsAssignment-length sp')) (Line-trans ln ln')
                  (then_statement sp sp' refl)
                  (All-append HeadedChild cs (statement a ∷ []) hd (hd', tt)))))
    ]

-- What `parseProgram` ensures of the tokens that are left when it is called.
abbrev pub Complete : State → Program → State → Type 0
Complete s cs s' =
    SpellsProgram (remaining s.token_stream) cs
    × (remaining s'.token_stream ≡ [])
    × All HeadedChild cs

parse_program-Ensures :
    (f : ℕ) (s : State)
    → IsValid s.token_stream
    → 2 * length (remaining s.token_stream) + 2 < f
    → Ensures (Complete s) Any (Cut (remaining s.token_stream)) (parse_program f s)
unfolding parse_program
parse_program-Ensures f s v h = elim (List-cases (remaining s.token_stream)) [
  | inl e ↦
      rw (look_end s v e, parse_program)
        (returned (program no_definitions no_statements e refl, e, tt))
  | inr (t, r, e) ↦
      rw (look_first s v t r e, parse_program)
        (Ensures-bind (definitions_loop-Ensures f [] s s [] h (Line-refl s v) no_definitions)
          (λ _ n. n) (λ u. u)
          (λ ds s₁ (ts, ln, sp).
            subst
              (λ x.
                Ensures (Complete s) Any (Cut (remaining s.token_stream)) (statements_loop f x s₁))
              (append-nil ds)
              (Ensures-map
                (λ cs s' (us, ss, ln', sp', hd, e', done). (
                  program sp sp'
                      (ln.split ∙ ap (◌++◌ ts) (ln'.split ∙ ap (◌++◌ us) done ∙ append-nil us)) e',
                  done,
                  rw e' (All-append HeadedChild ds ss (definitions-Headed sp) hd),
                ))
                (statements_loop-Ensures f ds [] s₁ s₁ [] (omega (arith, Line-length ln))
                  (Line-refl s₁ ln.valid) no_statements tt))))
]

pub parse-Ensures :
    (s : State)
    → IsValid s.token_stream
    → Ensures (Complete s) Any (Cut (remaining s.token_stream)) (parse s)
unfolding parse
parse-Ensures s v =
    parse_program-Ensures _ s v
      (omega (arith, length-drop s.token_stream.current_idx s.token_stream.tokens))
