-- ===== src/Parser/DefinitionsComplete.antt =====
-- `parseType` and `parseVariableDefinition` of `src/parser/Parser.cpp` read what the grammar spells.
use choco_c.Prelude.{
  ℕ, zero, suc, ◌<◌, ◌≡◌, refl, ap, ◌∙◌, true, List, [], ◌∷◌, ◌++◌, append_assoc, arith, length,
}
use choco_c.TokenType.{
  newline, type_eq, id, id_string, open_brack, close_brack, colon, assign, string, false_kw,
  true_kw, int_lit, none_kw,
}
use choco_c.Token.{Token, one_of, is_literal}
use choco_c.Diagnostics.{DiagnosticsManager}
use choco_c.Ast.{AstType, TypedVariable, VariableDefinition}
use choco_c.Parser.Monad.{State}
use choco_c.Parser.Statements.{
  parse_type, parse_typed_variable, parse_literal, parse_variable_definition,
}
use choco_c.Parser.ProgramGrammar.{SpellsType, base, list, SpellsDefinition, definition}
use choco_c.Parser.Gives.{At, Gives, gives, At-left, Gives-bind, Gives-expect, Gives-expect_not}

-- A type is read.
spelled_type :
    (d : DiagnosticsManager) (rest : List Token) (f : ℕ) (s : State) {ts : List Token} {a : AstType}
    → SpellsType ts a
    → At d (ts ++ rest) s
    → length (ts ++ rest) < f
    → Gives a d rest (parse_type f s)
unfolding parse_type one_of type_eq
spelled_type d rest zero s sp p h = absurd (omega arith)
spelled_type d rest (suc f) s (base {t} m) p h =
    Gives-expect (id ∷ id_string ∷ []) _ _ s t rest p m (λ s₁ p₁ b. rw b (gives p₁))
spelled_type d rest (suc f) s (list o c {ts} ho hc eq sp) p h =
    let ends = ap (λ vs. vs ++ rest) eq ∙ ap (◌∷◌ o) (append_assoc ts (c ∷ []) rest) in
    let p' = At-left ends p in
    Gives-expect_not (id ∷ id_string ∷ []) _ _ s o _ p' (rw ho refl) (
      Gives-expect (open_brack ∷ []) _ _ s o _ p' (rw ho refl) (λ s₁ p₁ b.
        Gives-bind _ (spelled_type d (c ∷ rest) f s₁ sp p₁ (omega (arith, ap length ends)))
          (λ s₂ p₂.
            Gives-expect (close_brack ∷ []) _ _ s₂ c rest p₂ (rw hc refl) (λ s₃ p₃ b'. gives p₃))))

abbrev typed : Token → AstType → TypedVariable
typed n a = record { name = n; type = a }

spelled_typed_variable :
    (n c : Token) (ts : List Token) (a : AstType) (d : DiagnosticsManager) (rest : List Token)
    (f : ℕ) (s : State)
    → n.type ≡ id
    → c.type ≡ colon
    → SpellsType ts a
    → At d (n ∷ c ∷ (ts ++ rest)) s
    → length (ts ++ rest) < f
    → Gives (typed n a) d rest (parse_typed_variable f s)
unfolding parse_typed_variable one_of type_eq
spelled_typed_variable n c ts a d rest f s hn hc sp p h =
    Gives-expect (id ∷ []) _ _ s n _ p (rw hn refl) (λ s₁ p₁ b. rw b (
      Gives-expect (colon ∷ []) _ _ s₁ c _ p₁ (rw hc refl)
        (λ s₂ p₂ b'. Gives-bind _ (spelled_type d rest f s₂ sp p₂ h) (λ s₃ p₃. gives p₃))))

spelled_literal :
    (l : Token) (d : DiagnosticsManager) (rest : List Token) (s : State)
    → is_literal l ≡ true
    → At d (l ∷ rest) s
    → Gives l d rest (parse_literal s)
unfolding parse_literal is_literal
spelled_literal l d rest s m p =
    Gives-expect (none_kw ∷ false_kw ∷ true_kw ∷ int_lit ∷ id_string ∷ string ∷ []) _ _ s l rest p m
      (λ s₁ p₁ b. rw b (gives p₁))

-- A variable definition is read.
pub spelled_definition :
    {ts : List Token} {v : VariableDefinition} (d : DiagnosticsManager) (rest : List Token) (f : ℕ)
    (s : State)
    → SpellsDefinition ts v
    → At d (ts ++ rest) s
    → length (ts ++ rest) < f
    → Gives v d rest (parse_variable_definition f s)
unfolding parse_variable_definition one_of type_eq
spelled_definition d rest f s (definition c e end {n} {l} {a} {ts} hn hc sp he hl hend eq) p h =
    let ends = ap (λ vs. vs ++ rest) eq ∙ append_assoc (n ∷ c ∷ ts) (e ∷ l ∷ end ∷ []) rest in
    Gives-bind _
      (spelled_typed_variable n c ts a d (e ∷ l ∷ end ∷ rest) f s hn hc sp (At-left ends p)
        (omega (arith, ap length ends)))
      (λ s₁ p₁. Gives-expect (assign ∷ []) _ _ s₁ e _ p₁ (rw he refl) (λ s₂ p₂ b.
        Gives-bind _ (spelled_literal l d (end ∷ rest) s₂ hl p₂) (λ s₃ p₃.
          Gives-expect (newline ∷ []) _ _ s₃ end rest p₃ (rw hend refl) (λ s₄ p₄ b'. gives p₄))))
