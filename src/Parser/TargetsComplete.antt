-- ===== src/Parser/TargetsComplete.antt =====
-- The loop of `parseAssignmentStatement` of `src/parser/Parser.cpp` reads the targets of the grammar.
use choco_c.Prelude.{
  ℕ, zero, suc, ◌<◌, ◌≡◌, refl, ap, ◌∙◌, true, false, List, [], ◌∷◌, ◌++◌, append_assoc, append-nil,
  arith, length, Bool, ◌&&◌, pos, some, none, Bool-cases, inl, inr,
}
use choco_c.TokenType.{TokenType, type_eq, type_eq_iff, id, assign, minus, not_kw}
use choco_c.Token.{Token, one_of, is_literal, is_unary_op, opt_type_eq}
use choco_c.TokenStream.{peek}
use choco_c.TokenStream.Laws.{peek-second, first, rest}
use choco_c.Diagnostics.{DiagnosticsManager}
use choco_c.Ast.{Expression, identifier}
use choco_c.Parser.Monad.{State, matches}
use choco_c.Parser.Power.{get_infix_power}
use choco_c.Parser.Statements.{name_before, parse_target, targets_loop}
use choco_c.Parser.Grammar.{Spells, atom, name, group, group_null, prefix, infixed}
use choco_c.Parser.ProgramGrammar.{SpellsTargets, none, more}
use choco_c.Parser.Branches.{look_end}
use choco_c.Parser.Ensures.{matches-one_of}
use choco_c.Parser.Gives.{At, Gives, gives, At-left, Gives-bind, Gives-expect}

-- Whether the tokens begin with a name and a token of the type.
abbrev pub names_before : TokenType → List Token → Bool
names_before ty [] = false
names_before ty (t ∷ []) = false
names_before ty (t ∷ u ∷ r) = type_eq t.type id && type_eq u.type ty

pub second_type :
    {d : DiagnosticsManager} (ts : List Token) (s : State)
    → At d ts s
    → (ty : TokenType)
    → opt_type_eq (peek s.token_stream (pos 1)) ty ≡ opt_type_eq (first (rest ts)) ty
second_type ts s p ty =
    ap (λ o. opt_type_eq o ty)
      (peek-second s.token_stream p.valid ∙ ap (λ l. first (rest l)) p.left)

nothing_matches :
    {d : DiagnosticsManager} (types : List TokenType) (s : State)
    → At d [] s
    → matches types s ≡ false
unfolding matches
nothing_matches types s p = rw (look_end s p.valid p.left, matches) refl

pub name_before-names_before :
    {d : DiagnosticsManager} (ty : TokenType) (ts : List Token) (s : State)
    → At d ts s
    → name_before ty s ≡ names_before ty ts
unfolding name_before opt_type_eq one_of
name_before-names_before ty [] s p = ground (arith, nothing_matches (id ∷ []) s p)
name_before-names_before ty (t ∷ []) s p =
    let m = matches-one_of (id ∷ []) s t _ p.valid p.left in
    let o = second_type (t ∷ []) s p ty in ground (arith, m, o)
name_before-names_before ty (t ∷ u ∷ r) s p =
    let m = matches-one_of (id ∷ []) s t _ p.valid p.left in
    let o = second_type (t ∷ u ∷ r) s p ty in ground (arith, m, o)

no_name :
    (ty : TokenType) (t : Token) (ts : List Token)
    → type_eq t.type id ≡ false
    → names_before ty (t ∷ ts) ≡ false
no_name ty t [] h = refl
no_name ty t (u ∷ r) h = rw h refl

no_assign :
    (t : Token) {q : ℕ × ℕ} → get_infix_power t.type ≡ some q → type_eq t.type assign ≡ false
unfolding get_infix_power
no_assign t h = elim (Bool-cases (type_eq t.type assign)) [
  | inl e ↦ cc (ap get_infix_power ((type_eq_iff t.type assign).0 e))
  | inr e ↦ e
]

no_unary : (ty : TokenType) → one_of ty (minus ∷ not_kw ∷ []) ≡ true → type_eq ty id ≡ false
unfolding one_of type_eq
no_unary minus h = refl
no_unary not_kw h = refl
no_unary _ h = cc

-- The second token of an expression is no assignment's.
pub no_target :
    (end : Token) {p : ℕ} {ts : List Token} {e : Expression} (rest : List Token)
    → type_eq end.type assign ≡ false
    → Spells p ts e
    → names_before assign (ts ++ end ∷ rest) ≡ false
unfolding is_literal one_of is_unary_op
no_target end rest h (atom {t} m) = ground (arith)
no_target end rest h (name m) = ground (arith)
no_target end rest h (group l r {e} {ts} hl hr eq sp) =
    rw (eq, no_name assign l _ (rw hl refl)) refl
no_target end rest h (group_null l r hl hr eq broken) =
    rw (eq, no_name assign l _ (rw hl refl)) refl
no_target end rest h (prefix k q {op} {e} {ts} m power eq sp c) =
    rw (eq, no_name assign op _ (no_unary op.type m)) refl
no_target end rest h (infixed k q {op} {l} {r} {ts} {us} power le eq spl above spr ops) =
    rw (eq, append_assoc ts (op ∷ us) (end ∷ rest))
      (no_target op (us ++ end ∷ rest) (no_assign op power) spl)

spelled_target :
    (t : Token) (d : DiagnosticsManager) (left : List Token) (s : State)
    → t.type ≡ id
    → At d (t ∷ left) s
    → Gives (identifier t) d left (parse_target s)
unfolding parse_target one_of type_eq
spelled_target t d left s ht p =
    Gives-expect (id ∷ []) _ _ s t _ p (rw ht refl) (λ s₁ p₁ b. rw b (gives p₁))

-- A turn of the loop over a target.
target_turns :
    (t a : Token) (left : List Token) (acc x : List Expression) (us : List Token)
    (d : DiagnosticsManager) (f : ℕ) (s : State)
    → t.type ≡ id
    → a.type ≡ assign
    → At d (t ∷ a ∷ left) s
    → length (t ∷ a ∷ left) < f
    → ((g : ℕ) (s₁ : State)
        → At d left s₁
        → length left < g
        → Gives x d us (targets_loop g (acc ++ identifier t ∷ []) s₁))
    → Gives x d us (targets_loop f acc s)
unfolding targets_loop one_of type_eq
target_turns t a left acc x us d zero s ht ha p h k = absurd (omega arith)
target_turns t a left acc x us d (suc f) s ht ha p h k =
    let go : name_before assign s ≡ true =
      name_before-names_before assign _ s p ∙ rw (ht, ha) refl in
    rw (go, targets_loop)
      (Gives-bind _ (spelled_target t d (a ∷ left) s ht p) (λ s₁ p₁.
        Gives-expect (assign ∷ []) _ _ s₁ a left p₁ (rw ha refl)
          (λ s₂ p₂ b. k f s₂ p₂ (omega arith))))

-- The targets are read, and the loop goes on behind them.
pub spelled_targets :
    {ts : List Token} {es : List Expression}
    → SpellsTargets ts es
    → (acc : List Expression) (x : List Expression) (us : List Token) (d : DiagnosticsManager)
      (left : List Token) (f : ℕ) (s : State)
    → At d (ts ++ left) s
    → length (ts ++ left) < f
    → ((g : ℕ) (s₁ : State)
        → At d left s₁
        → length left < g
        → Gives x d us (targets_loop g (acc ++ es) s₁))
    → Gives x d us (targets_loop f acc s)
spelled_targets none acc x us d left f s p h k = rw (append-nil acc) at (k f s p h)
spelled_targets (more t a {ts} {ws} {es} sp ht ha eq) acc x us d left f s p h k =
    let ends = ap (λ vs. vs ++ left) eq ∙ append_assoc ts (t ∷ a ∷ []) left in
    spelled_targets sp acc x us d (t ∷ a ∷ left) f s (At-left ends p)
      (omega (arith, ap length ends))
      (λ g s₁ p₁ h₁.
        target_turns t a left (acc ++ es) x us d g s₁ ht ha p₁ h₁
          (rw (append_assoc acc es (identifier t ∷ [])) k))

-- The loop ends before what is no target.
pub targets_end :
    (es : List Expression) (left : List Token) (d : DiagnosticsManager) (f : ℕ) (s : State)
    → names_before assign left ≡ false
    → At d left s
    → 0 < f
    → Gives es d left (targets_loop f es s)
unfolding targets_loop
targets_end es left d zero s h p l = absurd (omega arith)
targets_end es left d (suc f) s h p l =
    rw (name_before-names_before assign left s p ∙ h, targets_loop) (gives p)
