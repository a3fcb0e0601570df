-- ===== src/Parser/Headed.antt =====
-- Why an assignment of `src/parser/Parser.cpp` has a target: `parseSimpleStatement` has seen an assignment sign
-- behind the first token, and no expression goes over one.
use choco_c.Prelude.{
  ℕ, ◌<◌, ◌≡◌, ◌≢◌, refl, ap, true, false, List, [], ◌∷◌, ◌++◌, All, All-append, arith, inl, inr,
  length, length-append, Bool-cases, some,
}
use choco_c.TokenType.{
  TokenType, type_eq, type_eq_iff, newline, assign, id, open_paren, close_paren,
}
use choco_c.Token.{Token, one_of, is_literal, is_unary_op, opt_type_eq}
use choco_c.TokenStream.Laws.{first, rest}
use choco_c.Ast.{Expression, identifier, Child, variable_definition, statement, Program}
use choco_c.Parser.Power.{get_infix_power}
use choco_c.Parser.Grammar.{Spells, Filled, atom, name, group, group_null, prefix, infixed}
use choco_c.Parser.ProgramGrammar
use choco_c.Parser.ProgramGrammar.{SpellsTargets, SpellsDefinitions}

-- An assignment without empty parentheses has a target.
abbrev pub HeadedChild : Child → Type 0
HeadedChild (variable_definition d) = Unit {0}
HeadedChild (statement a) = Filled a.expr → a.targets ≢ []

abbrev NotAssign : Token → Type 0
NotAssign t = type_eq t.type assign ≡ false

of_type : (t : Token) (k : TokenType) → t.type ≡ k → type_eq k assign ≡ false → NotAssign t
of_type t k e h = rw e h

literal-NotAssign : (t : Token) → is_literal t ≡ true → NotAssign t
unfolding is_literal one_of type_eq
literal-NotAssign t h = elim (Bool-cases (type_eq t.type assign)) [
  | inl e ↦ let is_assign = (type_eq_iff t.type assign).0 e in cc (rw is_assign at h)
  | inr e ↦ e
]

unary-NotAssign : (t : Token) → is_unary_op t ≡ true → NotAssign t
unfolding is_unary_op type_eq
unary-NotAssign t h = elim (Bool-cases (type_eq t.type assign)) [
  | inl e ↦ let is_assign = (type_eq_iff t.type assign).0 e in cc (rw is_assign at h)
  | inr e ↦ e
]

infix-NotAssign : (t : Token) {q : ℕ × ℕ} → get_infix_power t.type ≡ some q → NotAssign t
unfolding get_infix_power
infix-NotAssign t h = elim (Bool-cases (type_eq t.type assign)) [
  | inl e ↦ cc (ap get_infix_power ((type_eq_iff t.type assign).0 e))
  | inr e ↦ e
]

-- No expression without empty parentheses goes over an assignment sign.
spelled-NotAssign :
    {p : ℕ} {ts : List Token} {e : Expression} → Spells p ts e → Filled e → All NotAssign ts
unfolding type_eq
spelled-NotAssign (atom {t} h) w = (literal-NotAssign t h, tt)
spelled-NotAssign (name {t} h) w = (of_type t id h refl, tt)
spelled-NotAssign (group l r {e} {ts} hl hr eq sp) w = rw eq (
  of_type l open_paren hl refl,
  All-append NotAssign ts (r ∷ []) (spelled-NotAssign sp w) (of_type r close_paren hr refl, tt),
)
spelled-NotAssign (group_null l r hl hr eq broken) w = absurd w
spelled-NotAssign (prefix k q {op} h power eq sp c) w =
    rw eq (unary-NotAssign op h, spelled-NotAssign sp w)
spelled-NotAssign (infixed k q {op} {l} {r} {ts} {us} power le eq spl above spr ops) w = rw eq (
    All-append NotAssign ts (op ∷ us) (spelled-NotAssign spl w.0)
      (infix-NotAssign op power, spelled-NotAssign spr w.1))

-- What stands behind the first token of such an expression and its line's end is no assignment sign.
second-NotAssign :
    (us left : List Token) (end : Token)
    → 0 < length us
    → All NotAssign us
    → end.type ≡ newline
    → opt_type_eq (first (rest ((us ++ end ∷ []) ++ left))) assign ≡ false
unfolding opt_type_eq type_eq
second-NotAssign [] left end l h e = absurd (omega arith)
second-NotAssign (t ∷ []) left end l h e = rw e refl
second-NotAssign (t ∷ u ∷ us) left end l h e = h.1.0

no_targets : {ts : List Token} {es : List Expression} → SpellsTargets ts es → es ≡ [] → ts ≡ []
no_targets ProgramGrammar.none e = refl
no_targets (ProgramGrammar.more t a {es = es} sp ht ha eq) e =
    absurd (omega (arith, ap length e, length-append es (identifier t ∷ [])))

-- With an assignment sign behind the first token, there is a target.
pub has_target :
    {ts us : List Token} {es : List Expression} {e : Expression} (left : List Token) (end : Token)
    → SpellsTargets ts es
    → Spells 0 us e
    → 0 < length us
    → end.type ≡ newline
    → opt_type_eq (first (rest (((ts ++ us) ++ end ∷ []) ++ left))) assign ≡ true
    → Filled e
    → es ≢ []
has_target {us} left end st sp l he guard w none_left =
    let guarded = rw (no_targets st none_left) at guard in
    let other = second-NotAssign us left end l (spelled-NotAssign sp w) he in cc

pub definitions-Headed :
    {ts : List Token} {cs : Program} → SpellsDefinitions ts cs → All HeadedChild cs
definitions-Headed ProgramGrammar.no_definitions = tt
definitions-Headed (ProgramGrammar.then_definition {d = d} {cs = cs} sp sd eq) =
    All-append HeadedChild cs (variable_definition d ∷ []) (definitions-Headed sp) (tt, tt)
