-- ===== src/Parser/Asserted.antt =====
-- The assertions of the constructors in `include/ast`, at the trees of `src/parser/Parser.cpp`.
use choco_c.Prelude.{
  ℕ, ◌≡◌, refl, sym, ◌∙◌, subst, Bool, true, ◌&&◌, ◌||◌, List, [], ◌∷◌, ◌++◌, All, arith, inl, inr,
  Bool-cases,
}
use choco_c.TokenType.{
  TokenType, type_eq, type_eq_iff, and, or, minus, string, id_string, true_kw, false_kw, int_lit,
  none_kw, id,
}
use choco_c.Token.{
  Token, TokenValue, monostate, bool, int, str, one_of, has_value_of, is_literal, is_bin_op,
}
use choco_c.TokenStream.{IsValid, remaining}
use choco_c.Ast.{
  Expression, identifier, is_constant_expression, is_valid_target, variable_definition, statement,
  Program, VariableDefinition, AssignmentStatement,
}
use choco_c.Ast.Asserts.{
  holds_alternative, literal_asserts, identifier_asserts, unary_asserts, binary_asserts,
  expression_asserts, targets_assert, all_assert, child_asserts, program_asserts,
}
use choco_c.Parser.Monad.{State, ok}
use choco_c.Parser.Power.{is_bin_op-get_infix_power}
use choco_c.Parser.Statements.{parse}
use choco_c.Parser.Grammar.{Operands, Spells, atom, name, group, group_null, prefix, infixed}
use choco_c.Parser.ProgramGrammar
use choco_c.Parser.ProgramGrammar.{
  SpellsDefinition, SpellsTargets, SpellsAssignment, SpellsStatements, SpellsDefinitions,
  SpellsProgram,
}
use choco_c.Parser.Correct.{parse-SpellsProgram}

-- The token carries the kind of value that its type wants, as the constructor of `Token` asserts.
abbrev pub Valued : Token → Type 0
Valued t = has_value_of t.type t.value ≡ true

module _ {ℓ κ} {A : Type ℓ} (P : A → Type κ) where
  All-before : (xs ys : List A) → All P (xs ++ ys) → All P xs
  All-before [] ys h = tt
  All-before (x ∷ xs) ys h = (h.0, All-before xs ys h.1)

  All-behind : (xs ys : List A) → All P (xs ++ ys) → All P ys
  All-behind [] ys h = h
  All-behind (x ∷ xs) ys h = All-behind xs ys h.1

both : {a b : Bool} → a ≡ true → b ≡ true → a && b ≡ true
both h k = rw (h, k) refl

alternative_of :
    (k : TokenType) (v : TokenValue)
    → one_of k (none_kw ∷ false_kw ∷ true_kw ∷ int_lit ∷ id_string ∷ string ∷ []) ≡ true
    → has_value_of k v ≡ holds_alternative k v
unfolding one_of type_eq has_value_of holds_alternative
alternative_of string (str s) h = refl
alternative_of string _ h = refl
alternative_of id_string (str s) h = refl
alternative_of id_string _ h = refl
alternative_of true_kw (bool b) h = refl
alternative_of true_kw _ h = refl
alternative_of false_kw (bool b) h = refl
alternative_of false_kw _ h = refl
alternative_of int_lit (int n) h = refl
alternative_of int_lit _ h = refl
alternative_of none_kw monostate h = refl
alternative_of none_kw _ h = refl
alternative_of _ v h = cc

-- A literal's token that is as the constructor of `Token` asserts is as that of `Literal` does.
literal-asserts : (t : Token) → is_literal t ≡ true → Valued t → literal_asserts t ≡ true
unfolding literal_asserts is_literal
literal-asserts t h v = both h (sym (alternative_of t.type t.value h) ∙ v)

name-asserts : (t : Token) → t.type ≡ id → identifier_asserts t ≡ true
unfolding identifier_asserts
name-asserts t h = (type_eq_iff t.type id).1 h

Operands-allow :
    (op : Token) (l r : Expression)
    → Operands op l r
    → (type_eq op.type and
        || type_eq op.type or
        || (is_constant_expression l && is_constant_expression r))
      ≡ true
Operands-allow op l r ops = elim (Bool-cases (type_eq op.type and)) [
  | inl a ↦ rw a refl
  | inr a ↦ elim (Bool-cases (type_eq op.type or)) [
    | inl b ↦ rw (a, b) refl
    | inr b ↦ let (x, y) = ops (rw (a, b) refl) in rw (a, b, x, y) refl
  ]
]

spelled-asserts :
    {p : ℕ} {ts : List Token} {e : Expression}
    → Spells p ts e
    → All Valued ts
    → expression_asserts e ≡ true
unfolding expression_asserts unary_asserts binary_asserts
spelled-asserts (atom {t} h) v = literal-asserts t h v.0
spelled-asserts (name {t} h) v = name-asserts t h
spelled-asserts (group l r {e} {ts} hl hr eq sp) v =
    spelled-asserts sp (All-before Valued ts (r ∷ []) (subst (All Valued) eq v).1)
spelled-asserts (group_null l r hl hr eq broken) v = refl
spelled-asserts (prefix k q {op} {e} {ts} h power eq sp c) v =
    let inner = spelled-asserts sp (subst (All Valued) eq v).1 in
    elim (Bool-cases (type_eq op.type minus)) [
      | inl m ↦ rw (inner, h, m, c m) refl
      | inr m ↦ rw (inner, h, m) refl
    ]
spelled-asserts (infixed k q {op} {l} {r} {ts} {us} power le eq spl above spr ops) v =
    let all = subst (All Valued) eq v in
    let left = spelled-asserts spl (All-before Valued ts (op ∷ us) all) in
    let right = spelled-asserts spr (All-behind Valued ts (op ∷ us) all).1 in
    let is_op : is_bin_op op ≡ true = ground (arith, is_bin_op-get_infix_power op) in
    rw (left, right, is_op) (Operands-allow op l r ops)

targets_assert-snoc :
    (es : List Expression) (t : Token)
    → targets_assert es ≡ true
    → targets_assert (es ++ identifier t ∷ []) ≡ true
unfolding targets_assert is_valid_target
targets_assert-snoc [] t h = refl
targets_assert-snoc (e ∷ es) t h = ground (arith, targets_assert-snoc es t)

all_assert-snoc :
    (es : List Expression) (t : Token)
    → all_assert es ≡ true
    → identifier_asserts t ≡ true
    → all_assert (es ++ identifier t ∷ []) ≡ true
unfolding all_assert expression_asserts
all_assert-snoc [] t h k = rw k refl
all_assert-snoc (e ∷ es) t h k = ground (arith, all_assert-snoc es t)

targets-assert :
    {ts : List Token} {es : List Expression}
    → SpellsTargets ts es
    → (all_assert es ≡ true) × (targets_assert es ≡ true)
unfolding all_assert targets_assert
targets-assert ProgramGrammar.none = (refl, refl)
targets-assert (ProgramGrammar.more t a {es = es} sp ht ha eq) =
    let (x, y) = targets-assert sp in
    (all_assert-snoc es t x (name-asserts t ht), targets_assert-snoc es t y)

assignment-asserts :
    {ts : List Token} {a : AssignmentStatement}
    → SpellsAssignment ts a
    → All Valued ts
    → child_asserts (statement a) ≡ true
unfolding child_asserts
assignment-asserts (ProgramGrammar.assignment end {es} {e} {ts} {us} st sp hend eq) v =
    let (x, y) = targets-assert st in
    let line = All-before Valued (ts ++ us) (end ∷ []) (subst (All Valued) eq v) in
    both (both x (spelled-asserts sp (All-behind Valued ts us line))) y

definition-asserts :
    {ts : List Token} {d : VariableDefinition}
    → SpellsDefinition ts d
    → All Valued ts
    → child_asserts (variable_definition d) ≡ true
unfolding child_asserts
definition-asserts (ProgramGrammar.definition c e end {n} {l} {a} {ts} hn hc st he hl hend eq) v =
    let line = All-behind Valued (n ∷ c ∷ ts) (e ∷ l ∷ end ∷ []) (subst (All Valued) eq v) in
    both (name-asserts n hn) (literal-asserts l hl line.1.0)

program_asserts-append :
    (cs ds : Program)
    → program_asserts cs ≡ true
    → program_asserts ds ≡ true
    → program_asserts (cs ++ ds) ≡ true
unfolding program_asserts
program_asserts-append [] ds h k = k
program_asserts-append (c ∷ cs) ds h k = ground (arith, program_asserts-append cs ds)

definitions-assert :
    {ts : List Token} {cs : Program}
    → SpellsDefinitions ts cs
    → All Valued ts
    → program_asserts cs ≡ true
unfolding program_asserts
definitions-assert ProgramGrammar.no_definitions v = refl
definitions-assert (ProgramGrammar.then_definition {ts = ts} {us = us} {d = d} {cs = cs} sp sd eq)
      v =
    let all = subst (All Valued) eq v in
    program_asserts-append cs (variable_definition d ∷ [])
      (definitions-assert sp (All-before Valued ts us all))
      (both (definition-asserts sd (All-behind Valued ts us all)) refl)

statements-assert :
    {ts : List Token} {cs : Program}
    → SpellsStatements ts cs
    → All Valued ts
    → program_asserts cs ≡ true
unfolding program_asserts
statements-assert ProgramGrammar.no_statements v = refl
statements-assert (ProgramGrammar.then_statement {ts = ts} {us = us} {a = a} {cs = cs} sp sa eq) v =
    let all = subst (All Valued) eq v in
    program_asserts-append cs (statement a ∷ [])
      (statements-assert sp (All-before Valued ts us all))
      (both (assignment-asserts sa (All-behind Valued ts us all)) refl)

SpellsProgram-asserts :
    {ts : List Token} {cs : Program}
    → SpellsProgram ts cs
    → All Valued ts
    → program_asserts cs ≡ true
SpellsProgram-asserts (ProgramGrammar.program {ts = ts} {us = us} {ds = ds} {ss = ss} sd st eq ec)
      v =
    let all = subst (All Valued) eq v in
    rw ec (
      program_asserts-append ds ss (definitions-assert sd (All-before Valued ts us all))
        (statements-assert st (All-behind Valued ts us all)))

-- From a position inside the tokens, where the tokens not yet read carry the kinds of value that their
-- types want, every node of a program that the parser returns is made of tokens and nodes for which the
-- assertions in its constructor hold: literals with the alternative of their type, names, operators
-- that are unary or binary with constant operands where they need them, and targets that are names.
pub parse-asserts :
    (s s' : State) (cs : Program)
    → IsValid s.token_stream
    → All Valued (remaining s.token_stream)
    → parse s ≡ ok cs s'
    → program_asserts cs ≡ true
parse-asserts s s' cs v values e = SpellsProgram-asserts (parse-SpellsProgram s s' cs v e).0 values
