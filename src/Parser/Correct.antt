-- ===== src/Parser/Correct.antt =====
-- `parse` and `parseExpression` of `src/parser/Parser.cpp`: what a caller may rely on.
use choco_c.Prelude.{
  ℕ, ◌+◌, ◌*◌, ◌<◌, ◌≡◌, ◌≢◌, sym, ◌∙◌, true, false, List, [], ◌∷◌, ◌++◌, All, length, subst,
}
use choco_c.TokenType.{newline, type_eq, type_eq_iff}
use choco_c.Token.{Token}
use choco_c.TokenStream.{IsValid, remaining}
use choco_c.Ast.{Expression, Program}
use choco_c.Parser.Monad.{State, Result, ok, undefined, out_of_fuel}
use choco_c.Parser.Expressions.{parse_expression}
use choco_c.Parser.Statements.{parse}
use choco_c.Parser.ProgramGrammar.{SpellsProgram}
use choco_c.Parser.Headed.{HeadedChild}
use choco_c.Parser.Branches.{Parsed}
use choco_c.Parser.ExpressionsSound.{parse_expression-Parsed}
use choco_c.Parser.ProgramSound.{parse-Ensures}
use choco_c.Parser.Ensures.{Ensures, returned, rejected, crashed}

module _ {A : Type 0} {P : A → State → Type 0} {N : State → Type 0} {U : Type 0} where
  Ensures-ok : {r : Result A} → Ensures P N U r → (a : A) (s : State) → r ≡ ok a s → P a s
  Ensures-ok (returned {a} {s} p) b t e =
      let e₁ : a ≡ b = cc in let e₂ : s ≡ t = cc in subst (λ x. P x t) e₁ (subst (P a) e₂ p)
  Ensures-ok (rejected n) b t e = cc
  Ensures-ok (crashed u) b t e = cc

  Ensures-undefined : {r : Result A} → Ensures P N U r → r ≡ undefined → U
  Ensures-undefined (returned p) e = cc
  Ensures-undefined (rejected n) e = cc
  Ensures-undefined (crashed u) e = u

  Ensures-out_of_fuel : {r : Result A} → Ensures P N U r → r ≢ out_of_fuel
  Ensures-out_of_fuel (returned p) = cc
  Ensures-out_of_fuel (rejected n) = cc
  Ensures-out_of_fuel (crashed u) = cc

-- From a position inside the tokens, a program that the parser returns spells, in the order of the
-- source, exactly the tokens not yet read: definitions first, then assignments, each with its line's
-- end; and no token is left. A grouping without an expression spells only parentheses around tokens that
-- fail to be one: none, or an operator without its operand or with one that is not constant as it must be.
pub parse-SpellsProgram :
    (s s' : State) (cs : Program)
    → IsValid s.token_stream
    → parse s ≡ ok cs s'
    → SpellsProgram (remaining s.token_stream) cs × (remaining s'.token_stream ≡ [])
parse-SpellsProgram s s' cs v e =
    let (spelled, done, headed) = Ensures-ok (parse-Ensures s v) cs s' e in (spelled, done)

-- The assignments that the parser returns have targets, but for those with empty parentheses.
pub parse-Headed :
    (s s' : State) (cs : Program) → IsValid s.token_stream → parse s ≡ ok cs s' → All HeadedChild cs
parse-Headed s s' cs v e =
    let (spelled, done, headed) = Ensures-ok (parse-Ensures s v) cs s' e in headed

-- The fuel that `parse` hands out suffices on every input, from a position inside the tokens.
pub parse-ne-out_of_fuel : (s : State) → IsValid s.token_stream → parse s ≢ out_of_fuel
parse-ne-out_of_fuel s v = Ensures-out_of_fuel (parse-Ensures s v)

-- An expression that `parseExpression` returns at the power `p`, on more fuel than twice the number of
-- tokens left and one, spells the tokens read, with its operators nested as
-- their powers demand, and what follows is no operator that binds at `p` or above, or that an operator
-- on the right edge should have drawn in. A grouping without an expression spells only parentheses around
-- tokens that fail to be one.
pub parse_expression_sound :
    (f p : ℕ) (s s' : State) (e : Expression)
    → IsValid s.token_stream
    → 2 * length (remaining s.token_stream) + 1 < f
    → parse_expression f p s ≡ ok e s'
    → Parsed p s e s'
parse_expression_sound f p s s' e v h q = Ensures-ok (parse_expression-Parsed f p s v h) e s' q

-- On more fuel than twice the number of tokens left and one, `parseExpression` ends, and it dereferences
-- no empty optional, whatever the tokens are.
pub parse_expression-ne-undefined :
    (f p : ℕ) (s : State)
    → IsValid s.token_stream
    → 2 * length (remaining s.token_stream) + 1 < f
    → (parse_expression f p s ≢ undefined) × (parse_expression f p s ≢ out_of_fuel)
parse_expression-ne-undefined f p s v h =
    let r = parse_expression-Parsed f p s v h in
    ((λ e. Ensures-undefined r e), Ensures-out_of_fuel r)

last_newline :
    (us vs : List Token) (e n : Token) (ts : List Token)
    → type_eq e.type newline ≡ true
    → us ++ e ∷ [] ≡ vs ++ n ∷ ts
    → All (λ t. type_eq t.type newline ≡ false) (n ∷ ts)
    → ⊥
last_newline us [] e n ts h q a =
    last_All us (subst (All (λ t. type_eq t.type newline ≡ false)) (sym q) a)
  where
    last_All : (us : List Token) → All (λ t. type_eq t.type newline ≡ false) (us ++ e ∷ []) → ⊥
    last_All [] b = cc (h, b.0)
    last_All (u ∷ us) b = last_All us b.1
last_newline [] (v ∷ []) e n ts h q a = cc
last_newline [] (v ∷ w ∷ vs) e n ts h q a = cc
last_newline (u ∷ us) (v ∷ vs) e n ts h q a =
    let q' : us ++ e ∷ [] ≡ vs ++ n ∷ ts = cc in last_newline us vs e n ts h q' a

-- Where the tokens not yet read end with a line's end, the parser dereferences no empty optional.
pub parse-ne-undefined :
    (s : State) (us : List Token) (e : Token)
    → IsValid s.token_stream
    → remaining s.token_stream ≡ us ++ e ∷ []
    → e.type ≡ newline
    → parse s ≢ undefined
parse-ne-undefined s us e v split is_end q =
    let (vs, n, ts, cut, a) = Ensures-undefined (parse-Ensures s v) q in
    last_newline us vs e n ts ((type_eq_iff e.type newline).1 is_end) (sym split ∙ cut) a
