-- ===== src/Parser/Complete.antt =====
-- `parse` and `parseExpression` of `src/parser/Parser.cpp`: what the grammar spells is read, in one way.
use choco_c.Prelude.{ℕ, ◌+◌, ◌*◌, ◌<◌, ◌≡◌, refl, List, [], ◌++◌, arith, length, length-drop}
use choco_c.Token.{Token}
use choco_c.TokenStream.{IsValid, remaining}
use choco_c.Ast.{Expression, Program}
use choco_c.Parser.Monad.{State, ok}
use choco_c.Parser.Expressions.{parse_expression}
use choco_c.Parser.Statements.{parse}
use choco_c.Parser.Grammar.{Spells, Filled, Follows, Stops}
use choco_c.Parser.ProgramGrammar.{SpellsProgram, Readable}
use choco_c.Parser.Gives.{At, Gives-ok}
use choco_c.Parser.ExpressionsComplete.{spelled-Completes}
use choco_c.Parser.ProgramComplete.{spelled_program}

-- From a position inside the tokens, where the tokens not yet read begin with `ts`, which spells the
-- expression at the power `p` with no empty parentheses, and go on with no operator that binds at `p` or
-- above, nor one that the expression's right edge would draw in, `parseExpression` returns that
-- expression, on more fuel than twice the number of tokens left and one; it stands behind `ts`, inside
-- the tokens, and has reported nothing.
pub parse_expression_complete :
    (f p : ℕ) (s : State) (e : Expression) (ts rest : List Token)
    → IsValid s.token_stream
    → remaining s.token_stream ≡ ts ++ rest
    → 2 * length (ts ++ rest) + 1 < f
    → Spells p ts e
    → Filled e
    → Follows e rest
    → Stops p rest
    → (s' : State) × (parse_expression f p s ≡ ok e s')
      × IsValid s'.token_stream
      × (remaining s'.token_stream ≡ rest)
      × (s'.diag_manager ≡ s.diag_manager)
parse_expression_complete f p s e ts rest v split h sp w fo st =
    let here : At s.diag_manager (ts ++ rest) s = record {
      valid = v;
      left = split;
      quiet = refl;
    } in
    let (s', q, a) = Gives-ok (spelled-Completes sp w s.diag_manager rest f s here fo st h) in
    (s', q, a.valid, a.left, a.quiet)

-- From a position inside the tokens, where the tokens not yet read spell a program whose assignments
-- have targets and no empty parentheses, `parse` returns that program, to the end of the tokens, and has
-- reported nothing.
pub parse_complete :
    (s : State) (cs : Program)
    → IsValid s.token_stream
    → SpellsProgram (remaining s.token_stream) cs
    → Readable cs
    → (s' : State) × (parse s ≡ ok cs s')
      × (remaining s'.token_stream ≡ [])
      × (s'.diag_manager ≡ s.diag_manager)
unfolding parse
parse_complete s cs v sp w =
    let here : At s.diag_manager (remaining s.token_stream) s = record {
      valid = v;
      left = refl;
      quiet = refl;
    } in
    let (s', q, a) = Gives-ok (
      spelled_program s.diag_manager _ s sp w here
        (omega (arith, length-drop s.token_stream.current_idx s.token_stream.tokens))) in
    (s', q, a.left, a.quiet)
