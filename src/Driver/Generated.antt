-- ===== src/Driver/Generated.antt =====
-- What reaches the code generator in `src/chocopc.cpp`.
use choco_c.Prelude.{
  ◌+◌, Bool, Text, ◌<◌, ◌^◌, ◌≡◌, refl, ap, List, [], All, Option, none, some, arith, length, subst,
  if◌then◌else◌,
}
use choco_c.Token.{Token}
use choco_c.Lexer
use choco_c.Lexer.Characters.{Characters, EndsWords}
use choco_c.Lexer.Scanner.{Lexer}
use choco_c.Lexer.Lex.{lex}
use choco_c.Lexer.Cuts.{Ordered, IsCut}
use choco_c.Lexer.Lexed.{lex-Ordered}
use choco_c.Lexer.Few.{lex-few}
use choco_c.Diagnostics.{DiagnosticsManager, had_error, had_error_iff}
use choco_c.Ast.{Program}
use choco_c.Parser.Monad.{State, Result, ok, null, undefined, out_of_fuel}
use choco_c.Parser.Statements.{parse}
use choco_c.Parser.ProgramGrammar.{SpellsProgram}
use choco_c.Parser.Correct.{parse-SpellsProgram}
use choco_c.Semantic.SymbolTable.{SymbolTable}
use choco_c.Semantic.SymbolTableBuilder.{SymbolTableBuilder, new_builder, build}
use choco_c.Semantic.TypeChecker.{Outcome, check_program}
use choco_c.Semantic.Built.{Resolved, build-Resolved, build-AllSound}
use choco_c.Semantic.Grows.{check_program-Grows}
use choco_c.Semantic.Accepted.{ChildTyped, no_length, check_program-All}
use choco_c.Driver.{
  Compilation, generated, stopped, after_checker, after_builder, after_printer, pretty_print,
  after_parser, compile, after_lexer, compile_buffer,
}

-- Past a test of `hadError` there are no diagnostics.
pub no_error :
    (ds : DiagnosticsManager) (k : Compilation) {root : Program} {m : SymbolTable}
    → (if had_error ds then stopped ds else k) ≡ generated root m
    → (ds ≡ []) × (k ≡ generated root m)
no_error ds k e = ground (arith, had_error_iff ds)

checked :
    (root root' : Program) (m m' : SymbolTable) (o : Outcome (Unit {0}))
    → after_checker root m o ≡ generated root' m'
    → (root ≡ root') × (m ≡ m') × (o ≡ Outcome.ok tt [])
unfolding after_checker
checked root root' m m' (Outcome.ok u ds) e =
    let (n, q) = no_error ds (generated root m) e in (cc, cc, ap (Outcome.ok u) n)
checked root root' m m' Outcome.undefined e = cc
checked root root' m m' Outcome.bad_any_cast e = cc

pub built :
    (root root' : Program) (m : SymbolTable) (o : Option SymbolTableBuilder)
    → after_builder root o ≡ generated root' m
    → (root ≡ root')
      × ((b : SymbolTableBuilder) × (o ≡ some b)
          × (b.symbol_table ≡ m)
          × (check_program b.symbol_table root b.diag_manager ≡ Outcome.ok tt []))
unfolding after_builder
built root root' m none e = cc
built root root' m (some b) e =
    let (p, q, r) = checked root root' b.symbol_table m _ e in (p, (b, refl, q, r))

printed :
    (root root' : Program) (m : SymbolTable) (ds : DiagnosticsManager) (o : Option Text)
    → after_printer root ds o ≡ generated root' m
    → after_builder root (build (new_builder ds) root) ≡ generated root' m
unfolding after_printer
printed root root' m ds none e = cc
printed root root' m ds (some text) e = e

pub parsed :
    (do_pprint : Bool) (r : Result Program) (root : Program) (m : SymbolTable)
    → after_parser do_pprint r ≡ generated root m
    → (root' : Program) × (s : State) × (r ≡ ok root' s)
      × (after_builder root' (build (new_builder []) root') ≡ generated root m)
unfolding after_parser
parsed do_pprint (ok root' s) root m e =
    let (n, q) = no_error s.diag_manager _ e in
    let built = printed root' root m s.diag_manager (pretty_print do_pprint root') q in
    (
      root',
      s,
      refl,
      subst (λ ds. after_builder root' (build (new_builder ds) root') ≡ generated root m) n built,
    )
parsed do_pprint (null s) root m e = cc
parsed do_pprint undefined root m e = cc
parsed do_pprint out_of_fuel root m e = cc

-- What a program that reaches the code generator is known to be.
abbrev pub Generated : List Token → Program → SymbolTable → Type 0
Generated tokens root m = SpellsProgram tokens root × Resolved m root × All (ChildTyped m) root

from_builder :
    (root : Program) (b : SymbolTableBuilder)
    → build (new_builder []) root ≡ some b
    → check_program b.symbol_table root b.diag_manager ≡ Outcome.ok tt []
    → Resolved b.symbol_table root × All (ChildTyped b.symbol_table) root
from_builder root b e q =
    let silent =
      no_length b.diag_manager (check_program-Grows b.symbol_table root b.diag_manager [] tt q) in
    (
      build-Resolved (new_builder []) root b e (ap length silent),
      check_program-All b.symbol_table root (build-AllSound [] root b e)
          (subst (λ ds. check_program b.symbol_table root ds ≡ Outcome.ok tt []) silent q),
    )

-- From fewer than 2^63 tokens, whatever program reaches the code generator spells these tokens, with no
-- token left over. With the symbol table that goes along, each definition has a known type and its name
-- is bound to a variable of that type, each literal is of a type that its variable takes, and each
-- target of an assignment takes the type of the expression, where both have types.
pub compile-Generated :
    (do_pprint : Bool) (tokens : List Token) (ds : DiagnosticsManager) (root : Program)
    (m : SymbolTable)
    → length tokens < 2 ^ 63
    → compile do_pprint tokens ds ≡ generated root m
    → Generated tokens root m
unfolding compile
compile-Generated do_pprint tokens ds root m h e =
    let s₀ : State = record {
      token_stream = record { tokens = tokens; current_idx = 0 };
      diag_manager = ds;
    } in
    let (root', s, p, q) = parsed do_pprint (parse s₀) root m e in
    let (same, (b, k, t, r)) = built root' root m _ q in
    let spelled =
      parse-SpellsProgram s₀ s root' (record { inside = omega arith; addressable = h }) p in
    let known = from_builder root' b k r in
    subst (λ x. SpellsProgram tokens x × Resolved m x × All (ChildTyped m) x) same
      (let (a, c) = subst (λ x. Resolved x root' × All (ChildTyped x) root') t known in
        (spelled.0, a, c))

-- What is known of the tokens of the buffer.
abbrev pub FromBuffer : Characters → Text → Program → SymbolTable → Type 0
FromBuffer cs buffer root m =
    (lx : Lexer) × (lex buffer cs [] ≡ Lexer.Lines.ok lx)
    × (lx.diag_manager ≡ [])
    × Ordered 0 lx.tokens (length buffer + 1)
    × All (IsCut buffer) lx.tokens
    × Generated lx.tokens root m

-- From a buffer of fewer than 2^62 - 1 bytes, provided that the character functions take the zero
-- behind it for no digit and no letter, whatever program reaches the code generator spells the tokens of the buffer, which lie in it in order, each with the text at its location,
-- and were cut with nothing to report. With the symbol table that goes along, its definitions have known
-- types, and its literals and assignments are of types that the variables take, where both have types.
pub compile_buffer-FromBuffer :
    (cs : Characters) (do_pprint : Bool) (buffer : Text) (root : Program) (m : SymbolTable)
    → EndsWords cs
    → length buffer + 1 < 2 ^ 62
    → compile_buffer cs do_pprint buffer ≡ generated root m
    → FromBuffer cs buffer root m
unfolding compile_buffer after_lexer
compile_buffer-FromBuffer cs do_pprint buffer root m w h e =
    let (lx, q, o, c) = lex-Ordered buffer cs [] w (omega arith) in
    let few = lex-few buffer cs lx w h q in
    let (n, k) =
      no_error lx.diag_manager (compile do_pprint lx.tokens lx.diag_manager) (rw q at e) in
    (lx, q, n, o, c, compile-Generated do_pprint lx.tokens lx.diag_manager root m few k)
