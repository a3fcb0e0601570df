-- ===== src/Driver/Ends.antt =====
-- That `src/chocopc.cpp` gets through its passes.
use choco_c.Prelude.{
  ◌+◌, ◌<◌, ◌^◌, ◌≢◌, Bool, true, false, Option, none, some, Text, arith, length, [], refl,
  if◌then◌else◌,
}
use choco_c.Diagnostics.{DiagnosticsManager, had_error}
use choco_c.Ast.{Program}
use choco_c.Lexer.Characters.{Characters, EndsWords}
use choco_c.Lexer.Lexed.{lex-ends}
use choco_c.Lexer.Few.{lex-few}
use choco_c.Parser.Monad.{State, Result, ok, null, undefined, out_of_fuel}
use choco_c.Parser.Statements.{parse}
use choco_c.Parser.Correct.{parse-ne-out_of_fuel}
use choco_c.Semantic.SymbolTable.{SymbolTable}
use choco_c.Semantic.SymbolTableBuilder.{SymbolTableBuilder, new_builder, build}
use choco_c.Semantic.TypeChecker.{Outcome, check_program}
use choco_c.Driver.{
  Compilation, stopped, generated, exhausted, after_checker, after_builder, after_printer,
  pretty_print, after_parser, compile, after_lexer, compile_buffer,
}

-- A compilation with a test of `hadError` before it.
tested :
    (b : Bool) (ds : DiagnosticsManager) (k : Compilation)
    → k ≢ exhausted
    → (if b then stopped ds else k) ≢ exhausted
tested true ds k h e = cc
tested false ds k h e = h e

checker_ends :
    (root : Program) (m : SymbolTable) (o : Outcome (Unit {0})) → after_checker root m o ≢ exhausted
unfolding after_checker
checker_ends root m (Outcome.ok u ds) e = tested (had_error ds) ds (generated root m) (λ q. cc) e
checker_ends root m Outcome.undefined e = cc
checker_ends root m Outcome.bad_any_cast e = cc

builder_ends : (root : Program) (o : Option SymbolTableBuilder) → after_builder root o ≢ exhausted
unfolding after_builder
builder_ends root none e = cc
builder_ends root (some b) e =
    checker_ends root b.symbol_table (check_program b.symbol_table root b.diag_manager) e

printer_ends :
    (root : Program) (ds : DiagnosticsManager) (o : Option Text)
    → after_printer root ds o ≢ exhausted
unfolding after_printer
printer_ends root ds none e = cc
printer_ends root ds (some text) e = builder_ends root (build (new_builder ds) root) e

parser_ends :
    (do_pprint : Bool) (r : Result Program) → r ≢ out_of_fuel → after_parser do_pprint r ≢ exhausted
unfolding after_parser
parser_ends do_pprint (ok root s) h e =
    tested (had_error s.diag_manager) s.diag_manager _
      (printer_ends root s.diag_manager (pretty_print do_pprint root)) e
parser_ends do_pprint (null s) h e = cc
parser_ends do_pprint undefined h e = cc
parser_ends do_pprint out_of_fuel h e = h refl

-- The passes over a buffer of fewer than 2^62 - 1 bytes end, provided that the character functions
-- take the zero behind it for no digit and no letter: no loop of the lexer,
-- of the parser or of the passes after them goes on for ever.
pub compile_buffer-ends :
    (cs : Characters) (do_pprint : Bool) (buffer : Text)
    → EndsWords cs
    → length buffer + 1 < 2 ^ 62
    → compile_buffer cs do_pprint buffer ≢ exhausted
unfolding compile_buffer after_lexer compile
compile_buffer-ends cs do_pprint buffer w h e =
    let (lx, q) = lex-ends buffer cs [] w (omega arith) in
    let s₀ : State = record {
      token_stream = record { tokens = lx.tokens; current_idx = 0 };
      diag_manager = lx.diag_manager;
    } in
    tested (had_error lx.diag_manager) lx.diag_manager (compile do_pprint lx.tokens lx.diag_manager)
      (parser_ends do_pprint (parse s₀) (
        parse-ne-out_of_fuel s₀
          (record { inside = omega arith; addressable = lex-few buffer cs lx w h q })))
      (rw q at e)
