-- ===== src/Driver.antt =====
-- `src/chocopc.cpp`: the passes over one file.
pub mod Generated
pub mod Ends
pub mod InOrder
pub mod Reaches
pub mod Accepts
pub mod Exactly
use choco_c.Prelude.{Bool, List, [], Option, none, some, Text, if◌then◌else◌}
use choco_c.Lexer
use choco_c.Lexer.Characters.{Characters}
use choco_c.Lexer.Lex.{lex}
use choco_c.PrettyPrinter.{print_program}
use choco_c.Token.{Token}
use choco_c.Diagnostics.{DiagnosticsManager, had_error}
use choco_c.Ast.{Program}
use choco_c.Parser.Monad.{State, Result, ok, null, undefined, out_of_fuel}
use choco_c.Parser.Statements.{parse}
use choco_c.Semantic.SymbolTable.{SymbolTable}
use choco_c.Semantic.SymbolTableBuilder.{SymbolTableBuilder, new_builder, build}
use choco_c.Semantic.TypeChecker.{Outcome, check_program}

-- What becomes of a file: the loop goes on to the next one, the code generator gets the tree and the
-- symbol table, or the program is left in the middle. The last has no counterpart in the program.
pub data Compilation : Type 0 where
  stopped : DiagnosticsManager → Compilation
  generated : Program → SymbolTable → Compilation
  crashed thrown exhausted : Compilation

unfoldable pub after_checker : Program → SymbolTable → Outcome (Unit {0}) → Compilation
after_checker root m (Outcome.ok u ds) = if had_error ds then stopped ds else generated root m
after_checker root m Outcome.undefined = crashed
after_checker root m Outcome.bad_any_cast = thrown

unfoldable pub after_builder : Program → Option SymbolTableBuilder → Compilation
after_builder root none = crashed
after_builder root (some b) =
    after_checker root b.symbol_table (check_program b.symbol_table root b.diag_manager)

-- The text that goes to the output with the option to print the tree; no value where the printer is left in
-- the middle.
unfoldable pub pretty_print : Bool → Program → Option Text
unfolding print_program
pretty_print do_pprint root = if do_pprint then print_program root [] else some []

unfoldable pub after_printer : Program → DiagnosticsManager → Option Text → Compilation
unfolding after_builder
after_printer root ds none = crashed
after_printer root ds (some text) = after_builder root (build (new_builder ds) root)

unfoldable pub after_parser : Bool → Result Program → Compilation
unfolding pretty_print after_printer
after_parser do_pprint (ok root s) =
    if had_error s.diag_manager
    then stopped s.diag_manager
    else after_printer root s.diag_manager (pretty_print do_pprint root)
after_parser do_pprint (null s) = stopped s.diag_manager
after_parser do_pprint undefined = crashed
after_parser do_pprint out_of_fuel = exhausted

-- The passes after the lexer, which has left the tokens and no error.
unfoldable pub compile : Bool → List Token → DiagnosticsManager → Compilation
compile do_pprint tokens ds = after_parser do_pprint (
    parse
      (record { token_stream = record { tokens = tokens; current_idx = 0 }; diag_manager = ds }))

unfoldable pub after_lexer : Bool → Lexer.Lines.Outcome → Compilation
unfolding compile
after_lexer do_pprint (Lexer.Lines.ok lx) =
    if had_error lx.diag_manager
    then stopped lx.diag_manager
    else compile do_pprint lx.tokens lx.diag_manager
after_lexer do_pprint Lexer.Lines.undefined = crashed
after_lexer do_pprint Lexer.Lines.out_of_fuel = exhausted

-- All passes over the buffer of a file, with a manager of their own.
unfoldable pub compile_buffer : Characters → Bool → Text → Compilation
unfolding after_lexer lex
compile_buffer cs do_pprint buffer = after_lexer do_pprint (lex buffer cs [])
