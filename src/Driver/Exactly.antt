-- ===== src/Driver/Exactly.antt =====
-- What `src/chocopc.cpp` brings to the code generator, and what it does not.
use choco_c.Prelude.{
  ◌+◌, ◌<◌, ◌^◌, ◌≡◌, refl, sym, subst, ◌↔◌, Bool, true, List, [], ◌∷◌, All, Option, none, some,
  Text, arith, length,
}
use choco_c.Token.{Token}
use choco_c.Diagnostics.{DiagnosticsManager, had_error}
use choco_c.Ast.{variable_definition, statement, Program}
use choco_c.Lexer
use choco_c.Lexer.Characters.{Characters, EndsWords}
use choco_c.Lexer.Scanner.{Lexer}
use choco_c.Lexer.Lex.{lex}
use choco_c.Lexer.Lexed.{lex-ends}
use choco_c.Lexer.Few.{lex-few}
use choco_c.TokenStream.{IsValid}
use choco_c.Parser.Monad.{State, ok}
use choco_c.Parser.Statements.{parse}
use choco_c.Parser.ProgramGrammar.{SpellsProgram, Readable}
use choco_c.Parser.Headed.{HeadedChild}
use choco_c.Parser.Correct.{parse-SpellsProgram, parse-Headed}
use choco_c.PrettyPrinter.Printable.{PrintableChild, print_program_iff}
use choco_c.Semantic.SymbolTable.{SymbolTable, initial_entries}
use choco_c.Semantic.SymbolTableBuilder.{SymbolTableBuilder, new_builder, build}
use choco_c.Semantic.TypeChecker.{Outcome, check_program}
use choco_c.Semantic.Built.{build-AllSound}
use choco_c.Semantic.Grows.{check_program-Grows}
use choco_c.Semantic.Accepts.{Declares, Accepted}
use choco_c.Semantic.Accepted.{no_length}
use choco_c.Semantic.Declared.{FilledChild, build-Declared}
use choco_c.Semantic.Silent.{NamesChild, check_program-silent}
use choco_c.Driver.{
  generated, after_printer, pretty_print, after_parser, compile, after_lexer, compile_buffer,
}
use choco_c.Driver.Generated.{no_error, built, parsed}
use choco_c.Driver.InOrder.{InOrder, SpellsProgram-InOrder}
use choco_c.Driver.Accepts.{compile-accepts}

-- The programs of the language, stated with none of the passes: the tokens spell it, its assignments have
-- targets and no empty parentheses, its definitions are of new names at types of the table, and its
-- literals and expressions are of types that the variables take, where they get types. With the option to
-- print the tree, the tree can be printed.
abbrev pub WellFormed : Bool → List Token → Program → SymbolTable → Type 0
WellFormed do_pprint tokens cs m =
    SpellsProgram tokens cs
    × Readable cs
    × (do_pprint ≡ true → All PrintableChild cs)
    × Declares initial_entries cs m
    × All (Accepted m) cs

printed-Printable :
    (do_pprint : Bool) (root : Program) (ds : DiagnosticsManager) (o : Option Text)
    {root' : Program} {m : SymbolTable}
    → pretty_print do_pprint root ≡ o
    → after_printer root ds o ≡ generated root' m
    → do_pprint ≡ true
    → All PrintableChild root
unfolding after_printer pretty_print
printed-Printable do_pprint root ds none p e on = cc
printed-Printable do_pprint root ds (some text) p e on =
    (print_program_iff root []).1 (text, rw on at p)

Headed-Readable : (cs : Program) → All HeadedChild cs → All FilledChild cs → Readable cs
Headed-Readable [] h f = tt
Headed-Readable (variable_definition d ∷ cs) h f = (tt, Headed-Readable cs h.1 f.1)
Headed-Readable (statement a ∷ cs) h f = ((h.0 f.0, f.0), Headed-Readable cs h.1 f.1)

InOrder-Names : (cs : Program) → InOrder cs → All NamesChild cs
unfolding InOrder
InOrder-Names [] o = tt
InOrder-Names (variable_definition d ∷ cs) o = (tt, InOrder-Names cs o)
InOrder-Names (statement a ∷ cs) o = (o.0, InOrder-Names cs o.2)

after_builder-WellFormed :
    (root : Program) (b : SymbolTableBuilder)
    → All NamesChild root
    → build (new_builder []) root ≡ some b
    → check_program b.symbol_table root b.diag_manager ≡ Outcome.ok tt []
    → Declares initial_entries root b.symbol_table
      × All FilledChild root
      × All (Accepted b.symbol_table) root
after_builder-WellFormed root b names e q =
    let silent =
      no_length b.diag_manager (check_program-Grows b.symbol_table root b.diag_manager [] tt q) in
    let (decl, filled) = build-Declared (new_builder []) b root e (rw silent (omega arith)) in
    (
      decl,
      filled,
      check_program-silent b.symbol_table root (build-AllSound [] root b e) names
          (subst (λ ds. check_program b.symbol_table root ds ≡ Outcome.ok tt []) silent q),
    )

parsed-Printable :
    (do_pprint : Bool) (s : State) (root root' : Program) (m : SymbolTable)
    → after_parser do_pprint (ok root s) ≡ generated root' m
    → do_pprint ≡ true
    → All PrintableChild root
unfolding after_parser
parsed-Printable do_pprint s root root' m e =
    let (n, q) = no_error s.diag_manager _ e in
    printed-Printable do_pprint root s.diag_manager (pretty_print do_pprint root) refl q

compile-WellFormed :
    (do_pprint : Bool) (tokens : List Token) (root : Program) (m : SymbolTable)
    → length tokens < 2 ^ 63
    → compile do_pprint tokens [] ≡ generated root m
    → WellFormed do_pprint tokens root m
unfolding compile
compile-WellFormed do_pprint tokens root m h e =
    let s₀ : State = record {
      token_stream = record { tokens = tokens; current_idx = 0 };
      diag_manager = [];
    } in
    let v : IsValid s₀.token_stream = record { inside = omega arith; addressable = h } in
    let (root', s, p, q) = parsed do_pprint (parse s₀) root m e in
    let (same, (b, k, t, r)) = built root' root m _ q in
    let spelled = (parse-SpellsProgram s₀ s root' v p).0 in
    let names = InOrder-Names root' (SpellsProgram-InOrder spelled) in
    let (decl, filled, acc) = after_builder-WellFormed root' b names k r in
    let headed = parse-Headed s₀ s root' v p in
    let print = parsed-Printable do_pprint s root' root m (rw p at e) in
    subst (λ x. WellFormed do_pprint tokens x m) same
      (subst (WellFormed do_pprint tokens root') t
        (spelled, Headed-Readable root' headed filled, print, decl, acc))

-- From fewer than 2^63 tokens, with or without the option to print the tree, a program and a symbol table
-- get to the code generator exactly where the tokens spell the program, its assignments have targets and no
-- empty parentheses, its definitions are of new names at types of the table, one after another, and make
-- that table, its literals and expressions are of types that the variables take, where they get types, and,
-- with the option, the tree can be printed.
pub compile_iff :
    (do_pprint : Bool) (tokens : List Token) (root : Program) (m : SymbolTable)
    → length tokens < 2 ^ 63
    → (compile do_pprint tokens [] ≡ generated root m) ↔ WellFormed do_pprint tokens root m
compile_iff do_pprint tokens root m h = (
  compile-WellFormed do_pprint tokens root m h,
  λ (sp, r, pr, decl, acc). compile-accepts do_pprint tokens root m h sp r pr decl acc,
)

-- The tokens of the buffer, cut with nothing to report.
abbrev pub CutInto : Characters → Text → List Token → Type 0
CutInto cs buffer tokens =
    (lx : Lexer) × (lex buffer cs [] ≡ Lexer.Lines.ok lx)
    × (lx.diag_manager ≡ [])
    × (lx.tokens ≡ tokens)

-- From a buffer of fewer than 2^62 - 1 bytes, where the character functions take the zero behind it for no
-- digit and no letter, with or without the option to print the tree, a program and a symbol table get to the
-- code generator exactly where the buffer is cut, with nothing to report, into tokens that spell the program,
-- the program's assignments have targets and no empty parentheses, its definitions are of new names at types
-- of the table, one after another, and make that table, its literals and expressions are of types that the
-- variables take, where they get types, and, with the option, the tree can be printed.
pub compile_buffer_iff :
    (cs : Characters) (do_pprint : Bool) (buffer : Text) (root : Program) (m : SymbolTable)
    → EndsWords cs
    → length buffer + 1 < 2 ^ 62
    → (compile_buffer cs do_pprint buffer ≡ generated root m)
      ↔ ((tokens : List Token) × CutInto cs buffer tokens × WellFormed do_pprint tokens root m)
unfolding compile_buffer after_lexer had_error
compile_buffer_iff cs do_pprint buffer root m w h = (
  λ e.
      let (lx, q) = lex-ends buffer cs [] w (omega arith) in
      let few = lex-few buffer cs lx w h q in
      let (n, k) =
        no_error lx.diag_manager (compile do_pprint lx.tokens lx.diag_manager) (rw q at e) in
      (
        lx.tokens,
        (lx, q, n, refl),
        compile-WellFormed do_pprint lx.tokens root m few
            (subst (λ ds. compile do_pprint lx.tokens ds ≡ generated root m) n k),
      ),
  λ (tokens, (lx, q, n, same), f).
      let few = lex-few buffer cs lx w h q in
      let made =
        (compile_iff do_pprint lx.tokens root m few).1
          (subst (λ ts. WellFormed do_pprint ts root m) (sym same) f) in
      rw (compile_buffer, q, n) made,
)
