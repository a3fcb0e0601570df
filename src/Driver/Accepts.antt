-- ===== src/Driver/Accepts.antt =====
-- That `src/chocopc.cpp` brings every well-formed program through its passes.
use choco_c.Prelude.{
  inl, inr, ◌+◌, ◌<◌, ◌^◌, ◌≡◌, refl, ap, ◌∙◌, Bool, true, false, List, [], ◌∷◌, All, Option, some,
  Text, length, arith,
}
use choco_c.Token.{Token}
use choco_c.Diagnostics.{had_error}
use choco_c.Ast.{
  Expression, literal, identifier, grouping, grouping_null, unary, binary, is_valid_target,
  variable_definition, statement, Program,
}
use choco_c.Lexer
use choco_c.Lexer.Characters.{Characters, EndsWords}
use choco_c.Lexer.Scanner.{Lexer}
use choco_c.Lexer.Lex.{lex}
use choco_c.Lexer.Few.{lex-few}
use choco_c.TokenStream.{IsValid}
use choco_c.Parser.Monad.{State, ok}
use choco_c.Parser.ProgramGrammar.{SpellsProgram, Readable}
use choco_c.Parser.Complete.{parse_complete}
use choco_c.PrettyPrinter.Printable.{Printable, PrintableChild, print_program_iff}
use choco_c.Semantic.SemaType.{SemaType}
use choco_c.Semantic.SymbolTable.{SymbolTable, initial_entries}
use choco_c.Semantic.Typing.{HasType, of_variable, of_literal, of_grouping, of_logic}
use choco_c.Semantic.Built.{build-AllSound}
use choco_c.Semantic.Accepts.{
  Declares, Gets, by_rule, grouped, arithmetic, left_untyped, right_untyped, Accepted, Walkable,
  build-Declares, check_program-Accepted,
}
use choco_c.CodeGenerator.{Llvm, Generator}
use choco_c.CodeGenerator
use choco_c.CodeGenerator.Visits.{generate_program, new_generator}
use choco_c.CodeGenerator.Generates.{MakesConstants}
use choco_c.CodeGenerator.Programs.{AllocatedChild}
use choco_c.Driver.{
  generated, after_checker, after_builder, after_printer, pretty_print, after_parser, compile,
  after_lexer, compile_buffer,
}
use choco_c.Driver.InOrder.{IsPlain, PlainChild, InOrder, SpellsProgram-InOrder}
use choco_c.Driver.Reaches.{compile-generates}

InOrder-Walkable : (cs : Program) → InOrder cs → Readable cs → All Walkable cs
unfolding InOrder
InOrder-Walkable [] o r = tt
InOrder-Walkable (variable_definition d ∷ cs) o r = (tt, InOrder-Walkable cs o r.1)
InOrder-Walkable (statement a ∷ cs) o r = ((o.0, r.0.1), InOrder-Walkable cs o.2 r.1)

-- With the option to print the tree, the printer gets through it.
pretty_print-some :
    (do_pprint : Bool) (cs : Program)
    → (do_pprint ≡ true → All PrintableChild cs)
    → (text : Text) × (pretty_print do_pprint cs ≡ some text)
unfolding pretty_print
pretty_print-some false cs h = ([], refl)
pretty_print-some true cs h = (print_program_iff cs []).0 (h refl)

-- The passes after the parser.
after_parser-accepts :
    (do_pprint : Bool) (cs : Program) (m : SymbolTable) (s : State)
    → s.diag_manager ≡ []
    → All Walkable cs
    → (do_pprint ≡ true → All PrintableChild cs)
    → Declares initial_entries cs m
    → All (Accepted m) cs
    → after_parser do_pprint (ok cs s) ≡ generated cs m
unfolding after_parser after_printer after_builder after_checker had_error
after_parser-accepts do_pprint cs m s quiet w pr decl acc =
    let (text, printed) = pretty_print-some do_pprint cs pr in
    let built = build-Declares [] decl w in
    let checked = check_program-Accepted m cs [] (build-AllSound [] cs _ built) acc in
    rw (quiet, printed, built, checked) refl

-- From fewer than 2^63 tokens that spell a program whose assignments have targets and no empty parentheses,
-- whose definitions are of new names at types of the table, one after another, and whose literals and
-- expressions are of types that the variables take, where they get types, the passes get to the code
-- generator with that program and the table of its definitions; with the option to print the tree, where
-- the tree can be printed.
pub compile-accepts :
    (do_pprint : Bool) (tokens : List Token) (cs : Program) (m : SymbolTable)
    → length tokens < 2 ^ 63
    → SpellsProgram tokens cs
    → Readable cs
    → (do_pprint ≡ true → All PrintableChild cs)
    → Declares initial_entries cs m
    → All (Accepted m) cs
    → compile do_pprint tokens [] ≡ generated cs m
unfolding compile
compile-accepts do_pprint tokens cs m h sp r pr decl acc =
    let s₀ : State = record {
      token_stream = record { tokens = tokens; current_idx = 0 };
      diag_manager = [];
    } in
    let v : IsValid s₀.token_stream = record { inside = omega arith; addressable = h } in
    let (s, parsed, done, quiet) = parse_complete s₀ cs v sp r in
    let w = InOrder-Walkable cs (SpellsProgram-InOrder sp) r in
    ap (after_parser do_pprint) parsed ∙ after_parser-accepts do_pprint cs m s quiet w pr decl acc

-- What can be generated can be printed.
HasType-Printable :
    (m : SymbolTable) {e : Expression} {t : SemaType} → HasType m e t → IsPlain e → Printable e
unfolding IsPlain Printable
HasType-Printable m (of_variable h) p = tt
HasType-Printable m (of_literal h) p = tt
HasType-Printable m (of_grouping h) p = HasType-Printable m h p
HasType-Printable m (of_logic b hl hr q) p =
    (p.0, HasType-Printable m hl p.1, HasType-Printable m hr p.2)

Gets-Printable :
    (m : SymbolTable) {e : Expression} {o : Option SemaType} → Gets m e o → IsPlain e → Printable e
unfolding IsPlain Printable
Gets-Printable m (by_rule h) p = HasType-Printable m h p
Gets-Printable m (grouped h) p = Gets-Printable m h p
Gets-Printable m (arithmetic t u n hl hr) p =
    (p.0, Gets-Printable m hl p.1, Gets-Printable m hr p.2)
Gets-Printable m (left_untyped hl hr) p = (p.0, Gets-Printable m hl p.1, Gets-Printable m hr p.2)
Gets-Printable m (right_untyped hl hr) p = (p.0, Gets-Printable m hl p.1, Gets-Printable m hr p.2)

targets-Printable :
    (es : List Expression) → All (λ e. is_valid_target e ≡ true) es → All Printable es
unfolding is_valid_target Printable
targets-Printable [] h = tt
targets-Printable (identifier t ∷ es) h = (tt, targets-Printable es h.1)
targets-Printable (literal t ∷ es) h = cc
targets-Printable (grouping e r ∷ es) h = cc
targets-Printable (grouping_null r ∷ es) h = cc
targets-Printable (unary op e ∷ es) h = cc
targets-Printable (binary l op r ∷ es) h = cc

Plain-Printable :
    (m : SymbolTable) (cs : Program)
    → All Walkable cs
    → All (Accepted m) cs
    → All PlainChild cs
    → All PrintableChild cs
Plain-Printable m [] w a p = tt
Plain-Printable m (variable_definition d ∷ cs) w a p = (tt, Plain-Printable m cs w.1 a.1 p.1)
Plain-Printable m (statement s ∷ cs) w (inl (h, hs), a) p =
    ((targets-Printable s.targets w.0.0, Gets-Printable m h p.0), Plain-Printable m cs w.1 a p.1)
Plain-Printable m (statement s ∷ cs) w (inr (rhs, h, hs), a) p =
    ((targets-Printable s.targets w.0.0, HasType-Printable m h p.0), Plain-Printable m cs w.1 a p.1)

-- A buffer of fewer than 2^62 - 1 bytes, whose tokens are cut with nothing to report and spell a program as it
-- must be, with no `None` and no `is`, is compiled to the end, with or without the tree printed: where the
-- program's assignments have targets and no empty parentheses, its definitions are of new names at types of
-- the table, one after another, and its literals and expressions are of types that the variables take, where
-- they get types, the passes get to the code generator with that program and the table of its definitions, and
-- the code generator ends normally with an allocation for every variable. LLVM is to take its integers and
-- strings for constants, and the character functions the zero behind the buffer for no digit and no letter.
pub compile_buffer-accepts :
    (llvm : Llvm) (file : Text) (cs : Characters) (do_pprint : Bool) (buffer : Text) (lx : Lexer)
    (root : Program) (m : SymbolTable)
    → MakesConstants llvm
    → EndsWords cs
    → length buffer + 1 < 2 ^ 62
    → lex buffer cs [] ≡ Lexer.Lines.ok lx
    → lx.diag_manager ≡ []
    → SpellsProgram lx.tokens root
    → Readable root
    → Declares initial_entries root m
    → All (Accepted m) root
    → All PlainChild root
    → (compile_buffer cs do_pprint buffer ≡ generated root m)
      × ((g : Generator llvm) × (generate_program llvm root (new_generator llvm file m)
            ≡ CodeGenerator.ok tt g)
          × All (AllocatedChild g.symbol_table) root)
unfolding compile_buffer after_lexer had_error
compile_buffer-accepts llvm file cs do_pprint buffer lx root m k w h q quiet sp r decl acc plain =
    let few = lex-few buffer cs lx w h q in
    let print =
      Plain-Printable m root (InOrder-Walkable root (SpellsProgram-InOrder sp) r) acc plain in
    let e = compile-accepts do_pprint lx.tokens root m few sp r (λ _. print) decl acc in
    (
      rw (compile_buffer, q, quiet) e,
      compile-generates llvm file do_pprint lx.tokens [] root m k few e plain,
    )
