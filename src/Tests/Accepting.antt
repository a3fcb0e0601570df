-- ===== src/Tests/Accepting.antt =====
-- `src/chocopc.cpp` brings the two lines through its passes.
use choco_c.Prelude.{
  ◌≡◌, ◌↔◌, List, refl, inl, inr, true, false, [], ◌∷◌, All, Text, codes, arith, text_eq,
}
use choco_c.TokenType.{type_eq, ordinal}
use choco_c.Token.{Token, one_of}
use choco_c.Ast.{get_text}
use choco_c.Lexer
use choco_c.Lexer.Characters.{int32_of, read_decimal}
use choco_c.Lexer.Scanner.{Lexer, skip_chars}
use choco_c.Lexer.Lex.{lex}
use choco_c.Semantic.SemaType.{integer_type}
use choco_c.Semantic.SymbolTable.{initial_entries, get_entry, add_entry, type_of}
use choco_c.Semantic.Typing.{of_variable, of_literal}
use choco_c.Semantic.Accepts.{
  Declares, no_more, declares, assigns, by_rule, arithmetic, right_untyped, Accepted,
}
use choco_c.Semantic.Assignable.{same}
use choco_c.CodeGenerator.{Generator}
use choco_c.CodeGenerator
use choco_c.CodeGenerator.Visits.{generate_program, new_generator}
use choco_c.CodeGenerator.Programs.{AllocatedChild}
use choco_c.Driver.{generated, compile, compile_buffer}
use choco_c.Driver.Accepts.{compile_buffer-accepts}
use choco_c.Driver.Exactly.{WellFormed, compile_iff, CutInto, compile_buffer_iff}
use choco_c.Tests.Inputs.{source, two_lines, table}
use choco_c.Tests.Lexing.{ascii, ascii-EndsWords}
use choco_c.Tests.Parsing.{source-SpellsProgram, two_lines-Readable}
use choco_c.Tests.Generating.{listing, listing-MakesConstants, two_lines-Plain}

two_lines-Declares : Declares initial_entries two_lines table
unfolding get_entry add_entry text_eq get_text
two_lines-Declares = declares {t = integer_type} refl refl (assigns no_more)

two_lines-Accepted : All (Accepted table) two_lines
unfolding type_of get_entry text_eq one_of type_eq ordinal
two_lines-Accepted = (
  (integer_type, integer_type, refl, inr (inr (inl (refl, refl))), same refl),
  (
    inl (
      right_untyped (by_rule (of_literal (inr (inr (inl (refl, refl)))))) (
          arithmetic integer_type integer_type refl
            (by_rule (of_literal (inr (inr (inl (refl, refl))))))
            (by_rule (of_literal (inr (inr (inl (refl, refl))))))),
      ((integer_type, of_variable refl), tt),
    ),
    tt,
  ),
)

compile_iff_example :
    (compile true source [] ≡ generated two_lines table) ↔ WellFormed true source two_lines table
compile_iff_example = compile_iff true source two_lines table (omega arith)

abbrev source_text : Text
source_text = codes "x: int = 1\nx = 1 + 2 * 3\n"

abbrev source_lexer : Lexer
source_lexer = record {
  indentation_levels = 0 ∷ [];
  tokens = source;
  diag_manager = [];
  lexeme_start = 25;
  lexeme_length = 0;
  is_blank_line = false;
}

lex-source : lex source_text ascii [] ≡ Lexer.Lines.ok source_lexer
unfolding lex skip_chars int32_of read_decimal
lex-source = refl

compile_buffer_iff_example : (compile_buffer ascii true source_text ≡ generated two_lines table) ↔ (
    (tokens : List Token) × CutInto ascii source_text tokens
    × WellFormed true tokens two_lines table)
compile_buffer_iff_example =
    compile_buffer_iff ascii true source_text two_lines table ascii-EndsWords (omega arith)

compile_buffer-accepts_example :
    (compile_buffer ascii true source_text ≡ generated two_lines table)
    × ((g : Generator listing) × (generate_program listing two_lines
            (new_generator listing [] table)
          ≡ CodeGenerator.ok tt g)
        × All (AllocatedChild g.symbol_table) two_lines)
compile_buffer-accepts_example =
    compile_buffer-accepts listing [] ascii true source_text source_lexer two_lines table
      listing-MakesConstants ascii-EndsWords (omega arith) lex-source refl source-SpellsProgram
      two_lines-Readable two_lines-Declares two_lines-Accepted two_lines-Plain
