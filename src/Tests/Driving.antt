-- ===== src/Tests/Driving.antt =====
-- `src/chocopc.cpp` at a concrete input.
use choco_c.Prelude.{◌≢◌, true, false, Text, codes, ◌≡◌, refl, [], arith, text_eq}
use choco_c.TokenStream.{peek, index_at, advance}
use choco_c.Token.{one_of, is_bin_op, opt_type_eq}
use choco_c.TokenType.{type_eq, ordinal}
use choco_c.Parser.Monad.{matches, expect, step}
use choco_c.Parser.Power.{get_prefix_power, get_infix_power}
use choco_c.Parser.Expressions.{
  parse_expression, expression_loop, parse_prefix, combine, close_grouping, close_unary,
}
use choco_c.Parser.Statements.{
  parse_type, parse_typed_variable, parse_literal, parse_variable_definition, parse_target,
  name_before, targets_loop, parse_assignment_statement, parse_simple_statement, parse_statement,
  definitions_loop, statements_loop, parse_program, parse,
}
use choco_c.Diagnostics.{had_error}
use choco_c.Ast.{is_constant_expression, get_text, walk, get_literal_type}
use choco_c.Semantic.SemaType.{same_type, is_assignment_compatible}
use choco_c.Semantic.SymbolTable.{get_entry, add_entry, type_of}
use choco_c.Semantic.SymbolTableBuilder.{enter, visit_definition, visit_child, walk_all, build}
use choco_c.Semantic.TypeChecker.{
  visit_expression, visit_literal, visit_identifier, check_operands, check_operator,
  check_definition, check_targets, check_assignment, check_child, check_program,
}
use choco_c.Lexer.Characters.{int32_of, read_decimal}
use choco_c.Lexer.Scanner.{skip_chars}
use choco_c.Lexer.Lex.{lex}
use choco_c.PrettyPrinter.{print_program}
use choco_c.Tests.Lexing.{ascii, ascii-EndsWords}
use choco_c.Driver.Ends.{compile_buffer-ends}
use choco_c.Driver.{
  exhausted, pretty_print, after_printer, after_lexer, compile_buffer, compile, after_parser,
  after_builder, after_checker, generated,
}
use choco_c.Driver.Generated.{FromBuffer, compile_buffer-FromBuffer}
use choco_c.Tests.Inputs.{source, two_lines, table}

-- The two lines reach the code generator.
pub compile-source : compile false source [] ≡ generated two_lines table
unfolding parse parse_program definitions_loop statements_loop parse_statement
    parse_simple_statement parse_assignment_statement targets_loop name_before parse_target
    parse_variable_definition parse_literal parse_typed_variable parse_type parse_expression
    expression_loop parse_prefix combine close_grouping close_unary matches expect step peek
    index_at advance one_of type_eq ordinal is_bin_op opt_type_eq get_prefix_power get_infix_power
    is_constant_expression compile after_parser after_builder after_checker had_error get_text walk
    get_literal_type same_type is_assignment_compatible get_entry add_entry type_of enter
    visit_definition visit_child walk_all build visit_expression visit_literal visit_identifier
    check_operands check_operator check_definition check_targets check_assignment check_child
    check_program text_eq
compile-source = refl

-- The same lines as text.
abbrev source_text : Text
source_text = codes "x: int = 1\nx = 1 + 2 * 3\n"

compile_buffer-source : compile_buffer ascii true source_text ≡ generated two_lines table
unfolding parse parse_program definitions_loop statements_loop parse_statement
    parse_simple_statement parse_assignment_statement targets_loop name_before parse_target
    parse_variable_definition parse_literal parse_typed_variable parse_type parse_expression
    expression_loop parse_prefix combine close_grouping close_unary matches expect step peek
    index_at advance one_of type_eq ordinal is_bin_op opt_type_eq get_prefix_power get_infix_power
    is_constant_expression compile after_parser after_builder after_checker had_error get_text walk
    get_literal_type same_type is_assignment_compatible get_entry add_entry type_of enter
    visit_definition visit_child walk_all build visit_expression visit_literal visit_identifier
    check_operands check_operator check_definition check_targets check_assignment check_child
    check_program text_eq compile_buffer after_lexer lex skip_chars int32_of read_decimal
    pretty_print after_printer print_program
compile_buffer-source = refl

compile_buffer-FromBuffer_example : FromBuffer ascii source_text two_lines table
compile_buffer-FromBuffer_example =
    compile_buffer-FromBuffer ascii true source_text two_lines table ascii-EndsWords (omega arith)
      compile_buffer-source

compile_buffer-ends_example : compile_buffer ascii true source_text ≢ exhausted
compile_buffer-ends_example =
    compile_buffer-ends ascii true source_text ascii-EndsWords (omega arith)
