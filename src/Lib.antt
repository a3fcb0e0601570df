-- ===== src/Lib.antt =====
-- The ChocoPy compiler: lexer, parser, printer, symbol table, type checker and code generator.
--
-- The driver, `src/chocopc.cpp`, runs the lexer over a file, the parser over the tokens, then the
-- symbol table builder and the type checker over the syntax tree, and the code generator last. All
-- parts report to one diagnostics manager. The modules follow the parts:
--
--   * TokenType, Token: `include/lexer/TokenType.h`, `include/lexer/Token.h`. The text of a token is the
--     list of its bytes, its location a pair of offsets.
--   * TokenStream: `include/TokenStream.h`, `src/TokenStream.cpp`. The tokens and the current index,
--     which wraps around at 2^64 as `std::size_t` does. Laws states the operations by the tokens that
--     are not read yet.
--   * Diagnostics: `include/diagnostics`, `src/diagnostics`. A diagnostic is what a `DiagnosticBuilder`
--     collects; the manager is the list of those emitted. `llvm::formatv` is a parameter.
--   * Ast: the node classes of `include/ast` as data, and the default visits of
--     `src/ast/ASTVisitor.cpp`. The one pointer that can be null, the expression of a grouping, is a
--     constructor of its own. Ast.Asserts has the assertions of the constructors, Ast.Nodes the kinds of
--     nodes and `classof`.
--   * Lexer: `include/lexer/Lexer.h`, `src/lexer/Lexer.cpp`. Lexer.Scanner has the state and the steps over
--     the buffer, Lexer.Lines white space, line ends and indentation, Lexer.Words comments, numbers and
--     names, Lexer.Strings the strings, and Lexer.Lex the main loop. The pointers are offsets into the
--     buffer, and the stack of levels is a list with the top at its head. The dereference of an empty
--     optional and the top of an empty stack are an outcome. Lexer.Characters has the character tests and
--     `to_integer` of `llvm/ADT/StringExtras.h` as parameters; the theorems on `lex` ask of them that a zero
--     byte is no digit and no letter (EndsWords), those on printed literals that they are as documented
--     (IsAscii). Lexer.Cuts states what a method may do to the
--     state, and the modules behind it that each method does that.
--   * PrettyPrinter: `include/ast/PrettyPrinter.h`, `src/ast/PrettyPrinter.cpp`. A function for each visit, from
--     the text printed so far to the text after it; `print_expression` is the visits of the expressions.
--   * Parser: `include/parser/Parser.h`, `src/parser/Parser.cpp`. Parser.Monad has the state, a token
--     stream and the diagnostics, and the outcomes: a node, a null pointer, the dereference of an empty
--     optional, and fuel that ran out. Parser.Power, Parser.Expressions and Parser.Statements have a
--     function for each method (`parseType` is `parse_type`, and so on), and the while loops are
--     functions that end in `_loop`. Parser.Grammar and Parser.ProgramGrammar state the language with
--     no parser; Fails is what stands in the parentheses of a grouping with a null pointer. The modules whose names end in Sound show that what is read is of the language, those in
--     Complete that what is of the language is read, and Parser.Correct and Parser.Complete say both of `parse`.
--   * Semantic: `include/semantic`, `src/semantic`. Semantic.SemaType has the types and
--     `isAssignmentCompatible`, Semantic.SymbolTable the table and the type environment,
--     Semantic.SymbolTableBuilder and Semantic.TypeChecker the two passes, and Semantic.Accepts states with
--     neither which programs go through them. An outcome of the checker is
--     a value with the diagnostics, a failed `std::any_cast`, or undefined behaviour, which is a failed
--     assertion, `std::unreachable`, or the dereference of a null pointer. `llvm::StringMap` is an
--     association list.
--   * CodeGenerator: `include/ir/LLVM.h`, `src/ir/LLVM.cpp`. CodeGenerator has the calls of LLVM as a parameter, the state
--     of `IRGen` and the outcomes, CodeGenerator.Visits a function for each visit, named `generate_` for
--     `visit`. The symbol table keeps the allocations. Generates and Programs state where the generator ends
--     normally, Rejects what it has no code for. The one property asked of LLVM is that its integers and its
--     global strings are constants.
--   * Driver: the passes of `src/chocopc.cpp` over one file, from the buffer (`compile_buffer`) or from the tokens
--     (`compile`) up to the call of the code generator.
--     Driver.InOrder and Driver.Reaches go on to what the code generator makes of the program, and
--     Driver.Accepts shows that what is a program to the grammar and the typing rules gets there, and
--     Driver.Exactly, with Parser.Headed, Semantic.Declared and Semantic.Silent, that nothing else does.
--   * Tests: runs at concrete inputs.
--
-- Fuel. A call of the expression parser uses up fuel by one for each nested call and each turn of its
-- loop; each of those reads a token, or is the only one between two that do, so `parse` is given
-- 2 * n + 4 units for n tokens. `isAssignmentCompatible` calls itself only at `<None>`, so its fuel is 3.
-- A loop of the lexer gets a unit for each byte of the buffer and two more, since each turn reads one.
-- A number is printed with a unit of fuel more than its value, and each digit divides it by ten.
--
-- Not modelled: the command line and the files of the driver. The methods `accept` are
-- dispatch, which functions by clauses replace. Printing the diagnostics is output.
pub mod Prelude
pub mod TokenType
pub mod Token
pub mod TokenStream
pub mod Diagnostics
pub mod Ast
pub mod Lexer
pub mod PrettyPrinter
pub mod Parser
pub mod Semantic
pub mod CodeGenerator
pub mod Driver
mod Tests
