-- ===== src/Tests/Printing.antt =====
-- `src/ast/PrettyPrinter.cpp` at concrete inputs.
use choco_c.Prelude.{◌≡◌, ◌↔◌, refl, [], codes, some, arith, All}
use choco_c.Token.{str}
use choco_c.PrettyPrinter.{escape, print_chars, print_value, print_program}
use choco_c.PrettyPrinter.Printable.{PrintableChild, Defined, print_program_iff}
use choco_c.PrettyPrinter.ReadBack.{IsReadAs, lex-print_value}
use choco_c.Lexer.Lex.{lex}
use choco_c.Tests.Inputs.{two_lines}
use choco_c.Tests.Lexing.{ascii, ascii-IsAscii}

two_lines_printed : print_program two_lines [] ≡ some (codes "x: int = 1\nx = (1 + (2 * 3))\n")
unfolding print_program
two_lines_printed = refl

print_program_iff_example : All PrintableChild two_lines ↔ Defined (print_program two_lines [])
print_program_iff_example = print_program_iff two_lines []

lex-print_value_example :
    IsReadAs
      (print_value (str (codes "a\t\"")) [])
      []
      (str (codes "a\t\""))
      (lex (print_value (str (codes "a\t\"")) []) ascii [])
unfolding print_value print_chars escape
lex-print_value_example =
    lex-print_value ascii [] (str (codes "a\t\"")) ascii-IsAscii
      ((refl, refl), ((refl, refl), ((refl, refl), tt))) (omega arith)
