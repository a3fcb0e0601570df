-- ===== src/Tests/Scanning.antt =====
-- `src/lexer/Lexer.cpp` at concrete inputs.
use choco_c.Prelude.{◌≡◌, refl, [], ◌∷◌, ◌++◌, Text, codes, true, false, arith}
use choco_c.Lexer.Scanner.{Lexer, peek_char, advance_char, matches_char, is_among, skip_chars}
use choco_c.Lexer.Lines.{ok, handle_new_line, handle_indentation, handle_level, dedent_loop}
use choco_c.Lexer.Stack.{IsStack, Balanced}
use choco_c.Lexer.Balance.{handle_indentation-Balanced}
use choco_c.Lexer.Cuts.{position}
use choco_c.Lexer.NewLine.{NextLine, line_end, handle_new_line_lem}

abbrev indented : Text
indented = codes "a\n  b\n  c\n"

-- After the first line's end has been read, and after the second one's.
abbrev first_end : Lexer
first_end = record {
  indentation_levels = 0 ∷ [];
  tokens = [];
  diag_manager = [];
  lexeme_start = 1;
  lexeme_length = 1;
  is_blank_line = false;
}

abbrev second_end : Lexer
second_end = record {
  indentation_levels = 2 ∷ 0 ∷ [];
  tokens = [];
  diag_manager = [];
  lexeme_start = 6;
  lexeme_length = 0;
  is_blank_line = true;
}

-- A line indented like the one before it leaves its white space in the lexeme.
same_level :
    handle_indentation indented second_end
    ≡ ok (record second_end { lexeme_length = 2; is_blank_line = false })
unfolding handle_indentation handle_level dedent_loop skip_chars matches_char advance_char peek_char
    is_among
same_level = refl

handle_indentation-Balanced_example :
    (lx' : Lexer) × (handle_indentation indented second_end ≡ ok lx')
    × IsStack lx'.indentation_levels
    × Balanced second_end lx'
handle_indentation-Balanced_example =
    handle_indentation-Balanced indented second_end (omega arith) (omega arith) (omega arith, refl)

handle_new_line_lem_example :
    (lx' : Lexer) × (handle_new_line indented first_end ≡ ok lx')
    × NextLine indented
        (position first_end)
        first_end.indentation_levels
        (first_end.tokens ++ line_end indented first_end)
        lx'
handle_new_line_lem_example =
    handle_new_line_lem indented first_end (omega arith) (omega arith) refl
