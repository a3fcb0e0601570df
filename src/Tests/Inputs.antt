-- ===== src/Tests/Inputs.antt =====
-- A small program, its tokens as `src/lexer` cuts them.
use choco_c.Prelude.{Bool, ℕ, ◌+◌, List, [], ◌∷◌, ◌++◌, String, codes, length, pos}
use choco_c.TokenType.{
  TokenType, id, colon, assign, int_lit, newline, plus, mult, minus, and, true_kw,
}
use choco_c.Token.{Token, TokenValue, int, bool, str, monostate}
use choco_c.TokenStream.{TokenStream}
use choco_c.Parser.Monad.{State}
use choco_c.Semantic.SemaType.{integer_type}
use choco_c.Semantic.SymbolTable.{SymbolTable, initial_entries, variable, make_variable}
use choco_c.Ast.{
  Expression, literal, identifier, binary, VariableDefinition, AssignmentStatement, Program,
  variable_definition, statement,
}

abbrev token : TokenType → TokenValue → ℕ → String → Token
token k v start t = record {
  value = v;
  type = k;
  location = record { start = start; end = start + length (codes t) };
  text = codes t;
}

-- `x: int = 1`.
abbrev pub x : Token
x = token id (str (codes "x")) 0 "x"

abbrev pub colon_token : Token
colon_token = token colon monostate 1 ":"

abbrev pub int_name : Token
int_name = token id (str (codes "int")) 3 "int"

abbrev pub assign_token : Token
assign_token = token assign monostate 7 "="

abbrev pub one : Token
one = token int_lit (int (pos 1)) 9 "1"

abbrev pub end_1 : Token
end_1 = token newline monostate 10 "\n"

-- `x = 1 + 2 * 3`.
abbrev pub x_again : Token
x_again = token id (str (codes "x")) 11 "x"

abbrev assign_again : Token
assign_again = token assign monostate 13 "="

abbrev pub one_again : Token
one_again = token int_lit (int (pos 1)) 15 "1"

abbrev pub plus_token : Token
plus_token = token plus monostate 17 "+"

abbrev pub two : Token
two = token int_lit (int (pos 2)) 19 "2"

abbrev pub mult_token : Token
mult_token = token mult monostate 21 "*"

abbrev pub three : Token
three = token int_lit (int (pos 3)) 23 "3"

abbrev pub end_2 : Token
end_2 = token newline monostate 24 "\n"

-- Tokens of their own.
abbrev pub minus_token : Token
minus_token = token minus monostate 0 "-"

abbrev pub and_token : Token
and_token = token and monostate 5 "and"

abbrev pub true_token : Token
true_token = token true_kw (bool Bool.true) 0 "True"

abbrev pub sum_tokens : List Token
sum_tokens = one_again ∷ plus_token ∷ two ∷ mult_token ∷ three ∷ []

abbrev pub lines : List Token
lines =
    x ∷ colon_token ∷ int_name ∷ assign_token ∷ one ∷ end_1 ∷ x_again ∷ assign_again ∷ one_again
    ∷ plus_token ∷ two ∷ mult_token ∷ three ∷ []

abbrev pub stream : List Token → TokenStream
stream ts = record { tokens = ts; current_idx = 0 }

-- A parser at the beginning of the tokens, and at their end.
abbrev pub start : List Token → State
start ts = record { token_stream = stream ts; diag_manager = [] }

abbrev pub finish : List Token → State
finish ts = record {
  token_stream = record { tokens = ts; current_idx = length ts };
  diag_manager = [];
}

abbrev pub sum : Expression
sum = binary (literal one_again) plus_token (binary (literal two) mult_token (literal three))

abbrev pub x_definition : VariableDefinition
x_definition = record {
  name = x;
  type = record { base_type = int_name; dimension = 0 };
  value = one;
}

abbrev pub x_assignment : AssignmentStatement
x_assignment = record { targets = identifier x_again ∷ []; expr = sum }

abbrev pub two_lines : Program
two_lines = variable_definition x_definition ∷ statement x_assignment ∷ []

abbrev pub source : List Token
source = lines ++ end_2 ∷ []

-- The table after the two lines.
abbrev pub table : SymbolTable
table = initial_entries ++ (codes "x", variable (make_variable integer_type)) ∷ []
