-- ===== src/Tests/Lexing.antt =====
-- `Lexer::lex` of `src/lexer/Lexer.cpp` at concrete inputs, with the character functions of ASCII.
use choco_c.Prelude.{
  ℕ, take, ◌+◌, ◌*◌, ◌≤◌, ◌≡◌, refl, ◌||◌, List, [], ◌∷◌, Text, codes, length, arith, pos, All,
}
use choco_c.TokenType.{
  TokenType, int_lit, id, string, indent, dedent, newline, assign, colon, if_kw,
}
use choco_c.Token.{Token, TokenValue, monostate, int, str}
use choco_c.Lexer.Characters.{
  Characters, EndsWords, IsAscii, is_letter, is_decimal, read_decimal, int32_of,
}
use choco_c.Lexer.Scanner.{Lexer, skip_chars}
use choco_c.Lexer.Lines.{Outcome, ok, undefined, out_of_fuel}
use choco_c.Lexer.Lex.{lex}
use choco_c.Lexer.Stack.{count}
use choco_c.Lexer.Cuts.{Ordered, IsCut, IsBroad}
use choco_c.Lexer.Few.{lex-length}
use choco_c.Lexer.Lexed.{lex-Ordered, lex-dedents}

abbrev pub ascii : Characters
ascii = record {
  is_alpha = is_letter;
  is_digit = is_decimal;
  is_alnum = λ c. is_letter c || is_decimal c;
  to_integer = λ s. int32_of (read_decimal 0 s);
}

pub ascii-EndsWords : EndsWords ascii
ascii-EndsWords = record { no_digit = refl; no_alnum = refl }

pub ascii-IsAscii : IsAscii ascii
ascii-IsAscii = record {
  alpha = λ c. refl;
  digit = λ c. refl;
  alnum = λ c. refl;
  reads = λ c s h. refl;
}

-- The types, values and texts of the tokens.
abbrev listed : List Token → List (TokenType × TokenValue × Text)
listed [] = []
listed (t ∷ ts) = (t.type, t.value, t.text) ∷ listed ts

abbrev lexed : Outcome → List (TokenType × TokenValue × Text)
lexed (ok lx) = listed lx.tokens
lexed undefined = []
lexed out_of_fuel = []

abbrev strings : Text
strings = codes "x = 12\ns = \"a\\n\" # b"

strings_tokens :
    lexed (lex strings ascii [])
    ≡ (id, str (codes "x"), codes "x")
      ∷ (assign, monostate, codes "=")
      ∷ (int_lit, int (pos 12), codes "12")
      ∷ (newline, monostate, codes "\n")
      ∷ (id, str (codes "s"), codes "s")
      ∷ (assign, monostate, codes "=")
      ∷ (string, str (codes "a\n"), codes "\"a\\n\"")
      ∷ []
unfolding lex skip_chars int32_of read_decimal
strings_tokens = refl

abbrev blocks : Text
blocks = codes "if a:\n  b\n  c"

-- The white space of the last line stands in its first token.
blocks_tokens :
    lexed (lex blocks ascii [])
    ≡ (if_kw, monostate, codes "if")
      ∷ (id, str (codes "a"), codes "a")
      ∷ (colon, monostate, codes ":")
      ∷ (newline, monostate, codes "\n")
      ∷ (indent, monostate, codes "  ")
      ∷ (id, str (codes "b"), codes "b")
      ∷ (newline, monostate, codes "\n")
      ∷ (id, str (codes "  c"), codes "  c")
      ∷ (dedent, monostate, [])
      ∷ []
unfolding lex skip_chars int32_of read_decimal
blocks_tokens = refl

lex-Ordered_example :
    (lx : Lexer) × (lex blocks ascii [] ≡ ok lx)
    × Ordered 0 lx.tokens (length blocks + 1)
    × All (IsCut blocks) lx.tokens
lex-Ordered_example = lex-Ordered blocks ascii [] ascii-EndsWords (omega arith)

lex-dedents_example :
    (lx : Lexer) × (lex blocks ascii [] ≡ ok lx)
    × (lx.indentation_levels ≡ 0 ∷ [])
    × (count dedent lx.tokens ≡ count indent lx.tokens)
    × ((n : ℕ) → count dedent (take n lx.tokens) ≤ count indent (take n lx.tokens))
lex-dedents_example = lex-dedents blocks ascii [] ascii-EndsWords (omega arith)

lex-length_example :
    (lx : Lexer) × (lex blocks ascii [] ≡ ok lx)
    × All IsBroad lx.tokens
    × (length lx.tokens ≤ 2 * (length blocks + 1))
lex-length_example = lex-length blocks ascii [] ascii-EndsWords (omega arith)
