-- ===== src/TokenType.antt =====
-- `include/lexer/TokenType.h`: the token types, their names and the keyword table.
use choco_c.Prelude.{
  Option, none, some, text_eq, if◌then◌else◌, ℕ, ◌≡◌, refl, sym, ap, ◌∙◌, ◌↔◌, Bool, true, List, [],
  ◌∷◌, ◌==◌, ==_iff, get_or, Text, codes,
}

-- The enumerators in their order; those that are keywords are spelled with `_kw` where the plain
-- word is taken.
pub data TokenType : Type 0 where
  invalid and as_kw assert async await break class continue def del elif else_kw except : TokenType
  false_kw finally for from global if_kw import in_kw is lambda none_kw nonlocal not_kw or pass :
      TokenType
  raise return true_kw try while with yield plus minus mult div modulo equal nequal less great :
      TokenType
  less_eq great_eq dot open_brack close_brack assign comma colon open_paren close_paren rarrow :
      TokenType
  int_lit string id_string newline indent dedent id : TokenType

-- `TOKEN_TYPES`: the enumerators, listed.
abbrev pub token_types : List TokenType
token_types =
    invalid ∷ and ∷ as_kw ∷ assert ∷ async ∷ await ∷ break ∷ class ∷ continue ∷ def ∷ del ∷ elif
    ∷ else_kw ∷ except ∷ false_kw ∷ finally ∷ for ∷ from ∷ global ∷ if_kw ∷ import ∷ in_kw ∷ is
    ∷ lambda ∷ none_kw ∷ nonlocal ∷ not_kw ∷ or ∷ pass ∷ raise ∷ return ∷ true_kw ∷ try ∷ while
    ∷ with ∷ yield ∷ plus ∷ minus ∷ mult ∷ div ∷ modulo ∷ equal ∷ nequal ∷ less ∷ great ∷ less_eq
    ∷ great_eq ∷ dot ∷ open_brack ∷ close_brack ∷ assign ∷ comma ∷ colon ∷ open_paren ∷ close_paren
    ∷ rarrow ∷ int_lit ∷ string ∷ id_string ∷ newline ∷ indent ∷ dedent ∷ id ∷ []

-- The value of an enumerator: its place in the enumeration.
unfoldable pub ordinal : TokenType → ℕ
ordinal invalid = 0
ordinal and = 1
ordinal as_kw = 2
ordinal assert = 3
ordinal async = 4
ordinal await = 5
ordinal break = 6
ordinal class = 7
ordinal continue = 8
ordinal def = 9
ordinal del = 10
ordinal elif = 11
ordinal else_kw = 12
ordinal except = 13
ordinal false_kw = 14
ordinal finally = 15
ordinal for = 16
ordinal from = 17
ordinal global = 18
ordinal if_kw = 19
ordinal import = 20
ordinal in_kw = 21
ordinal is = 22
ordinal lambda = 23
ordinal none_kw = 24
ordinal nonlocal = 25
ordinal not_kw = 26
ordinal or = 27
ordinal pass = 28
ordinal raise = 29
ordinal return = 30
ordinal true_kw = 31
ordinal try = 32
ordinal while = 33
ordinal with = 34
ordinal yield = 35
ordinal plus = 36
ordinal minus = 37
ordinal mult = 38
ordinal div = 39
ordinal modulo = 40
ordinal equal = 41
ordinal nequal = 42
ordinal less = 43
ordinal great = 44
ordinal less_eq = 45
ordinal great_eq = 46
ordinal dot = 47
ordinal open_brack = 48
ordinal close_brack = 49
ordinal assign = 50
ordinal comma = 51
ordinal colon = 52
ordinal open_paren = 53
ordinal close_paren = 54
ordinal rarrow = 55
ordinal int_lit = 56
ordinal string = 57
ordinal id_string = 58
ordinal newline = 59
ordinal indent = 60
ordinal dedent = 61
ordinal id = 62

-- `toString`: the enumerator's name.
unfoldable pub to_string : TokenType → Text
to_string invalid = codes "INVALID"
to_string and = codes "AND"
to_string as_kw = codes "AS"
to_string assert = codes "ASSERT"
to_string async = codes "ASYNC"
to_string await = codes "AWAIT"
to_string break = codes "BREAK"
to_string class = codes "CLASS"
to_string continue = codes "CONTINUE"
to_string def = codes "DEF"
to_string del = codes "DEL"
to_string elif = codes "ELIF"
to_string else_kw = codes "ELSE"
to_string except = codes "EXCEPT"
to_string false_kw = codes "FALSE"
to_string finally = codes "FINALLY"
to_string for = codes "FOR"
to_string from = codes "FROM"
to_string global = codes "GLOBAL"
to_string if_kw = codes "IF"
to_string import = codes "IMPORT"
to_string in_kw = codes "IN"
to_string is = codes "IS"
to_string lambda = codes "LAMBDA"
to_string none_kw = codes "NONE"
to_string nonlocal = codes "NONLOCAL"
to_string not_kw = codes "NOT"
to_string or = codes "OR"
to_string pass = codes "PASS"
to_string raise = codes "RAISE"
to_string return = codes "RETURN"
to_string true_kw = codes "TRUE"
to_string try = codes "TRY"
to_string while = codes "WHILE"
to_string with = codes "WITH"
to_string yield = codes "YIELD"
to_string plus = codes "PLUS"
to_string minus = codes "MINUS"
to_string mult = codes "MULT"
to_string div = codes "DIV"
to_string modulo = codes "MOD"
to_string equal = codes "EQUAL"
to_string nequal = codes "NEQUAL"
to_string less = codes "LESS"
to_string great = codes "GREAT"
to_string less_eq = codes "LESSEQ"
to_string great_eq = codes "GREATEQ"
to_string dot = codes "DOT"
to_string open_brack = codes "OPENBRACK"
to_string close_brack = codes "CLOSEBRACK"
to_string assign = codes "ASSIGN"
to_string comma = codes "COMMA"
to_string colon = codes "COLON"
to_string open_paren = codes "OPENPAREN"
to_string close_paren = codes "CLOSEPAREN"
to_string rarrow = codes "RARROW"
to_string int_lit = codes "INTLIT"
to_string string = codes "STRING"
to_string id_string = codes "IDSTRING"
to_string newline = codes "NEWLINE"
to_string indent = codes "INDENT"
to_string dedent = codes "DEDENT"
to_string id = codes "ID"

-- `==` on the enumeration compares the values of the enumerators.
unfoldable pub type_eq : TokenType → TokenType → Bool
unfolding ordinal
type_eq t u = ordinal t == ordinal u

-- `keywords`: the table from a keyword's text to its token type.
abbrev pub keywords : List (Text × TokenType)
keywords =
    (codes "and", and)
    ∷ (codes "as", as_kw)
    ∷ (codes "assert", assert)
    ∷ (codes "async", async)
    ∷ (codes "await", await)
    ∷ (codes "break", break)
    ∷ (codes "class", class)
    ∷ (codes "continue", continue)
    ∷ (codes "def", def)
    ∷ (codes "del", del)
    ∷ (codes "elif", elif)
    ∷ (codes "else", else_kw)
    ∷ (codes "except", except)
    ∷ (codes "False", false_kw)
    ∷ (codes "finally", finally)
    ∷ (codes "for", for)
    ∷ (codes "from", from)
    ∷ (codes "global", global)
    ∷ (codes "if", if_kw)
    ∷ (codes "import", import)
    ∷ (codes "in", in_kw)
    ∷ (codes "is", is)
    ∷ (codes "lambda", lambda)
    ∷ (codes "None", none_kw)
    ∷ (codes "nonlocal", nonlocal)
    ∷ (codes "not", not_kw)
    ∷ (codes "or", or)
    ∷ (codes "pass", pass)
    ∷ (codes "raise", raise)
    ∷ (codes "return", return)
    ∷ (codes "True", true_kw)
    ∷ (codes "try", try)
    ∷ (codes "while", while)
    ∷ (codes "with", with)
    ∷ (codes "yield", yield)
    ∷ []

-- `keywords.contains(k)` and `keywords.at(k)` in one: the type of a keyword, if the text is one.
unfoldable pub lookup : Text → List (Text × TokenType) → Option TokenType
unfolding text_eq
lookup k [] = none
lookup k ((j, v) ∷ m) = if text_eq j k then some v else lookup k m

-- The enumerator at a place: the inverse of `ordinal`.
get_elem?-ordinal : (t : TokenType) → get_or token_types (ordinal t) invalid ≡ t
unfolding ordinal
get_elem?-ordinal invalid = refl
get_elem?-ordinal _ = refl

pub type_eq_iff : (t u : TokenType) → (type_eq t u ≡ true) ↔ (t ≡ u)
unfolding type_eq
type_eq_iff t u = (
  λ h.
      sym (get_elem?-ordinal t)
      ∙ ap (λ n. get_or token_types n invalid) ((==_iff (ordinal t) (ordinal u)).0 h)
      ∙ get_elem?-ordinal u,
  λ e. (==_iff (ordinal t) (ordinal u)).1 (ap ordinal e),
)
