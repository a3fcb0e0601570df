-- ===== src/Token.antt =====
-- `include/lexer/Token.h`: tokens and their classification.
use choco_c.Prelude.{
  ℕ, Bool, true, false, ◌&&◌, ◌||◌, List, [], ◌∷◌, ◌==◌, Option, none, some, Text, text_eq, ℤ, pos,
  negsuc,
}
use choco_c.TokenType.{
  TokenType, type_eq, plus, minus, mult, div, modulo, equal, nequal, less, great, less_eq, great_eq,
  is, and, or, none_kw, false_kw, true_kw, int_lit, id_string, string, not_kw, id,
}

-- `TokenValue`: `std::variant<std::monostate, bool, std::int32_t, std::string>`.
pub data TokenValue : Type 0 where
  monostate : TokenValue
  bool : Bool → TokenValue
  int : ℤ → TokenValue
  str : Text → TokenValue

-- `llvm::SMRange`: two offsets into the buffer.
pub record Range : Type 0 where
  pub start : ℕ
  pub end : ℕ

-- The class `Token`; `text` is the slice of the buffer at `location`.
pub record Token : Type 0 where
  pub value : TokenValue
  pub type : TokenType
  pub location : Range
  pub text : Text

-- Whether a type is one of several: `((type == types) || ...)`.
unfoldable pub one_of : TokenType → List TokenType → Bool
one_of t [] = false
one_of t (u ∷ us) = type_eq t u || one_of t us

-- The assertions of the constructor: the alternative of the value that a type carries.
unfoldable pub has_value_of : TokenType → TokenValue → Bool
has_value_of true_kw (bool b) = true
has_value_of true_kw _ = false
has_value_of false_kw (bool b) = true
has_value_of false_kw _ = false
has_value_of string (str s) = true
has_value_of string _ = false
has_value_of id_string (str s) = true
has_value_of id_string _ = false
has_value_of id (str s) = true
has_value_of id _ = false
has_value_of int_lit (int n) = true
has_value_of int_lit _ = false
has_value_of _ monostate = true
has_value_of _ _ = false

unfoldable pub is_literal : Token → Bool
unfolding one_of type_eq
is_literal t = one_of t.type (none_kw ∷ false_kw ∷ true_kw ∷ int_lit ∷ id_string ∷ string ∷ [])

unfoldable pub is_bin_op : Token → Bool
unfolding one_of type_eq
is_bin_op t = one_of t.type (
    plus ∷ minus ∷ mult ∷ div ∷ modulo ∷ equal ∷ nequal ∷ less_eq ∷ great_eq ∷ less ∷ great ∷ is
    ∷ and ∷ or ∷ [])

unfoldable pub is_unary_op : Token → Bool
unfolding one_of type_eq
is_unary_op t = one_of t.type (minus ∷ not_kw ∷ [])

unfoldable pub is_identifier : Token → Bool
unfolding type_eq
is_identifier t = type_eq t.type id

-- `operator==(const Token&)` compares the value and the type.
value_eq : TokenValue → TokenValue → Bool
value_eq monostate monostate = true
value_eq (bool true) (bool b) = b
value_eq (bool false) (bool true) = false
value_eq (bool false) (bool false) = true
value_eq (int (pos m)) (int (pos n)) = m == n
value_eq (int (negsuc m)) (int (negsuc n)) = m == n
value_eq (str s) (str t) = text_eq s t
value_eq _ _ = false

unfoldable pub token_eq : Token → Token → Bool
unfolding value_eq text_eq type_eq
token_eq t u = value_eq t.value u.value && type_eq t.type u.type

-- `operator==(std::optional<Token>, TokenType)`.
unfoldable pub opt_type_eq : Option Token → TokenType → Bool
unfolding type_eq
opt_type_eq none u = false
opt_type_eq (some t) u = type_eq t.type u
