-- ===== src/Parser/Power.antt =====
-- `getPrefixPower` and `getInfixPower` of `src/parser/Parser.cpp`: the binding powers.
use choco_c.Prelude.{ℕ, ◌≡◌, refl, Bool, true, false, Option, none, some}
use choco_c.Token.{Token, is_bin_op}
use choco_c.TokenType.{
  TokenType, plus, minus, mult, div, modulo, equal, nequal, less, great, less_eq, great_eq, is, and,
  or, not_kw, invalid,
}

-- The left and the right power of an operator, if it is one.
abbrev pub BindingPower : Type 0
BindingPower = Option (ℕ × ℕ)

unfoldable pub get_prefix_power : TokenType → BindingPower
get_prefix_power not_kw = some (40, 40)
get_prefix_power minus = some (80, 80)
get_prefix_power _ = none

unfoldable pub get_infix_power : TokenType → BindingPower
get_infix_power or = some (20, 21)
get_infix_power and = some (30, 31)
get_infix_power equal = some (50, 50)
get_infix_power nequal = some (50, 50)
get_infix_power less = some (50, 50)
get_infix_power great = some (50, 50)
get_infix_power less_eq = some (50, 50)
get_infix_power great_eq = some (50, 50)
get_infix_power is = some (50, 50)
get_infix_power plus = some (60, 61)
get_infix_power minus = some (60, 61)
get_infix_power mult = some (70, 71)
get_infix_power div = some (70, 71)
get_infix_power modulo = some (70, 71)
get_infix_power _ = none

abbrev pub is_some : BindingPower → Bool
is_some none = false
is_some (some p) = true

bin_op_powers :
    (ty : TokenType) (t : Token) → t.type ≡ ty → is_bin_op t ≡ is_some (get_infix_power ty)
unfolding is_bin_op get_infix_power
bin_op_powers invalid t e = rw e
bin_op_powers _ t e = rw e

-- `Token::isBinOp` and `getInfixPower` name the same operators.
pub is_bin_op-get_infix_power : (t : Token) → is_bin_op t ≡ is_some (get_infix_power t.type)
is_bin_op-get_infix_power t = bin_op_powers t.type t refl
