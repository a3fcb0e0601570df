-- ===== src/Lexer/Characters.antt =====
-- What `src/lexer/Lexer.cpp` takes from `llvm/ADT/StringExtras.h`.
use choco_c.Prelude.{
  ℕ, ◌+◌, ◌-◌, ◌*◌, ◌≡◌, Bool, true, false, ◌&&◌, ◌||◌, [], ◌∷◌, Option, none, some, Text, ltb, leb,
  All, ℤ, pos, if◌then◌else◌,
}

-- `isAlpha`, `isDigit`, `isAlnum`, and `to_integer` at base 10 into a `std::int32_t`, which has no value
-- where it answers false.
pub record Characters : Type 0 where
  pub is_alpha : ℕ → Bool
  pub is_digit : ℕ → Bool
  pub is_alnum : ℕ → Bool
  pub to_integer : Text → Option ℤ

-- The zero that ends a buffer is neither a digit nor a letter.
pub record EndsWords (cs : Characters) : Type 0 where
  pub no_digit : cs.is_digit 0 ≡ false
  pub no_alnum : cs.is_alnum 0 ≡ false

-- Between two characters, both included.
abbrev pub in_range : ℕ → ℕ → ℕ → Bool
in_range a b c = leb a c && leb c b

abbrev pub is_letter : ℕ → Bool
is_letter c = in_range b'a' b'z' c || in_range b'A' b'Z' c

abbrev pub is_decimal : ℕ → Bool
is_decimal c = in_range b'0' b'9' c

-- The number that decimal digits write, after the one read so far.
unfoldable pub read_decimal : ℕ → Text → Option ℕ
read_decimal n [] = some n
read_decimal n (c ∷ cs) =
    let rest = read_decimal (10 * n + (c - b'0')) cs in if is_decimal c then rest else none

-- The value of a number as a `std::int32_t`, where it fits.
unfoldable pub int32_of : Option ℕ → Option ℤ
int32_of none = none
int32_of (some n) = if ltb n 2147483648 then some (pos n) else none

-- The documented behaviour: letters and digits are those of ASCII, and decimal digits are read as the number
-- that they write, where it fits.
pub record IsAscii (cs : Characters) : Type 0 where
  pub alpha : (c : ℕ) → cs.is_alpha c ≡ is_letter c
  pub digit : (c : ℕ) → cs.is_digit c ≡ is_decimal c
  pub alnum : (c : ℕ) → cs.is_alnum c ≡ (is_letter c || is_decimal c)
  pub reads :
      (c : ℕ) (s : Text)
      → All (λ d. is_decimal d ≡ true) (c ∷ s)
      → cs.to_integer (c ∷ s) ≡ int32_of (read_decimal 0 (c ∷ s))
