-- ===== src/PrettyPrinter/Digits.antt =====
-- The decimal digits that `src/ast/PrettyPrinter.cpp` prints of a number.
use choco_c.Prelude.{
  ℕ, zero, suc, ◌+◌, ◌-◌, ◌*◌, ◌/◌, ◌%◌, ◌<◌, ◌≡◌, refl, ap, ◌∙◌, inl, inr, true, false, [], ◌∷◌,
  ◌++◌, some, Text, arith, length, length-append, Bool-cases, ltb, All, All-append,
}
use choco_c.Lexer.Characters.{is_decimal, read_decimal}
use choco_c.Lexer.Words.{starts_with}
use choco_c.PrettyPrinter.{digits}

-- A text of decimal digits alone.
abbrev pub IsNumber : Text → Type 0
IsNumber s = All (λ c. is_decimal c ≡ true) s

digit_lem : (d : ℕ) → d < 10 → is_decimal (b'0' + d) ≡ true
digit_lem d h = ground arith

pub digits-IsNumber : (f n : ℕ) → IsNumber (digits f n)
unfolding digits
digits-IsNumber zero n = tt
digits-IsNumber (suc f) n = elim (Bool-cases (ltb n 10)) [
  | inl e ↦ rw e (digit_lem n (ground arith), tt)
  | inr e ↦ rw e (
      All-append (λ c. is_decimal c ≡ true) (digits f (n / 10)) ((b'0' + n % 10) ∷ [])
        (digits-IsNumber f (n / 10)) (digit_lem (n % 10) (omega arith), tt))
]

-- The last digit is read behind those before it.
read_last :
    (a m c : ℕ) (s : Text)
    → read_decimal a s ≡ some m
    → is_decimal c ≡ true
    → read_decimal a (s ++ c ∷ []) ≡ some (10 * m + (c - b'0'))
unfolding read_decimal
read_last a m c [] e h = ground arith
read_last a m c (d ∷ s) e h = elim (Bool-cases (is_decimal d)) [
  | inl i ↦ rw i (read_last (10 * a + (d - b'0')) m c s (rw (read_decimal, i) at e) h)
  | inr i ↦ absurd (ground arith)
]

pub read_decimal-digits : (f n : ℕ) → n < f → read_decimal 0 (digits f n) ≡ some n
unfolding digits read_decimal
read_decimal-digits zero n h = absurd (omega arith)
read_decimal-digits (suc f) n h = elim (Bool-cases (ltb n 10)) [
  | inl e ↦
      let same : 10 * 0 + (b'0' + n - b'0') ≡ n = omega arith in
      rw (e, digit_lem n (ground arith)) (ap some same)
  | inr e ↦
      let all : 10 * (n / 10) + (b'0' + n % 10 - b'0') ≡ n = omega arith in
      rw e (
        read_last 0 (n / 10) (b'0' + n % 10) (digits f (n / 10))
          (read_decimal-digits f (n / 10) (ground arith)) (digit_lem (n % 10) (omega arith))
        ∙ ap some all)
]

starts-append : (s t : Text) (c : ℕ) → 0 < length s → starts_with (s ++ t) c ≡ starts_with s c
starts-append [] t c h = absurd (omega arith)
starts-append (x ∷ s) t c h = refl

pub digits-length : (f n : ℕ) → 0 < f → 0 < length (digits f n)
unfolding digits
digits-length zero n h = absurd (omega arith)
digits-length (suc f) n h = elim (Bool-cases (ltb n 10)) [
  | inl e ↦ rw e (omega arith)
  | inr e ↦ rw e (omega (arith, length-append (digits f (n / 10)) ((b'0' + n % 10) ∷ [])))
]

-- A number above zero does not start with zero.
pub digits-starts : (f n : ℕ) → 0 < n → n < f → starts_with (digits f n) b'0' ≡ false
unfolding digits
digits-starts zero n p h = absurd (omega arith)
digits-starts (suc f) n p h = elim (Bool-cases (ltb n 10)) [
  | inl e ↦ rw e (ground arith)
  | inr e ↦ rw e (
      starts-append (digits f (n / 10)) ((b'0' + n % 10) ∷ []) b'0'
        (digits-length f (n / 10) (ground arith))
      ∙ digits-starts f (n / 10) (ground arith) (ground arith))
]
