-- ===== src/PrettyPrinter/Escaped.antt =====
-- The characters of a string as `src/ast/PrettyPrinter.cpp` prints them, and as `scanString` of
-- `src/lexer/Lexer.cpp` takes them apart.
use choco_c.Prelude.{
  ℕ, zero, suc, ◌+◌, ◌<◌, ◌≡◌, refl, sym, ap, ◌∙◌, ◌⊎◌, inl, inr, false, not, ◌&&◌, [], ◌∷◌, ◌++◌,
  append_assoc, append-nil, ==_iff, some, Text, arith, length, drop, get_or, Bool-cases, ◌==◌,
}
use choco_c.TokenType.{TokenType, type_eq, invalid, string, id_string}
use choco_c.Lexer.Characters.{Characters}
use choco_c.Lexer.Scanner.{is_among}
use choco_c.Lexer.Strings.{unescape, narrow}
use choco_c.PrettyPrinter.{escape, print_chars}

-- The types of a string that is valid.
abbrev pub IsString : TokenType → Type 0
IsString t = (t ≡ string) ⊎ (t ≡ id_string)

pub narrow-IsString :
    (cs : Characters) (t : TokenType) (c : ℕ) → IsString t → IsString (narrow cs t c)
unfolding narrow
narrow-IsString cs t c h =
    elim (Bool-cases (not (type_eq t invalid) && not (cs.is_alnum c) && not (c == b'_'))) [
      | inl e ↦ rw (narrow, e) (inl refl)
      | inr e ↦ rw (narrow, e) h
    ]

-- The printed characters of a string.
unfoldable pub escaped : Text → Text
escaped [] = []
escaped (c ∷ s) = escape c ++ escaped s

pub print_chars-escaped : (s out : Text) → print_chars s out ≡ out ++ escaped s
unfolding print_chars escaped
print_chars-escaped [] out = sym (append-nil out)
print_chars-escaped (c ∷ s) out =
    print_chars-escaped s (out ++ escape c) ∙ append_assoc out (escape c) (escaped s)

-- A character that a line of a string may hold: neither of the two that end it and have no escape.
abbrev pub IsKept : ℕ → Type 0
IsKept c = (c == 0 ≡ false) × (c == b'\r' ≡ false)

-- A character is printed as it is, or as a backslash and the one that stands for it.
pub data Printed (c : ℕ) : Text → Type 0 where
  as_it_is :
      is_among c (b'"' ∷ 0 ∷ b'\r' ∷ b'\n' ∷ []) ≡ false
      → is_among c (b'\\' ∷ []) ≡ false
      → Printed c (c ∷ [])
  behind : (d : ℕ) → unescape d ≡ some c → Printed c (b'\\' ∷ d ∷ [])

pub escape-Printed : (c : ℕ) → c == 0 ≡ false → c == b'\r' ≡ false → Printed c (escape c)
unfolding escape unescape is_among
escape-Printed c z r = elim (Bool-cases (c == b'\t')) [
  | inl e ↦ rw (escape, e) (behind b't' (ap some (sym ((==_iff c b'\t').0 e))))
  | inr t ↦ elim (Bool-cases (c == b'\n')) [
    | inl e ↦ rw (escape, t, e) (behind b'n' (ap some (sym ((==_iff c b'\n').0 e))))
    | inr n ↦ elim (Bool-cases (c == b'\\')) [
      | inl e ↦ rw (escape, t, n, e) (behind b'\\' (ap some (sym ((==_iff c b'\\').0 e))))
      | inr b ↦ elim (Bool-cases (c == b'"')) [
        | inl e ↦ rw (escape, t, n, b, e) (behind b'"' (ap some (sym ((==_iff c b'"').0 e))))
        | inr q ↦
            rw (escape, t, n, b, q)
              (as_it_is (rw (is_among, q, z, r, n) refl) (rw (is_among, b) refl))
      ]
    ]
  ]
]

pub some_length : (c : ℕ) (p : Text) → Printed c p → 0 < length p
some_length c _ (as_it_is e b) = omega arith
some_length c _ (behind d u) = omega arith

pub zero_add : (n : ℕ) → 0 + n ≡ n
zero_add n = omega arith

pub drop_cons :
    (n d : ℕ) (b r : Text)
    → drop n b ≡ d ∷ r
    → (get_or b n 0 ≡ d) × (n < length b) × (drop (n + 1) b ≡ r)
drop_cons zero d [] r e = cc
drop_cons (suc n) d [] r e = cc
drop_cons zero d (x ∷ b) r e = (cc, omega arith, cc)
drop_cons (suc n) d (x ∷ b) r e =
    let (g, l, t) = drop_cons n d b r e in
    let step : suc n + 1 ≡ suc (n + 1) = omega arith in
    (g, omega (arith, l), ap (λ k. drop k (x ∷ b)) step ∙ t)
