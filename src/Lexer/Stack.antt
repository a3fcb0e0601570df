-- ===== src/Lexer/Stack.antt =====
-- The stack of indentation levels of `src/lexer/Lexer.cpp`, and the tokens that keep its depth.
use choco_c.Prelude.{
  ℕ, zero, suc, ◌+◌, ◌≤◌, ◌<◌, ◌≡◌, sym, subst, List, [], ◌∷◌, ◌++◌, arith, length, take,
  if◌then◌else◌,
}
use choco_c.TokenType.{TokenType, type_eq, indent, dedent}
use choco_c.Token.{Token}
use choco_c.Lexer.Scanner.{Lexer}

-- Each level is above the one below it, and the lowest is 0.
abbrev pub IsStack : List ℕ → Type 0
IsStack [] = ⊥
IsStack (l ∷ []) = l ≡ 0
IsStack (l ∷ k ∷ ls) = (k < l) × IsStack (k ∷ ls)

-- How many of the tokens are of a type.
unfoldable pub count : TokenType → List Token → ℕ
count k [] = 0
count k (t ∷ ts) = (if type_eq t.type k then 1 else 0) + count k ts

count-append : (k : TokenType) (ts us : List Token) → count k (ts ++ us) ≡ count k ts + count k us
unfolding count
count-append k [] us = omega arith
count-append k (t ∷ ts) us = omega (arith, count-append k ts us)

pub count-snoc :
    (k : TokenType) (ts : List Token) (t : Token)
    → count k (ts ++ t ∷ []) ≡ count k ts + (if type_eq t.type k then 1 else 0)
unfolding count
count-snoc k ts t = omega (arith, count-append k ts (t ∷ []))

-- The top of the stack.
abbrev pub top : List ℕ → ℕ
top [] = 0
top (l ∷ ls) = l

-- The depth of the stack against the tokens: an `INDENT` for each level entered, a `DEDENT` for each
-- level left.
abbrev pub Balanced : Lexer → Lexer → Type 0
Balanced lx lx' =
    length lx'.indentation_levels + count dedent lx'.tokens + count indent lx.tokens
    ≡ length lx.indentation_levels + count dedent lx.tokens + count indent lx'.tokens

-- The depth at each token: it goes up by one at an `INDENT` and down by one at a `DEDENT`, and never
-- below 1, where only the lowest level is left.
abbrev pub Nested : ℕ → List Token → ℕ → Type 0
Nested a [] b = a ≡ b
Nested a (t ∷ ts) b =
    (n : ℕ) × (n + (if type_eq t.type dedent then 1 else 0)
      ≡ a + (if type_eq t.type indent then 1 else 0))
    × (1 ≤ n)
    × Nested n ts b

pub Nested-append :
    (a b c : ℕ) (ts us : List Token) → Nested a ts b → Nested b us c → Nested a (ts ++ us) c
Nested-append a b c [] us h k = subst (λ n. Nested n us c) (sym h) k
Nested-append a b c (t ∷ ts) us (n, e, l, h) k = (n, e, l, Nested-append n b c ts us h k)

pub IsStack-length : (ls : List ℕ) → IsStack ls → 1 ≤ length ls
IsStack-length [] s = absurd s
IsStack-length (l ∷ ls) s = omega arith

-- What has been left has been entered before.
pub Nested-take :
    (a b n : ℕ) (ts : List Token)
    → 1 ≤ a
    → Nested a ts b
    → 1 + count dedent (take n ts) ≤ a + count indent (take n ts)
unfolding count
Nested-take a b zero ts l h = omega arith
Nested-take a b (suc n) [] l h = omega arith
Nested-take a b (suc n) (t ∷ ts) l (m, e, k, h) = omega (arith, e, Nested-take m b n ts k h)
