-- ===== src/Lexer/Few.antt =====
-- How many tokens `Lexer::lex` of `src/lexer/Lexer.cpp` cuts from a buffer.
use choco_c.Prelude.{
  ℕ, ◌+◌, ◌*◌, ◌^◌, ◌≤◌, ◌<◌, ◌≡◌, refl, ap, subst, inl, inr, true, false, List, [], ◌∷◌, Text,
  arith, length, Bool, Bool-cases, All, if◌then◌else◌,
}
use choco_c.TokenType.{type_eq, type_eq_iff, ordinal, indent, dedent}
use choco_c.Token.{Token}
use choco_c.Diagnostics.{DiagnosticsManager}
use choco_c.Lexer.Characters.{Characters, EndsWords}
use choco_c.Lexer.Scanner.{Lexer}
use choco_c.Lexer.Lines.{ok}
use choco_c.Lexer.Lex.{lex}
use choco_c.Lexer.Stack.{count}
use choco_c.Lexer.Cuts.{IsBroad, Ordered}
use choco_c.Lexer.Lexed.{lex-Ordered, lex-dedents, lex-IsBroad}

-- Each token but a `DEDENT` takes up a place of its own.
Ordered-length :
    (a b : ℕ) (ts : List Token)
    → Ordered a ts b
    → All IsBroad ts
    → length ts + a ≤ count dedent ts + b
unfolding count
Ordered-length a b [] o h = omega arith
Ordered-length a b (t ∷ ts) o h =
    let rest = Ordered-length t.location.end b ts o.2 h.1 in
    elim (Bool-cases (type_eq t.type dedent)) [
      | inl e ↦ rw e (omega (arith, rest, o.0, o.1))
      | inr e ↦ rw e (omega (arith, rest, o.0, h.0 e))
    ]

at_most : (b : Bool) → (if b then 1 else 0) ≤ 1
at_most true = omega arith
at_most false = omega arith

-- No token is both.
count-both : (ts : List Token) → count dedent ts + count indent ts ≤ length ts
unfolding count type_eq ordinal
count-both [] = omega arith
count-both (t ∷ ts) = elim (Bool-cases (type_eq t.type dedent)) [
  | inl e ↦
      let other : type_eq t.type indent ≡ false = rw ((type_eq_iff t.type dedent).0 e) refl in
      rw (e, other) (omega (arith, count-both ts))
  | inr e ↦ rw e (omega (arith, count-both ts, at_most (type_eq t.type indent)))
]

-- On a buffer of fewer than 2^63 bytes, where the character functions take the zero behind it for no digit
-- and no letter, `lex` ends; each of its tokens that is no `DEDENT` has a text of a byte or more, and its tokens are
-- at most two for each byte, and two.
pub lex-length :
    (buffer : Text) (cs : Characters) (ds : DiagnosticsManager)
    → EndsWords cs
    → length buffer < 2 ^ 63
    → (lx : Lexer) × (lex buffer cs ds ≡ ok lx)
      × All IsBroad lx.tokens
      × (length lx.tokens ≤ 2 * (length buffer + 1))
lex-length buffer cs ds w h =
    let (lx, q, o, c) = lex-Ordered buffer cs ds w h in
    let (lx', q', one, d, _) = lex-dedents buffer cs ds w h in
    let (lx'', q'', g) = lex-IsBroad buffer cs ds w h in
    let same : lx'.tokens ≡ lx.tokens = cc (q, q') in
    let same' : lx''.tokens ≡ lx.tokens = cc (q, q'') in
    let broad = subst (All IsBroad) same' g in
    let even = subst (λ ts. count dedent ts ≡ count indent ts) same d in
    (
      lx,
      q,
      broad,
      omega (
        arith,
        Ordered-length 0 (length buffer + 1) lx.tokens o broad,
        even,
        count-both lx.tokens,
      ),
    )

-- The tokens of a buffer that is not too long can be counted.
pub lex-few :
    (buffer : Text) (cs : Characters) (lx : Lexer)
    → EndsWords cs
    → length buffer + 1 < 2 ^ 62
    → lex buffer cs [] ≡ ok lx
    → length lx.tokens < 2 ^ 63
lex-few buffer cs lx w h e =
    let (lx', q, g, k) = lex-length buffer cs [] w (omega arith) in
    let same : lx'.tokens ≡ lx.tokens = cc (e, q) in omega (arith, k, ap length same)
