-- ===== src/Lexer/Cuts.antt =====
-- What a method of `src/lexer/Lexer.cpp` may do to the lexer: it moves on in the buffer, and the tokens
-- that it adds are cut from what it has passed, in order.
use choco_c.Prelude.{
  ℕ, ◌+◌, ◌-◌, ◌≤◌, ◌<◌, ◌≡◌, refl, sym, ap, ◌∙◌, Bool, true, false, List, [], ◌∷◌, ◌++◌,
  append_assoc, append-nil, All, All-append, Text, arith, length, drop, take, if◌then◌else◌,
}
use choco_c.TokenType.{TokenType, type_eq, indent, dedent}
use choco_c.Token.{Token, TokenValue, has_value_of}
use choco_c.Lexer.Scanner.{Lexer, add_token}
use choco_c.Lexer.Lines.{Outcome, ok}
use choco_c.Lexer.Stack.{IsStack, IsStack-length, Balanced, Nested, Nested-append, count-snoc}

-- The current position.
abbrev pub position : Lexer → ℕ
position lx = lx.lexeme_start + lx.lexeme_length

-- The bytes of the buffer, with the zero behind it, between two offsets.
abbrev pub slice : Text → ℕ → ℕ → Text
slice buffer a b = take (b - a) (drop a (buffer ++ 0 ∷ []))

-- The token carries the kind of value that its type wants, and its text is what stands at its location.
abbrev pub IsCut : Text → Token → Type 0
IsCut buffer t =
    (has_value_of t.type t.value ≡ true) × (t.text ≡ slice buffer t.location.start t.location.end)

-- The token has a text, unless it is a `DEDENT`.
abbrev pub IsBroad : Token → Type 0
IsBroad t = type_eq t.type dedent ≡ false → t.location.start < t.location.end

-- The tokens lie between two offsets, one behind the other.
abbrev pub Ordered : ℕ → List Token → ℕ → Type 0
Ordered a [] b = a ≤ b
Ordered a (t ∷ ts) b =
    (a ≤ t.location.start) × (t.location.start ≤ t.location.end) × Ordered t.location.end ts b

pub Ordered-append :
    (a b c : ℕ) (ts us : List Token) → Ordered a ts b → Ordered b us c → Ordered a (ts ++ us) c
Ordered-append a b c [] [] h k = omega arith
Ordered-append a b c [] (u ∷ us) h k = (omega arith, k.1, k.2)
Ordered-append a b c (t ∷ ts) us h k = (h.0, h.1, Ordered-append t.location.end b c ts us h.2 k)

-- Only the position has changed, and the diagnostics; it has not moved back, nor beyond `b`.
pub record Moved (b : ℕ) (lx lx' : Lexer) : Type 0 where
  pub same_tokens : lx'.tokens ≡ lx.tokens
  pub same_levels : lx'.indentation_levels ≡ lx.indentation_levels
  pub same_start : lx'.lexeme_start ≡ lx.lexeme_start
  pub further : position lx ≤ position lx'
  pub within : position lx' ≤ b

-- The lexeme has not become shorter.
pub Moved-longer : {b : ℕ} {lx lx' : Lexer} → Moved b lx lx' → lx.lexeme_length ≤ lx'.lexeme_length
Moved-longer m = omega (arith, m.same_start, m.further)

-- The lexer has moved on, the tokens added are cut in order from what it has passed, and the stack is
-- in order as before, with the tokens that its depth wants.
pub record Extends (buffer : Text) (lx lx' : Lexer) : Type 0 where
  pub new : List Token
  pub added : lx'.tokens ≡ lx.tokens ++ new
  pub ordered : Ordered lx.lexeme_start new lx'.lexeme_start
  pub cut : All (IsCut buffer) new
  pub broad : All IsBroad new
  pub further : position lx ≤ position lx'
  pub stack : IsStack lx.indentation_levels → IsStack lx'.indentation_levels
  pub balance : Balanced lx lx'
  pub nested :
      IsStack lx.indentation_levels
      → Nested (length lx.indentation_levels) new (length lx'.indentation_levels)

module _ (buffer : Text) where
  -- The tokens and the stack stay.
  pub Extends-quiet :
      (lx lx' : Lexer)
      → lx'.tokens ≡ lx.tokens
      → lx'.indentation_levels ≡ lx.indentation_levels
      → lx.lexeme_start ≤ lx'.lexeme_start
      → position lx ≤ position lx'
      → Extends buffer lx lx'
  Extends-quiet lx lx' t l s p = record {
    new = [];
    added = t ∙ sym (append-nil lx.tokens);
    ordered = s;
    cut = tt;
    broad = tt;
    further = p;
    stack = λ k. rw l k;
    balance = rw (t, l) (omega arith);
    nested = λ k. rw l refl;
  }

  pub Extends-Moved : (b : ℕ) (lx lx' : Lexer) → Moved b lx lx' → Extends buffer lx lx'
  Extends-Moved b lx lx' m =
      Extends-quiet lx lx' m.same_tokens m.same_levels (omega (arith, m.same_start)) m.further

  pub Extends-trans : {a b c : Lexer} → Extends buffer a b → Extends buffer b c → Extends buffer a c
  Extends-trans {a} {b} {c} p q = record {
    new = p.new ++ q.new;
    added = q.added ∙ ap (λ ts. ts ++ q.new) p.added ∙ append_assoc a.tokens p.new q.new;
    ordered =
        Ordered-append a.lexeme_start b.lexeme_start c.lexeme_start p.new q.new p.ordered q.ordered;
    cut = All-append (IsCut buffer) p.new q.new p.cut q.cut;
    broad = All-append IsBroad p.new q.new p.broad q.broad;
    further = omega (arith, p.further, q.further);
    stack = λ k. q.stack (p.stack k);
    balance = omega (arith, p.balance, q.balance);
    nested = λ k.
        Nested-append (length a.indentation_levels) (length b.indentation_levels)
          (length c.indentation_levels) p.new q.new (p.nested k) (q.nested (p.stack k));
  }

  -- A token, with a value that fits its type, and the stack that goes with it.
  pub Extends-token :
      (type : TokenType) (value : TokenValue) (lx : Lexer) (ls : List ℕ)
      → has_value_of type value ≡ true
      → (type_eq type dedent ≡ false → 0 < lx.lexeme_length)
      → (IsStack lx.indentation_levels → IsStack ls)
      → length ls + (if type_eq type dedent then 1 else 0)
        ≡ length lx.indentation_levels + (if type_eq type indent then 1 else 0)
      → Extends buffer lx (record (add_token buffer type value lx) { indentation_levels = ls })
  unfolding add_token
  Extends-token type value lx ls h g k e =
      let same : lx.lexeme_length ≡ (lx.lexeme_start + lx.lexeme_length) - lx.lexeme_start =
        omega arith in
      record {
        new = _;
        added = refl;
        ordered = omega arith;
        cut = ((h, ap (λ n. take n (drop lx.lexeme_start (buffer ++ 0 ∷ []))) same), tt);
        broad = ((λ d. omega (arith, g d)), tt);
        further = omega arith;
        stack = k;
        balance = omega (arith, e, count-snoc dedent lx.tokens _, count-snoc indent lx.tokens _);
        nested = λ s. (length ls, e, IsStack-length ls (k s), refl);
      }

  -- A token of another type than `INDENT` and `DEDENT`.
  pub Extends-add_token :
      (type : TokenType) (value : TokenValue) (lx : Lexer)
      → type_eq type indent ≡ false
      → type_eq type dedent ≡ false
      → has_value_of type value ≡ true
      → 0 < lx.lexeme_length
      → Extends buffer lx (add_token buffer type value lx)
  unfolding add_token
  Extends-add_token type value lx i d h g =
      Extends-token type value lx lx.indentation_levels h (λ _. g) (λ k. k) (rw (i, d) refl)

  -- A method that ends with the lexer moved on, to `b` at most.
  abbrev pub Runs : ℕ → Lexer → Outcome → Type 0
  Runs b lx r = (lx' : Lexer) × (r ≡ ok lx') × Extends buffer lx lx' × (position lx' ≤ b)

  pub Runs-after :
      (b : ℕ) (lx lx' : Lexer) (r : Outcome) → Extends buffer lx lx' → Runs b lx' r → Runs b lx r
  Runs-after b lx lx' r e (last, q, f, w) = (last, q, Extends-trans e f, w)

  pub Runs-if :
      (b : ℕ) (lx : Lexer) (t : Bool) (r s : Outcome)
      → Runs b lx r
      → Runs b lx s
      → Runs b lx (if t then r else s)
  Runs-if b lx true r s p q = p
  Runs-if b lx false r s p q = q

pub Moved-refl : (b : ℕ) (lx : Lexer) → position lx ≤ b → Moved b lx lx
Moved-refl b lx h = record {
  same_tokens = refl;
  same_levels = refl;
  same_start = refl;
  further = omega arith;
  within = h;
}

pub Moved-trans : {b : ℕ} {x y z : Lexer} → Moved b x y → Moved b y z → Moved b x z
Moved-trans p q = record {
  same_tokens = q.same_tokens ∙ p.same_tokens;
  same_levels = q.same_levels ∙ p.same_levels;
  same_start = q.same_start ∙ p.same_start;
  further = omega (arith, p.further, q.further);
  within = q.within;
}
