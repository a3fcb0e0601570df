-- ===== src/Parser/Ensures.antt =====
-- Postconditions of the parser's methods, and the tokens that a method has read.
use choco_c.Prelude.{
  subst, suc, ◌≡◌, refl, sym, ap, ◌∙◌, Bool, true, false, List, [], ◌∷◌, ◌++◌, append_assoc, Option,
  none, some, negsuc, All, All-append, arith, if◌then◌else◌, Bool-cases, inl, inr, length,
  length-append, ◌+◌, ◌⊎◌,
}
use choco_c.TokenType.{TokenType, newline, type_eq, type_eq_iff}
use choco_c.Token.{Token, one_of}
use choco_c.TokenStream.{IsValid, remaining, peek}
use choco_c.Diagnostics.{DiagnosticsManager}
use choco_c.TokenStream.Laws.{peek-first, advance_first}
use choco_c.Parser.Monad.{
  State, Result, ok, null, undefined, bind, Parser, caught, step, matches, expect,
}

-- The run kept within its fuel; `P` holds of a node that it returned, `N` of the state with which it
-- returned `nullptr`, and `U` if it dereferenced an empty optional.
pub data Ensures {A : Type 0} (P : A → State → Type 0) (N : State → Type 0) (U : Type 0)
    : Result A → Type 0 where
  returned : {a : A} {s : State} → P a s → Ensures P N U (ok a s)
  rejected : {s : State} → N s → Ensures P N U (null s)
  crashed : U → Ensures P N U undefined

-- What a caught call ensures of its result.
abbrev pub Caught :
    {A : Type 0} → (A → State → Type 0) → (State → Type 0) → Option A → State → Type 0
Caught P N none s = N s
Caught P N (some a) s = P a s

module _ {A : Type 0} {P : A → State → Type 0} {N : State → Type 0} {U : Type 0} where
  pub Ensures-bind :
      {B : Type 0} {Q : B → State → Type 0} {M : State → Type 0} {V : Type 0} {r : Result B}
      {f : B → Parser A}
      → Ensures Q M V r
      → ((s : State) → M s → N s)
      → (V → U)
      → ((b : B) (s : State) → Q b s → Ensures P N U (f b s))
      → Ensures P N U (bind r f)
  Ensures-bind (returned {a} {s} q) n u k = k a s q
  Ensures-bind (rejected {s} m) n u k = rejected (n s m)
  Ensures-bind (crashed v) n u k = crashed (u v)

  pub Ensures-map :
      {Q : A → State → Type 0} {r : Result A}
      → ((a : A) (s : State) → Q a s → P a s)
      → Ensures Q N U r
      → Ensures P N U r
  Ensures-map g (returned q) = returned (g _ _ q)
  Ensures-map g (rejected n) = rejected n
  Ensures-map g (crashed u) = crashed u

  pub Ensures-caught :
      {M : State → Type 0} {r : Result A} → Ensures P N U r → Ensures (Caught P N) M U (caught r)
  Ensures-caught (returned p) = returned p
  Ensures-caught (rejected n) = returned n
  Ensures-caught (crashed u) = crashed u

  pub Ensures-if :
      (b : Bool) (x y : Parser A) (s : State)
      → (b ≡ true → Ensures P N U (x s))
      → (b ≡ false → Ensures P N U (y s))
      → Ensures P N U ((if b then x else y) s)
  Ensures-if true x y s hx hy = hx refl
  Ensures-if false x y s hx hy = hy refl

-- The method has read the tokens `ts`, none of which ends a line, and is in the state `s'`.
pub record Reads (s : State) (ts : List Token) (s' : State) : Type 0 where
  pub valid : IsValid s'.token_stream
  pub split : remaining s.token_stream ≡ ts ++ remaining s'.token_stream
  pub within : All (λ t. type_eq t.type newline ≡ false) ts
  pub moved : s'.token_stream.current_idx ≡ s.token_stream.current_idx + length ts

pub Reads-refl : (s : State) → IsValid s.token_stream → Reads s [] s
Reads-refl s v = record { valid = v; split = refl; within = tt; moved = omega arith }

pub Reads-trans :
    {s s' s'' : State} {ts us : List Token}
    → Reads s ts s'
    → Reads s' us s''
    → Reads s (ts ++ us) s''
Reads-trans {ts} {us} a b = record {
  valid = b.valid;
  split = a.split ∙ ap (◌++◌ ts) b.split ∙ sym (append_assoc ts us _);
  within = All-append _ ts us a.within b.within;
  moved = omega (arith, a.moved, b.moved, length-append ts us);
}

-- A report changes nothing of what was read.
pub Reads-diagnose :
    {s s' : State} {ts : List Token} (m : DiagnosticsManager)
    → Reads s ts s'
    → Reads s ts (record s' { diag_manager = m })
Reads-diagnose m a = record { valid = a.valid; split = a.split; within = a.within; moved = a.moved }

-- The method has read the token `t`, which `peek(-1)` still gives.
pub record Took (s : State) (t : Token) (s' : State) : Type 0 where
  pub valid : IsValid s'.token_stream
  pub split : remaining s.token_stream ≡ t ∷ remaining s'.token_stream
  pub behind : peek s'.token_stream (negsuc 0) ≡ some t
  pub moved : s'.token_stream.current_idx ≡ s.token_stream.current_idx + 1

pub Took-Reads :
    {s s' : State} {t : Token} → Took s t s' → type_eq t.type newline ≡ false → Reads s (t ∷ []) s'
Took-Reads k h = record { valid = k.valid; split = k.split; within = (h, tt); moved = k.moved }

pub List-cases {ℓ} : {A : Type ℓ} (l : List A) → (l ≡ []) ⊎ ((x : A) × (r : List A) × (l ≡ x ∷ r))
List-cases [] = inl refl
List-cases (x ∷ r) = inr (x, r, refl)

-- A step over the current token.
pub step-Took :
    (s : State) (t : Token) (r : List Token)
    → IsValid s.token_stream
    → remaining s.token_stream ≡ t ∷ r
    → (s' : State) × (step s ≡ ok tt s') × Took s t s'
unfolding step
step-Took s t r v e =
    let (str, moved, a) = advance_first s.token_stream v t r e in
    (
      record s { token_stream = str },
      rw moved,
      record {
        valid = a.valid;
        split = e ∙ ap (◌∷◌ t) (sym a.unread);
        behind = a.behind;
        moved = a.moved;
      },
    )

-- A current token that matches is there, and is the first of those not yet read.
pub matches-first :
    (types : List TokenType) (s : State)
    → IsValid s.token_stream
    → matches types s ≡ true
    → (t : Token) × (one_of t.type types ≡ true)
      × (r : List Token) × (remaining s.token_stream ≡ t ∷ r)
unfolding matches
matches-first types s v h = elim (List-cases (remaining s.token_stream)) [
  | inl e ↦ ground (arith, peek-first s.token_stream v)
  | inr (t, r, e) ↦ (t, ground (arith, peek-first s.token_stream v), r, e)
]

pub Reads-length :
    {s s' : State} {ts : List Token}
    → Reads s ts s'
    → length (remaining s.token_stream) ≡ length ts + length (remaining s'.token_stream)
Reads-length {ts} a = ap length a.split ∙ length-append ts _

pub Took-length :
    {s s' : State} {t : Token}
    → Took s t s'
    → length (remaining s.token_stream) ≡ suc (length (remaining s'.token_stream))
Took-length a = ap length a.split

-- `match` answers for the first of the tokens left.
pub matches-one_of :
    (types : List TokenType) (s : State) (t : Token) (r : List Token)
    → IsValid s.token_stream
    → remaining s.token_stream ≡ t ∷ r
    → matches types s ≡ one_of t.type types
unfolding matches
matches-one_of types s t r v e = ground (arith, peek-first s.token_stream v)

-- `if (expect(types...)) { x } else { y }`.
pub Ensures-expect :
    {A : Type 0} {P : A → State → Type 0} {N : State → Type 0} {U : Type 0} (types : List TokenType)
    (x y : Parser A) (s : State)
    → IsValid s.token_stream
    → ((t : Token) (s' : State) → one_of t.type types ≡ true → Took s t s' → Ensures P N U (x s'))
    → (matches types s ≡ false → Ensures P N U (y s))
    → Ensures P N U (bind (expect types s) (λ b. if b then x else y))
unfolding expect
Ensures-expect types x y s v hit miss = elim (Bool-cases (matches types s)) [
  | inl h ↦
      let (t, m, r, e) = matches-first types s v h in
      let (s', stepped, k) = step-Took s t r v e in rw (h, expect, stepped) (hit t s' m k)
  | inr h ↦ rw (h, expect) (miss h)
]

-- The same where the current token is known.
pub Ensures-expect_at :
    {A : Type 0} {P : A → State → Type 0} {N : State → Type 0} {U : Type 0} (types : List TokenType)
    (x y : Parser A) (s : State) (t : Token) (r : List Token)
    → IsValid s.token_stream
    → remaining s.token_stream ≡ t ∷ r
    → ((s' : State) → one_of t.type types ≡ true → Took s t s' → Ensures P N U (x s'))
    → (matches types s ≡ false → Ensures P N U (y s))
    → Ensures P N U (bind (expect types s) (λ b. if b then x else y))
Ensures-expect_at types x y s t r v e hit = Ensures-expect types x y s v λ t' s' m k.
    let same : t' ≡ t = cc (e, k.split) in
    hit s' (subst (λ u. one_of u.type types ≡ true) same m) (subst (λ u. Took s u s') same k)

pub one_of-newline :
    (types : List TokenType) (ty : TokenType)
    → one_of newline types ≡ false
    → one_of ty types ≡ true
    → type_eq ty newline ≡ false
one_of-newline types ty h k = elim (Bool-cases (type_eq ty newline)) [
  | inl e ↦ cc ((type_eq_iff ty newline).0 e)
  | inr e ↦ e
]

pub one_of_single : (ty u : TokenType) → one_of ty (u ∷ []) ≡ true → ty ≡ u
unfolding one_of
one_of_single ty u h = ground (arith, type_eq_iff ty u)
