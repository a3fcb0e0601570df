-- ===== src/TokenStream/Laws.antt =====
-- `src/TokenStream.cpp`: `peek` and `advance` in terms of the tokens not yet read.
use choco_c.Prelude.{
  ℕ, zero, suc, ◌+◌, ◌-◌, ◌%◌, ◌^◌, ◌≤◌, ◌<◌, ◌≡◌, refl, ap, ◌∙◌, List, [], ◌∷◌, arith, length,
  get_elem?, drop, Option, none, some, pos, negsuc,
}
use choco_c.Token.{Token}
use choco_c.TokenStream.{TokenStream, IsValid, remaining, peek, advance, size_mod}

module _ {ℓ} {A : Type ℓ} where
  abbrev pub first : List A → Option A
  first [] = none
  first (x ∷ xs) = some x

  abbrev pub rest : List A → List A
  rest [] = []
  rest (x ∷ xs) = xs

module _ {ℓ} {A : Type ℓ} where
  get_elem?-first-drop : (xs : List A) (n : ℕ) → get_elem? xs n ≡ first (drop n xs)
  get_elem?-first-drop [] zero = refl
  get_elem?-first-drop [] (suc n) = refl
  get_elem?-first-drop (x ∷ xs) zero = refl
  get_elem?-first-drop (x ∷ xs) (suc n) = get_elem?-first-drop xs n

  drop-suc : (xs : List A) (n : ℕ) → drop (suc n) xs ≡ rest (drop n xs)
  drop-suc [] zero = refl
  drop-suc [] (suc n) = refl
  drop-suc (x ∷ xs) zero = refl
  drop-suc (x ∷ xs) (suc n) = drop-suc xs n

  get_elem?-beyond : (xs : List A) (n : ℕ) → length xs ≤ n → get_elem? xs n ≡ none
  get_elem?-beyond [] n h = refl
  get_elem?-beyond (x ∷ xs) zero h = absurd (omega arith)
  get_elem?-beyond (x ∷ xs) (suc n) h = get_elem?-beyond xs n (omega arith)

  lt-length : (xs : List A) (n : ℕ) {x : A} → get_elem? xs n ≡ some x → n < length xs
  lt-length [] n h = ground arith
  lt-length (x ∷ xs) zero h = omega arith
  lt-length (x ∷ xs) (suc n) h = omega (arith, lt-length xs n h)

-- A step ahead by `n` reads the token at that place, or nothing beyond the end.
pub peek_ahead :
    (s : TokenStream) (n : ℕ)
    → IsValid s
    → n < 2
    → peek s (pos n) ≡ get_elem? s.tokens (s.current_idx + n)
unfolding peek
peek_ahead s n v h = ground (arith, get_elem?-beyond s.tokens (s.current_idx + n))

-- The current token is the first of those not yet read.
pub peek-first : (s : TokenStream) → IsValid s → peek s (pos 0) ≡ first (remaining s)
peek-first s v =
    peek_ahead s 0 v (omega arith)
    ∙ ap (get_elem? s.tokens) (omega arith)
    ∙ get_elem?-first-drop s.tokens s.current_idx

-- The token after the current one is the second of those not yet read.
pub peek-second : (s : TokenStream) → IsValid s → peek s (pos 1) ≡ first (rest (remaining s))
peek-second s v =
    peek_ahead s 1 v (omega arith)
    ∙ ap (get_elem? s.tokens) (omega arith)
    ∙ get_elem?-first-drop s.tokens (suc s.current_idx)
    ∙ ap first (drop-suc s.tokens s.current_idx)

-- What `advance` does where the current token is `t`.
pub record Advanced (s : TokenStream) (t : Token) (r : List Token) (s' : TokenStream) : Type 0 where
  pub valid : IsValid s'
  pub unread : remaining s' ≡ r
  pub behind : peek s' (negsuc 0) ≡ some t
  pub moved : s'.current_idx ≡ s.current_idx + 1

-- One place on, `peek(-1)` reads the token that was current: the wrap-around comes out at 0.
behind_here :
    (ts : List Token) (n : ℕ) (t : Token)
    → length ts < 2 ^ 63
    → n < length ts
    → get_elem? ts n ≡ some t
    → peek (record { tokens = ts; current_idx = n + 1 }) (negsuc 0) ≡ some t
unfolding peek
behind_here ts n t h lt e =
    let back : (n + 1 + (size_mod - 1)) % size_mod ≡ n = omega arith in rw back (ground arith)

module _ (s : TokenStream) (v : IsValid s) where
  -- With nothing left to read, `advance` leaves the stream as it is.
  pub advance_end : remaining s ≡ [] → advance s ≡ (s, none)
  unfolding advance
  advance_end e = ground (arith, peek-first s v)

  current :
      (t : Token) (r : List Token) → remaining s ≡ t ∷ r → get_elem? s.tokens s.current_idx ≡ some t
  current t r e = get_elem?-first-drop s.tokens s.current_idx ∙ ap first e

  -- From a position inside the tokens with a token left to read, `advance` returns that token and moves
  -- one token on, so that `peek(-1)` is the token returned.
  pub advance_first :
      (t : Token) (r : List Token)
      → remaining s ≡ t ∷ r
      → (s' : TokenStream) × (advance s ≡ (s', some t)) × Advanced s t r s'
  unfolding advance
  advance_first t r e =
      let here = current t r e in
      let lt = lt-length s.tokens s.current_idx here in
      let moved : s.current_idx + 1 ≡ suc s.current_idx = omega arith in
      (
        record s { current_idx = s.current_idx + 1 },
        ground (arith, peek-first s v),
        record {
          valid = omega arith;
          unread = rw moved (drop-suc s.tokens s.current_idx ∙ ap rest e);
          behind = behind_here s.tokens s.current_idx t v.addressable lt here;
          moved = refl;
        },
      )

has_elem : (ts : List Token) (n : ℕ) → n < length ts → (t : Token) × (get_elem? ts n ≡ some t)
has_elem [] n h = absurd (omega arith)
has_elem (t ∷ ts) zero h = (t, refl)
has_elem (t ∷ ts) (suc n) h = has_elem ts n (omega arith)

-- Past the first position `peek(-1)` gives a token.
pub peek_behind :
    (s : TokenStream) (n : ℕ)
    → IsValid s
    → s.current_idx ≡ n + 1
    → (t : Token) × (peek s (negsuc 0) ≡ some t)
peek_behind s n v e =
    let (t, here) = has_elem s.tokens n (omega arith) in
    (
      t,
      ap (λ i. peek (record { tokens = s.tokens; current_idx = i }) (negsuc 0)) e
          ∙ behind_here s.tokens n t v.addressable (omega arith) here,
    )
