-- ===== src/TokenStream.antt =====
-- `include/TokenStream.h`, `src/TokenStream.cpp`: the tokens with a current position.
pub mod Laws
use choco_c.Prelude.{
  ℕ, suc, ◌+◌, ◌-◌, ◌%◌, ◌^◌, ◌≤◌, ◌<◌, Bool, ◌||◌, List, ltb, leb, length, get_elem?, drop, Option,
  none, some, ℤ, pos, negsuc, if◌then◌else◌,
}
use choco_c.Token.{Token}

-- The values of `std::size_t`.
abbrev pub size_mod : ℕ
size_mod = 2 ^ 64

pub record TokenStream : Type 0 where
  pub tokens : List Token
  pub current_idx : ℕ

-- `m_current_idx + n`, where the `int` is converted to `std::size_t` first.
unfoldable pub index_at : ℕ → ℤ → ℕ
index_at cur (pos n) = (cur + n) % size_mod
index_at cur (negsuc n) = (cur + (size_mod - suc n)) % size_mod

unfoldable pub peek : TokenStream → ℤ → Option Token
unfolding index_at
peek s n =
    let idx = index_at s.current_idx n in
    if ltb idx 0 || leb (length s.tokens) idx then none else get_elem? s.tokens idx

-- The stream after the call, and the token that it returns.
unfoldable pub advance : TokenStream → TokenStream × Option Token
advance s = elim (peek s (pos 0)) [
  | none ↦ (s, none)
  | some t ↦ (record s { current_idx = (s.current_idx + 1) % size_mod }, some t)
]

-- The position is inside the tokens, whose number is far below what an index can hold.
pub record IsValid (s : TokenStream) : Type 0 where
  pub inside : s.current_idx ≤ length s.tokens
  pub addressable : length s.tokens < 2 ^ 63

-- The tokens not yet read.
abbrev pub remaining : TokenStream → List Token
remaining s = drop s.current_idx s.tokens
