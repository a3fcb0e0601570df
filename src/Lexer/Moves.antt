-- ===== src/Lexer/Moves.antt =====
-- The loops of `src/lexer/Lexer.cpp` over the buffer: each ends, and moves on inside it.
use choco_c.Prelude.{
  ℕ, zero, suc, ◌+◌, ◌≤◌, ◌<◌, ◌^◌, ◌≡◌, ◌≢◌, refl, sym, subst, inl, inr, Bool, true, false, List,
  [], ◌∷◌, some, Text, arith, length, get_or, Bool-cases, ltb,
}
use choco_c.Lexer.Scanner.{
  Lexer, char_at, peek_char, advance_char, matches_char, is_among, skip_chars,
}
use choco_c.Lexer.Lines.{ok}
use choco_c.Lexer.Words.{skip_until, skip_while}
use choco_c.Lexer.Cuts.{position, Moved, Moved-refl, Moved-trans}

pub get_or-beyond : (xs : List ℕ) (i d : ℕ) → length xs ≤ i → get_or xs i d ≡ d
get_or-beyond [] i d h = refl
get_or-beyond (x ∷ xs) zero d h = absurd (omega arith)
get_or-beyond (x ∷ xs) (suc i) d h = get_or-beyond xs i d (omega arith)

module _ (buffer : Text) where
  -- Inside the buffer, or at its end, there is a current character.
  pub peek_char-some :
      (lx : Lexer)
      → position lx ≤ length buffer
      → peek_char buffer lx ≡ some (char_at buffer (position lx))
  unfolding peek_char
  peek_char-some lx h = ground arith

  -- A character other than zero is not at the end.
  pub not_at_end :
      (lx : Lexer)
      → position lx ≤ length buffer
      → char_at buffer (position lx) ≢ 0
      → position lx < length buffer
  not_at_end lx h n = ground (arith, get_or-beyond buffer (position lx) 0)

  -- One step on.
  pub one_on :
      (lx : Lexer)
      → length buffer < 2 ^ 63
      → position lx ≤ length buffer
      → advance_char buffer lx ≡ record lx { lexeme_length = lx.lexeme_length + 1 }
  unfolding advance_char
  one_on lx h i = ground (arith, peek_char-some lx i)

  pub advance_char-Moved :
      (b : ℕ) (lx : Lexer)
      → length buffer < 2 ^ 63
      → position lx ≤ length buffer
      → position lx < b
      → Moved b lx (advance_char buffer lx)
  advance_char-Moved b lx h i j = rw (one_on lx h i) (record {
    same_tokens = refl;
    same_levels = refl;
    same_start = refl;
    further = omega arith;
    within = omega arith;
  })

  pub advance_char-position :
      (lx : Lexer)
      → length buffer < 2 ^ 63
      → position lx ≤ length buffer
      → position (advance_char buffer lx) ≡ position lx + 1
  advance_char-position lx h i = rw (one_on lx h i) (omega arith)

  -- A match of characters other than zero.
  pub matched :
      (chs : List ℕ) (lx : Lexer)
      → is_among 0 chs ≡ false
      → matches_char buffer chs lx ≡ true
      → position lx < length buffer
  unfolding matches_char peek_char
  matched chs lx z e = ground (arith, get_or-beyond buffer (position lx) 0)

  pub skip_chars-Moved :
      (b f : ℕ) (chs : List ℕ) (lx : Lexer)
      → length buffer < 2 ^ 63
      → is_among 0 chs ≡ false
      → length buffer ≤ b
      → b ≤ length buffer + 1
      → position lx ≤ b
      → length buffer + 1 < position lx + f
      → (lx' : Lexer) × (skip_chars buffer f chs lx ≡ some lx') × Moved b lx lx'
  unfolding skip_chars
  skip_chars-Moved b zero chs lx h z k k' i l = absurd (omega arith)
  skip_chars-Moved b (suc f) chs lx h z k k' i l = elim (Bool-cases (matches_char buffer chs lx)) [
    | inl e ↦
        let m = matched chs lx z e in
        let (lx', q, r) =
          skip_chars-Moved b f chs (advance_char buffer lx) h z k k'
            (omega (arith, m, advance_char-position lx h (omega arith)))
            (omega (arith, m, advance_char-position lx h (omega arith))) in
        (lx', rw e q, Moved-trans (advance_char-Moved b lx h (omega arith) (omega arith)) r)
    | inr e ↦ (lx, rw e refl, Moved-refl b lx i)
  ]

  -- A match that fails is of a character other than those.
  unmatched :
      (chs : List ℕ) (lx : Lexer)
      → is_among 0 chs ≡ true
      → position lx ≤ length buffer
      → matches_char buffer chs lx ≡ false
      → position lx < length buffer
  unfolding matches_char peek_char
  unmatched chs lx z i e = ground (arith, get_or-beyond buffer (position lx) 0)

  pub skip_until-Moved :
      (f : ℕ) (chs : List ℕ) (lx : Lexer)
      → length buffer < 2 ^ 63
      → is_among 0 chs ≡ true
      → position lx ≤ length buffer
      → length buffer < position lx + f
      → (lx' : Lexer) × (skip_until buffer f chs lx ≡ ok lx') × Moved (length buffer) lx lx'
  unfolding skip_until
  skip_until-Moved zero chs lx h z i l = absurd (omega arith)
  skip_until-Moved (suc f) chs lx h z i l = elim (Bool-cases (matches_char buffer chs lx)) [
    | inl e ↦ (lx, rw e refl, Moved-refl (length buffer) lx i)
    | inr e ↦
        let m = unmatched chs lx z i e in
        let on = advance_char-position lx h i in
        let (lx', q, r) =
          skip_until-Moved f chs (advance_char buffer lx) h z (omega (arith, m, on))
            (omega (arith, m, on)) in
        (lx', rw e q, Moved-trans (advance_char-Moved (length buffer) lx h i m) r)
  ]

  pub skip_while-Moved :
      (p : ℕ → Bool) (f : ℕ) (lx : Lexer)
      → length buffer < 2 ^ 63
      → p 0 ≡ false
      → position lx ≤ length buffer
      → length buffer < position lx + f
      → (lx' : Lexer) × (skip_while buffer p f lx ≡ ok lx') × Moved (length buffer) lx lx'
  unfolding skip_while
  skip_while-Moved p zero lx h z i l = absurd (omega arith)
  skip_while-Moved p (suc f) lx h z i l = elim (Bool-cases (p (char_at buffer (position lx)))) [
    | inl e ↦
        let m = not_at_end lx i (λ q. cc) in
        let on = advance_char-position lx h i in
        let (lx', q, r) =
          skip_while-Moved p f (advance_char buffer lx) h z (omega (arith, m, on))
            (omega (arith, m, on)) in
        (
          lx',
          rw (skip_while, peek_char-some lx i, e) q,
          Moved-trans (advance_char-Moved (length buffer) lx h i m) r,
        )
    | inr e ↦ (lx, rw (skip_while, peek_char-some lx i, e) refl, Moved-refl (length buffer) lx i)
  ]

  past_end : (lx : Lexer) → length buffer < position lx → advance_char buffer lx ≡ lx
  unfolding advance_char peek_char
  past_end lx h = ground arith

  -- A step from anywhere, one past the end at most.
  pub advance_any :
      (lx : Lexer)
      → length buffer < 2 ^ 63
      → position lx ≤ length buffer + 1
      → Moved (length buffer + 1) lx (advance_char buffer lx)
  advance_any lx h i = elim (Bool-cases (ltb (length buffer) (position lx))) [
    | inl e ↦
        subst (Moved (length buffer + 1) lx) (sym (past_end lx (ground arith)))
          (Moved-refl (length buffer + 1) lx i)
    | inr e ↦ advance_char-Moved (length buffer + 1) lx h (ground arith) (ground arith)
  ]
