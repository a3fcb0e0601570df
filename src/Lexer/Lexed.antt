-- ===== src/Lexer/Lexed.antt =====
-- `Lexer::lex` of `src/lexer/Lexer.cpp` as a whole: it ends, and its tokens cover what it has read.
use choco_c.Prelude.{
  ℕ, zero, suc, ◌+◌, ◌^◌, ◌≤◌, ◌<◌, ◌≡◌, refl, ap, subst, inl, inr, false, List, [], ◌∷◌, Text,
  arith, length, take, Bool-cases, ◌==◌, All,
}
use choco_c.TokenType.{indent, dedent}
use choco_c.Token.{Token}
use choco_c.Diagnostics.{DiagnosticsManager}
use choco_c.Lexer.Characters.{Characters, EndsWords}
use choco_c.Lexer.Scanner.{Lexer, new_lexer, char_at, advance_char}
use choco_c.Lexer.Lines.{ok, enough}
use choco_c.Lexer.Strings.{is_at_end}
use choco_c.Lexer.Lex.{lex_loop, lex_from, close_blocks, lex}
use choco_c.Lexer.Stack.{IsStack, count, Nested-take}
use choco_c.Lexer.Cuts.{
  position, IsCut, IsBroad, Ordered, Extends, Extends-Moved, Extends-trans, Runs-after,
}
use choco_c.Lexer.Moves.{peek_char-some, not_at_end, advance_char-Moved, advance_char-position}
use choco_c.Lexer.Balance.{handle_indentation-Runs}
use choco_c.Lexer.Levels.{dedent_loop-Runs, dedent_loop-lowest}
use choco_c.Lexer.TokenCut.{Cased, scan_token-Runs}

Ordered-wider : (a b c : ℕ) (ts : List Token) → b ≤ c → Ordered a ts b → Ordered a ts c
Ordered-wider a b c [] h o = omega arith
Ordered-wider a b c (t ∷ ts) h o = (o.0, o.1, Ordered-wider t.location.end b c ts h o.2)

lowest : (ls : List ℕ) → IsStack ls → length ls ≡ 1 → ls ≡ 0 ∷ []
lowest [] s e = absurd s
lowest (l ∷ []) s e = ap (λ k. k ∷ []) s
lowest (l ∷ k ∷ ls) s e = absurd (omega arith)

module _ (buffer : Text) where
  is_at_end-false : (lx : Lexer) → is_at_end buffer lx ≡ false → position lx < length buffer
  unfolding is_at_end
  is_at_end-false lx e = ground arith

  module _ (cs : Characters) where
    -- With as much fuel as there are characters left, and one, the loop ends.
    lex_loop-Runs :
        (f : ℕ) (lx : Lexer)
        → EndsWords cs
        → length buffer < 2 ^ 63
        → position lx ≤ length buffer
        → IsStack lx.indentation_levels
        → length buffer < position lx + f
        → Cased buffer lx (lex_loop buffer cs f lx)
    unfolding lex_loop
    lex_loop-Runs zero lx w h i s l = absurd (omega arith)
    lex_loop-Runs (suc f) lx w h i s l =
        let c = char_at buffer (position lx) in
        let there = advance_char buffer lx in
        let on = advance_char-position buffer lx h i in
        let m = advance_char-Moved buffer (length buffer + 1) lx h i (omega arith) in
        let moved = Extends-Moved buffer (length buffer + 1) lx there m in
        elim (Bool-cases (c == 0)) [
          | inl e ↦ (there, rw (lex_loop, peek_char-some buffer lx i, e) refl, moved, m.within)
          | inr e ↦
              let inside = not_at_end buffer lx i (λ q. ground arith) in
              let (next, q, x, b) =
                scan_token-Runs buffer cs c there w h (omega (arith, on)) (moved.stack s)
                  (omega (arith, on, m.same_start)) in
              let done = Extends-trans buffer moved x in
              elim (Bool-cases (is_at_end buffer next)) [
                | inl t ↦ (next, rw (lex_loop, peek_char-some buffer lx i, e, q, t) refl, done, b)
                | inr t ↦
                    subst (Cased buffer lx)
                      (rw (lex_loop, peek_char-some buffer lx i, e, q, t) refl)
                      (Runs-after buffer (length buffer + 1) lx next _ done (
                        lex_loop-Runs f next w h (omega (arith, is_at_end-false next t))
                          (done.stack s) (omega (arith, on, x.further))))
              ]
        ]

    -- The whole of `lex`, with the stack at its lowest level again.
    lex-Runs :
        (ds : DiagnosticsManager)
        → EndsWords cs
        → length buffer < 2 ^ 63
        → (lx : Lexer) × (lex buffer cs ds ≡ ok lx)
          × Extends buffer (new_lexer ds) lx
          × (position lx ≤ length buffer + 1)
          × (length lx.indentation_levels ≡ 1)
    unfolding lex lex_from close_blocks
    lex-Runs ds w h =
        let (first, p, x, b) =
          handle_indentation-Runs buffer (length buffer) (new_lexer ds) h (omega arith)
            (omega arith) (omega arith) refl in
        let (end_lx, q, y, c) =
          lex_loop-Runs (enough buffer) first w h b (x.stack refl) (omega arith) in
        let s = y.stack (x.stack refl) in
        let (last, r, z, d) =
          dedent_loop-Runs buffer (length buffer + 1) 0 end_lx.indentation_levels end_lx refl s c in
        (
          last,
          rw (lex, p, q) r,
          Extends-trans buffer x (Extends-trans buffer y z),
          d,
          dedent_loop-lowest buffer end_lx.indentation_levels end_lx last refl s r,
        )

    -- The tokens of `lex` that are no `DEDENT`s have texts.
    pub lex-IsBroad :
        (ds : DiagnosticsManager)
        → EndsWords cs
        → length buffer < 2 ^ 63
        → (lx : Lexer) × (lex buffer cs ds ≡ ok lx) × All IsBroad lx.tokens
    lex-IsBroad ds w h = let (lx, q, x, b, one) = lex-Runs ds w h in (lx, q, rw x.added x.broad)

    -- `lex` ends on every buffer of fewer than 2^63 bytes, provided that the character functions take the
    -- zero behind the buffer for no digit and no letter: it dereferences no empty optional and never looks
    -- at the top of an empty stack.
    pub lex-ends :
        (ds : DiagnosticsManager)
        → EndsWords cs
        → length buffer < 2 ^ 63
        → (lx : Lexer) × (lex buffer cs ds ≡ ok lx)
    lex-ends ds w h = let (lx, q, x, b, one) = lex-Runs ds w h in (lx, q)

    -- On a buffer of fewer than 2^63 bytes, where the character functions take the zero behind it for no
    -- digit and no letter, `lex` ends, and its tokens lie in the buffer, with that zero, in the order of
    -- the list and without overlap; the text of each is what stands at its location, and it has the kind
    -- of value that its type wants.
    pub lex-Ordered :
        (ds : DiagnosticsManager)
        → EndsWords cs
        → length buffer < 2 ^ 63
        → (lx : Lexer) × (lex buffer cs ds ≡ ok lx)
          × Ordered 0 lx.tokens (length buffer + 1)
          × All (IsCut buffer) lx.tokens
    lex-Ordered ds w h =
        let (lx, q, x, b, one) = lex-Runs ds w h in
        (
          lx,
          q,
          rw x.added
              (Ordered-wider 0 lx.lexeme_start (length buffer + 1) x.new (omega arith) x.ordered),
          rw x.added x.cut,
        )

    -- On a buffer of fewer than 2^63 bytes, where the character functions take the zero behind it for no
    -- digit and no letter, `lex` ends with 0 alone on the stack of levels and with as many `DEDENT`s as
    -- `INDENT`s among its tokens; among its first tokens, however many, there are no more `DEDENT`s than
    -- `INDENT`s.
    pub lex-dedents :
        (ds : DiagnosticsManager)
        → EndsWords cs
        → length buffer < 2 ^ 63
        → (lx : Lexer) × (lex buffer cs ds ≡ ok lx)
          × (lx.indentation_levels ≡ 0 ∷ [])
          × (count dedent lx.tokens ≡ count indent lx.tokens)
          × ((n : ℕ) → count dedent (take n lx.tokens) ≤ count indent (take n lx.tokens))
    unfolding count
    lex-dedents ds w h =
        let (lx, q, x, b, one) = lex-Runs ds w h in
        (
          lx,
          q,
          lowest lx.indentation_levels (x.stack refl) one,
          omega (arith, x.balance, one),
          λ n. rw x.added (
              omega (
                arith,
                Nested-take 1 (length lx.indentation_levels) n x.new (omega arith) (x.nested refl),
              )),
        )
