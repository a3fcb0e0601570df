-- ===== src/Lexer/Balance.antt =====
-- `handleIndentation` and `handleNewLine` of `src/lexer/Lexer.cpp`: the stack of levels and the tokens.
use choco_c.Prelude.{
  ℕ, ◌+◌, ◌^◌, ◌≤◌, ◌<◌, ◌≡◌, refl, subst, inl, inr, true, false, [], ◌∷◌, some, Text, arith,
  length, Bool-cases,
}
use choco_c.TokenType.{type_eq, ordinal, newline}
use choco_c.Token.{monostate, has_value_of}
use choco_c.Lexer.Scanner.{Lexer, matches_char, is_among, skip_chars, add_token, next_lexeme}
use choco_c.Lexer.Lines.{ok, enough, skip_whitespace, handle_indentation, handle_new_line}
use choco_c.Lexer.Stack.{IsStack, Balanced}
use choco_c.Lexer.Cuts.{
  position, Moved, Extends-quiet, Extends-Moved, Extends-trans, Extends-add_token, Runs, Runs-after,
}
use choco_c.Lexer.Moves.{skip_chars-Moved}
use choco_c.Lexer.Levels.{handle_level-Runs}

module _ (buffer : Text) where
  -- The current position, at most one past the end of the buffer.
  abbrev pub IsInside : Lexer → Type 0
  IsInside lx = position lx ≤ length buffer + 1

  -- Runs of white space.
  abbrev pub SkippedSpace : (b : ℕ) → Lexer → Type 0
  SkippedSpace b lx =
      (lx' : Lexer) × (skip_chars buffer (enough buffer) (b' ' ∷ b'\t' ∷ []) lx ≡ some lx')
      × Moved b lx lx'

  pub space-Moved :
      (b : ℕ) (lx : Lexer)
      → length buffer < 2 ^ 63
      → length buffer ≤ b
      → b ≤ length buffer + 1
      → position lx ≤ b
      → SkippedSpace b lx
  unfolding is_among
  space-Moved b lx h k k' i =
      skip_chars-Moved buffer b (enough buffer) (b' ' ∷ b'\t' ∷ []) lx h refl k k' i (omega arith)

  pub handle_indentation-Runs :
      (b : ℕ) (lx : Lexer)
      → length buffer < 2 ^ 63
      → length buffer ≤ b
      → b ≤ length buffer + 1
      → position lx ≤ b
      → IsStack lx.indentation_levels
      → Runs buffer b lx (handle_indentation buffer lx)
  unfolding handle_indentation
  handle_indentation-Runs b lx h k k' i s =
      let (there, q, m) = space-Moved b lx h k k' i in
      let moved = Extends-Moved buffer b lx there m in
      let logical : Lexer = record there { is_blank_line = false } in
      let on =
        Extends-trans buffer moved
          (Extends-quiet buffer there logical refl refl (omega arith) (omega arith)) in
      elim (Bool-cases (matches_char buffer (b'#' ∷ b'\r' ∷ b'\n' ∷ []) there)) [
        | inl e ↦ (there, rw (handle_indentation, q, e) refl, moved, m.within)
        | inr e ↦
            let (last, p, x, w) = Runs-after buffer b lx logical _ on (
              handle_level-Runs buffer b there.indentation_levels logical refl (moved.stack s)
                m.within) in
            (last, rw (handle_indentation, q, e) p, x, w)
      ]

  pub handle_new_line-Runs :
      (b : ℕ) (lx : Lexer)
      → length buffer < 2 ^ 63
      → length buffer ≤ b
      → b ≤ length buffer + 1
      → position lx ≤ b
      → IsStack lx.indentation_levels
      → 0 < lx.lexeme_length
      → Runs buffer b lx (handle_new_line buffer lx)
  unfolding handle_new_line add_token has_value_of type_eq ordinal
  handle_new_line-Runs b lx h k k' i s g = elim (Bool-cases lx.is_blank_line) [
    | inl e ↦
        let cut : Lexer = record (next_lexeme buffer lx) { is_blank_line = true } in
        subst (Runs buffer b lx) (rw e refl) (
          Runs-after buffer b lx cut _
            (Extends-quiet buffer lx cut refl refl (omega arith) (omega arith))
            (handle_indentation-Runs b cut h k k' (omega arith) s))
    | inr e ↦
        let ended : Lexer = add_token buffer newline monostate lx in
        let cut : Lexer = record ended { is_blank_line = true } in
        let on =
          Extends-trans buffer (Extends-add_token buffer newline monostate lx refl refl refl g)
            (Extends-quiet buffer ended cut refl refl (omega arith) (omega arith)) in
        subst (Runs buffer b lx) (rw e refl)
          (Runs-after buffer b lx cut _ on (handle_indentation-Runs b cut h k k' (omega arith) s))
  ]

  pub skip_whitespace-Runs :
      (b : ℕ) (lx : Lexer)
      → length buffer < 2 ^ 63
      → length buffer ≤ b
      → b ≤ length buffer + 1
      → position lx ≤ b
      → Runs buffer b lx (skip_whitespace buffer lx)
  unfolding skip_whitespace
  skip_whitespace-Runs b lx h k k' i =
      let (there, q, m) = space-Moved b lx h k k' i in
      (
        next_lexeme buffer there,
        rw (skip_whitespace, q) refl,
        Extends-trans buffer (Extends-Moved buffer b lx there m) (
            Extends-quiet buffer there (next_lexeme buffer there) refl refl (omega arith)
              (omega arith)),
        omega (arith, m.within),
      )

  -- With the stack in order and the position inside a buffer of fewer than 2^63 bytes,
  -- `handleIndentation` ends and never looks at the top of an empty stack. It leaves the stack in order,
  -- with as many `INDENT`s more than `DEDENT`s as the stack has grown by.
  pub handle_indentation-Balanced :
      (lx : Lexer)
      → length buffer < 2 ^ 63
      → IsInside lx
      → IsStack lx.indentation_levels
      → (lx' : Lexer) × (handle_indentation buffer lx ≡ ok lx')
        × IsStack lx'.indentation_levels
        × Balanced lx lx'
  handle_indentation-Balanced lx h i s =
      let (lx', q, e, w) =
        handle_indentation-Runs (length buffer + 1) lx h (omega arith) (omega arith) i s in
      (lx', q, e.stack s, e.balance)
