-- ===== src/Lexer/TokenCut.antt =====
-- The `switch` of `Lexer::lex` of `src/lexer/Lexer.cpp`: each case ends, with its token cut.
use choco_c.Prelude.{
  ℕ, ◌+◌, ◌^◌, ◌≤◌, ◌<◌, ◌≡◌, refl, subst, inl, inr, Bool, true, false, not, ◌&&◌, ◌||◌, [], ◌∷◌,
  Text, arith, length, Bool-cases, ◌==◌, if◌then◌else◌,
}
use choco_c.TokenType.{
  TokenType, type_eq, ordinal, indent, dedent, invalid, plus, minus, rarrow, mult, div, modulo,
  equal, assign, nequal, less, less_eq, great, great_eq, dot, open_brack, close_brack, comma, colon,
  open_paren, close_paren,
}
use choco_c.Token.{monostate, has_value_of}
use choco_c.Diagnostics.{DiagId}
use choco_c.Lexer.Characters.{Characters, EndsWords}
use choco_c.Lexer.Scanner.{Lexer, is_among, matches_char, advance_char}
use choco_c.Lexer.Lines.{Outcome, ok, handle_new_line}
use choco_c.Lexer.Words.{diagnose_start}
use choco_c.Lexer.Lex.{add, match_second, expect_second, carriage_return, scan_other, scan_token}
use choco_c.Lexer.Stack.{IsStack}
use choco_c.Lexer.Cuts.{
  position, Extends, Extends-quiet, Extends-Moved, Extends-add_token, Moved-longer, Runs,
  Runs-after, Runs-if,
}
use choco_c.Lexer.Moves.{matched, advance_char-Moved}
use choco_c.Lexer.Balance.{handle_new_line-Runs, skip_whitespace-Runs}
use choco_c.Lexer.WordsCut.{
  add_token-keeps, skip_comment-Runs, scan_id_or_keyword-Runs, scan_number-Runs,
}
use choco_c.Lexer.StringsCut.{scan_string-Runs}

-- A type whose tokens have no value and leave the stack.
plain : TokenType → Bool
unfolding has_value_of type_eq ordinal
plain t = not (type_eq t indent) && not (type_eq t dedent) && has_value_of t monostate

module _ (buffer : Text) where
  -- Where a case of the `switch` ends.
  abbrev pub Cased : Lexer → Outcome → Type 0
  Cased lx r = Runs buffer (length buffer + 1) lx r

  shorter : (lx : Lexer) (r : Outcome) → Runs buffer (length buffer) lx r → Cased lx r
  shorter lx r (last, q, x, w) = (last, q, x, omega (arith, w))

  plain-Extends :
      (t : TokenType) (lx : Lexer)
      → plain t ≡ true
      → 0 < lx.lexeme_length
      → Extends buffer lx (add buffer t lx)
  unfolding plain
  plain-Extends t lx h g =
      Extends-add_token buffer t monostate lx (ground arith) (ground arith) (ground arith) g

  add-Runs :
      (t : TokenType) (lx : Lexer)
      → plain t ≡ true
      → position lx ≤ length buffer
      → 0 < lx.lexeme_length
      → Cased lx (ok (add buffer t lx))
  add-Runs t lx h i g =
      (_, refl, plain-Extends t lx h g, omega (arith, add_token-keeps buffer t monostate lx))

  invalid-Runs :
      (lx : Lexer)
      → position lx ≤ length buffer
      → 0 < lx.lexeme_length
      → Cased lx (ok (add buffer invalid (diagnose_start DiagId.unexpected_character lx)))
  unfolding plain
  invalid-Runs lx i g =
      let told = diagnose_start DiagId.unexpected_character lx in
      Runs-after buffer (length buffer + 1) lx told _
        (Extends-quiet buffer lx told refl refl (omega arith) (omega arith))
        (add-Runs invalid told refl i g)

  -- The token behind a second character.
  second-Runs :
      (c : ℕ) (long : TokenType) (lx : Lexer)
      → length buffer < 2 ^ 63
      → plain long ≡ true
      → is_among 0 (c ∷ []) ≡ false
      → matches_char buffer (c ∷ []) lx ≡ true
      → position lx ≤ length buffer
      → 0 < lx.lexeme_length
      → Cased lx (ok (add buffer long (advance_char buffer lx)))
  second-Runs c long lx h p z e i g =
      let m = advance_char-Moved buffer (length buffer) lx h i (matched buffer (c ∷ []) lx z e) in
      Runs-after buffer (length buffer + 1) lx _ _
        (Extends-Moved buffer (length buffer) lx (advance_char buffer lx) m)
        (add-Runs long (advance_char buffer lx) p m.within (omega (arith, g, Moved-longer m)))

  match_second-Runs :
      (c : ℕ) (long short : TokenType) (lx : Lexer)
      → length buffer < 2 ^ 63
      → plain long ≡ true
      → plain short ≡ true
      → is_among 0 (c ∷ []) ≡ false
      → position lx ≤ length buffer
      → 0 < lx.lexeme_length
      → Cased lx (ok (match_second buffer c long short lx))
  unfolding match_second
  match_second-Runs c long short lx h p q z i g =
      elim (Bool-cases (matches_char buffer (c ∷ []) lx)) [
        | inl e ↦ subst (Cased lx) (rw (match_second, e) refl) (second-Runs c long lx h p z e i g)
        | inr e ↦ subst (Cased lx) (rw (match_second, e) refl) (add-Runs short lx q i g)
      ]

  expect_second-Runs :
      (c : ℕ) (long : TokenType) (lx : Lexer)
      → length buffer < 2 ^ 63
      → plain long ≡ true
      → is_among 0 (c ∷ []) ≡ false
      → position lx ≤ length buffer
      → 0 < lx.lexeme_length
      → Cased lx (ok (expect_second buffer c long lx))
  unfolding expect_second
  expect_second-Runs c long lx h p z i g = elim (Bool-cases (matches_char buffer (c ∷ []) lx)) [
    | inl e ↦ subst (Cased lx) (rw (expect_second, e) refl) (second-Runs c long lx h p z e i g)
    | inr e ↦ subst (Cased lx) (rw (expect_second, e) refl) (invalid-Runs lx i g)
  ]

  new_line-Runs :
      (lx : Lexer)
      → length buffer < 2 ^ 63
      → position lx ≤ length buffer
      → IsStack lx.indentation_levels
      → 0 < lx.lexeme_length
      → Cased lx (handle_new_line buffer lx)
  new_line-Runs lx h i s g =
      handle_new_line-Runs buffer (length buffer + 1) lx h (omega arith) (omega arith) (omega arith)
        s g

  carriage_return-Runs :
      (lx : Lexer)
      → length buffer < 2 ^ 63
      → position lx ≤ length buffer
      → IsStack lx.indentation_levels
      → 0 < lx.lexeme_length
      → Cased lx (carriage_return buffer lx)
  unfolding carriage_return is_among
  carriage_return-Runs lx h i s g = elim (Bool-cases (matches_char buffer (b'\n' ∷ []) lx)) [
    | inl e ↦
        let m =
          advance_char-Moved buffer (length buffer) lx h i
            (matched buffer (b'\n' ∷ []) lx refl e) in
        subst (Cased lx) (rw (carriage_return, e) refl) (
          Runs-after buffer (length buffer + 1) lx _ _
            (Extends-Moved buffer (length buffer) lx (advance_char buffer lx) m)
            (new_line-Runs (advance_char buffer lx) h m.within (rw m.same_levels s)
              (omega (arith, g, Moved-longer m))))
    | inr e ↦ subst (Cased lx) (rw (carriage_return, e) refl) (new_line-Runs lx h i s g)
  ]

  module _ (cs : Characters) where
    scan_other-Runs :
        (c : ℕ) (lx : Lexer)
        → EndsWords cs
        → length buffer < 2 ^ 63
        → position lx ≤ length buffer
        → 0 < lx.lexeme_length
        → Cased lx (scan_other buffer cs c lx)
    unfolding scan_other
    scan_other-Runs c lx w h i g =
        Runs-if buffer (length buffer + 1) lx (cs.is_alpha c || c == b'_') _ _
          (shorter lx _ (scan_id_or_keyword-Runs buffer cs lx w h i g))
          (Runs-if buffer (length buffer + 1) lx (cs.is_digit c) _ _
            (shorter lx _ (scan_number-Runs buffer cs lx w h i g)) (invalid-Runs lx i g))

    -- Every case ends, the stack in order, from inside the buffer.
    pub scan_token-Runs :
        (c : ℕ) (lx : Lexer)
        → EndsWords cs
        → length buffer < 2 ^ 63
        → position lx ≤ length buffer
        → IsStack lx.indentation_levels
        → 0 < lx.lexeme_length
        → Cased lx (scan_token buffer cs c lx)
    unfolding scan_token plain is_among
    scan_token-Runs c lx w h i s g =
        let case : (t : Bool) (r s : Outcome)
            → Cased lx r
            → Cased lx s
            → Cased lx (if t then r else s) =
          Runs-if buffer (length buffer + 1) lx in
        case (c == b'+') _ _ (add-Runs plus lx refl i g) (
          case (c == b'-') _ _ (match_second-Runs b'>' rarrow minus lx h refl refl refl i g) (
            case (c == b'*') _ _ (add-Runs mult lx refl i g) (
              case (c == b'/') _ _ (expect_second-Runs b'/' div lx h refl refl i g) (
                case (c == b'%') _ _ (add-Runs modulo lx refl i g) (
                  case (c == b'=') _ _ (match_second-Runs b'=' equal assign lx h refl refl refl i g)
                    (case (c == b'!') _ _ (expect_second-Runs b'=' nequal lx h refl refl i g) (
                      case (c == b'<') _ _
                        (match_second-Runs b'=' less_eq less lx h refl refl refl i g)
                        (case (c == b'>') _ _
                          (match_second-Runs b'=' great_eq great lx h refl refl refl i g)
                          (case (c == b'.') _ _ (add-Runs dot lx refl i g) (
                            case (c == b'[') _ _ (add-Runs open_brack lx refl i g) (
                              case (c == b']') _ _ (add-Runs close_brack lx refl i g) (
                                case (c == b',') _ _ (add-Runs comma lx refl i g) (
                                  case (c == b':') _ _ (add-Runs colon lx refl i g) (
                                    case (c == b'(') _ _ (add-Runs open_paren lx refl i g) (
                                      case (c == b')') _ _ (add-Runs close_paren lx refl i g) (
                                        case (c == b'\r') _ _ (carriage_return-Runs lx h i s g) (
                                          case (c == b'\n') _ _ (new_line-Runs lx h i s g) (
                                            case (c == b'#') _ _
                                              (shorter lx _ (skip_comment-Runs buffer lx h i))
                                              (case (c == b'"') _ _
                                                (scan_string-Runs buffer cs lx h i g)
                                                (case (c == b'\t' || c == b' ') _ _
                                                  (shorter lx _ (
                                                    skip_whitespace-Runs buffer (length buffer) lx h
                                                      (omega arith) (omega arith) i))
                                                  (scan_other-Runs c lx w h i g)))))))))))))))))))))
