-- ===== src/Lexer/StringsCut.antt =====
-- `scanString` of `src/lexer/Lexer.cpp`: the scan ends, with its token cut.
use choco_c.Prelude.{
  ◌+◌, ◌^◌, ◌≤◌, ◌<◌, refl, subst, inl, inr, Bool, true, false, [], ◌∷◌, Text, arith, length,
  Bool-cases, if◌then◌else◌,
}
use choco_c.TokenType.{TokenType, type_eq, ordinal, invalid, string, id_string}
use choco_c.Token.{monostate, str, has_value_of}
use choco_c.Diagnostics.{DiagId, report, at, with_fixit}
use choco_c.Lexer.Characters.{Characters}
use choco_c.Lexer.Scanner.{Lexer, char_at, advance_char, matches_char, add_token}
use choco_c.Lexer.Lines.{ok, enough}
use choco_c.Lexer.Words.{diagnose}
use choco_c.Lexer.Strings.{missing_quote, add_string, end_string, scan_string}
use choco_c.Lexer.Cuts.{
  Runs-after, position, Moved, Extends-quiet, Extends-Moved, Extends-add_token, Moved-longer, Runs,
}
use choco_c.Lexer.Moves.{advance_any, peek_char-some}
use choco_c.Lexer.WordsCut.{Runs-at, add_token-keeps}
use choco_c.Lexer.StringsLoop.{IsText, string_loop-scanned}

module _ (buffer : Text) where
  -- What `addToken` adds at the string's end, by its type.
  closed-Runs :
      (type : TokenType) (value : Text) (lx closed : Lexer)
      → IsText type
      → Moved (length buffer + 1) lx closed
      → 0 < lx.lexeme_length
      → Runs buffer (length buffer + 1) lx (
          ok (
            if type_eq type invalid
            then add_token buffer type monostate closed
            else add_token buffer type (str value) closed))
  unfolding type_eq ordinal has_value_of
  closed-Runs type value lx closed (inl e) m g = rw e (
      Runs-at buffer (length buffer + 1) lx closed (add_token buffer invalid monostate closed) _
        refl m
        (Extends-add_token buffer invalid monostate closed refl refl refl
          (omega (arith, g, Moved-longer m)))
        (add_token-keeps buffer invalid monostate closed))
  closed-Runs type value lx closed (inr (inl e)) m g = rw e (
      Runs-at buffer (length buffer + 1) lx closed (add_token buffer string (str value) closed) _
        refl m
        (Extends-add_token buffer string (str value) closed refl refl refl
          (omega (arith, g, Moved-longer m)))
        (add_token-keeps buffer string (str value) closed))
  closed-Runs type value lx closed (inr (inr e)) m g = rw e (
      Runs-at buffer (length buffer + 1) lx closed (add_token buffer id_string (str value) closed) _
        refl m
        (Extends-add_token buffer id_string (str value) closed refl refl refl
          (omega (arith, g, Moved-longer m)))
        (add_token-keeps buffer id_string (str value) closed))

  add_string-Runs :
      (type : TokenType) (value : Text) (lx : Lexer)
      → length buffer < 2 ^ 63
      → IsText type
      → position lx ≤ length buffer + 1
      → 0 < lx.lexeme_length
      → Runs buffer (length buffer + 1) lx (ok (add_string buffer type value lx))
  unfolding add_string
  add_string-Runs type value lx h t i g =
      closed-Runs type value lx (advance_char buffer lx) t (advance_any buffer lx h i) g

  end_string-Runs :
      (type : TokenType) (value : Text) (lx : Lexer)
      → length buffer < 2 ^ 63
      → IsText type
      → position lx ≤ length buffer + 1
      → 0 < lx.lexeme_length
      → Runs buffer (length buffer + 1) lx (ok (end_string buffer type value lx))
  unfolding end_string
  end_string-Runs type value lx h t i g = elim (Bool-cases (matches_char buffer (b'"' ∷ []) lx)) [
    | inl e ↦
        subst (Runs buffer (length buffer + 1) lx) (rw (end_string, e) refl)
          (add_string-Runs type value lx h t i g)
    | inr e ↦
        let told =
          diagnose
            (with_fixit (at (report DiagId.unterminated_string) lx.lexeme_start)
              (missing_quote buffer lx))
            lx in
        subst (Runs buffer (length buffer + 1) lx) (rw (end_string, e) refl) (
          Runs-after buffer (length buffer + 1) lx told _
            (Extends-quiet buffer lx told refl refl (omega arith) (omega arith))
            (add_string-Runs invalid value told h (inl refl) i g))
  ]

  first_type-IsText : (b : Bool) → IsText (if b then string else id_string)
  first_type-IsText true = inr (inl refl)
  first_type-IsText false = inr (inr refl)

  pub scan_string-Runs :
      (cs : Characters) (lx : Lexer)
      → length buffer < 2 ^ 63
      → position lx ≤ length buffer
      → 0 < lx.lexeme_length
      → Runs buffer (length buffer + 1) lx (scan_string cs buffer lx)
  unfolding scan_string
  scan_string-Runs cs lx h i g =
      let c = char_at buffer (position lx) in
      let (k, v, there, q, s, m) =
        string_loop-scanned buffer cs (enough buffer) (if cs.is_digit c then string else id_string)
          [] lx h (first_type-IsText (cs.is_digit c)) (omega arith) (omega arith) in
      subst (Runs buffer (length buffer + 1) lx)
        (rw (scan_string, peek_char-some buffer lx i, q) refl)
        (Runs-after buffer (length buffer + 1) lx there _
          (Extends-Moved buffer (length buffer + 1) lx there m)
          (end_string-Runs k v there h s m.within (omega (arith, g, Moved-longer m))))
