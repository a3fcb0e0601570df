-- ===== src/Lexer/WordsCut.antt =====
-- Comments, numbers and words of `src/lexer/Lexer.cpp`: each scan ends, with its token cut.
use choco_c.Prelude.{
  ℕ, ◌^◌, ◌≤◌, ◌<◌, ◌≡◌, refl, sym, ap, ◌∙◌, subst, ◌⊎◌, inl, inr, Bool, true, false, not, ◌&&◌,
  List, [], ◌∷◌, Option, none, some, Text, ℤ, arith, length, Option-cases, text_eq, if◌then◌else◌,
}
use choco_c.TokenType.{
  TokenType, type_eq, ordinal, invalid, int_lit, id, true_kw, false_kw, indent, dedent, keywords,
  lookup,
}
use choco_c.Token.{TokenValue, monostate, int, bool, str, has_value_of}
use choco_c.Diagnostics.{DiagId}
use choco_c.Lexer.Characters.{Characters, EndsWords}
use choco_c.Lexer.Scanner.{Lexer, is_among, add_token, next_lexeme, lexeme}
use choco_c.Lexer.Lines.{Outcome, ok, enough}
use choco_c.Lexer.Words.{
  diagnose_start, skip_comment, add_number, add_word, end_number, scan_number, in_word, end_word,
  scan_id_or_keyword,
}
use choco_c.Lexer.Cuts.{
  position, Moved, Extends, Extends-quiet, Extends-Moved, Extends-trans, Extends-add_token,
  Moved-longer, Runs,
}
use choco_c.Lexer.Moves.{skip_until-Moved, skip_while-Moved}

-- The value of a word's token.
word_value : TokenType → Text → TokenValue
word_value true_kw value = bool true
word_value false_kw value = bool false
word_value id value = str value
word_value type value = monostate

add_word_lem :
    (buffer : Text) (type : TokenType) (value : Text) (lx : Lexer)
    → add_word buffer type value lx ≡ add_token buffer type (word_value type value) lx
unfolding add_word word_value
add_word_lem buffer true_kw value lx = refl
add_word_lem buffer _ value lx = refl

-- A type that a word may have: its value fits.
fits : TokenType → Bool
unfolding word_value has_value_of type_eq ordinal
fits t = not (type_eq t indent) && not (type_eq t dedent) && has_value_of t (word_value t [])

fits-value :
    (t : TokenType) (value : Text)
    → has_value_of t (word_value t value) ≡ has_value_of t (word_value t [])
unfolding word_value has_value_of
fits-value true_kw value = refl
fits-value _ value = refl

-- A test of every type of a table.
all_types : (TokenType → Bool) → List (Text × TokenType) → Bool
all_types p [] = true
all_types p ((k, t) ∷ m) = p t && all_types p m

and_true : (a b : Bool) → a && b ≡ true → (a ≡ true) × (b ≡ true)
and_true true b e = (refl, e)
and_true false b e = cc

found_or_later :
    (b : Bool) (v t : TokenType) (o : Option TokenType)
    → (if b then some v else o) ≡ some t
    → (v ≡ t) ⊎ (o ≡ some t)
found_or_later true v t o e = inl (cc)
found_or_later false v t o e = inr e

lookup-all_types :
    (p : TokenType → Bool) (k : Text) (m : List (Text × TokenType)) (t : TokenType)
    → all_types p m ≡ true
    → lookup k m ≡ some t
    → p t ≡ true
unfolding lookup all_types
lookup-all_types p k [] t a e = cc
lookup-all_types p k ((j, v) ∷ m) t a e =
    let (now, later) = and_true (p v) (all_types p m) a in
    elim (found_or_later (text_eq j k) v t (lookup k m) e) [
      | inl q ↦ subst (λ x. p x ≡ true) q now
      | inr q ↦ lookup-all_types p k m t later q
    ]

keywords-fit : all_types fits keywords ≡ true
unfolding all_types fits
keywords-fit = refl

module _ (buffer : Text) where
  -- A token whose type is no `INDENT` and no `DEDENT` and whose value fits leaves the position.
  pub add_token-keeps :
      (type : TokenType) (value : TokenValue) (lx : Lexer)
      → position (add_token buffer type value lx) ≡ position lx
  unfolding add_token
  add_token-keeps type value lx = omega arith

  add_word-Extends :
      (type : TokenType) (value : Text) (lx : Lexer)
      → fits type ≡ true
      → 0 < lx.lexeme_length
      → Extends buffer lx (add_word buffer type value lx)
  unfolding fits
  add_word-Extends type value lx h g =
      subst (Extends buffer lx) (sym (add_word_lem buffer type value lx)) (
        Extends-add_token buffer type (word_value type value) lx (ground arith) (ground arith)
          (ground (arith, fits-value type value)) g)

  -- Where the method ends at the given lexer.
  pub Runs-at :
      (b : ℕ) (lx there last : Lexer) (r : Outcome)
      → r ≡ ok last
      → Moved b lx there
      → Extends buffer there last
      → position last ≡ position there
      → Runs buffer b lx r
  Runs-at b lx there last r e m x p =
      (last, e, Extends-trans buffer (Extends-Moved buffer b lx there m) x, omega (arith, m.within))

  pub skip_comment-Runs :
      (lx : Lexer)
      → length buffer < 2 ^ 63
      → position lx ≤ length buffer
      → Runs buffer (length buffer) lx (skip_comment buffer lx)
  unfolding skip_comment is_among
  skip_comment-Runs lx h i =
      let (there, q, m) =
        skip_until-Moved buffer (enough buffer) (b'\r' ∷ b'\n' ∷ 0 ∷ []) lx h refl i
          (omega arith) in
      Runs-at (length buffer) lx there (next_lexeme buffer there) _ (rw (skip_comment, q) refl) m
        (Extends-quiet buffer there (next_lexeme buffer there) refl refl (omega arith)
          (omega arith))
        (omega arith)

  add_word-position :
      (type : TokenType) (value : Text) (lx : Lexer)
      → position (add_word buffer type value lx) ≡ position lx
  add_word-position type value lx =
      ap position (add_word_lem buffer type value lx)
      ∙ add_token-keeps type (word_value type value) lx

  end_word-Extends : (lx : Lexer) → 0 < lx.lexeme_length → Extends buffer lx (end_word buffer lx)
  unfolding end_word fits
  end_word-Extends lx g = elim (Option-cases (lookup (lexeme buffer lx) keywords)) [
    | inl n ↦
        subst (Extends buffer lx) (rw (end_word, n) refl)
          (add_word-Extends id (lexeme buffer lx) lx refl g)
    | inr (t, e) ↦ subst (Extends buffer lx) (rw (end_word, e) refl) (
        add_word-Extends t (lexeme buffer lx) lx
          (lookup-all_types fits (lexeme buffer lx) keywords t keywords-fit e) g)
  ]

  end_word-position : (lx : Lexer) → position (end_word buffer lx) ≡ position lx
  unfolding end_word
  end_word-position lx = elim (Option-cases (lookup (lexeme buffer lx) keywords)) [
    | inl n ↦ rw (end_word, n) (add_word-position id (lexeme buffer lx) lx)
    | inr (t, e) ↦ rw (end_word, e) (add_word-position t (lexeme buffer lx) lx)
  ]

  pub scan_id_or_keyword-Runs :
      (cs : Characters) (lx : Lexer)
      → EndsWords cs
      → length buffer < 2 ^ 63
      → position lx ≤ length buffer
      → 0 < lx.lexeme_length
      → Runs buffer (length buffer) lx (scan_id_or_keyword buffer cs lx)
  unfolding scan_id_or_keyword
  scan_id_or_keyword-Runs cs lx w h i g =
      let (there, q, m) =
        skip_while-Moved buffer (in_word cs) (enough buffer) lx h (rw w.no_alnum refl) i
          (omega arith) in
      Runs-at (length buffer) lx there (end_word buffer there) _ (rw (scan_id_or_keyword, q) refl) m
        (end_word-Extends there (omega (arith, g, Moved-longer m))) (end_word-position there)

  -- The token of a number, after its reports.
  add_number-Extends :
      (zeros : Bool) (n : Option ℤ) (lx : Lexer)
      → 0 < lx.lexeme_length
      → Extends buffer lx (add_number buffer zeros n lx)
  unfolding add_number type_eq ordinal has_value_of
  add_number-Extends zeros none lx g =
      Extends-trans buffer
        (Extends-quiet buffer lx (diagnose_start DiagId.integer_out_of_range lx) refl refl
          (omega arith) (omega arith))
        (Extends-add_token buffer invalid monostate _ refl refl refl g)
  add_number-Extends true (some n) lx g =
      Extends-add_token buffer invalid monostate lx refl refl refl g
  add_number-Extends false (some n) lx g =
      Extends-add_token buffer int_lit (int n) lx refl refl refl g

  add_number-position :
      (zeros : Bool) (n : Option ℤ) (lx : Lexer)
      → position (add_number buffer zeros n lx) ≡ position lx
  unfolding add_number
  add_number-position zeros none lx =
      add_token-keeps invalid monostate (diagnose_start DiagId.integer_out_of_range lx)
  add_number-position true (some n) lx = add_token-keeps invalid monostate lx
  add_number-position false (some n) lx = add_token-keeps int_lit (int n) lx

  -- The number's token, after the report of leading zeros.
  with_zeros :
      (zeros : Bool) (n : Option ℤ) (lx : Lexer)
      → 0 < lx.lexeme_length
      → Extends buffer lx
          (add_number buffer zeros n (if zeros then diagnose_start DiagId.leading_zeros lx else lx))
        × (position (
              add_number buffer zeros n
                (if zeros then diagnose_start DiagId.leading_zeros lx else lx))
            ≡ position lx)
  with_zeros true n lx g =
      let told = diagnose_start DiagId.leading_zeros lx in
      (
        Extends-trans buffer (Extends-quiet buffer lx told refl refl (omega arith) (omega arith))
            (add_number-Extends true n told g),
        add_number-position true n told,
      )
  with_zeros false n lx g = (add_number-Extends false n lx g, add_number-position false n lx)

  pub scan_number-Runs :
      (cs : Characters) (lx : Lexer)
      → EndsWords cs
      → length buffer < 2 ^ 63
      → position lx ≤ length buffer
      → 0 < lx.lexeme_length
      → Runs buffer (length buffer) lx (scan_number buffer cs lx)
  unfolding scan_number end_number
  scan_number-Runs cs lx w h i g =
      let (there, q, m) =
        skip_while-Moved buffer cs.is_digit (enough buffer) lx h w.no_digit i (omega arith) in
      let (x, p) =
        with_zeros _ (cs.to_integer (lexeme buffer there)) there
          (omega (arith, g, Moved-longer m)) in
      Runs-at (length buffer) lx there (end_number buffer cs there) _ (rw (scan_number, q) refl) m x
        p
