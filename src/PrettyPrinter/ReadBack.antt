-- ===== src/PrettyPrinter/ReadBack.antt =====
-- A literal that `src/ast/PrettyPrinter.cpp` has printed, read by `lex` of `src/lexer/Lexer.cpp`.
use choco_c.Prelude.{
  ℕ, zero, suc, ◌+◌, ◌^◌, ◌<◌, ◌≡◌, refl, sym, ap, subst, Bool, true, false, ◌&&◌, [], ◌∷◌, ◌++◌,
  some, Text, codes, arith, length, ltb, ◌==◌, All, pos, negsuc, if◌then◌else◌,
}
use choco_c.TokenType.{TokenType, int_lit, true_kw, false_kw, lookup}
use choco_c.Token.{Token, TokenValue, monostate, bool, int, str}
use choco_c.Diagnostics.{DiagnosticsManager}
use choco_c.Lexer.Characters.{Characters, IsAscii, is_decimal, is_letter, read_decimal}
use choco_c.Lexer.Scanner.{Lexer, is_among, add_token}
use choco_c.Lexer.Lines.{Outcome, ok, enough}
use choco_c.Lexer.Words.{in_word, add_word, end_word, scan_id_or_keyword, starts_with}
use choco_c.Lexer.Lex.{scan_other, scan_token, lex}
use choco_c.Lexer.Single.{reading, lex-one}
use choco_c.PrettyPrinter.{digits, decimal, print_value}
use choco_c.PrettyPrinter.Escaped.{IsKept, escaped, print_chars-escaped}
use choco_c.PrettyPrinter.Digits.{
  IsNumber, digits-IsNumber, read_decimal-digits, digits-length, digits-starts,
}
use choco_c.PrettyPrinter.Tokens.{quoted, string_token, skip_to_end, lexeme_all, number_token}

-- A text of digits has a first one.
leads : (s : Text) → 0 < length s → (c : ℕ) × (r : Text) × (s ≡ c ∷ r)
leads [] h = absurd (omega arith)
leads (c ∷ r) h = (c, r, refl)

no_leading_zero :
    (n : ℕ) → starts_with (digits (n + 1) n) b'0' && ltb 1 (length (digits (n + 1) n)) ≡ false
unfolding digits
no_leading_zero zero = refl
no_leading_zero (suc n) = rw (digits-starts (suc n + 1) (suc n) (omega arith) (omega arith)) refl

digit_begins :
    (c : ℕ)
    → is_decimal c ≡ true
    → (is_among c (b' ' ∷ b'\t' ∷ []) ≡ false)
      × (is_among c (b'#' ∷ b'\r' ∷ b'\n' ∷ []) ≡ false)
      × (c == 0 ≡ false)
unfolding is_among
digit_begins c h = (ground arith, ground arith, ground arith)

-- The values of the literals that a text may hold: numbers are not negative, and strings keep clear of the
-- two characters that end them and have no escape.
abbrev pub IsReadable : TokenValue → Type 0
IsReadable monostate = ⊥
IsReadable (bool b) = Unit
IsReadable (int (pos n)) = n < 2 ^ 31
IsReadable (int (negsuc n)) = ⊥
IsReadable (str s) = All IsKept s

-- The outcome is one token, which is the whole of the text, and no report.
abbrev pub IsReadAs : Text → DiagnosticsManager → TokenValue → Outcome → Type 0
IsReadAs text ds v r =
    (lx : Lexer) × (t : Token) × (r ≡ ok lx)
    × (lx.tokens ≡ t ∷ [])
    × (t.value ≡ v)
    × (t.text ≡ text)
    × (lx.diag_manager ≡ ds)

module _ (cs : Characters) (ds : DiagnosticsManager) where
  one_token :
      (c : ℕ) (rest : Text) (type : TokenType) (value : TokenValue)
      → length (c ∷ rest) < 2 ^ 63
      → is_among c (b' ' ∷ b'\t' ∷ []) ≡ false
      → is_among c (b'#' ∷ b'\r' ∷ b'\n' ∷ []) ≡ false
      → c == 0 ≡ false
      → scan_token (c ∷ rest) cs c (reading ds 1)
        ≡ ok (add_token (c ∷ rest) type value (reading ds (length (c ∷ rest))))
      → IsReadAs (c ∷ rest) ds value (lex (c ∷ rest) cs ds)
  unfolding add_token
  one_token c rest type value h e f z s =
      (_, _, lex-one c rest cs ds type value h e f z s, refl, refl, lexeme_all (c ∷ rest) ds, refl)

  string_back :
      (s : Text)
      → length (quoted s) < 2 ^ 63
      → All IsKept s
      → IsReadAs (quoted s) ds (str s) (lex (quoted s) cs ds)
  unfolding is_among
  string_back s h k =
      let (type, q) = string_token cs ds s h k in
      one_token b'"' (escaped s ++ b'"' ∷ []) type (str s) h refl refl refl q

  number_back :
      (n : ℕ)
      → IsAscii cs
      → length (digits (n + 1) n) < 2 ^ 63
      → n < 2 ^ 31
      → IsReadAs (digits (n + 1) n) ds (int (pos n)) (lex (digits (n + 1) n) cs ds)
  unfolding is_among
  number_back n a h fits =
      let (c, r, e) = leads (digits (n + 1) n) (digits-length (n + 1) n (omega arith)) in
      let num = subst IsNumber e (digits-IsNumber (n + 1) n) in
      let small = subst (λ s. length s < 2 ^ 63) e h in
      let lead =
        subst (λ s. starts_with s b'0' && ltb 1 (length s) ≡ false) e (no_leading_zero n) in
      let read =
        subst (λ s. read_decimal 0 s ≡ some n) e (read_decimal-digits (n + 1) n (omega arith)) in
      let (blank, line, zero_byte) = digit_begins c num.0 in
      subst (λ s. IsReadAs s ds (int (pos n)) (lex s cs ds)) (sym e)
        (one_token c r int_lit (int (pos n)) small blank line zero_byte
          (number_token cs ds c r n a small num lead read fits))

  in_word-letters :
      (s : Text) → IsAscii cs → All (λ c. is_letter c ≡ true) s → All (λ c. in_word cs c ≡ true) s
  in_word-letters [] a h = tt
  in_word-letters (c ∷ s) a h = (rw (a.alnum c, h.0) refl, in_word-letters s a h.1)

  word_back :
      (b : Bool)
      → IsAscii cs
      → IsReadAs
          (if b then codes "True" else codes "False")
          ds
          (bool b)
          (lex (if b then codes "True" else codes "False") cs ds)
  unfolding scan_token scan_other scan_id_or_keyword end_word add_word lookup is_among
  word_back true a =
      let text = codes "True" in
      let read =
        skip_to_end text ds (in_word cs) (codes "rue") (enough text) 1 (omega arith)
          (rw (a.alnum 0) refl) (in_word-letters (codes "rue") a (refl, (refl, (refl, tt)))) refl
          refl (omega arith) in
      one_token b'T' (codes "rue") true_kw (bool true) (omega arith) refl refl refl
        (rw (scan_token, scan_other, a.alpha b'T', scan_id_or_keyword, read) refl)
  word_back false a =
      let text = codes "False" in
      let read =
        skip_to_end text ds (in_word cs) (codes "alse") (enough text) 1 (omega arith)
          (rw (a.alnum 0) refl)
          (in_word-letters (codes "alse") a (refl, (refl, (refl, (refl, tt))))) refl refl
          (omega arith) in
      one_token b'F' (codes "alse") false_kw (bool false) (omega arith) refl refl refl
        (rw (scan_token, scan_other, a.alpha b'F', scan_id_or_keyword, read) refl)

  -- With the character tests and `to_integer` as documented, `lex` reads a literal that the printer has printed, in
  -- fewer than 2^63 bytes, as one token, the whole of the text, whose value is the literal's, and reports
  -- nothing: for each Boolean, each number of 0 or more, and each string without a zero byte and a
  -- carriage return.
  pub lex-print_value :
      (v : TokenValue)
      → IsAscii cs
      → IsReadable v
      → length (print_value v []) < 2 ^ 63
      → IsReadAs (print_value v []) ds v (lex (print_value v []) cs ds)
  unfolding print_value decimal
  lex-print_value monostate a r h = absurd r
  lex-print_value (bool b) a r h = word_back b a
  lex-print_value (int (pos n)) a r h = number_back n a h r
  lex-print_value (int (negsuc n)) a r h = absurd r
  lex-print_value (str s) a r h =
      let e : quoted s ≡ print_value (str s) [] =
        sym (ap (λ t. t ++ b'"' ∷ []) (print_chars-escaped s (b'"' ∷ []))) in
      subst (λ t. IsReadAs t ds (str s) (lex t cs ds)) e
        (string_back s (subst (λ t. length t < 2 ^ 63) (sym e) h) r)
