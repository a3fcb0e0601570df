-- ===== src/PrettyPrinter/Tokens.antt =====
-- A printed literal, read by `scanString` and `scanNumber` of `src/lexer/Lexer.cpp`.
use choco_c.Prelude.{
  ℕ, zero, suc, ◌+◌, ◌^◌, ◌<◌, ◌≡◌, refl, sym, ap, ◌∙◌, subst, inl, inr, Bool, true, false, ◌&&◌,
  ◌||◌, [], ◌∷◌, ◌++◌, some, Text, arith, length, length-append, take, drop, get_or, ltb, ◌==◌, All,
  ℤ, pos, if◌then◌else◌,
}
use choco_c.TokenType.{TokenType, type_eq, ordinal, invalid, int_lit, string, id_string}
use choco_c.Token.{int, str}
use choco_c.Diagnostics.{DiagnosticsManager}
use choco_c.Lexer.Characters.{Characters, IsAscii, is_decimal, is_letter, read_decimal, int32_of}
use choco_c.Lexer.Scanner.{Lexer, is_among, add_token, lexeme}
use choco_c.Lexer.Lines.{ok, enough}
use choco_c.Lexer.Words.{skip_while, add_number, end_number, scan_number, starts_with}
use choco_c.Lexer.Strings.{add_string, end_string, scan_string}
use choco_c.Lexer.Lex.{scan_other, scan_token}
use choco_c.Lexer.Single.{reading}
use choco_c.Lexer.Moves.{peek_char-some, get_or-beyond}
use choco_c.PrettyPrinter.Escaped.{IsString, IsKept, escaped}
use choco_c.PrettyPrinter.StringTurns.{comes, matches_peek, escaped_loop}
use choco_c.PrettyPrinter.Digits.{IsNumber}

-- The printed string, as text.
abbrev pub quoted : Text → Text
quoted s = b'"' ∷ (escaped s ++ b'"' ∷ [])

quoted-length : (s : Text) → 1 + length (escaped s) + 1 ≡ length (quoted s)
quoted-length s = omega (arith, length-append (escaped s) (b'"' ∷ []))

first_type : (b : Bool) → IsString (if b then string else id_string)
first_type true = inl refl
first_type false = inr refl

not_invalid : (t : TokenType) → IsString t → type_eq t invalid ≡ false
unfolding type_eq ordinal
not_invalid t (inl e) = rw e refl
not_invalid t (inr e) = rw e refl

-- `scanString` takes the whole of a printed string.
pub string_token :
    (cs : Characters) (ds : DiagnosticsManager) (s : Text)
    → length (quoted s) < 2 ^ 63
    → All IsKept s
    → (type : TokenType) × (scan_token (quoted s) cs b'"' (reading ds 1)
        ≡ ok (add_token (quoted s) type (str s) (reading ds (length (quoted s)))))
unfolding scan_token scan_string end_string add_string type_eq ordinal is_among
string_token cs ds s h k =
    let c = get_or (quoted s) 1 0 in
    let (type, t, q, rest) =
      escaped_loop (quoted s) ds cs s (enough (quoted s)) 1
        (if cs.is_digit c then string else id_string) [] h (first_type (cs.is_digit c)) k refl
        (omega (arith, quoted-length s)) in
    let (p, a, l, r) = comes (quoted s) ds (1 + length (escaped s)) b'"' [] h rest in
    (
      type,
      rw
          (
            scan_token,
            scan_string,
            peek_char-some (quoted s) (reading ds 1) (omega arith),
            q,
            end_string,
            matches_peek (quoted s) ds (b'"' ∷ []) (1 + length (escaped s)) b'"' p,
            add_string,
            a,
            not_invalid type t,
          )
          (ap (λ n. ok (add_token (quoted s) type (str s) (reading ds n))) (quoted-length s)),
    )

-- A loop that reads to the end of the buffer.
pub skip_to_end :
    (buffer : Text) (ds : DiagnosticsManager) (p : ℕ → Bool) (s : Text) (f n : ℕ)
    → length buffer < 2 ^ 63
    → p 0 ≡ false
    → All (λ c. p c ≡ true) s
    → drop n buffer ≡ s
    → n + length s ≡ length buffer
    → length s < f
    → skip_while buffer p f (reading ds n) ≡ ok (reading ds (length buffer))
unfolding skip_while
skip_to_end buffer ds p s zero n h z a d e l = absurd (omega arith)
skip_to_end buffer ds p [] (suc f) n h z a d e l =
    let same : n ≡ length buffer = omega arith in
    rw
      (
        skip_while,
        peek_char-some buffer (reading ds n) (omega arith),
        get_or-beyond buffer (0 + n) 0 (omega arith),
        z,
      )
      (ap (λ m. ok (reading ds m)) same)
skip_to_end buffer ds p (c ∷ s) (suc f) n h z a d e l =
    let (k, there, i, rest) = comes buffer ds n c s h d in
    rw (skip_while, k, a.0, there)
      (skip_to_end buffer ds p s f (n + 1) h z a.1 rest (omega arith) (omega arith))

take_all : (s t : Text) → take (length s) (s ++ t) ≡ s
take_all [] t = refl
take_all (c ∷ s) t = ap (λ r. c ∷ r) (take_all s t)

pub lexeme_all :
    (buffer : Text) (ds : DiagnosticsManager) → lexeme buffer (reading ds (length buffer)) ≡ buffer
lexeme_all buffer ds = take_all buffer (0 ∷ [])

-- A digit is left to the `default` case, and is no letter.
digit_other :
    (cs : Characters) (buffer : Text) (c : ℕ) (lx : Lexer)
    → is_decimal c ≡ true
    → scan_token buffer cs c lx ≡ scan_other buffer cs c lx
unfolding scan_token
digit_other cs buffer c lx h = ground arith

digit_word : (c : ℕ) → is_decimal c ≡ true → is_letter c || c == b'_' ≡ false
digit_word c h = ground arith

is_digit-IsNumber :
    (cs : Characters) (s : Text) → IsAscii cs → IsNumber s → All (λ c. cs.is_digit c ≡ true) s
is_digit-IsNumber cs [] a h = tt
is_digit-IsNumber cs (c ∷ s) a h = (a.digit c ∙ h.0, is_digit-IsNumber cs s a h.1)

-- The token of a number that fits and has no leading zero.
end_number_lem :
    (cs : Characters) (buffer value : Text) (k : ℤ) (lx : Lexer)
    → lexeme buffer lx ≡ value
    → starts_with value b'0' && ltb 1 (length value) ≡ false
    → cs.to_integer value ≡ some k
    → end_number buffer cs lx ≡ add_token buffer int_lit (int k) lx
unfolding end_number
end_number_lem cs buffer value k lx e lead read =
    let lead' = subst (λ v. starts_with v b'0' && ltb 1 (length v) ≡ false) (sym e) lead in
    let read' = subst (λ v. cs.to_integer v ≡ some k) (sym e) read in
    rw (end_number, lead', read', lead', add_number) refl

-- `scanNumber` takes the whole of a text of digits that has no leading zero and writes a number that fits.
pub number_token :
    (cs : Characters) (ds : DiagnosticsManager) (c : ℕ) (s : Text) (n : ℕ)
    → IsAscii cs
    → length (c ∷ s) < 2 ^ 63
    → IsNumber (c ∷ s)
    → starts_with (c ∷ s) b'0' && ltb 1 (length (c ∷ s)) ≡ false
    → read_decimal 0 (c ∷ s) ≡ some n
    → n < 2 ^ 31
    → scan_token (c ∷ s) cs c (reading ds 1)
      ≡ ok (add_token (c ∷ s) int_lit (int (pos n)) (reading ds (length (c ∷ s))))
unfolding scan_other scan_number end_number int32_of
number_token cs ds c s n a h num lead e fits =
    let read =
      skip_to_end (c ∷ s) ds cs.is_digit s (enough (c ∷ s)) 1 h (a.digit 0)
        (is_digit-IsNumber cs s a num.1) refl (omega arith) (omega arith) in
    let value : int32_of (some n) ≡ some (pos n) = ground arith in
    let ended =
      end_number_lem cs (c ∷ s) (c ∷ s) (pos n) (reading ds (length (c ∷ s)))
        (lexeme_all (c ∷ s) ds) lead (a.reads c s num ∙ ap int32_of e ∙ value) in
    digit_other cs (c ∷ s) c (reading ds 1) num.0
    ∙ rw (scan_other, a.alpha c, digit_word c num.0, a.digit c, num.0, scan_number, read)
        (ap ok ended)
