-- ===== src/Parser/Monad.antt =====
-- The state and the outcome of a method of `parser::Parser`, and the calls that all methods share:
-- `match`, `expect`, and the report of a diagnostic.
use choco_c.Prelude.{ℕ, Bool, true, false, List, [], ◌∷◌, Option, none, some, Text, ℤ, pos}
use choco_c.TokenType.{TokenType}
use choco_c.Token.{Token, one_of}
use choco_c.TokenStream.{TokenStream, peek, advance}
use choco_c.Diagnostics.{DiagId, DiagnosticsManager, Diagnostic, report, at, with_args, emit}

-- `m_token_stream` and `m_diag_manager`.
pub record State : Type 0 where
  pub token_stream : TokenStream
  pub diag_manager : DiagnosticsManager

-- `ok` is a node that is returned, `null` a returned `nullptr`. `undefined` is the dereference of an
-- empty optional; `out_of_fuel` has no counterpart in the program.
pub data Result (A : Type 0) : Type 0 where
  ok : A → State → Result A
  null : State → Result A
  undefined out_of_fuel : Result A

abbrev pub bind : {A B : Type 0} → Result A → (A → State → Result B) → Result B
bind (ok a s) f = f a s
bind (null s) f = null s
bind undefined f = undefined
bind out_of_fuel f = out_of_fuel

abbrev pub Parser : Type 0 → Type 0
Parser A = State → Result A

abbrev pub pure : {A : Type 0} → A → Parser A
pure a s = ok a s

abbrev pub fail : {A : Type 0} → Parser A
fail s = null s

infixl 1 ◌>>=◌ ◌>>◌
abbrev pub ◌>>=◌ : {A B : Type 0} → Parser A → (A → Parser B) → Parser B
m >>= f = λ s. bind (m s) f

abbrev pub ◌>>◌ : {A B : Type 0} → Parser A → Parser B → Parser B
m >> k = m >>= λ _. k

abbrev pub run : {A : Type 0} → State → Parser A → Result A
run s m = m s

-- A call whose result the caller compares with `nullptr`.
abbrev pub caught : {A : Type 0} → Result A → Result (Option A)
caught (ok a s) = ok (some a) s
caught (null s) = ok none s
caught undefined = undefined
caught out_of_fuel = out_of_fuel

abbrev pub attempt : {A : Type 0} → Parser A → Parser (Option A)
attempt m s = caught (m s)

-- `peek(n)`.
abbrev pub look : ℤ → Parser (Option Token)
look n s = ok (peek s.token_stream n) s

-- `*o`, `o->get()`.
abbrev pub deref : {A : Type 0} → Option A → Parser A
deref none s = undefined
deref (some a) s = ok a s

-- `advance()`, its result unused.
unfoldable pub step : Parser (Unit {0})
step s = ok tt (record s { token_stream = (advance s.token_stream).0 })

-- `match(types...)`: whether the current token is of one of the types.
unfoldable pub matches : List TokenType → State → Bool
matches types s = elim (peek s.token_stream (pos 0)) [ none ↦ false | some t ↦ one_of t.type types ]

-- `expect(types...)`: if so, advance.
unfoldable pub expect : List TokenType → Parser Bool
expect types s = elim (matches types s) [ false ↦ ok false s | true ↦ run s do step; pure true ]

-- A statement `m_diag_manager.report(…)…;`.
abbrev pub diagnose : Diagnostic → Parser (Unit {0})
diagnose d s = ok tt (record s { diag_manager = emit s.diag_manager d })

-- A report at the token `n` places ahead, with the arguments of the message, if any; then
-- `return nullptr`.
abbrev pub reject : {A : Type 0} → ℤ → (ℕ → Diagnostic) → Parser A
reject n d = do o ← look n; t ← deref o; diagnose (d t.location.start); fail

abbrev pub expected : Text → ℕ → Diagnostic
expected what l = with_args (at (report DiagId.expected_token) l) (what ∷ [])
