-- ===== src/Diagnostics.antt =====
-- `include/diagnostics`, `src/diagnostics`: the diagnostics and their table.
use choco_c.Prelude.{
  ℕ, ◌≡◌, refl, ◌↔◌, Bool, true, false, ◌||◌, List, [], ◌∷◌, ◌++◌, arith, Option, none, some, Text,
  codes,
}
use choco_c.Token.{Range}

-- `enum class DiagID`.
pub data DiagId : Type 0 where
  unexpected_character leading_zeros integer_out_of_range invalid_escape_character : DiagId
  unterminated_string expected_token expected_new_line unclosed_parenthesis : DiagId
  missing_unary_operand missing_binary_operand redefinition undefined_type : DiagId
  undefined_name type_mismatch unsupported_binary_operand_type : DiagId

-- `llvm::SourceMgr::DiagKind`.
pub data DiagKind : Type 0 where
  error warning remark note : DiagKind

-- `getSeverity`: the severity column of the table.
unfoldable pub get_severity : DiagId → DiagKind
get_severity unexpected_character = error
get_severity leading_zeros = error
get_severity integer_out_of_range = error
get_severity invalid_escape_character = error
get_severity unterminated_string = error
get_severity expected_token = error
get_severity expected_new_line = error
get_severity unclosed_parenthesis = error
get_severity missing_unary_operand = error
get_severity missing_binary_operand = error
get_severity redefinition = error
get_severity undefined_type = error
get_severity undefined_name = error
get_severity type_mismatch = error
get_severity unsupported_binary_operand_type = error

-- `getFormat`: the format column of the table.
unfoldable pub get_format : DiagId → Text
get_format unexpected_character = codes "unexpected character"
get_format leading_zeros = codes "an integer may not have leading zeros"
get_format integer_out_of_range =
    codes "an integer must be within the range [-2147483648, 2147483647]"
get_format invalid_escape_character =
    codes "invalid escape character. Only \\\\, \\\", \\n and \\t are allowed"
get_format unterminated_string = codes "unterminated string"
get_format expected_token = codes "expected {0}"
get_format expected_new_line = codes "expected a new line after"
get_format unclosed_parenthesis = codes "unclosed '('"
get_format missing_unary_operand = codes "missing operand for unary '{0}'"
get_format missing_binary_operand = codes "missing operand for binary '{0}'"
get_format redefinition = codes "redefinition of '{0}'"
get_format undefined_type = codes "undefined type"
get_format undefined_name = codes "undefined name {0}"
get_format type_mismatch = codes "type mismatch: expected: '{0}', got: '{1}'"
get_format unsupported_binary_operand_type =
    codes "unsupported operand type(s) for '{0}': '{1}' and '{2}'"

-- What a `DiagnosticBuilder` collects. The location, ranges and fix-its go to
-- `llvm::SourceMgr::GetMessage`, and the arguments, if any are given, to `llvm::formatv`.
pub record Diagnostic : Type 0 where
  pub diag_id : DiagId
  pub loc : Option ℕ
  pub args : Option (List Text)
  pub ranges : List Range
  pub fixits : List (Range × Text)

-- `DiagnosticsManager`: the diagnostics emitted so far, the oldest first.
abbrev pub DiagnosticsManager : Type 0
DiagnosticsManager = List Diagnostic

-- `DiagnosticsManager::report`: a fresh builder.
abbrev pub report : DiagId → Diagnostic
report id = record { diag_id = id; loc = none; args = none; ranges = []; fixits = [] }

-- `DiagnosticBuilder::at`.
abbrev pub at : Diagnostic → ℕ → Diagnostic
at d l = record d { loc = some l }

-- `DiagnosticBuilder::args`.
abbrev pub with_args : Diagnostic → List Text → Diagnostic
with_args d ts = record d { args = some ts }

-- `DiagnosticBuilder::range`, of several ranges.
abbrev pub with_ranges : Diagnostic → List Range → Diagnostic
with_ranges d rs = record d { ranges = d.ranges ++ rs }

-- `DiagnosticBuilder::fixit`.
abbrev pub with_fixit : Diagnostic → Range × Text → Diagnostic
with_fixit d f = record d { fixits = d.fixits ++ f ∷ [] }

-- `DiagnosticBuilder::emit`, which the destructor calls at the end of the statement.
abbrev pub emit : DiagnosticsManager → Diagnostic → DiagnosticsManager
emit m d = m ++ d ∷ []

-- The message of a diagnostic, for a given `llvm::formatv`.
unfoldable pub message : (Text → List Text → Text) → Diagnostic → Text
unfolding get_format
message formatv d = elim d.args [
  | none ↦ get_format d.diag_id
  | some ts ↦ formatv (get_format d.diag_id) ts
]

is_error : DiagKind → Bool
is_error error = true
is_error _ = false

-- `DiagnosticsManager::hadError`.
unfoldable pub had_error : DiagnosticsManager → Bool
unfolding is_error get_severity
had_error [] = false
had_error (d ∷ ds) = is_error (get_severity d.diag_id) || had_error ds

is_error-get_severity : (i : DiagId) → is_error (get_severity i) ≡ true
unfolding is_error get_severity
is_error-get_severity unexpected_character = refl
is_error-get_severity _ = refl

-- `hadError` answers false exactly when nothing at all was reported.
pub had_error_iff : (m : DiagnosticsManager) → (had_error m ≡ false) ↔ (m ≡ [])
unfolding had_error
had_error_iff [] = ground arith
had_error_iff (d ∷ ds) = rw (is_error-get_severity d.diag_id) (ground arith)
