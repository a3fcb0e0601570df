-- ===== src/Tests/Typing.antt =====
-- `src/semantic`, `src/TokenStream.cpp` and the diagnostics at concrete inputs.
use choco_c.Prelude.{
  ◌≡◌, refl, ◌↔◌, ◌⊎◌, inl, inr, Bool, true, false, List, [], ◌∷◌, All, none, some, codes, text_eq,
  if◌then◌else◌, arith,
}
use choco_c.TokenType.{type_eq, ordinal}
use choco_c.Token.{one_of, is_bin_op}
use choco_c.TokenStream.{TokenStream, IsValid, advance}
use choco_c.TokenStream.Laws.{Advanced, advance_first}
use choco_c.Diagnostics.{DiagId, Diagnostic, DiagnosticsManager, report, had_error, had_error_iff}
use choco_c.Ast.{
  literal, identifier, unary, binary, VariableDefinition, AssignmentStatement, get_text, walk,
  get_literal_type,
}
use choco_c.Parser.Power.{get_infix_power, is_some, is_bin_op-get_infix_power}
use choco_c.Semantic.SemaType.{
  object_type, integer_type, boolean_type, none_type, is_assignment_compatible, same_type,
}
use choco_c.Semantic.Assignable.{
  Assignable, is_assignment_compatible-Assignable, is_assignment_compatible_order, list_of_none,
  list_of_none_only,
}
use choco_c.Semantic.SymbolTable.{
  variable, make_variable, initial_entries, get_entry, add_entry, get_entry-add_entry, type_of,
  found,
}
use choco_c.Semantic.SymbolTableBuilder.{
  SymbolTableBuilder, new_builder, enter, visit_definition, visit_child, walk_all, build,
}
use choco_c.Semantic.TypeChecker.{
  typed, ok, bad_any_cast, visit_expression, visit_literal, check_definition, check_assignment,
}
use choco_c.Semantic.Typing.{
  HasType, of_variable, of_literal, visit_expression_iff, check_assignment_unary,
  check_assignment_arithmetic,
}
use choco_c.Semantic.Tables.{AllSound}
use choco_c.Semantic.Built.{Resolved, IsReported, build-Resolved, build-AllSound}
use choco_c.Semantic.ListTypes.{visit_definition-IsReported}
use choco_c.Semantic.Checked.{Takes, check_definition_lem, check_assignment_lem}
use choco_c.Tests.Inputs.{
  table, x, int_name, one, two, plus_token, minus_token, and_token, true_token, x_definition,
  two_lines, stream,
}

abbrev built : SymbolTableBuilder
built = record { symbol_table = table; diag_manager = [] }

build-two_lines : build (new_builder []) two_lines ≡ some built
unfolding build visit_child visit_definition enter get_entry add_entry text_eq get_text walk_all
    walk
build-two_lines = refl

x-found : type_of table x ≡ found integer_type
unfolding type_of get_entry text_eq
x-found = refl

build-Resolved_example : Resolved table two_lines
build-Resolved_example = build-Resolved (new_builder []) two_lines built build-two_lines refl

build-AllSound_example : AllSound table
build-AllSound_example = build-AllSound [] two_lines built build-two_lines

-- `x: [int] = 1`.
abbrev list_definition : VariableDefinition
list_definition = record {
  name = x;
  type = record { base_type = int_name; dimension = 1 };
  value = one;
}

visit_definition-IsReported_example : IsReported built (visit_definition built list_definition)
visit_definition-IsReported_example =
    visit_definition-IsReported [] two_lines built list_definition build-two_lines (omega arith)

one-HasType : HasType table (literal one) integer_type
unfolding one_of type_eq ordinal
one-HasType = of_literal (inr (inr (inl (refl, refl))))

true-HasType : HasType table (literal true_token) boolean_type
unfolding one_of type_eq ordinal
true-HasType = of_literal (inl (refl, refl))

visit_expression_iff_example :
    (visit_expression table (binary (literal true_token) and_token (literal true_token)) []
      ≡ ok (typed (some boolean_type)) [])
    ↔ (HasType table (binary (literal true_token) and_token (literal true_token)) boolean_type
        × (◌≡◌ {A = DiagnosticsManager} [] []))
visit_expression_iff_example =
    visit_expression_iff table (binary (literal true_token) and_token (literal true_token))
      boolean_type [] []

check_definition_lem_example :
    (xs : List Diagnostic) × (check_definition table x_definition [] ≡ ok tt xs)
    × ((xs ≡ []) ↔ Assignable integer_type integer_type)
unfolding one_of type_eq ordinal
check_definition_lem_example =
    check_definition_lem table x_definition integer_type integer_type [] x-found
      (inr (inr (inl (refl, refl))))

abbrev bool_assignment : AssignmentStatement
bool_assignment = record { targets = identifier x ∷ []; expr = literal true_token }

check_assignment_lem_example :
    (xs : List Diagnostic) × (check_assignment table bool_assignment [] ≡ ok tt xs)
    × ((xs ≡ []) ↔ All (Takes table boolean_type) (identifier x ∷ []))
check_assignment_lem_example =
    check_assignment_lem table bool_assignment boolean_type [] build-AllSound_example true-HasType
      ((integer_type, of_variable x-found), tt)

visit_one : visit_expression table (literal one) [] ≡ ok (typed (some integer_type)) []
unfolding visit_expression visit_literal get_literal_type text_eq
visit_one = refl

check_assignment_unary_example :
    check_assignment table
      (record { targets = identifier x ∷ []; expr = unary minus_token (literal one) })
      []
    ≡ bad_any_cast
check_assignment_unary_example =
    check_assignment_unary table minus_token (literal one) (identifier x ∷ [])
      (typed (some integer_type)) [] [] visit_one

-- `x = 1 + True` is no mismatch.
check_assignment_arithmetic_example :
    check_assignment table
      (record {
        targets = identifier x ∷ [];
        expr = binary (literal one) plus_token (literal true_token);
      })
      []
    ≡ ok tt []
unfolding type_eq ordinal
check_assignment_arithmetic_example =
    check_assignment_arithmetic table plus_token (literal one) (literal true_token) integer_type
      boolean_type (identifier x ∷ []) [] one-HasType true-HasType refl
      ((integer_type, of_variable x-found), tt)

is_assignment_compatible-Assignable_example :
    (b : Bool) × (is_assignment_compatible integer_type object_type ≡ some b)
    × ((b ≡ true) ↔ Assignable integer_type object_type)
is_assignment_compatible-Assignable_example =
    is_assignment_compatible-Assignable integer_type object_type (inr refl)

is_assignment_compatible_order_example :
    (is_assignment_compatible none_type none_type ≡ some true)
    × (is_assignment_compatible none_type list_of_none ≡ some true
        → is_assignment_compatible list_of_none object_type ≡ some true
        → is_assignment_compatible none_type object_type ≡ some true)
    × (is_assignment_compatible none_type list_of_none ≡ some true
        → is_assignment_compatible list_of_none none_type ≡ some true
        → none_type ≡ list_of_none)
is_assignment_compatible_order_example =
    is_assignment_compatible_order none_type list_of_none object_type (inr refl) (inr refl)

none_list_to_object : is_assignment_compatible list_of_none object_type ≡ some true
unfolding is_assignment_compatible same_type text_eq
none_list_to_object = refl

list_of_none_only_example : (object_type ≡ list_of_none) ⊎ (object_type ≡ object_type)
list_of_none_only_example = list_of_none_only object_type none_list_to_object

get_entry-add_entry_example :
    get_entry
      (codes "x")
      (add_entry (codes "x") (variable (make_variable integer_type)) initial_entries)
    ≡ (if text_eq (codes "x") (codes "x")
        then (elim (get_entry (codes "x") initial_entries) [
          | none ↦ some (variable (make_variable integer_type))
          | some old ↦ some old
        ])
        else get_entry (codes "x") initial_entries)
get_entry-add_entry_example =
    get_entry-add_entry (codes "x") (codes "x") (variable (make_variable integer_type))
      initial_entries

stream-IsValid : IsValid (stream (one ∷ plus_token ∷ two ∷ []))
stream-IsValid = record { inside = omega arith; addressable = omega arith }

advance_first_example :
    (s' : TokenStream) × (advance (stream (one ∷ plus_token ∷ two ∷ [])) ≡ (s', some one))
    × Advanced (stream (one ∷ plus_token ∷ two ∷ [])) one (plus_token ∷ two ∷ []) s'
advance_first_example =
    advance_first (stream (one ∷ plus_token ∷ two ∷ [])) stream-IsValid one (plus_token ∷ two ∷ [])
      refl

had_error_iff_example :
    (had_error (report DiagId.undefined_type ∷ []) ≡ false)
    ↔ (report DiagId.undefined_type ∷ [] ≡ [])
had_error_iff_example = had_error_iff (report DiagId.undefined_type ∷ [])

is_bin_op-get_infix_power_example : is_bin_op plus_token ≡ is_some (get_infix_power plus_token.type)
is_bin_op-get_infix_power_example = is_bin_op-get_infix_power plus_token
