-- ===== src/Tests/Parsing.antt =====
-- `src/parser/Parser.cpp` and `src/TokenStream.cpp` at concrete inputs.
use choco_c.Prelude.{
  ℕ, ◌≡◌, ◌≢◌, refl, sym, ap, subst, length, length-append, some, true, All, [], ◌∷◌, arith,
}
use choco_c.TokenStream.{IsValid, remaining, peek, index_at, advance}
use choco_c.Token.{has_value_of, is_literal, is_unary_op, one_of, is_bin_op, opt_type_eq}
use choco_c.TokenType.{type_eq, ordinal}
use choco_c.Parser.Monad.{State, ok, undefined, out_of_fuel, matches, expect, step}
use choco_c.Parser.Power.{get_prefix_power, get_infix_power}
use choco_c.Parser.Expressions.{
  parse_expression, expression_loop, parse_prefix, combine, close_grouping, close_unary,
}
use choco_c.Parser.Statements.{
  parse_type, parse_typed_variable, parse_literal, parse_variable_definition, parse_target,
  name_before, targets_loop, parse_assignment_statement, parse_simple_statement, parse_statement,
  definitions_loop, statements_loop, parse_program, parse,
}
use choco_c.Parser.ProgramGrammar.{SpellsProgram, Readable}
use choco_c.Parser.Correct.{
  parse-SpellsProgram, parse_expression_sound, parse-ne-out_of_fuel, parse-ne-undefined,
  parse_expression-ne-undefined,
}
use choco_c.Parser.Branches.{Parsed}
use choco_c.Parser.Asserted.{Valued, parse-asserts}
use choco_c.Ast.Asserts.{program_asserts}
use choco_c.Parser.Complete.{parse_complete, parse_expression_complete}
use choco_c.Parser.Grammar.{
  Spells, infixed, atom, Fails, no_operand, no_constant, no_right, no_constants,
}
use choco_c.Parser.StatementsSound.{Spells-length}
use choco_c.Ast.{is_constant_expression}
use choco_c.Tests.Inputs.{
  source, start, finish, sum, sum_tokens, one, one_again, two, mult_token, three, lines, end_2,
  two_lines,
}

source-IsValid : IsValid (start source).token_stream
source-IsValid = record { inside = omega arith; addressable = omega arith }

sum-IsValid : IsValid (start sum_tokens).token_stream
sum-IsValid = record { inside = omega arith; addressable = omega arith }

-- The two lines parse.
parse-source : parse (start source) ≡ ok two_lines (finish source)
unfolding parse parse_program definitions_loop statements_loop parse_statement
    parse_simple_statement parse_assignment_statement targets_loop name_before parse_target
    parse_variable_definition parse_literal parse_typed_variable parse_type parse_expression
    expression_loop parse_prefix combine close_grouping close_unary matches expect step peek
    index_at advance one_of type_eq ordinal is_bin_op opt_type_eq get_prefix_power get_infix_power
    is_constant_expression
parse-source = refl

-- Multiplication binds tighter than addition.
parse_sum : parse_expression 13 0 (start sum_tokens) ≡ ok sum (finish sum_tokens)
unfolding parse_expression expression_loop parse_prefix combine close_grouping close_unary matches
    expect step peek index_at advance one_of type_eq ordinal is_bin_op get_prefix_power
    get_infix_power is_constant_expression
parse_sum = refl

parse-SpellsProgram_example :
    SpellsProgram source two_lines × (remaining (finish source).token_stream ≡ [])
parse-SpellsProgram_example =
    parse-SpellsProgram (start source) (finish source) two_lines source-IsValid parse-source

parse-ne-out_of_fuel_example : parse (start source) ≢ out_of_fuel
parse-ne-out_of_fuel_example = parse-ne-out_of_fuel (start source) source-IsValid

parse-ne-undefined_example : parse (start source) ≢ undefined
parse-ne-undefined_example = parse-ne-undefined (start source) lines end_2 source-IsValid refl refl

parse_expression_sound_example : Parsed 0 (start sum_tokens) sum (finish sum_tokens)
parse_expression_sound_example =
    parse_expression_sound 13 0 (start sum_tokens) (finish sum_tokens) sum sum-IsValid (omega arith)
      parse_sum

parse_expression-ne-undefined_example :
    (parse_expression 13 0 (start sum_tokens) ≢ undefined)
    × (parse_expression 13 0 (start sum_tokens) ≢ out_of_fuel)
parse_expression-ne-undefined_example =
    parse_expression-ne-undefined 13 0 (start sum_tokens) sum-IsValid (omega arith)

pub source-SpellsProgram : SpellsProgram source two_lines
source-SpellsProgram =
    (parse-SpellsProgram (start source) (finish source) two_lines source-IsValid parse-source).0

pub two_lines-Readable : Readable two_lines
two_lines-Readable = (tt, ((cc, ((tt, (tt, tt)))), tt))

parse_complete_example :
    (s : State) × (parse (start source) ≡ ok two_lines s)
    × (remaining s.token_stream ≡ [])
    × (s.diag_manager ≡ [])
parse_complete_example =
    parse_complete (start source) two_lines source-IsValid source-SpellsProgram two_lines-Readable

-- A literal in parentheses is an expression, and no failure to be one.
one-Fails : (p : ℕ) → Fails p (one ∷ []) → ⊥
unfolding is_unary_op get_prefix_power get_infix_power
one-Fails p (no_operand k q op h power eq broken) =
    let same : one ≡ op = cc in cc (subst (λ t. is_unary_op t ≡ true) (sym same) h)
one-Fails p (no_constant k q op h power eq sp c) =
    let same : one ≡ op = cc in
    cc (subst (λ t. get_prefix_power t.type ≡ some (k, q)) (sym same) power)
one-Fails p (no_right k q op {ts} power le eq sp above broken) =
    omega (arith, ap length eq, length-append ts (op ∷ _), Spells-length sp)
one-Fails p (no_constants k q op {ts} power le eq sp above sp' logic c) =
    omega (arith, ap length eq, length-append ts (op ∷ _), Spells-length sp, Spells-length sp')

sum-Spells : Spells 0 sum_tokens sum
unfolding is_literal one_of type_eq ordinal get_infix_power is_constant_expression
sum-Spells =
    infixed 60 61 {ts = one_again ∷ []} {us = two ∷ mult_token ∷ three ∷ []} refl (omega arith) refl
      (atom refl) tt
      (infixed 70 71 {ts = two ∷ []} {us = three ∷ []} refl (omega arith) refl (atom refl) tt
        (atom refl) (λ h. (refl, refl)))
      (λ h. (refl, refl))

parse_expression_complete_example :
    (s : State) × (parse_expression 13 0 (start sum_tokens) ≡ ok sum s)
    × IsValid s.token_stream
    × (remaining s.token_stream ≡ [])
    × (s.diag_manager ≡ [])
parse_expression_complete_example =
    parse_expression_complete 13 0 (start sum_tokens) sum sum_tokens [] sum-IsValid refl
      (omega arith) sum-Spells (tt, (tt, tt)) (λ k e. cc) (λ k e. cc)

source-Valued : All Valued source
unfolding has_value_of
source-Valued = (
  refl,
  (
    refl,
    (
      refl,
      (refl, (refl, (refl, (refl, (refl, (refl, (refl, (refl, (refl, (refl, (refl, tt))))))))))),
    ),
  ),
)

parse-asserts_example : program_asserts two_lines ≡ true
parse-asserts_example =
    parse-asserts (start source) (finish source) two_lines source-IsValid source-Valued parse-source
