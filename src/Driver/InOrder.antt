-- ===== src/Driver/InOrder.antt =====
-- The order of definitions and assignments in a program of `src/parser/Parser.cpp`, which
-- `src/ir/LLVM.cpp` relies on.
use choco_c.Prelude.{
  ◌≡◌, refl, sym, subst, true, not, ◌&&◌, List, [], ◌∷◌, ◌++◌, All, All-append, Text,
}
use choco_c.TokenType.{type_eq, is}
use choco_c.Token.{Token, is_bin_op}
use choco_c.Ast.{
  Expression, literal, identifier, grouping, grouping_null, unary, binary, is_valid_target,
  AssignmentStatement, Child, variable_definition, statement, Program,
}
use choco_c.Parser.ProgramGrammar
use choco_c.Parser.ProgramGrammar.{
  SpellsDefinitions, SpellsStatements, SpellsAssignment, SpellsTargets, SpellsProgram,
}
use choco_c.Semantic.Defined.{DefinedIn}
use choco_c.CodeGenerator.Generates.{IsConstant}

-- Literals with constants for them, and operators other than `is`.
unfoldable pub IsPlain : Expression → Type 0
IsPlain (literal t) = IsConstant t
IsPlain (identifier t) = Unit
IsPlain (grouping e r) = IsPlain e
IsPlain (grouping_null r) = Unit
IsPlain (unary op e) = IsPlain e
IsPlain (binary l op r) = (is_bin_op op && not (type_eq op.type is) ≡ true) × IsPlain l × IsPlain r

abbrev pub PlainChild : Child → Type 0
PlainChild (variable_definition d) = IsConstant d.value
PlainChild (statement s) = IsPlain s.expr

abbrev IsDefinition : Child → Type 0
IsDefinition (variable_definition d) = Unit
IsDefinition (statement s) = ⊥

abbrev IsStatement : Child → Type 0
IsStatement (variable_definition d) = ⊥
IsStatement (statement s) = All (λ e. is_valid_target e ≡ true) s.targets

targets_valid :
    {ws : List Token} {es : List Expression}
    → SpellsTargets ws es
    → All (λ e. is_valid_target e ≡ true) es
unfolding is_valid_target
targets_valid ProgramGrammar.none = tt
targets_valid (ProgramGrammar.more t a {es = es} h i j k) =
    All-append (λ e. is_valid_target e ≡ true) es (identifier t ∷ []) (targets_valid h) (refl, tt)

assignment-IsStatement :
    {ws : List Token} {a : AssignmentStatement} → SpellsAssignment ws a → IsStatement (statement a)
assignment-IsStatement (ProgramGrammar.assignment end h s e w) = targets_valid h

statements-IsStatement :
    {ws : List Token} {cs : Program} → SpellsStatements ws cs → All IsStatement cs
statements-IsStatement ProgramGrammar.no_statements = tt
statements-IsStatement (ProgramGrammar.then_statement {a = a} {cs = cs} h s e) =
    All-append IsStatement cs (statement a ∷ []) (statements-IsStatement h)
      (assignment-IsStatement s, tt)

definitions-IsDefinition :
    {ws : List Token} {cs : Program} → SpellsDefinitions ws cs → All IsDefinition cs
definitions-IsDefinition ProgramGrammar.no_definitions = tt
definitions-IsDefinition (ProgramGrammar.then_definition {d = d} {cs = cs} h s e) =
    All-append IsDefinition cs (variable_definition d ∷ []) (definitions-IsDefinition h) (tt, tt)

-- Behind an assignment nothing is defined, and the targets of an assignment are names.
unfoldable pub InOrder : Program → Type 0
InOrder [] = Unit
InOrder (variable_definition d ∷ cs) = InOrder cs
InOrder (statement s ∷ cs) =
    All (λ e. is_valid_target e ≡ true) s.targets × ((n : Text) → DefinedIn n cs → ⊥) × InOrder cs

statements_define_nothing : (cs : Program) (n : Text) → All IsStatement cs → DefinedIn n cs → ⊥
unfolding DefinedIn
statements_define_nothing [] n h d = d
statements_define_nothing (variable_definition x ∷ cs) n h d = h.0
statements_define_nothing (statement s ∷ cs) n h d = statements_define_nothing cs n h.1 d

statements-InOrder : (cs : Program) → All IsStatement cs → InOrder cs
unfolding InOrder
statements-InOrder [] h = tt
statements-InOrder (variable_definition x ∷ cs) h = absurd h.0
statements-InOrder (statement s ∷ cs) h =
    (h.0, (λ n d. statements_define_nothing cs n h.1 d), statements-InOrder cs h.1)

pub program-InOrder :
    (ds ss : Program) → All IsDefinition ds → All IsStatement ss → InOrder (ds ++ ss)
unfolding InOrder
program-InOrder [] ss h k = statements-InOrder ss k
program-InOrder (variable_definition d ∷ ds) ss h k = program-InOrder ds ss h.1 k
program-InOrder (statement s ∷ ds) ss h k = absurd h.0

pub SpellsProgram-InOrder : {ws : List Token} {cs : Program} → SpellsProgram ws cs → InOrder cs
SpellsProgram-InOrder (ProgramGrammar.program {ds = ds} {ss = ss} d s w e) =
    subst InOrder (sym e)
      (program-InOrder ds ss (definitions-IsDefinition d) (statements-IsStatement s))
