-- ===== src/Parser/ProgramGrammar.antt =====
-- The grammar of types, definitions, assignments and programs that `src/parser/Parser.cpp` is to
-- implement, stated with no parser.
use choco_c.Prelude.{All, ◌≢◌, ◌+◌, ◌%◌, ◌^◌, ◌≡◌, true, List, [], ◌∷◌, ◌++◌}
use choco_c.TokenType.{newline, id, id_string, open_brack, close_brack, colon, assign}
use choco_c.Token.{Token, one_of, is_literal}
use choco_c.Ast.{
  Expression, identifier, AstType, VariableDefinition, AssignmentStatement, variable_definition,
  statement, Child, Program,
}
use choco_c.Parser.Grammar.{Spells, Filled}

-- A name, or a type in brackets, which counts one dimension more.
pub data SpellsType : List Token → AstType → Type 0 where
  base :
      {t : Token}
      → one_of t.type (id ∷ id_string ∷ []) ≡ true
      → SpellsType (t ∷ []) (record { base_type = t; dimension = 0 })
  list :
      (o c : Token) {ts ws : List Token} {a : AstType}
      → o.type ≡ open_brack
      → c.type ≡ close_brack
      → ws ≡ o ∷ (ts ++ c ∷ [])
      → SpellsType ts a
      → SpellsType ws (record { base_type = a.base_type; dimension = (a.dimension + 1) % 2 ^ 32 })

-- `name : type = literal`, and the end of the line.
pub data SpellsDefinition : List Token → VariableDefinition → Type 0 where
  definition :
      (colon_token assign_token end : Token) {n l : Token} {a : AstType} {ts ws : List Token}
      → n.type ≡ id
      → colon_token.type ≡ colon
      → SpellsType ts a
      → assign_token.type ≡ assign
      → is_literal l ≡ true
      → end.type ≡ newline
      → ws ≡ (n ∷ colon_token ∷ ts) ++ assign_token ∷ l ∷ end ∷ []
      → SpellsDefinition ws (record { name = n; type = a; value = l })

-- `name = name = … =`.
pub data SpellsTargets : List Token → List Expression → Type 0 where
  none : SpellsTargets [] []
  more :
      (t a : Token) {ts ws : List Token} {es : List Expression}
      → SpellsTargets ts es
      → t.type ≡ id
      → a.type ≡ assign
      → ws ≡ ts ++ t ∷ a ∷ []
      → SpellsTargets ws (es ++ identifier t ∷ [])

-- Targets, an expression, and the end of the line.
pub data SpellsAssignment : List Token → AssignmentStatement → Type 0 where
  assignment :
      (end : Token) {es : List Expression} {e : Expression} {ts us ws : List Token}
      → SpellsTargets ts es
      → Spells 0 us e
      → end.type ≡ newline
      → ws ≡ (ts ++ us) ++ end ∷ []
      → SpellsAssignment ws (record { targets = es; expr = e })

-- Any number of statements.
pub data SpellsStatements : List Token → Program → Type 0 where
  no_statements : SpellsStatements [] []
  then_statement :
      {ts us ws : List Token} {a : AssignmentStatement} {cs : Program}
      → SpellsStatements ts cs
      → SpellsAssignment us a
      → ws ≡ ts ++ us
      → SpellsStatements ws (cs ++ statement a ∷ [])

-- Any number of definitions.
pub data SpellsDefinitions : List Token → Program → Type 0 where
  no_definitions : SpellsDefinitions [] []
  then_definition :
      {ts us ws : List Token} {d : VariableDefinition} {cs : Program}
      → SpellsDefinitions ts cs
      → SpellsDefinition us d
      → ws ≡ ts ++ us
      → SpellsDefinitions ws (cs ++ variable_definition d ∷ [])

-- Definitions first, then statements.
pub data SpellsProgram : List Token → Program → Type 0 where
  program :
      {ts us ws : List Token} {ds ss cs : Program}
      → SpellsDefinitions ts ds
      → SpellsStatements us ss
      → ws ≡ ts ++ us
      → cs ≡ ds ++ ss
      → SpellsProgram ws cs

-- An assignment has a target, and no empty parentheses.
abbrev pub ReadableChild : Child → Type 0
ReadableChild (variable_definition d) = Unit {0}
ReadableChild (statement a) = (a.targets ≢ []) × Filled a.expr

abbrev pub Readable : Program → Type 0
Readable cs = All ReadableChild cs
