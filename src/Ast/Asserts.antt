-- ===== src/Ast/Asserts.antt =====
-- The assertions of the constructors in `include/ast`, over the nodes of a tree.
use choco_c.Prelude.{Bool, true, false, not, ◌&&◌, ◌||◌, List, [], ◌∷◌}
use choco_c.TokenType.{
  TokenType, type_eq, and, or, minus, string, id_string, true_kw, false_kw, int_lit, none_kw, id,
}
use choco_c.Token.{Token, TokenValue, monostate, bool, int, str, is_literal, is_bin_op, is_unary_op}
use choco_c.Ast.{
  Expression, literal, identifier, grouping, grouping_null, unary, binary, is_constant_expression,
  is_valid_target, Child, variable_definition, statement, Program,
}

-- The `switch` in the constructor of `Literal`: `std::holds_alternative`, of the alternative for the
-- token's type. The default case, which is `std::unreachable`, counts as a failure.
unfoldable pub holds_alternative : TokenType → TokenValue → Bool
holds_alternative string (str s) = true
holds_alternative string _ = false
holds_alternative id_string (str s) = true
holds_alternative id_string _ = false
holds_alternative true_kw (bool b) = true
holds_alternative true_kw _ = false
holds_alternative false_kw (bool b) = true
holds_alternative false_kw _ = false
holds_alternative int_lit (int n) = true
holds_alternative int_lit _ = false
holds_alternative none_kw monostate = true
holds_alternative none_kw _ = false
holds_alternative _ _ = false

-- The constructor of `Literal`.
unfoldable pub literal_asserts : Token → Bool
unfolding holds_alternative
literal_asserts t = is_literal t && holds_alternative t.type t.value

-- The constructor of `Identifier`.
unfoldable pub identifier_asserts : Token → Bool
identifier_asserts t = type_eq t.type id

-- The constructor of `UnaryExpression`.
unfoldable pub unary_asserts : Token → Expression → Bool
unary_asserts op rhs = is_unary_op op && (not (type_eq op.type minus) || is_constant_expression rhs)

-- The constructor of `BinaryExpression`.
unfoldable pub binary_asserts : Expression → Token → Expression → Bool
binary_asserts lhs op rhs =
    is_bin_op op
    && (type_eq op.type and
        || type_eq op.type or
        || (is_constant_expression lhs && is_constant_expression rhs))

-- The constructors of all nodes of an expression; that of `GroupingExpression` asserts nothing.
unfoldable pub expression_asserts : Expression → Bool
unfolding literal_asserts identifier_asserts unary_asserts binary_asserts
expression_asserts (literal t) = literal_asserts t
expression_asserts (identifier t) = identifier_asserts t
expression_asserts (grouping e r) = expression_asserts e
expression_asserts (grouping_null r) = true
expression_asserts (unary op e) = expression_asserts e && unary_asserts op e
expression_asserts (binary l op r) =
    expression_asserts l && expression_asserts r && binary_asserts l op r

-- The loop in the constructor of `AssignmentStatement`.
unfoldable pub targets_assert : List Expression → Bool
targets_assert [] = true
targets_assert (e ∷ es) = is_valid_target e && targets_assert es

unfoldable pub all_assert : List Expression → Bool
unfolding expression_asserts
all_assert [] = true
all_assert (e ∷ es) = expression_asserts e && all_assert es

-- A definition is made from an `Identifier` and a `Literal`.
unfoldable pub child_asserts : Child → Bool
unfolding identifier_asserts literal_asserts expression_asserts all_assert targets_assert
child_asserts (variable_definition d) = identifier_asserts d.name && literal_asserts d.value
child_asserts (statement a) =
    all_assert a.targets && expression_asserts a.expr && targets_assert a.targets

unfoldable pub program_asserts : Program → Bool
unfolding child_asserts
program_asserts [] = true
program_asserts (c ∷ cs) = child_asserts c && program_asserts cs
