-- ===== src/PrettyPrinter/Printable.antt =====
-- `src/ast/PrettyPrinter.cpp`: which trees are printed.
use choco_c.Prelude.{
  ◌≡◌, refl, ◌↔◌, Bool, true, false, not, ◌&&◌, List, [], ◌∷◌, ◌++◌, Option, none, some, Text,
  codes, All,
}
use choco_c.TokenType.{TokenType, type_eq, ordinal, is, plus, minus}
use choco_c.Token.{Token, is_bin_op, is_unary_op}
use choco_c.Ast.{
  Expression, literal, identifier, grouping, grouping_null, unary, binary, Child,
  variable_definition, statement, Program,
}
use choco_c.PrettyPrinter.{
  ◌>>=◌, binary_text, unary_text, print_expression, print_targets, print_assignment, print_child,
  print_program,
}

-- Operators apart from `is`, and no empty parentheses.
unfoldable pub Printable : Expression → Type 0
Printable (literal t) = Unit
Printable (identifier t) = Unit
Printable (grouping e r) = Printable e
Printable (grouping_null r) = ⊥
Printable (unary op e) = (is_unary_op op ≡ true) × Printable e
Printable (binary l op r) =
    (is_bin_op op && not (type_eq op.type is) ≡ true) × Printable l × Printable r

abbrev pub PrintableChild : Child → Type 0
PrintableChild (variable_definition d) = Unit
PrintableChild (statement a) = All Printable a.targets × Printable a.expr

-- There is a value.
abbrev pub Defined {ℓ} : {A : Type ℓ} → Option A → Type ℓ
Defined {A = A} o = (a : A) × (o ≡ some a)

unfoldable pub is_some {ℓ} : {A : Type ℓ} → Option A → Bool
is_some none = false
is_some (some a) = true

pub is_some-Defined {ℓ} : {A : Type ℓ} (o : Option A) → (is_some o ≡ true) ↔ Defined o
unfolding is_some
is_some-Defined none = (λ e. cc, λ d. cc)
is_some-Defined (some a) = (λ e. (a, refl), λ d. refl)

binary_text_type :
    (ty : TokenType) (t : Token)
    → t.type ≡ ty
    → is_bin_op t && not (type_eq t.type is) ≡ is_some (binary_text ty)
unfolding is_bin_op type_eq ordinal binary_text is_some
binary_text_type plus t e = rw e
binary_text_type _ t e = rw e

unary_text_type :
    (ty : TokenType) (t : Token) → t.type ≡ ty → is_unary_op t ≡ is_some (unary_text ty)
unfolding is_unary_op type_eq ordinal unary_text is_some
unary_text_type minus t e = rw e
unary_text_type _ t e = rw e

binary_text-Defined :
    (t : Token) → (is_bin_op t && not (type_eq t.type is) ≡ true) ↔ Defined (binary_text t.type)
binary_text-Defined t = rw (binary_text_type t.type t refl) (is_some-Defined (binary_text t.type))

unary_text-Defined : (t : Token) → (is_unary_op t ≡ true) ↔ Defined (unary_text t.type)
unary_text-Defined t = rw (unary_text_type t.type t refl) (is_some-Defined (unary_text t.type))

-- The value of the first part of a chain that has one.
first_part :
    {A B : Type 0} (o : Option A) (f : A → Option B)
    → Defined (o >>= f)
    → (a : A) × (o ≡ some a) × Defined (f a)
first_part none f (b, e) = cc
first_part (some a) f d = (a, refl, d)

expression_prints : (e : Expression) (out : Text) → Printable e → Defined (print_expression e out)
unfolding Printable print_expression
expression_prints (literal t) out h = (_, refl)
expression_prints (identifier t) out h = (_, refl)
expression_prints (grouping e r) out h = expression_prints e out h
expression_prints (grouping_null r) out h = absurd h
expression_prints (unary op e) out h =
    let (s, p) = (unary_text-Defined op).0 h.0 in
    let (last, q) = expression_prints e ((out ++ b'(' ∷ []) ++ s) h.1 in
    (last ++ b')' ∷ [], rw (p, q) refl)
expression_prints (binary l op r) out h =
    let (s, p) = (binary_text-Defined op).0 h.0 in
    let (left, q) = expression_prints l (out ++ b'(' ∷ []) h.1 in
    let (right, u) = expression_prints r (left ++ s) h.2 in (right ++ b')' ∷ [], rw (q, p, u) refl)

printed_expression : (e : Expression) (out : Text) → Defined (print_expression e out) → Printable e
unfolding Printable print_expression
printed_expression (literal t) out d = tt
printed_expression (identifier t) out d = tt
printed_expression (grouping e r) out d = printed_expression e out d
printed_expression (grouping_null r) out (t, e) = cc
printed_expression (unary op e) out d =
    let (s, p, d') = first_part (unary_text op.type) _ d in
    let (last, q, d'') = first_part (print_expression e ((out ++ b'(' ∷ []) ++ s)) _ d' in
    ((unary_text-Defined op).1 (s, p), printed_expression e _ (last, q))
printed_expression (binary l op r) out d =
    let (left, q, d') = first_part (print_expression l (out ++ b'(' ∷ [])) _ d in
    let (s, p, d'') = first_part (binary_text op.type) _ d' in
    let (right, u, d3) = first_part (print_expression r (left ++ s)) _ d'' in
    (
      (binary_text-Defined op).1 (s, p),
      printed_expression l _ (left, q),
      printed_expression r _ (right, u),
    )

targets_print :
    (ts : List Expression) (out : Text) → All Printable ts → Defined (print_targets ts out)
unfolding print_targets
targets_print [] out h = (out, refl)
targets_print (t ∷ ts) out h =
    let (first, p) = expression_prints t out h.0 in
    let (last, q) = targets_print ts (first ++ codes " = ") h.1 in (last, rw p q)

printed_targets :
    (ts : List Expression) (out : Text) → Defined (print_targets ts out) → All Printable ts
unfolding print_targets
printed_targets [] out d = tt
printed_targets (t ∷ ts) out d =
    let (first, p, d') = first_part (print_expression t out) _ d in
    (printed_expression t out (first, p), printed_targets ts (first ++ codes " = ") d')

child_prints : (c : Child) (out : Text) → PrintableChild c → Defined (print_child c out)
unfolding print_child print_assignment
child_prints (variable_definition d) out h = (_, refl)
child_prints (statement a) out h =
    let (lhs, p) = targets_print a.targets out h.0 in
    let (rhs, q) = expression_prints a.expr lhs h.1 in (rhs ++ b'\n' ∷ [], rw (p, q) refl)

printed_child : (c : Child) (out : Text) → Defined (print_child c out) → PrintableChild c
unfolding print_child print_assignment
printed_child (variable_definition d) out h = tt
printed_child (statement a) out d =
    let (lhs, p, d') = first_part (print_targets a.targets out) _ d in
    let (rhs, q, d'') = first_part (print_expression a.expr lhs) _ d' in
    (printed_targets a.targets out (lhs, p), printed_expression a.expr lhs (rhs, q))

program_prints :
    (cs : Program) (out : Text) → All PrintableChild cs → Defined (print_program cs out)
unfolding print_program
program_prints [] out h = (out, refl)
program_prints (c ∷ cs) out h =
    let (first, p) = child_prints c out h.0 in
    let (last, q) = program_prints cs first h.1 in (last, rw p q)

printed_program :
    (cs : Program) (out : Text) → Defined (print_program cs out) → All PrintableChild cs
unfolding print_program
printed_program [] out d = tt
printed_program (c ∷ cs) out d =
    let (first, p, d') = first_part (print_child c out) _ d in
    (printed_child c out (first, p), printed_program cs first d')

-- The printer prints a program exactly where none of its targets and expressions has empty parentheses, every
-- unary operator is one for `Token::isUnaryOp`, and every binary operator is one for `Token::isBinOp` and
-- not `is`; on any other it dereferences a null pointer or reaches `std::unreachable`.
pub print_program_iff :
    (cs : Program) (out : Text) → All PrintableChild cs ↔ Defined (print_program cs out)
print_program_iff cs out = (program_prints cs out, printed_program cs out)
