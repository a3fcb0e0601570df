-- ===== src/Semantic/SemaType.antt =====
-- `include/semantic/Type.h`, `src/semantic/Type.cpp`: the types of values.
use choco_c.Prelude.{
  ℕ, zero, suc, ◌≡◌, ◌↔◌, Bool, true, false, not, ◌&&◌, ◌++◌, ◌==◌, leb, Option, none, some, Text,
  codes, text_eq, text_eq_iff, replicate, arith, if◌then◌else◌,
}

-- The pointer `super_class`. The program makes two values of it: null, and the pointer that
-- `getObjectType` returns.
pub data SuperClass : Type 0 where
  null object : SuperClass

-- `sema::Type`.
pub record SemaType : Type 0 where
  pub base_type : Text
  pub dimension : ℕ
  pub super_class : SuperClass

-- The static types behind `getObjectType` and its kin.
abbrev pub object_type : SemaType
object_type = record { base_type = codes "object"; dimension = 0; super_class = null }

abbrev pub builtin : Text → SemaType
builtin name = record { base_type = name; dimension = 0; super_class = object }

abbrev pub integer_type : SemaType
integer_type = builtin (codes "int")

abbrev pub string_type : SemaType
string_type = builtin (codes "str")

abbrev pub boolean_type : SemaType
boolean_type = builtin (codes "bool")

abbrev pub none_type : SemaType
none_type = builtin (codes "<None>")

abbrev pub empty_type : SemaType
empty_type = builtin (codes "<Empty>")

pointer_eq : SuperClass → SuperClass → Bool
pointer_eq null null = true
pointer_eq object object = true
pointer_eq _ _ = false

-- `operator==`, memberwise; the super classes are compared as pointers.
unfoldable pub same_type : SemaType → SemaType → Bool
unfolding pointer_eq text_eq
same_type t u =
    text_eq t.base_type u.base_type
    && t.dimension == u.dimension
    && pointer_eq t.super_class u.super_class

unfoldable pub is_empty : SemaType → Bool
is_empty t = same_type t empty_type

unfoldable pub is_none : SemaType → Bool
is_none t = same_type t none_type

unfoldable pub is_integer : SemaType → Bool
is_integer t = same_type t integer_type

unfoldable pub is_boolean : SemaType → Bool
is_boolean t = same_type t boolean_type

unfoldable pub is_string : SemaType → Bool
is_string t = same_type t string_type

unfoldable pub is_list : SemaType → Bool
is_list t = leb 1 t.dimension

-- `*super_class`; nothing for a null pointer.
abbrev pub pointee : SuperClass → Option SemaType
pointee null = none
pointee object = some object_type

-- `isSubclass`; no value where a null pointer is dereferenced.
unfoldable pub is_subclass : SemaType → SemaType → Option Bool
is_subclass t u =
    if same_type t object_type
    then some false
    else elim (pointee t.super_class) [ none ↦ none | some c ↦ some (same_type c u) ]

-- `conformsTo`.
unfoldable pub conforms_to : SemaType → SemaType → Option Bool
unfolding is_subclass
conforms_to t u = if same_type t u then some true else is_subclass t u

-- `isAssignmentCompatible`, whose last rule calls it again: on fuel.
unfoldable pub compatible : ℕ → SemaType → SemaType → Option Bool
unfolding conforms_to is_none is_integer is_boolean is_string is_empty is_list
compatible zero t u = none
compatible (suc f) t u =
    let list_of_none = compatible f u none_type in
    elim (conforms_to t u) [
      | none ↦ none
      | some true ↦ some true
      | some false ↦
          if is_none t && not (is_integer u) && not (is_boolean u) && not (is_string u)
          then some true
          else if is_empty t && is_list u
          then some true
          else if t.dimension == 1 && is_none t && u.dimension == 1
          then list_of_none
          else some false
    ]

-- `isAssignmentCompatible`: the rule that calls it again passes `<None>`, so three calls are enough.
unfoldable pub is_assignment_compatible : SemaType → SemaType → Option Bool
unfolding compatible
is_assignment_compatible = compatible 3

-- `toString`.
unfoldable pub to_string : SemaType → Text
to_string t = replicate t.dimension b'[' ++ (t.base_type ++ replicate t.dimension b']')

pointer_eq_iff : (p q : SuperClass) → (pointer_eq p q ≡ true) ↔ (p ≡ q)
unfolding pointer_eq
pointer_eq_iff null null = ground arith
pointer_eq_iff null object = ground arith
pointer_eq_iff object null = ground arith
pointer_eq_iff object object = ground arith

pub same_type_iff : (t u : SemaType) → (same_type t u ≡ true) ↔ (t ≡ u)
unfolding same_type
same_type_iff t u =
    ground (arith, text_eq_iff t.base_type u.base_type, pointer_eq_iff t.super_class u.super_class)
