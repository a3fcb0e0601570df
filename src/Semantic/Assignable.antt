-- ===== src/Semantic/Assignable.antt =====
-- `isAssignmentCompatible` of `src/semantic/Type.cpp` against the rules that its comments state.
use choco_c.Prelude.{
  ◌≤◌, ◌≡◌, ◌≢◌, ◌⊎◌, inl, inr, ◌↔◌, refl, sym, ap, ◌∙◌, Bool, true, false, not, ◌&&◌, ◌||◌, some,
  arith, Bool-cases, ◌==◌, leb, codes,
}
use choco_c.Semantic.SemaType.{
  SemaType, SuperClass, object_type, integer_type, string_type, boolean_type, none_type, empty_type,
  same_type, same_type_iff, is_assignment_compatible,
}

-- The type is `object`, or its super class is.
abbrev pub IsRooted : SemaType → Type 0
IsRooted t = (t ≡ object_type) ⊎ (t.super_class ≡ SuperClass.object)

-- The rules 1 to 3: the type itself or a super class; `<None>` where no literal is wanted; `<Empty>`
-- where a list is.
pub data Assignable (t u : SemaType) : Type 0 where
  same : t ≡ u → Assignable t u
  to_object : t ≢ object_type → u ≡ object_type → Assignable t u
  from_none : t ≡ none_type → u ≢ integer_type → u ≢ boolean_type → u ≢ string_type → Assignable t u
  from_empty : t ≡ empty_type → 1 ≤ u.dimension → Assignable t u

-- The four tests of the rules.
abbrev rules : SemaType → SemaType → Bool
rules t u =
    same_type t u
    || (not (same_type t object_type) && same_type object_type u)
    || (same_type t none_type
        && not (same_type u integer_type)
        && not (same_type u boolean_type)
        && not (same_type u string_type))
    || (same_type t empty_type && leb 1 u.dimension)

none_dimension : (t : SemaType) → t.dimension == 1 && same_type t none_type ≡ false
none_dimension t = elim (Bool-cases (same_type t none_type)) [
  | inl e ↦
      let d : t.dimension ≡ 0 =
        ap (λ (r : SemaType). r.dimension) ((same_type_iff t none_type).0 e) in
      ground arith
  | inr e ↦ ground arith
]

compatible-rules : (t u : SemaType) → IsRooted t → is_assignment_compatible t u ≡ some (rules t u)
unfolding is_assignment_compatible
compatible-rules t u (inl e) = ground (arith, none_dimension t, same_type_iff t object_type)
compatible-rules t u (inr e) = ground (arith, none_dimension t)

rules-Assignable : (t u : SemaType) → rules t u ≡ true → Assignable t u
rules-Assignable t u h = elim (Bool-cases (same_type t u)) [
  | inl e ↦ same ((same_type_iff t u).0 e)
  | inr a ↦ elim (Bool-cases (same_type object_type u)) [
    | inl o ↦ elim (Bool-cases (same_type t object_type)) [
      | inl b ↦ absurd (
          ground
            (arith, same_type_iff t object_type, same_type_iff t u, same_type_iff object_type u))
      | inr b ↦
          to_object (ground (arith, same_type_iff t object_type))
            (sym ((same_type_iff object_type u).0 o))
    ]
    | inr o ↦ elim (Bool-cases (same_type t empty_type && leb 1 u.dimension)) [
      | inl b ↦ from_empty (ground (arith, same_type_iff t empty_type)) (ground arith)
      | inr b ↦
          from_none (ground (arith, same_type_iff t none_type))
            (ground (arith, same_type_iff u integer_type))
            (ground (arith, same_type_iff u boolean_type))
            (ground (arith, same_type_iff u string_type))
    ]
  ]
]

Assignable-rules : (t u : SemaType) → Assignable t u → rules t u ≡ true
Assignable-rules t u (same e) = ground (arith, same_type_iff t u)
Assignable-rules t u (to_object n e) =
    ground (arith, same_type_iff object_type u, same_type_iff t object_type)
Assignable-rules t u (from_none e a b c) = ground (
  arith,
  same_type_iff t none_type,
  same_type_iff u integer_type,
  same_type_iff u boolean_type,
  same_type_iff u string_type,
)
Assignable-rules t u (from_empty e h) = ground (arith, same_type_iff t empty_type)

-- `isAssignmentCompatible` answers on every type with a super class or none to look for, and it
-- answers true exactly where one of the rules 1 to 3 applies.
pub is_assignment_compatible-Assignable :
    (t u : SemaType)
    → IsRooted t
    → (b : Bool) × (is_assignment_compatible t u ≡ some b) × ((b ≡ true) ↔ Assignable t u)
is_assignment_compatible-Assignable t u r =
    (rules t u, compatible-rules t u r, (rules-Assignable t u, Assignable-rules t u))

pub accepts :
    (t u : SemaType) → IsRooted t → (is_assignment_compatible t u ≡ some true) ↔ Assignable t u
accepts t u r = (
  (λ e. rules-Assignable t u (some_eq (sym (compatible-rules t u r) ∙ e))),
  (λ a. compatible-rules t u r ∙ ap some (Assignable-rules t u a)),
)
  where
    some_eq : {b c : Bool} → some b ≡ some c → b ≡ c
    some_eq e = cc

list_ne : (t u : SemaType) → 1 ≤ t.dimension → u.dimension ≡ 0 → t ≢ u
list_ne t u h z e = omega (arith, ap (λ (r : SemaType). r.dimension) e)

Assignable-trans : {t u w : SemaType} → Assignable t u → Assignable u w → Assignable t w
Assignable-trans (same e) b = rw e b
Assignable-trans a (same e) = rw (← e) a
Assignable-trans (to_object n e) (to_object n' e') = absurd (n' e)
Assignable-trans (to_object n e) (from_none e' a b c) = cc
Assignable-trans (to_object n e) (from_empty e' h) = cc
Assignable-trans (from_none e a b c) (to_object n' e') =
    from_none e (ground arith) (ground arith) (ground arith)
Assignable-trans (from_none e a b c) (from_none e' a' b' c') = from_none e a' b' c'
Assignable-trans {w} (from_none e a b c) (from_empty e' h) =
    from_none e (list_ne w integer_type h refl) (list_ne w boolean_type h refl)
      (list_ne w string_type h refl)
Assignable-trans (from_empty e h) (to_object n' e') = to_object (ground arith) e'
Assignable-trans {u} (from_empty e h) (from_none e' a b c) = absurd (list_ne u none_type h refl e')
Assignable-trans (from_empty e h) (from_empty e' h') = from_empty e h'

Assignable-antisymm : {t u : SemaType} → Assignable t u → Assignable u t → t ≡ u
Assignable-antisymm (same e) b = e
Assignable-antisymm a (same e) = sym e
Assignable-antisymm (to_object n e) (to_object n' e') = absurd (n' e)
Assignable-antisymm (to_object n e) (from_none e' a b c) = ground arith
Assignable-antisymm (to_object n e) (from_empty e' h) = ground arith
Assignable-antisymm (from_none e a b c) (to_object n' e') = ground arith
Assignable-antisymm (from_none e a b c) (from_none e' a' b' c') = e ∙ sym e'
Assignable-antisymm {t} (from_none e a b c) (from_empty e' h) =
    absurd (list_ne t none_type h refl e)
Assignable-antisymm (from_empty e h) (to_object n' e') = ground arith
Assignable-antisymm {u} (from_empty e h) (from_none e' a b c) =
    absurd (list_ne u none_type h refl e')
Assignable-antisymm {u} (from_empty e h) (from_empty e' h') = e ∙ sym e'

-- The types form a partial order under `isAssignmentCompatible`: every type is compatible with itself,
-- compatibility passes on, and two types that are compatible with one another are the same.
pub is_assignment_compatible_order :
    (t u w : SemaType)
    → IsRooted t
    → IsRooted u
    → (is_assignment_compatible t t ≡ some true)
      × (is_assignment_compatible t u ≡ some true
          → is_assignment_compatible u w ≡ some true
          → is_assignment_compatible t w ≡ some true)
      × (is_assignment_compatible t u ≡ some true
          → is_assignment_compatible u t ≡ some true
          → t ≡ u)
is_assignment_compatible_order t u w r q = (
  (accepts t t r).1 (same refl),
  (λ e e'. (accepts t w r).1 (Assignable-trans ((accepts t u r).0 e) ((accepts u w q).0 e'))),
  (λ e e'. Assignable-antisymm ((accepts t u r).0 e) ((accepts u t q).0 e')),
)

-- The type `[<None>]`.
abbrev pub list_of_none : SemaType
list_of_none = record { base_type = codes "<None>"; dimension = 1; super_class = SuperClass.object }

-- The fourth rule, which would let `[<None>]` into lists of other types, never applies: `[<None>]` is
-- compatible with itself and with `object` alone.
pub list_of_none_only :
    (u : SemaType)
    → is_assignment_compatible list_of_none u ≡ some true
    → (u ≡ list_of_none) ⊎ (u ≡ object_type)
list_of_none_only u e = only ((accepts list_of_none u (inr refl)).0 e)
  where
    only : Assignable list_of_none u → (u ≡ list_of_none) ⊎ (u ≡ object_type)
    only (same e') = inl (sym e')
    only (to_object n e') = inr e'
    only (from_none e' a b c) = absurd (list_ne list_of_none none_type (omega arith) refl e')
    only (from_empty e' h) = absurd (ground arith)
