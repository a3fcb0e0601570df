-- ===== src/Semantic/Built.antt =====
-- The symbol table that `src/semantic/SymbolTableBuilder.cpp` leaves, and what the type checker may
-- rely on.
use choco_c.Prelude.{
  suc, ◌≡◌, refl, sym, subst, ◌⊎◌, inl, inr, [], ◌∷◌, Option, none, some, arith, Option-cases,
  length, length-append, ◌≤◌,
}
use choco_c.Diagnostics.{DiagnosticsManager}
use choco_c.Ast.{VariableDefinition, Child, variable_definition, statement, Program, get_text}
use choco_c.Semantic.SemaType.{SemaType}
use choco_c.Semantic.SymbolTable.{
  SymbolTable, SymbolTableEntry, variable, type, make_variable, get_entry, add_entry,
}
use choco_c.Semantic.SymbolTableBuilder.{
  SymbolTableBuilder, enter, visit_definition, visit_child, build, new_builder,
}
use choco_c.Semantic.Tables.{
  AllSound, Keeps, add_entry-Keeps, get_entry-added, add_entry-AllSound, initial_entries-AllSound,
}

-- A step of the pass keeps the entries and their soundness, and the diagnostics only grow.
pub record Extends (b b' : SymbolTableBuilder) : Type 0 where
  pub keeps : Keeps b.symbol_table b'.symbol_table
  pub sound : AllSound b.symbol_table → AllSound b'.symbol_table
  pub longer : length b.diag_manager ≤ length b'.diag_manager

Extends-refl : (b : SymbolTableBuilder) → Extends b b
Extends-refl b = record { keeps = λ n e h. h; sound = λ s. s; longer = omega arith }

Extends-trans : {a b c : SymbolTableBuilder} → Extends a b → Extends b c → Extends a c
Extends-trans p q = record {
  keeps = λ n e h. q.keeps n e (p.keeps n e h);
  sound = λ s. q.sound (p.sound s);
  longer = omega (arith, p.longer, q.longer);
}

-- A reported step leaves the table and makes the diagnostics longer.
abbrev pub IsReported : SymbolTableBuilder → SymbolTableBuilder → Type 0
IsReported b b' =
    (b'.symbol_table ≡ b.symbol_table) × (length b'.diag_manager ≡ suc (length b.diag_manager))

-- The definition's type is one of the table and its name is bound to a variable of that type.
abbrev pub IsBound : SymbolTable → VariableDefinition → Type 0
IsBound m d =
    (t : SemaType) × (get_entry (get_text d.type) m ≡ some (type t))
    × (get_entry d.name.text m ≡ some (variable (make_variable t)))

-- What a step does at a definition: it reports, or it binds the name.
abbrev pub Entered : SymbolTableBuilder → VariableDefinition → SymbolTableBuilder → Type 0
Entered b d b' =
    (t : SemaType) × (get_entry (get_text d.type) b.symbol_table ≡ some (type t))
    × (get_entry d.name.text b.symbol_table ≡ none)
    × (b' ≡ record b {
      symbol_table = add_entry d.name.text (variable (make_variable t)) b.symbol_table;
    })

enter-cases :
    (b : SymbolTableBuilder) (d : VariableDefinition)
    → get_entry d.name.text b.symbol_table ≡ none
    → (o : Option SymbolTableEntry) → get_entry (get_text d.type) b.symbol_table ≡ o
    → IsReported b (enter b d o) ⊎ Entered b d (enter b d o)
unfolding enter
enter-cases b d n none e = inl (refl, omega (arith, length-append b.diag_manager _))
enter-cases b d n (some (variable v)) e = inl (refl, omega (arith, length-append b.diag_manager _))
enter-cases b d n (some (type t)) e = inr (t, e, n, refl)

visit_definition-new :
    (b : SymbolTableBuilder) (d : VariableDefinition)
    → get_entry d.name.text b.symbol_table ≡ none
    → visit_definition b d ≡ enter b d (get_entry (get_text d.type) b.symbol_table)
unfolding visit_definition
visit_definition-new b d n = rw (visit_definition, n)

visit_definition-old :
    (b : SymbolTableBuilder) (d : VariableDefinition) (e : SymbolTableEntry)
    → get_entry d.name.text b.symbol_table ≡ some e
    → IsReported b (visit_definition b d)
unfolding visit_definition
visit_definition-old b d e h =
    rw (visit_definition, h) (refl, omega (arith, length-append b.diag_manager _))

pub visit_definition-cases :
    (b : SymbolTableBuilder) (d : VariableDefinition)
    → IsReported b (visit_definition b d) ⊎ Entered b d (visit_definition b d)
visit_definition-cases b d = elim (Option-cases (get_entry d.name.text b.symbol_table)) [
  | inl n ↦
      subst (λ x. IsReported b x ⊎ Entered b d x) (sym (visit_definition-new b d n))
        (enter-cases b d n _ refl)
  | inr (e, h) ↦ inl (visit_definition-old b d e h)
]

Reported-Extends : {b b' : SymbolTableBuilder} → IsReported b b' → Extends b b'
Reported-Extends (e, l) = record {
  keeps = λ n x h. rw e h;
  sound = λ s. rw e s;
  longer = omega (arith, l);
}

Entered-Extends :
    (b : SymbolTableBuilder) (d : VariableDefinition) {b' : SymbolTableBuilder}
    → Entered b d b'
    → Extends b b'
Entered-Extends b d (t, h, n, e) = subst (Extends b) (sym e) (record {
  keeps = add_entry-Keeps d.name.text _ b.symbol_table;
  sound = λ s. add_entry-AllSound d.name.text _ b.symbol_table s (s _ _ h);
  longer = omega arith;
})

Extends-visit_definition :
    (b : SymbolTableBuilder) (d : VariableDefinition) → Extends b (visit_definition b d)
Extends-visit_definition b d = elim (visit_definition-cases b d) [
  | inl h ↦ Reported-Extends h
  | inr h ↦ Entered-Extends b d h
]

Extends-visit_child :
    (b : SymbolTableBuilder) (c : Child) {b' : SymbolTableBuilder}
    → visit_child b c ≡ some b'
    → Extends b b'
unfolding visit_child
Extends-visit_child b (variable_definition d) e =
    subst (Extends b) (ground arith) (Extends-visit_definition b d)
Extends-visit_child b (statement a) e = subst (Extends b) (ground arith) (Extends-refl b)

pub build-cons :
    (b : SymbolTableBuilder) (c : Child) (cs : Program) {b' : SymbolTableBuilder}
    → build b (c ∷ cs) ≡ some b'
    → (b₁ : SymbolTableBuilder) × (visit_child b c ≡ some b₁) × (build b₁ cs ≡ some b')
unfolding build
build-cons b c cs e = elim (Option-cases (visit_child b c)) [
  | inl n ↦ absurd (ground arith)
  | inr (b₁, h) ↦ (b₁, h, ground arith)
]

pub Extends-build :
    (b : SymbolTableBuilder) (p : Program) {b' : SymbolTableBuilder}
    → build b p ≡ some b'
    → Extends b b'
unfolding build
Extends-build b [] e = subst (Extends b) (ground arith) (Extends-refl b)
Extends-build b (c ∷ cs) e =
    let (b₁, h, k) = build-cons b c cs e in
    Extends-trans (Extends-visit_child b c h) (Extends-build b₁ cs k)

-- Each definition of the program is bound.
abbrev pub Resolved : SymbolTable → Program → Type 0
Resolved m [] = Unit
Resolved m (variable_definition d ∷ p) = IsBound m d × Resolved m p
Resolved m (statement a ∷ p) = Resolved m p

Entered-IsBound :
    (b : SymbolTableBuilder) (d : VariableDefinition) (b' : SymbolTableBuilder)
    → Entered b d b'
    → IsBound b'.symbol_table d
Entered-IsBound b d b' (t, h, n, e) = rw e (
  t,
  add_entry-Keeps d.name.text _ b.symbol_table _ _ h,
  get_entry-added d.name.text _ b.symbol_table n,
)

IsBound-Keeps :
    (m m' : SymbolTable) (d : VariableDefinition) → Keeps m m' → IsBound m d → IsBound m' d
IsBound-Keeps m m' d k (t, h, n) = (t, k _ _ h, k _ _ n)

visit_definition-IsBound :
    (b : SymbolTableBuilder) (d : VariableDefinition) (b' : SymbolTableBuilder)
    → visit_child b (variable_definition d) ≡ some b'
    → length b'.diag_manager ≤ length b.diag_manager
    → IsBound b'.symbol_table d
unfolding visit_child
visit_definition-IsBound b d b' e l = elim (visit_definition-cases b d) [
  | inl (q, k) ↦ absurd (ground arith)
  | inr h ↦ Entered-IsBound b d b' (subst (Entered b d) (ground arith) h)
]

-- A program that the pass goes through without a report has each definition's type among the symbols,
-- and its name bound to a variable of that type.
pub build-Resolved :
    (b : SymbolTableBuilder) (p : Program) (b' : SymbolTableBuilder)
    → build b p ≡ some b'
    → length b'.diag_manager ≡ length b.diag_manager
    → Resolved b'.symbol_table p
build-Resolved b [] b' e l = tt
build-Resolved b (variable_definition d ∷ cs) b' e l =
    let (b₁, h, k) = build-cons b (variable_definition d) cs e in
    let later = Extends-build b₁ cs k in
    let earlier = Extends-visit_child b (variable_definition d) h in
    (
      IsBound-Keeps _ _ d later.keeps
          (visit_definition-IsBound b d b₁ h (omega (arith, l, later.longer))),
      build-Resolved b₁ cs b' k (omega (arith, l, later.longer, earlier.longer)),
    )
build-Resolved b (statement a ∷ cs) b' e l =
    let (b₁, h, k) = build-cons b (statement a) cs e in
    build-Resolved b₁ cs b' k (
      omega
        (arith, l, (Extends-build b₁ cs k).longer, (Extends-visit_child b (statement a) h).longer))

-- Every type of the table that a pass from a new builder leaves, where it ends, is `object` or has `object` for super class.
pub build-AllSound :
    (ds : DiagnosticsManager) (p : Program) (b : SymbolTableBuilder)
    → build (new_builder ds) p ≡ some b
    → AllSound b.symbol_table
build-AllSound ds p b e = (Extends-build (new_builder ds) p e).sound initial_entries-AllSound
