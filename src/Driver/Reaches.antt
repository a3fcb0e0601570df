-- ===== src/Driver/Reaches.antt =====
-- What `src/chocopc.cpp` hands to the code generator, and what that makes of it.
use choco_c.Prelude.{
  ◌<◌, ◌^◌, ◌≡◌, sym, subst, ◌⊎◌, inl, inr, Bool, true, List, [], ◌∷◌, All, Text, length,
}
use choco_c.Token.{Token}
use choco_c.Diagnostics.{DiagnosticsManager}
use choco_c.Ast.{
  Expression, literal, identifier, grouping, grouping_null, unary, binary, is_valid_target,
  variable_definition, statement, Program,
}
use choco_c.Parser.Monad.{State}
use choco_c.Parser.Statements.{parse}
use choco_c.Semantic.SymbolTable.{SymbolTable, make_variable}
use choco_c.Semantic.TypeChecker.{Outcome, check_program}
use choco_c.Semantic.Built.{Resolved}
use choco_c.Semantic.Grows.{check_program-Grows}
use choco_c.Semantic.Accepted.{no_length}
use choco_c.Semantic.Names.{IsVariable, KnownNames, KnownChild, check_program-Known}
use choco_c.Semantic.Defined.{DefinedIn, new_builder-DefinedIn}
use choco_c.CodeGenerator.{Llvm, Generator}
use choco_c.CodeGenerator
use choco_c.CodeGenerator.Visits.{generate_program, new_generator}
use choco_c.CodeGenerator.Generates.{
  MakesConstants, Generable, IsTarget, Including, GenerableProgram,
}
use choco_c.CodeGenerator.Programs.{AllocatedChild, generate_program-ok}
use choco_c.Driver.{generated, compile}
use choco_c.Driver.Generated.{parsed, built, compile-Generated}
use choco_c.Driver.InOrder.{IsPlain, PlainChild, InOrder, SpellsProgram-InOrder}

module _ (m : SymbolTable) where
  -- Names that lead to variables have what all of those have.
  known-Generable :
      (P : Text → Type 0) (e : Expression)
      → ((n : Text) → IsVariable m n → P n)
      → KnownNames m e
      → IsPlain e
      → Generable P e
  unfolding KnownNames IsPlain Generable
  known-Generable P (literal t) p k h = h
  known-Generable P (identifier t) p k h = p t.text k
  known-Generable P (grouping e r) p k h = known-Generable P e p k h
  known-Generable P (grouping_null r) p k h = k
  known-Generable P (unary op e) p k h = absurd k
  known-Generable P (binary l op r) p k h =
      (h.0, known-Generable P l p k.0 h.1, known-Generable P r p k.1 h.2)

  known-IsTarget :
      (P : Text → Type 0) (e : Expression)
      → ((n : Text) → IsVariable m n → P n)
      → KnownNames m e
      → is_valid_target e ≡ true
      → IsTarget P e
  unfolding KnownNames is_valid_target
  known-IsTarget P (identifier t) p k h = p t.text k
  known-IsTarget P (literal t) p k h = cc
  known-IsTarget P (grouping e r) p k h = cc
  known-IsTarget P (grouping_null r) p k h = cc
  known-IsTarget P (unary op e) p k h = cc
  known-IsTarget P (binary l op r) p k h = cc

  All-IsTarget :
      (P : Text → Type 0) (es : List Expression)
      → ((n : Text) → IsVariable m n → P n)
      → All (KnownNames m) es
      → All (λ e. is_valid_target e ≡ true) es
      → All (IsTarget P) es
  All-IsTarget P [] p k h = tt
  All-IsTarget P (e ∷ es) p k h = (known-IsTarget P e p k.0 h.0, All-IsTarget P es p k.1 h.1)

  -- The variables still to be defined are defined in the rest of the program.
  InOrder-GenerableProgram :
      (P : Text → Type 0) (cs : Program)
      → ((n : Text) → IsVariable m n → DefinedIn n cs ⊎ P n)
      → InOrder cs
      → Resolved m cs
      → All (KnownChild m) cs
      → All PlainChild cs
      → GenerableProgram m P cs
  unfolding DefinedIn InOrder GenerableProgram
  InOrder-GenerableProgram P [] p o r k h = tt
  InOrder-GenerableProgram P (variable_definition d ∷ cs) p o r k h =
      let (t, e, q) = r.0 in
      (
        (make_variable t, q),
        h.0,
        InOrder-GenerableProgram (Including d.name.text P) cs
            (λ n v. elim (p n v) [
              | inl x ↦ elim x [ inl y ↦ inr (inl y) | inr y ↦ inl y ]
              | inr x ↦ inr (inr x)
            ])
            o r.1 k.1 h.1,
      )
  InOrder-GenerableProgram P (statement s ∷ cs) p o r k h =
      let all : (n : Text) → IsVariable m n → P n =
        λ n v. elim (p n v) [ inl x ↦ absurd (o.1 n x) | inr x ↦ x ] in
      (
        All-IsTarget P s.targets all k.0.0 o.0,
        known-Generable P s.expr all k.0.1 h.0,
        InOrder-GenerableProgram P cs (λ n v. inr (all n v)) o.2 r k.1 h.1,
      )

-- From fewer than 2^63 tokens, whatever program reaches the code generator with no `None` and no `is` in it,
-- with literals that carry the kind of value that their types want, and with binary operators that are
-- operators for `Token::isBinOp`, is one that the code generator ends normally on, where LLVM takes its
-- integers and strings for constants: no pointer to a variable is null where it is stored to or loaded, no
-- cast fails and no exception is thrown. Every variable defined has an allocation then.
pub compile-generates :
    (llvm : Llvm) (file : Text) (do_pprint : Bool) (tokens : List Token) (ds : DiagnosticsManager)
    (root : Program) (m : SymbolTable)
    → MakesConstants llvm
    → length tokens < 2 ^ 63
    → compile do_pprint tokens ds ≡ generated root m
    → All PlainChild root
    → (g : Generator llvm) × (generate_program llvm root (new_generator llvm file m)
        ≡ CodeGenerator.ok tt g)
      × All (AllocatedChild g.symbol_table) root
unfolding compile
compile-generates llvm file do_pprint tokens ds root m k h e plain =
    let s₀ : State = record {
      token_stream = record { tokens = tokens; current_idx = 0 };
      diag_manager = ds;
    } in
    let (spelled, resolved, typed) = compile-Generated do_pprint tokens ds root m h e in
    let (root', s, p, q) = parsed do_pprint (parse s₀) root m e in
    let (same, (b, build_eq, table, checked)) = built root' root m _ q in
    let silent =
      no_length b.diag_manager
        (check_program-Grows b.symbol_table root' b.diag_manager [] tt checked) in
    let quiet =
      subst (λ x. check_program b.symbol_table root' x ≡ Outcome.ok tt []) silent checked in
    let known =
      subst (λ x. All (KnownChild x) root') table
        (check_program-Known b.symbol_table root' quiet) in
    let defined : (n : Text) → IsVariable m n → DefinedIn n root' = λ n v.
      new_builder-DefinedIn [] b root' n build_eq (subst (λ x. IsVariable x n) (sym table) v) in
    generate_program-ok llvm m file root k (
      InOrder-GenerableProgram m (λ n. ⊥) root (λ n v. inl (subst (DefinedIn n) same (defined n v)))
        (SpellsProgram-InOrder spelled) resolved (subst (All (KnownChild m)) same known) plain)
