-- ===== src/Semantic/SymbolTableBuilder.antt =====
-- `include/semantic/SymbolTableBuilder.h`, `src/semantic/SymbolTableBuilder.cpp`: the pass that enters
-- the variables into the symbol table.
use choco_c.Prelude.{List, [], ◌∷◌, Option, none, some}
use choco_c.Diagnostics.{DiagId, Diagnostic, DiagnosticsManager, report, at, with_args, emit}
use choco_c.Ast.{
  Expression, walk, VariableDefinition, Child, variable_definition, statement, Program, get_text,
}
use choco_c.Semantic.SymbolTable.{
  SymbolTable, SymbolTableEntry, variable, type, get_entry, add_entry, make_variable,
  initial_entries,
}

-- `m_symbol_table` and `m_diag_manager`.
pub record SymbolTableBuilder : Type 0 where
  pub symbol_table : SymbolTable
  pub diag_manager : DiagnosticsManager

abbrev diagnosed : SymbolTableBuilder → Diagnostic → SymbolTableBuilder
diagnosed b d = record b { diag_manager = emit b.diag_manager d }

-- The second half of `visit`, with the entry of the type's text.
unfoldable pub enter :
    SymbolTableBuilder → VariableDefinition → Option SymbolTableEntry → SymbolTableBuilder
enter b d (some (type t)) = record b {
  symbol_table = add_entry d.name.text (variable (make_variable t)) b.symbol_table;
}
enter b d _ = diagnosed b (at (report DiagId.undefined_type) d.type.base_type.location.start)

-- `visit(const ast::VariableDefinition&)`.
unfoldable pub visit_definition : SymbolTableBuilder → VariableDefinition → SymbolTableBuilder
unfolding enter
visit_definition b d = elim (get_entry d.name.text b.symbol_table) [
  | some e ↦
      diagnosed b
        (with_args (at (report DiagId.redefinition) d.name.location.start) (d.name.text ∷ []))
  | none ↦ enter b d (get_entry (get_text d.type) b.symbol_table)
]

-- The walk of `ASTVisitor` over the targets of an assignment.
unfoldable pub walk_all : List Expression → Option (Unit {0})
walk_all [] = some tt
walk_all (e ∷ es) = elim (walk e) [ none ↦ none | some u ↦ walk_all es ]

unfoldable pub visit_child : SymbolTableBuilder → Child → Option SymbolTableBuilder
unfolding walk_all
visit_child b (variable_definition d) = some (visit_definition b d)
visit_child b (statement a) = elim (walk_all a.targets) [
  | none ↦ none
  | some u ↦ elim (walk a.expr) [ none ↦ none | some w ↦ some b ]
]

-- `root->accept(builder)`; no value where a null pointer is dereferenced.
unfoldable pub build : SymbolTableBuilder → Program → Option SymbolTableBuilder
build b [] = some b
build b (c ∷ cs) = elim (visit_child b c) [ none ↦ none | some b' ↦ build b' cs ]

-- A new builder.
abbrev pub new_builder : DiagnosticsManager → SymbolTableBuilder
new_builder m = record { symbol_table = initial_entries; diag_manager = m }
