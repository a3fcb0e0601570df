-- ===== src/Semantic.antt =====
-- `include/semantic`, `src/semantic`: types, the symbol table and the type checker, by parts.
pub mod SemaType
pub mod Assignable
pub mod SymbolTable
pub mod SymbolTableBuilder
pub mod TypeChecker
pub mod Typing
pub mod Tables
pub mod Built
pub mod ListTypes
pub mod Checked
pub mod Grows
pub mod Accepted
pub mod Accepts
pub mod Declared
pub mod Silent
pub mod Names
pub mod Defined
