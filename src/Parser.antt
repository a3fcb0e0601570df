-- ===== src/Parser.antt =====
-- `include/parser/Parser.h`, `src/parser/Parser.cpp`: the parser, by parts.
pub mod Power
pub mod Monad
pub mod Expressions
pub mod Statements
pub mod Grammar
pub mod Ensures
pub mod Branches
pub mod ExpressionsSound
pub mod ProgramGrammar
pub mod DefinitionsSound
pub mod Headed
pub mod StatementsSound
pub mod ProgramSound
pub mod Gives
pub mod PrefixesComplete
pub mod ExpressionsComplete
pub mod DefinitionsComplete
pub mod TargetsComplete
pub mod StatementsComplete
pub mod ProgramComplete
pub mod Correct
pub mod Asserted
pub mod Complete
