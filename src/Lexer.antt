-- ===== src/Lexer.antt =====
-- `include/lexer/Lexer.h`, `src/lexer/Lexer.cpp`, by parts: the state and the methods, and what each does to the state.
pub mod Characters
pub mod Scanner
pub mod Lines
pub mod Words
pub mod Strings
pub mod Lex
pub mod Stack
pub mod Cuts
pub mod Moves
pub mod Levels
pub mod Balance
pub mod Widths
pub mod NewLine
pub mod WordsCut
pub mod StringsLoop
pub mod StringsCut
pub mod TokenCut
pub mod Lexed
pub mod Few
pub mod Single
