-- ===== src/Tests.antt =====
-- Runs of the code's counterparts at concrete inputs.
mod Inputs
mod Parsing
mod Typing
mod Driving
mod Scanning
mod Lexing
mod Printing
mod Generating
pub mod Accepting
