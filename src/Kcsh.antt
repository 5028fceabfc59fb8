-- ===== src/Kcsh.antt =====
-- The shell of lab4.
pub mod Outcome
pub mod Job
pub mod Variable
pub mod Builtin
pub mod Lexer
pub mod Command
pub mod Editor
pub mod Number
pub mod Functions
pub mod Launch
pub mod Main
pub mod Unfold
