-- ===== src/Shell.antt =====
-- The shell of 2/solution: the character stack, the line reader, the lexer and the command list.
pub mod CString
pub mod Pair
pub mod CharStack
pub mod Lexer
pub mod ReadLine
pub mod Command
pub mod Exec
pub mod Loop
