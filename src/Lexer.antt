-- ===== src/Lexer.antt =====
-- srcs/lexer: the tokenizer.
pub mod Scan
pub mod Rules
pub mod Valid
pub mod Advance
pub mod Loop
pub mod Keeps
mod Tests
