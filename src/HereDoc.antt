-- ===== src/HereDoc.antt =====
-- Here-documents: srcs/lexer/here_body_read.c, here_read_line.c, here_write_line.c, lex_heredoc.c.
pub mod Write
pub mod Expand
pub mod Read
pub mod Lines
pub mod Body
pub mod NoFile
pub mod Doc
pub mod Keeps
pub mod Tests
