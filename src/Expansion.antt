-- ===== src/Expansion.antt =====
-- Expansion of words into fields: srcs/expansions.
pub mod Fields
pub mod Scan
pub mod Text
pub mod Appends
pub mod Segment
pub mod Runs
pub mod Closing
pub mod Round
pub mod Word
pub mod Ends
pub mod Args
pub mod Argv
pub mod Redir
pub mod Tests
