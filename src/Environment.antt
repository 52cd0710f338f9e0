-- ===== src/Environment.antt =====
-- srcs/environment: the variables.
pub mod Defs
pub mod Lookup
pub mod Unique
pub mod Defaults
pub mod Exported
mod Tests
