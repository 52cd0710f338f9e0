-- ===== src/Builtin.antt =====
-- srcs/builtin.
pub mod Unset
pub mod Export
pub mod Echo
pub mod Exit
pub mod Number
pub mod Listing
mod Tests
