-- ===== src/Execute.antt =====
-- srcs/execute.
pub mod List
pub mod AndOr
pub mod Evaluate
pub mod Split
pub mod Pathname
pub mod Process
pub mod Redirect
pub mod Child
pub mod InShell
pub mod Wait
pub mod Command
pub mod Pipeline
pub mod Owns
pub mod Nodes
pub mod Held
pub mod Returns
pub mod Tables
pub mod Saved
pub mod Restored
pub mod Leaves
pub mod Rewritten
pub mod Simple
pub mod Between
pub mod Kept
pub mod Reaps
pub mod Entered
mod Scenario
mod Tests
