-- ===== src/Parser.antt =====
-- srcs/parser: the LALR parser.
pub mod Tables
pub mod Dispatch
pub mod Stack
pub mod Nodes
pub mod Reduce
pub mod Action
pub mod Grammar
pub mod Automaton
pub mod Check
pub mod Stacked
pub mod Potential
pub mod Holds
pub mod Keeps
pub mod Sound
pub mod Accepts
pub mod Init
pub mod Classify
pub mod Flow
pub mod Input
pub mod Running
pub mod Safety
pub mod Progress
pub mod Whole
mod Tests
pub mod ShiftReduce
