-- ===== src/Parser.antt =====
-- rust/src/parser.rs
pub mod Weight
pub mod Inside
pub mod Arrays
pub mod Keys
pub mod Text
pub mod State
pub mod Grammar
pub mod File
pub mod Progress
pub mod Sound
pub mod Steps
pub mod Descent
pub mod Imports
pub mod Whole
pub mod Utf8
pub mod Tests
