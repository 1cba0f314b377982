-- ===== src/Decode.antt =====
-- rust/src/de.rs: materialized values, decoded into native types by serde's visitors.
pub mod Pointer
pub mod Value
pub mod Numbers
pub mod Access
pub mod Visitor
pub mod Scalars
pub mod Visit
pub mod Entry
pub mod Exact
pub mod Ranges
pub mod Unescape
pub mod Collect
pub mod Whole
pub mod Missing
pub mod Depth
pub mod Tests
