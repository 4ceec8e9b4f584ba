-- ===== src/Query.antt =====
-- crates/db/src/query: what a filter may name, and the SQL that it becomes.
pub mod Context
pub mod Operators
pub mod Compile
pub mod Projection
mod Like
pub mod Tests
