-- ===== src/Schema.antt =====
-- crates/db/src/types.rs, crates/db/src/ddl.rs and the collections of crates/db/src/collections.rs: field types, identifiers, options,
-- and the statements that define tables.
pub mod Json
pub mod Types
pub mod Options
pub mod Collections
pub mod Ddl
pub mod Columns
pub mod Distinct
pub mod Names
pub mod Quoting
pub mod Tests
