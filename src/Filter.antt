-- ===== src/Filter.antt =====
-- crates/db/src/query/filter.rs: the filter language of list requests and access rules.
pub mod Syntax
pub mod Grammar
pub mod Lexer
pub mod Parser
mod Tests
