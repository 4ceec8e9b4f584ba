-- ===== src/Realtime.antt =====
-- crates/realtime/src and the request context of crates/db/src/rls/context.rs.
pub mod Context
pub mod Event
pub mod Hub
mod Tests
