-- ===== src/Net.antt =====
-- crates/core/src/net.rs and crates/api/src/client.rs: who may speak for a client, and where a hook may connect to.
pub mod Address
pub mod Proxies
pub mod Hosts
pub mod Patterns
pub mod Embedded
mod Tests
