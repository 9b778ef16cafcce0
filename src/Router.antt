-- ===== src/Router.antt =====
-- src/server/gateway/router.ts: how a chat request finds an account. The clock is an argument, read
-- once for each stretch of code between two awaits.
pub mod Types
pub mod Circuits
pub mod Candidates
pub mod Reserve
pub mod Failover
pub mod Forward
mod Examples
