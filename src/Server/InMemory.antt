-- ===== src/Server/InMemory.antt =====
-- src/server/in_memory_server.cpp: the server without a database.
pub mod State
pub mod Hex
pub mod RateLimit
pub mod Registration
pub mod Login
pub mod Sessions
pub mod Bundles
pub mod Inbox
pub mod HexLaws
pub mod RateLimitLaws
pub mod RegistrationLaws
pub mod LoginLaws
pub mod LoginComplete
pub mod SessionLaws
pub mod BundleLaws
pub mod InboxLaws
pub mod Reachable
pub mod Invariants
pub mod Delivery
pub mod Windows
