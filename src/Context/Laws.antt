-- ===== src/Context/Laws.antt =====
-- The properties of the connection management.
pub mod Domains
pub mod Linked
pub mod Registered
pub mod Synced
pub mod Reconnected
pub mod History
pub mod Cleared
pub mod Effective
pub mod Resolved
