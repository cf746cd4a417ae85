-- ===== src/Lifecycle/Laws.antt =====
-- Laws of messages and of their life cycle.
pub mod Progress
pub mod Reports
pub mod History
pub mod Polling
pub mod Answered
pub mod Dispatched
pub mod Sent
pub mod Bridged
