-- ===== src/Lifecycle.antt =====
-- Messages and their life cycle: typescript/optics-provider/src/optics/messages.
pub mod Message
pub mod Receipts
pub mod Status
pub mod Bridge
pub mod Getters
pub mod Laws
