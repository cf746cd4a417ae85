-- ===== src/Events.antt =====
-- Event queries of typescript/optics-provider/src/optics/events.
pub mod Annotated
pub mod Chain
pub mod Fetch
pub mod Coverage
pub mod Paging
