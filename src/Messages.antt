-- ===== src/Messages.antt =====
-- The wire formats: identifiers (typescript/optics-provider/src/utils.ts), Optics messages
-- (optics/messages/OpticsMessage.ts and typescript/optics-tests/lib/core.ts), and bridge messages
-- (optics/messages/BridgeMessage.ts and typescript/optics-tests/lib/bridge.ts).
pub mod Ids
pub mod Optics
pub mod OpticsRoundTrip
pub mod Governance
pub mod Bridge
pub mod BridgeRoundTrip
mod Tests
