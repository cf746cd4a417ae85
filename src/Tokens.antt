-- ===== src/Tokens.antt =====
-- The token methods of `OpticsContext` (typescript/optics-provider/src/optics/OpticsContext.ts).
pub mod Resolve
pub mod Send
pub mod Asset
pub mod Laws
