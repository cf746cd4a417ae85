-- ===== src/Context.antt =====
-- The connection management of typescript/optics-provider/src: `MultiProvider` (provider.ts) and
-- `OpticsContext` (optics/OpticsContext.ts), with the contract collections that they reconnect
-- (optics/contracts).
pub mod Ethers
pub mod State
pub mod Domains
pub mod MultiProvider
pub mod Contracts
pub mod Optics
pub mod Laws
