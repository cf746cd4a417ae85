-- ===== src/Deploy/Solidity.antt =====
-- The contracts of solidity/optics-core/contracts that the deployment calls.
pub mod Storage
pub mod Connections
pub mod Governance
pub mod UpdaterManagers
pub mod Owned
pub mod Routers
