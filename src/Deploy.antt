-- ===== src/Deploy.antt =====
-- The deployment scripts of typescript/optics-deploy/src, with the contracts they deploy.
pub mod Chain
pub mod Solidity
pub mod State
pub mod Initializers
pub mod Proxies
pub mod Suite
pub mod Enroll
pub mod Checks
pub mod Agents
pub mod Networks
pub mod Bridges
pub mod BridgeChecks
pub mod BridgeNetworks
pub mod Outputs
pub mod Laws
