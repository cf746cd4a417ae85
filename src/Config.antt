-- ===== src/Config.antt =====
-- The configured deployments of typescript/optics-provider/src/optics/domains, and the contexts that
-- are made from them.
pub mod Mainnet
pub mod MainnetCommunity
pub mod Dev
pub mod Staging
pub mod StagingCommunity
pub mod Replicas
