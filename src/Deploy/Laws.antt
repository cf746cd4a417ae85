-- ===== src/Deploy/Laws.antt =====
-- What the deployment scripts do.
pub mod Standing
pub mod Linked
pub mod Steps
pub mod Enrolled
pub mod Rounds
pub mod Connected
pub mod Governed
pub mod Links
pub mod Linking
pub mod Setup
pub mod Linkage
pub mod Checked
pub mod Unchecked
pub mod Proxies
pub mod Later
pub mod Written
pub mod Phases
pub mod Pairs
pub mod Powers
pub mod Approved
pub mod Network
pub mod AgentBlocks
pub mod AgentConfigs
pub mod BridgeSteps
pub mod Bridged
pub mod Latest
pub mod Networked
pub mod Complete
pub mod TwoPhases
pub mod TwoChains
