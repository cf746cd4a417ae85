-- ===== src/Tests.antt =====
-- The theorems at concrete inputs.
mod Configured
mod Connections
mod Queries
mod Received
mod Tokens
mod Deployed
mod Reported
