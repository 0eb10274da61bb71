-- ===== src/Deployer.antt =====
-- The deployer of grid-client (grid-client/deployer/deployer.go and deployment_utils.go).
pub mod Zos
pub mod World
pub mod Versions
pub mod Wait
pub mod Run
pub mod Validate
pub mod Revert
pub mod Batch
pub mod Samples
mod Tests
