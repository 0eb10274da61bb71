-- ===== src/Farmerbot.antt =====
-- farmerbot: power management of the nodes of a farm.
pub mod Capacity
pub mod Env
pub mod Node
pub mod State
pub mod Refresh
pub mod Power
pub mod Manage
pub mod FindNode
pub mod Setup
pub mod WakeUpDate
pub mod Round
pub mod Serve
pub mod Samples
mod Tests
