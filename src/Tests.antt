-- ===== src/Tests.antt =====
-- Concrete data and runs, and the theorems at them.
pub mod Memory
pub mod Network
pub mod Cluster
pub mod Statuses
pub mod Node
pub mod Shelf
pub mod Slices
pub mod Zone
pub mod Events
pub mod Rounds
pub mod Ways
pub mod Deliveries
pub mod Kernel
pub mod Config
pub mod Commands
