-- ===== src/Tests.antt =====
-- A group with one node of 64 zones, and the theorems on it.
pub mod Provisioning
pub mod Mapping
pub mod Nodes
pub mod Files
pub mod Memory
pub mod Reads
pub mod Appends
pub mod Records
pub mod Submissions
pub mod Queues
pub mod Starts
pub mod Sendings
pub mod Devices
pub mod Options
pub mod Library
