-- ===== src/Hle.antt =====
-- The data structures of the benchmarks under hle.
pub mod Run
pub mod Nodes
pub mod Chain
pub mod Find
pub mod HashMap
pub mod ItemList
pub mod Bank
pub mod Locks
pub mod Above
pub mod OneMap
mod BankTests
mod ListTests
mod MapTests
mod LockTests
