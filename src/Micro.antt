-- ===== src/Micro.antt =====
-- The benchmarks under micro.
pub mod HashMap
mod Tests
