-- ===== src/Sysbench.antt =====
-- The benchmark driver under mysql/bench/sysbench-0.4.12/sysbench.
pub mod Text
pub mod Cpu
pub mod Fileio
pub mod Memory
pub mod Mutex
pub mod Oltp
pub mod Options
pub mod Runner
pub mod Threads
pub mod Timer
mod Tests
mod BlockTests
mod FileioTests
mod OltpTests
mod CpuTests
mod MutexTests
