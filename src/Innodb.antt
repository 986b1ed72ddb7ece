-- ===== src/Innodb.antt =====
-- The synchronisation primitives of InnoDB, as changed for hardware lock elision.
pub mod Event
pub mod Mutex
pub mod Elision
pub mod Levels
mod Tests
mod ElisionTests
mod QueryTests
mod UnfencedTests
