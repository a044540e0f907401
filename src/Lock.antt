-- ===== src/Lock.antt =====
-- kernel/lock.c: interrupt nesting, spin locks, sleep locks and semaphores.
pub mod Semaphore
pub mod Nesting
pub mod Spin
mod Tests
