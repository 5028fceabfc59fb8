-- ===== src/Multithread.antt =====
-- The thread programs of lab5: two threads that edit one string, `toy`, under a lock.
pub mod Code
pub mod Passes
pub mod Effect
pub mod Sync
pub mod Threads
pub mod Loops
