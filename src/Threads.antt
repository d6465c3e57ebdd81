-- ===== src/Threads.antt =====
-- The threads of lecture_examples/6_threads, under every interleaving.
pub mod Interleave
pub mod Futex
pub mod SpinLock
pub mod Detach
pub mod Condvar
