-- ===== src/Coro.antt =====
-- The coroutines: the library 1/solution/libcoro.c, and those of examples/coro_alloca.c.
pub mod Store
pub mod Chain
pub mod Rounds
pub mod Scheduler
pub mod Alloca
