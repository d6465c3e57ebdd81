-- ===== src/Ipc.antt =====
-- Processes that work together, lecture_examples/7_ipc: the sorts of files in processes of their own,
-- the semaphores, and the messages.
pub mod Files
pub mod Order
pub mod Bytes
pub mod SharedMem
pub mod MemSort
pub mod Pipe
pub mod Sems
pub mod Messages
pub mod Events
pub mod Locks
