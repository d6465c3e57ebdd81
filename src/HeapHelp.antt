-- ===== src/HeapHelp.antt =====
-- The heap checker: a count of the blocks that are allocated, kept by wrappers round the allocator.
pub mod Counter
pub mod Blocks
pub mod Older
pub mod Touch
pub mod Lock
