-- ===== src/Tests.antt =====
-- Runs of the code at concrete inputs, and the theorems at inputs that meet their hypotheses.
mod Shell
mod Sorter
mod HeapHelp
mod Coro
mod Input
mod Workers
mod Ipc
mod Net
mod Threads
