-- ===== src/Sorter.antt =====
-- The external sort of 1/solution/solution.c: each file is read and sorted by one coroutine, and
-- the sorted arrays are merged into the output.
pub mod Merge
pub mod Sorted
pub mod MergeLaws
pub mod MergeSort
pub mod Blocks
pub mod Sorts
pub mod Time
pub mod Output
pub mod Scans
pub mod Merges
pub mod Input
pub mod Workers
pub mod Program
pub mod Main
pub mod Bag
