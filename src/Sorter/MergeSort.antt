-- ===== src/Sorter/MergeSort.antt =====
-- `me_mergesort` of 1/solution/solution.c, with the time that a coroutine keeps of itself. A clock
-- reading is the `n`th answer of `clock_gettime`, in nanoseconds; what other coroutines do during a
-- `coro_yield` shows only in the clock, since no two of them sort the same array.
use iu_sysprog.Prelude.{
  ℕ, zero, suc, ◌+◌, ◌-◌, ◌*◌, ◌%◌, ◌^◌, min, Option, none, some, if◌then◌else◌, ◌>>=◌, ltb, leb,
}
use iu_sysprog.Sorter.Merge.{Cells, me_merge}

-- The array, the fields of `struct coro_args` that the sort writes, the clock readings so far and
-- the switch count of the running coroutine.
pub record Sorting : Type 0 where
  pub array : Cells
  pub t_invoked : ℕ
  pub t_summary : ℕ
  pub switch_count : ℕ
  pub readings : ℕ
  pub switches : ℕ

-- `t_summary += now - t_invoked`, in `uint64_t`.
unfoldable pub add_time : (ℕ → ℕ) → Sorting → Sorting
add_time clock s = record s {
  t_summary = (s.t_summary + (clock s.readings + 2 ^ 64 - s.t_invoked)) % 2 ^ 64;
  readings = s.readings + 1;
}

-- The block round each `coro_yield`: stop the time, give way, start the time again.
unfoldable pub yield_block : (ℕ → ℕ) → Sorting → Sorting
unfolding add_time
yield_block clock s =
    let stopped = add_time clock s in
    record stopped {
      switches = stopped.switches + 1;
      t_invoked = clock stopped.readings;
      readings = stopped.readings + 1;
    }

-- One pass, on fuel: merge the neighbouring runs of `curr_size` cells.
unfoldable pub merge_pass : (ℕ → ℕ) → ℕ → ℕ → ℕ → ℕ → Sorting → Option Sorting
unfolding me_merge yield_block
merge_pass clock zero left_start curr_size rhs s = none
merge_pass clock (suc fuel) left_start curr_size rhs s =
    let mid = min (left_start + curr_size - 1) (rhs - 1) in
    let right_end = min (left_start + 2 * curr_size - 1) (rhs - 1) in
    let rest = me_merge s.array left_start mid right_end >>= λ array.
    merge_pass clock fuel (left_start + 2 * curr_size) curr_size rhs
      (yield_block clock (record s { array = array })) in
    if ltb left_start (rhs - 1) then rest else some s

-- The passes, on fuel: runs of 1, 2, 4, ... cells.
unfoldable pub size_loop : (ℕ → ℕ) → ℕ → ℕ → ℕ → Sorting → Option Sorting
unfolding merge_pass
size_loop clock zero curr_size rhs s = none
size_loop clock (suc fuel) curr_size rhs s =
    let rest = merge_pass clock (rhs + 1) 0 curr_size rhs s >>= λ s'.
    size_loop clock fuel (2 * curr_size) rhs (yield_block clock s') in
    if leb curr_size rhs then rest else some s

-- `lhs` is not used by the source. `rhs` is the number of cells.
unfoldable pub me_mergesort : (ℕ → ℕ) → ℕ → Sorting → Option Sorting
unfolding size_loop
me_mergesort clock rhs s =
    size_loop clock (rhs + 1) 1 rhs s >>= λ s'. some (record s' { switch_count = s'.switches })
