-- ===== src/HeapHelp/Older.antt =====
-- The older checker, 2/solution/heap_help/heap_help.c, whose count is a `uint64_t`.
pub mod Laws
use iu_sysprog.Prelude.{ℕ, ◌-◌, Option, none, some, List, [], ◌∷◌, if◌then◌else◌, ◌>>=◌, ◌==◌}
use iu_sysprog.HeapHelp.Counter.{Call, call_free, is_null_ptr, call, run}

-- `none` is `exit(1)`.
unfoldable pub free : Option ℕ → ℕ → Option ℕ
free ptr alloc_count =
    if is_null_ptr ptr
    then some alloc_count
    else if alloc_count == 0
    then none
    else some (alloc_count - 1)

-- The other wrappers do to the count what those of the newer checker do.
unfoldable pub older_call : Call → ℕ → Option ℕ
unfolding free call
older_call (call_free ptr) n = free ptr n
older_call c n = call c n

unfoldable pub older_run : List Call → ℕ → Option ℕ
unfolding older_call
older_run [] n = some n
older_run (c ∷ calls) n = older_call c n >>= older_run calls
