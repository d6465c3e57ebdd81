-- ===== src/Tests/HeapHelp.antt =====
-- The heap checker at concrete calls and schedules.
use iu_sysprog.Prelude.{
  bit, ◌≤◌, true, false, none, some, List, [], ◌∷◌, ◌≡◌, refl, arith, get_elem?,
}
use iu_sysprog.HeapHelp.Counter.{
  Call, call_malloc, call_realloc, call_free, call_getline, call_strdup, run,
}
use iu_sysprog.HeapHelp.Blocks.{
  Runs, done, then, got_malloc, got_line, moved, freed, resized_to_0, report, run-Runs,
}
use iu_sysprog.HeapHelp.Touch.{spins, touched, aborted, Shared, schedule, untouched}
use iu_sysprog.HeapHelp.Lock.{holders, starting, times, schedule-exclusive, schedule-late}

-- The last call frees a block by a resize to 0 bytes, and the count stays.
abbrev calls : List Call
calls =
    call_malloc (some 16)
    ∷ call_getline none (some 32)
    ∷ call_realloc (some 16) (some 64)
    ∷ call_free (some 32)
    ∷ call_malloc (some 96)
    ∷ call_realloc (some 96) none
    ∷ []

calls-Runs : Runs [] calls 1 (64 ∷ [])
calls-Runs = then (got_malloc 16) (
    then (got_line 32) (
      then (moved (32 ∷ []) [] 16 64) (
        then (freed [] (64 ∷ []) 32)
          (then (got_malloc 96) (then (resized_to_0 [] (64 ∷ []) 96) done)))))

run-Runs_example : (run calls 0 ≡ some 2) × (report 2 ≡ (some 2, none))
run-Runs_example = run-Runs calls 1 (64 ∷ []) calls-Runs (omega arith)

freed_twice : run (call_strdup (some 8) ∷ call_free (some 8) ∷ call_free (some 8) ∷ []) 0 ≡ none
unfolding run
freed_twice = refl

schedule-exclusive_example :
    (holders ((schedule (0 ∷ 1 ∷ 0 ∷ 1 ∷ []) (starting 2) untouched).0) ≤ 1)
    × (holders ((schedule (0 ∷ 1 ∷ 0 ∷ 1 ∷ []) (starting 2) untouched).0)
        ≡ bit ((schedule (0 ∷ 1 ∷ 0 ∷ 1 ∷ []) (starting 2) untouched).1.global_lock))
schedule-exclusive_example = schedule-exclusive (0 ∷ 1 ∷ 0 ∷ 1 ∷ []) 2

-- Both threads load `is_done` before one of them initialises the checker.
abbrev first_touched : Shared
first_touched = record { global_lock = false; is_done = true; inited = 1 }

first_goes :
    schedule (0 ∷ 1 ∷ times 5 0) (starting 2) untouched ≡ (touched ∷ spins ∷ [], first_touched)
unfolding schedule
first_goes = refl

schedule-late_example :
    (get_elem? ((schedule (times 5 1) (touched ∷ spins ∷ []) first_touched).0) 1 ≡ some aborted)
    × ((schedule (times 5 1) (touched ∷ spins ∷ []) first_touched).1.inited ≡ 2)
schedule-late_example = schedule-late 1 (touched ∷ spins ∷ []) first_touched refl refl refl
