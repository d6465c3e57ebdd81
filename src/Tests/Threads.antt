-- ===== src/Tests/Threads.antt =====
-- The threads of lecture_examples/6_threads at concrete schedules.
use iu_sysprog.Prelude.{
  bit, ◌≤◌, ℕ, zero, suc, ◌+◌, ◌*◌, ◌<◌, Bool, true, false, List, [], ◌∷◌, ◌==◌, ltb, if◌then◌else◌,
  ◌≡◌, refl, arith, All,
}
use iu_sysprog.Threads.Interleave.{single, sum, interleave}
use iu_sysprog.Threads.Futex
use iu_sysprog.Threads.Condvar
use iu_sysprog.Threads.Condvar.Wakes
use iu_sysprog.Threads.Condvar.Wakes.{condvar_main-taken}
use iu_sysprog.Threads.SpinLock
use iu_sysprog.Threads.Detach.{act, cthread_create}
use iu_sysprog.Threads.Detach.Joined.{exits, join_schedule, joining, gone}
use iu_sysprog.Threads.Detach.Joined.Codes.{join_schedule-joined}
use iu_sysprog.Prelude.{some}
use iu_sysprog.Threads.Detach.Once.{pair, IsBehind, interleave-destroyed}

-- Rounds of moves of the places 0, 1 and 2.
abbrev in_turn : ℕ → List ℕ
in_turn zero = []
in_turn (suc n) = 0 ∷ 1 ∷ 2 ∷ 1 ∷ in_turn n

main-sum_example :
    (sum Futex.holds ((Futex.main (in_turn 5) 2 3).0) ≤ 1)
    × ((Futex.main (in_turn 5) 2 3).1.counter
          + sum (Futex.left single) ((Futex.main (in_turn 5) 2 3).0)
        ≡ 2 * 3)
main-sum_example = Futex.main-sum (in_turn 5) 2 3 (omega arith)

uniform_returned : All (λ pc. pc ≡ SpinLock.returned) ((SpinLock.main (in_turn 140) 2).0)
unfolding SpinLock.main
uniform_returned = (refl, (refl, (refl, tt)))

main-IsUniform_example : SpinLock.IsUniform ((SpinLock.main (in_turn 140) 2).1)
main-IsUniform_example = SpinLock.main-IsUniform (in_turn 140) 2 uniform_returned

pair_ended : All IsBehind ((interleave act (in_turn 12) pair cthread_create).0)
unfolding interleave act
pair_ended = (refl, (refl, tt))

interleave-destroyed_example :
    ((interleave act (in_turn 12) pair cthread_create).1.destroyed ≡ 1)
    × ((interleave act (in_turn 12) pair cthread_create).1.lock ≡ false)
interleave-destroyed_example = interleave-destroyed (in_turn 12) pair_ended

-- The first of ten threads never finishes, the others have at the time 1.
abbrev others_finish : ℕ → ℕ → Bool
others_finish time i = if i == 0 then false else ltb 0 time

others_finish-true : (j : ℕ) → 1 ≤ j → j < 10 → others_finish 1 j ≡ true
others_finish-true j l k = ground (arith, l)

-- Two threads wait for one character.
abbrev signal_turns : List ℕ
signal_turns = 1 ∷ 2 ∷ 0 ∷ 0 ∷ 0 ∷ 1 ∷ 1 ∷ 2 ∷ 1 ∷ 1 ∷ 1 ∷ 0 ∷ 0 ∷ 0 ∷ 0 ∷ []

condvar_main-signals_example :
    let (pcs, c) = Condvar.condvar_main signal_turns 2 1 in
    (sum Wakes.holds pcs + Wakes.main_holds c.main_at ≤ 1)
    × (c.wait_count + sum (Wakes.left Wakes.outside) pcs ≡ 2)
    × (c.taken + bit c.is_event_set + c.skipped + Wakes.unsent c.main_at ≡ 1)
condvar_main-signals_example = Wakes.condvar_main-signals signal_turns 2 1

-- The thread calls cthread_exit(7) and leaves cthread_runner, and cthread_join goes on when it sees it.
abbrev join_turns : List Bool
join_turns = false ∷ true ∷ true ∷ false ∷ true ∷ true ∷ false ∷ true ∷ false ∷ false ∷ []

has_joined : (join_schedule (exits 7) join_turns joining).joiner ≡ gone
unfolding join_schedule
has_joined = refl

join_schedule-joined_example :
    ((join_schedule (exits 7) join_turns joining).thread.destroyed ≡ 1)
    × ((join_schedule (exits 7) join_turns joining).thread.is_finished ≡ true)
    × ((join_schedule (exits 7) join_turns joining).joined ≡ some 7)
join_schedule-joined_example = join_schedule-joined (exits 7) join_turns has_joined
