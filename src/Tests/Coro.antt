-- ===== src/Tests/Coro.antt =====
-- The scheduler with two coroutines.
use iu_sysprog.Prelude.{ℕ, true, false, List, none, some, [], ◌∷◌, ◌≡◌, refl, All, arith}
use iu_sysprog.Prelude.Int.{pos}
use iu_sysprog.Coro.Store.{Store, fresh, coro_new, set_next, set_prev, Wait, coro_sched_wait}
use iu_sysprog.Coro.Chain.{Differs, Lists}
use iu_sysprog.Coro.Scheduler.{
  Machine, waiting, returning, creating, coro_sched_init, happens, Reaches, begins, goes_on,
}
use iu_sysprog.Coro.Scheduler.Working.{Goes, Reaches-Goes}
use iu_sysprog.Coro.Rounds.{Waits, coro_sched_wait-Waits, coro_new-Lists}

abbrev nobody_yet : Store
nobody_yet = record { heap = λ c. fresh; coro_list = none }

abbrev one : Store
one = coro_new 1 nobody_yet

abbrev two : Store
two = coro_new 2 one

nobody_yet-Lists : Lists nobody_yet []
nobody_yet-Lists = record { first = refl; links = tt; distinct = tt }

one-Lists : Lists one (1 ∷ [])
one-Lists = coro_new-Lists 1 nobody_yet [] nobody_yet-Lists tt

two-Lists : Lists two (2 ∷ 1 ∷ [])
two-Lists = coro_new-Lists 2 one (1 ∷ []) one-Lists (refl, tt)

coro_sched_wait-Waits_example :
    (w : Wait) × (coro_sched_wait 3 two ≡ some w) × Waits two (2 ∷ 1 ∷ []) w
coro_sched_wait-Waits_example = coro_sched_wait-Waits two (2 ∷ 1 ∷ []) two-Lists

-- The scheduler before its first coroutine.
abbrev at_first : Machine
at_first = record { store = nobody_yet; this = none; is_sched_waiting = false; sched_count = 0 }

at_first-reached : Reaches 9 0 at_first
unfolding coro_sched_init
at_first-reached = begins (λ c. fresh)

first_allowed : (xs : List ℕ) → Lists nobody_yet xs → All (Differs (some 1)) xs
first_allowed [] k = tt
first_allowed (x ∷ xs) k = let e = k.first in cc

abbrev created : Machine
created = record at_first { store = one }

created-reached : Reaches 9 1 created
unfolding happens
created-reached = goes_on (creating 1) at_first-reached first_allowed refl

-- The first coroutine runs.
abbrev resumed : Machine
resumed = record { store = one; this = some 1; is_sched_waiting = true; sched_count = 1 }

resumed-reached : Reaches 9 2 resumed
unfolding happens set_prev set_next
resumed-reached = goes_on waiting created-reached tt refl

Reaches-Goes_example : Goes 2 (happens 9 (returning (pos 5)) resumed.this resumed)
Reaches-Goes_example = Reaches-Goes 9 2 resumed (returning (pos 5)) resumed-reached (omega arith) tt
