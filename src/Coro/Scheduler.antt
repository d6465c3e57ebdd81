-- ===== src/Coro/Scheduler.antt =====
-- Who runs, in 1/solution/libcoro.c: `coro_this_ptr`, `is_sched_waiting`, and the switches between the
-- scheduler and the coroutines. What the coroutines and the caller of the scheduler do is a sequence
-- of events.
pub mod Working
use iu_sysprog.Prelude.{
  ℕ, zero, suc, ◌+◌, ◌%◌, ◌^◌, ◌≡◌, Bool, true, false, Option, none, some, List, if◌then◌else◌, All,
}
use iu_sysprog.Prelude.Int.{ℤ}
use iu_sysprog.Coro.Store.{
  Coro, fresh, Store, coro_new, yields_to, count_switch, finish, Wait, over, returns, resumes,
  coro_sched_wait,
}
use iu_sysprog.Coro.Chain.{Lists, Differs}

-- `this` is `coro_this_ptr`, where `none` is the scheduler; `sched_count` is the switch count of
-- `coro_sched`.
pub record Machine : Type 0 where
  pub store : Store
  pub this : Option ℕ
  pub is_sched_waiting : Bool
  pub sched_count : ℕ

-- The exit with "Critical error", or a loop whose fuel ran out.
pub data Outcome : Type 0 where
  goes : Machine → Outcome
  critical : Outcome
  stuck : Outcome

-- The caller of the scheduler waits; the coroutine that runs yields, or its function returns; who
-- runs creates a coroutine in this memory.
pub data Event : Type 0 where
  waiting : Event
  yielding : Event
  returning : ℤ → Event
  creating : ℕ → Event

unfoldable pub coro_sched_init : Store → Machine
coro_sched_init s = record { store = s; this = none; is_sched_waiting = false; sched_count = 0 }

unfoldable pub coro_yield_to : Option ℕ → Option ℕ → Machine → Machine
unfolding count_switch
coro_yield_to none to s = record s { this = to; sched_count = (s.sched_count + 1) % 2 ^ 64 }
coro_yield_to (some from) to s = record s { this = to; store = count_switch from s.store }

-- The scheduler behind its `coro_yield_to`.
abbrev pub wakes_up : Machine → Machine
wakes_up s = record s { this = none; is_sched_waiting = false }

unfoldable pub coro_yield : ℕ → Option ℕ → Machine → Machine
unfolding coro_yield_to
coro_yield from none s = wakes_up (coro_yield_to (some from) none s)
coro_yield from (some to) s = coro_yield_to (some from) (some to) s

-- What a round of the loop in `coro_sched_wait` leads to.
unfoldable pub after_round : Machine → Option Wait → Outcome
unfolding coro_yield_to
after_round s none = stuck
after_round s (some over) = goes s
after_round s (some (returns c store)) = goes (record s { store = store })
after_round s (some (resumes first)) =
    goes (coro_yield_to none (some first) (record s { is_sched_waiting = true }))

-- The end of `coro_body`.
unfoldable pub coro_body : ℕ → ℤ → Machine → Outcome
unfolding finish
coro_body c ret s =
    if s.is_sched_waiting
    then goes (wakes_up (record s { store = finish c ret s.store }))
    else critical

-- An event, by who runs; one that only the other side can cause does nothing.
unfoldable pub happens : ℕ → Event → Option ℕ → Machine → Outcome
unfolding after_round coro_yield coro_body coro_new coro_sched_wait yields_to
happens fuel waiting none s = after_round s (coro_sched_wait fuel s.store)
happens fuel waiting (some c) s = goes s
happens fuel yielding none s = goes s
happens fuel yielding (some c) s = goes (coro_yield c (yields_to c s.store) s)
happens fuel (returning ret) none s = goes s
happens fuel (returning ret) (some c) s = coro_body c ret s
happens fuel (creating c) runs s = goes (record s { store = coro_new c s.store })

-- `malloc` gives memory that no coroutine of the list has.
abbrev pub IsAllowed : Event → Machine → Type 0
IsAllowed (creating c) s = (xs : List ℕ) → Lists s.store xs → All (Differs (some c)) xs
IsAllowed _ s = Unit

-- What is reached after a number of events, on fuel for the loops.
pub data Reaches (fuel : ℕ) : ℕ → Machine → Type 0 where
  begins :
      (heap : ℕ → Coro)
      → Reaches fuel 0 (coro_sched_init (record { heap = heap; coro_list = none }))
  goes_on :
      {n : ℕ} {s s' : Machine} (e : Event)
      → Reaches fuel n s
      → IsAllowed e s
      → happens fuel e s.this s ≡ goes s'
      → Reaches fuel (suc n) s'
