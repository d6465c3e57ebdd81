-- ===== src/Threads/Detach.antt =====
-- lecture_examples/6_threads/12_cthread_detach.c: the thread itself and the one that detaches it, which
-- destroy it between them, the list of stacks, and the wait of `main`.
pub mod Once
pub mod Stacks
pub mod Joined
use iu_sysprog.Prelude.{
  ℕ, zero, suc, ◌+◌, Bool, true, false, Option, none, some, List, [], ◌∷◌, ◌==◌, ltb, if◌then◌else◌,
}

-- `cthread_runner` behind the thread's function, or `cthread_detach`.
pub data Role : Type 0 where
  runner : Role
  detacher : Role

-- Before the lock of the thread, at the test under it, at `cthread_destroy`, at the store of the
-- flag, at the unlock, and behind it.
pub data Place : Type 0 where
  locks : Place
  tests : Place
  destroys : Place
  sets : Place
  unlocks : Place
  returned : Place

-- `struct cthread`; `destroyed` counts the calls of `cthread_destroy`.
pub record Cthread : Type 0 where
  pub lock : Bool
  pub is_finished : Bool
  pub is_detached : Bool
  pub destroyed : ℕ

-- The compare and swap of `spin_lock`, and that of `spin_unlock`.
unfoldable pub spin_lock : Bool → Cthread → Place × Cthread
spin_lock true m = (locks, m)
spin_lock false m = (tests, record m { lock = true })

abbrev pub spin_unlock : Cthread → Cthread
spin_unlock m = record m { lock = false }

unfoldable pub cthread_runner : Place → Cthread → Place × Cthread
unfolding spin_lock
cthread_runner locks m = spin_lock m.lock m
cthread_runner tests m = (if m.is_detached then destroys else sets, m)
cthread_runner destroys m = (sets, record m { destroyed = m.destroyed + 1 })
cthread_runner sets m = (unlocks, record m { is_finished = true })
cthread_runner unlocks m = (returned, spin_unlock m)
cthread_runner returned m = (returned, m)

unfoldable pub cthread_detach : Place → Cthread → Place × Cthread
unfolding spin_lock
cthread_detach locks m = spin_lock m.lock m
cthread_detach tests m = (if m.is_finished then destroys else sets, m)
cthread_detach destroys m = (sets, record m { destroyed = m.destroyed + 1 })
cthread_detach sets m = (unlocks, record m { is_detached = true })
cthread_detach unlocks m = (returned, spin_unlock m)
cthread_detach returned m = (returned, m)

unfoldable pub act : Role × Place → Cthread → (Role × Place) × Cthread
unfolding cthread_runner cthread_detach
act (runner, at) m = let (at', m') = cthread_runner at m in ((runner, at'), m')
act (detacher, at) m = let (at', m') = cthread_detach at m in ((detacher, at'), m')

-- The thread of `cthread_create`.
abbrev pub cthread_create : Cthread
cthread_create = record { lock = false; is_finished = false; is_detached = false; destroyed = 0 }

-- `struct cthread_stack` is the `tid`, which the kernel clears when the thread has exited.
-- `cthread_destroy`: the list of stacks behind it, and the stacks that are freed.
unfoldable pub cthread_destroy : ℕ → List ℕ → List ℕ × List ℕ
cthread_destroy stack [] = (stack ∷ [], [])
cthread_destroy stack (tid ∷ iter) =
    let (list, freed) = cthread_destroy stack iter in
    if tid == 0 then (list, tid ∷ freed) else (stack ∷ tid ∷ iter, [])

-- The last loop of `main`, for `count` threads, on fuel: what the flags say at each time is a
-- parameter, and each `sched_yield` is a step of time. The result is the time when it ends.
unfoldable pub await_finished : (ℕ → ℕ → Bool) → ℕ → ℕ → ℕ → ℕ → Option ℕ
await_finished is_finished count zero time i = none
await_finished is_finished count (suc fuel) time i =
    let seen = await_finished is_finished count fuel time (i + 1) in
    let again = await_finished is_finished count fuel (time + 1) (0 + 1) in
    if ltb i count then (if is_finished time i then seen else again) else some time
