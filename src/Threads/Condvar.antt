-- ===== src/Threads/Condvar.antt =====
-- The condition variable of lecture_examples/6_threads/14_condvar.c: `main` signals once for each
-- character that it reads, and any number of threads wait. A move is one access to what they share;
-- the mutex has an owner, and a thread that finds it taken tries again.
pub mod Wakes
use iu_sysprog.Prelude.{
  ℕ, zero, suc, ◌+◌, ◌-◌, Bool, true, false, List, [], ◌∷◌, ◌==◌, if◌then◌else◌,
}
use iu_sysprog.Threads.Interleave.{interleave}

pub data Owner : Type 0 where
  nobody : Owner
  by_main : Owner
  by_waiter : Owner

-- The places of `main`, with the characters that it has yet to read: before the next `getchar` and the
-- load of `wait_count`, the places of `condvar_signal` behind it, and the joins.
pub data Signaler : Type 0 where
  reads : ℕ → Signaler
  sets : ℕ → Signaler
  unlocks : ℕ → Signaler
  spins : ℕ → Signaler
  locks : ℕ → Signaler
  clears : ℕ → Signaler
  joins : Signaler

-- `struct condvar`, and the place of `main`. `taken` counts the returns of `condvar_wait`, `skipped`
-- the signals that found no waiter.
pub record Condvar : Type 0 where
  pub owner : Owner
  pub is_event_set : Bool
  pub wait_count : ℕ
  pub main_at : Signaler
  pub taken : ℕ
  pub skipped : ℕ

-- `main` moves, or a thread is at a place of `condvar_wait`: before the increment, at the lock, at the
-- test, at the two stores, at the unlock before the return, or at the one before the next round.
pub data Pc : Type 0 where
  main : Pc
  adds : Pc
  tries : Pc
  tests : Pc
  takes : Pc
  subtracts : Pc
  leaves : Pc
  retries : Pc

unfoldable pub condvar_create : ℕ → Condvar
condvar_create chars = record {
  owner = by_main;
  is_event_set = false;
  wait_count = 0;
  main_at = reads chars;
  taken = 0;
  skipped = 0;
}

-- `pthread_mutex_lock` of `main`.
abbrev pub lock_main : ℕ → Owner → Condvar → Condvar
lock_main n nobody c = record c { owner = by_main; main_at = clears n }
lock_main n by_main c = c
lock_main n by_waiter c = c

unfoldable pub condvar_signal : Signaler → Condvar → Condvar
condvar_signal (reads zero) c = record c { main_at = joins }
condvar_signal (reads (suc n)) c =
    if c.wait_count == 0
    then record c { main_at = reads n; skipped = c.skipped + 1 }
    else record c { main_at = sets n }
condvar_signal (sets n) c = record c { is_event_set = true; main_at = unlocks n }
condvar_signal (unlocks n) c = record c { owner = nobody; main_at = spins n }
condvar_signal (spins n) c = if c.is_event_set then c else record c { main_at = locks n }
condvar_signal (locks n) c = lock_main n c.owner c
condvar_signal (clears n) c = record c { is_event_set = false; main_at = reads n }
condvar_signal joins c = c

-- `pthread_mutex_lock` of a thread.
abbrev pub lock_waiter : Owner → Condvar → Pc × Condvar
lock_waiter nobody c = (tests, record c { owner = by_waiter })
lock_waiter by_main c = (tries, c)
lock_waiter by_waiter c = (tries, c)

-- `condvar_wait`, which `thread_f` calls again and again.
unfoldable pub condvar_wait : Pc → Condvar → Pc × Condvar
unfolding condvar_signal
condvar_wait main c = (main, condvar_signal c.main_at c)
condvar_wait adds c = (tries, record c { wait_count = c.wait_count + 1 })
condvar_wait tries c = lock_waiter c.owner c
condvar_wait tests c = (if c.is_event_set then takes else retries, c)
condvar_wait takes c = (subtracts, record c { is_event_set = false; taken = c.taken + 1 })
condvar_wait subtracts c = (leaves, record c { wait_count = c.wait_count - 1 })
condvar_wait leaves c = (adds, record c { owner = nobody })
condvar_wait retries c = (tries, record c { owner = nobody })

unfoldable pub waiters : ℕ → List Pc
waiters zero = []
waiters (suc n) = adds ∷ waiters n

-- The program with this number of threads and characters, after the moves of a schedule.
unfoldable pub condvar_main : List ℕ → ℕ → ℕ → List Pc × Condvar
unfolding interleave condvar_wait waiters condvar_create
condvar_main is n chars = interleave condvar_wait is (main ∷ waiters n) (condvar_create chars)
