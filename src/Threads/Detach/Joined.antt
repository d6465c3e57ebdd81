-- ===== src/Threads/Detach/Joined.antt =====
-- `cthread_exit` and `cthread_join` of lecture_examples/6_threads/12_cthread_detach.c: a thread that nobody
-- detaches, and one that joins it.
pub mod Codes
use mathlib.Core.Path.{subst}
use iu_sysprog.Prelude.{
  ℕ, ◌+◌, Bool, true, false, if◌then◌else◌, Option, none, some, List, [], ◌∷◌, ◌≡◌, refl, sym, ap,
  ◌∙◌, arith, Bool-cases, inl, inr,
}
use iu_sysprog.Threads.Detach.{
  Place, locks, tests, destroys, sets, unlocks, returned, Cthread, spin_lock, cthread_runner,
  cthread_create,
}

-- How the function of the thread ends: by `return`, or by `cthread_exit` in it.
pub data Ending : Type 0 where
  returns : ℕ → Ending
  exits : ℕ → Ending

-- The thread before the end of its function, or behind it in `cthread_runner`.
pub data RunnerAt : Type 0 where
  runs : RunnerAt
  behind : Place → RunnerAt

-- `cthread_join` at the test of `is_finished`, at `cthread_destroy`, at the read of the code, and behind it.
pub data JoinAt : Type 0 where
  spins : JoinAt
  frees : JoinAt
  reads : JoinAt
  gone : JoinAt

pub record Joining : Type 0 where
  pub runner : RunnerAt
  pub joiner : JoinAt
  pub thread : Cthread
  pub returned_code : ℕ
  pub joined : Option ℕ

-- The code is stored, and the jump leads behind the call of the function.
unfoldable pub cthread_exit : ℕ → Joining → Joining
cthread_exit retcode j = record j { runner = behind locks; returned_code = retcode }

unfoldable pub end_func : Ending → Joining → Joining
unfolding cthread_exit
end_func (returns code) j = record j { runner = behind locks; returned_code = code }
end_func (exits code) j = cthread_exit code j

abbrev pub runner_at : RunnerAt → Ending → Joining → Joining
runner_at runs ending j = end_func ending j
runner_at (behind at) ending j =
    let (at', m) = cthread_runner at j.thread in record j { runner = behind at'; thread = m }

abbrev pub join_at : JoinAt → Joining → Joining
join_at spins j = if j.thread.is_finished then record j { joiner = frees } else j
join_at frees j = record j {
  joiner = reads;
  thread = record (j.thread) { destroyed = j.thread.destroyed + 1 };
}
join_at reads j = record j { joiner = gone; joined = some (j.returned_code) }
join_at gone j = j

unfoldable pub cthread_join : Joining → Joining
cthread_join j = join_at j.joiner j

-- The thread moves where the entry is true, and `cthread_join` where it is false.
unfoldable pub join_schedule : Ending → List Bool → Joining → Joining
unfolding cthread_join end_func cthread_runner
join_schedule ending [] j = j
join_schedule ending (true ∷ turns) j = join_schedule ending turns (runner_at j.runner ending j)
join_schedule ending (false ∷ turns) j = join_schedule ending turns (cthread_join j)

abbrev pub joining : Joining
joining = record {
  runner = runs;
  joiner = spins;
  thread = cthread_create;
  returned_code = 0;
  joined = none;
}

abbrev pub code_of : Ending → ℕ
code_of (returns code) = code
code_of (exits code) = code
