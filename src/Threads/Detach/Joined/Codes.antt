-- ===== src/Threads/Detach/Joined/Codes.antt =====
-- What `cthread_join` of lecture_examples/6_threads/12_cthread_detach.c returns.
use mathlib.Core.Path.{subst}
use iu_sysprog.Prelude.{
  ◌+◌, Bool, true, false, if◌then◌else◌, some, List, [], ◌∷◌, ◌≡◌, refl, sym, ap, ◌∙◌, arith,
  Bool-cases, inl, inr,
}
use iu_sysprog.Threads.Detach.{
  locks, tests, destroys, sets, unlocks, returned, spin_lock, cthread_runner,
}
use iu_sysprog.Threads.Detach.Joined.{
  Ending, returns, exits, RunnerAt, runs, behind, JoinAt, spins, frees, reads, gone, Joining,
  cthread_exit, end_func, runner_at, join_at, cthread_join, join_schedule, joining, code_of,
}

abbrev KnowsRunner : Ending → RunnerAt → Joining → Type 0
KnowsRunner ending runs j = j.thread.is_finished ≡ false
KnowsRunner ending (behind destroys) j = ⊥
KnowsRunner ending (behind at) j = j.returned_code ≡ code_of ending

abbrev KnowsJoiner : Ending → JoinAt → Joining → Type 0
KnowsJoiner ending spins j = j.thread.destroyed ≡ 0
KnowsJoiner ending frees j = (j.thread.destroyed ≡ 0) × (j.thread.is_finished ≡ true)
KnowsJoiner ending reads j = (j.thread.destroyed ≡ 1) × (j.thread.is_finished ≡ true)
KnowsJoiner ending gone j =
    (j.thread.destroyed ≡ 1) × (j.thread.is_finished ≡ true) × (j.joined ≡ some (code_of ending))

record Sound (ending : Ending) (j : Joining) : Type 0 where
  attached : j.thread.is_detached ≡ false
  knows_runner : KnowsRunner ending j.runner j
  knows_joiner : KnowsJoiner ending j.joiner j

-- A move of the thread that leaves what the joiner knows.
joiner_kept :
    (ending : Ending) (at : JoinAt) (j j' : Joining)
    → j'.thread.destroyed ≡ j.thread.destroyed
    → (j.thread.is_finished ≡ true → j'.thread.is_finished ≡ true)
    → j'.joined ≡ j.joined
    → KnowsJoiner ending at j
    → KnowsJoiner ending at j'
joiner_kept ending spins j j' d f o h = d ∙ h
joiner_kept ending frees j j' d f o h = (d ∙ h.0, f h.1)
joiner_kept ending reads j j' d f o h = (d ∙ h.0, f h.1)
joiner_kept ending gone j j' d f o (h0, h1, h2) = (d ∙ h0, f h1, o ∙ h2)

lock_kept :
    (ending : Ending) (at : RunnerAt) (locked : Bool) (j : Joining)
    → KnowsJoiner ending j.joiner j
    → KnowsJoiner ending j.joiner
        (record j { runner = at; thread = record (j.thread) { lock = locked } })
lock_kept ending at locked j h =
    joiner_kept ending j.joiner j
      (record j { runner = at; thread = record (j.thread) { lock = locked } }) refl (λ e. e) refl h

runner_at-Sound :
    (ending : Ending) (at : RunnerAt) (j : Joining)
    → j.thread.is_detached ≡ false
    → KnowsRunner ending at j
    → KnowsJoiner ending j.joiner j
    → Sound ending (runner_at at ending j)
unfolding end_func cthread_exit cthread_runner spin_lock
runner_at-Sound (returns code) runs j a r h =
    let j' = record j { runner = behind locks; returned_code = code } in
    record {
      attached = a;
      knows_runner = refl;
      knows_joiner = joiner_kept (returns code) j.joiner j j' refl (λ e. e) refl h;
    }
runner_at-Sound (exits code) runs j a r h =
    let j' = record j { runner = behind locks; returned_code = code } in
    record {
      attached = a;
      knows_runner = refl;
      knows_joiner = joiner_kept (exits code) j.joiner j j' refl (λ e. e) refl h;
    }
runner_at-Sound ending (behind locks) j a r h = elim (Bool-cases (j.thread.lock)) [
  | inl e ↦ rw e (record {
    attached = a;
    knows_runner = r;
    knows_joiner = lock_kept ending (behind locks) true j h;
  })
  | inr e ↦ rw e (record {
    attached = a;
    knows_runner = r;
    knows_joiner = lock_kept ending (behind tests) true j h;
  })
]
runner_at-Sound ending (behind tests) j a r h =
    subst (λ b. Sound ending (record j { runner = behind (if b then destroys else sets) })) (sym a)
      (record {
        attached = a;
        knows_runner = r;
        knows_joiner = lock_kept ending (behind sets) (j.thread.lock) j h;
      })
runner_at-Sound ending (behind destroys) j a r h = absurd r
runner_at-Sound ending (behind sets) j a r h =
    let j' = record j {
      runner = behind unlocks;
      thread = record (j.thread) { is_finished = true };
    } in
    record {
      attached = a;
      knows_runner = r;
      knows_joiner = joiner_kept ending j.joiner j j' refl (λ e. refl) refl h;
    }
runner_at-Sound ending (behind unlocks) j a r h = record {
  attached = a;
  knows_runner = r;
  knows_joiner = lock_kept ending (behind returned) false j h;
}
runner_at-Sound ending (behind returned) j a r h = record {
  attached = a;
  knows_runner = r;
  knows_joiner = lock_kept ending (behind returned) (j.thread.lock) j h;
}

-- The thread has ended its function where the joiner has seen it.
code_known :
    (ending : Ending) (at : RunnerAt) (j : Joining)
    → KnowsRunner ending at j
    → j.thread.is_finished ≡ true
    → j.returned_code ≡ code_of ending
code_known ending runs j r f = cc
code_known ending (behind destroys) j r f = absurd r
code_known ending (behind locks) j r f = r
code_known ending (behind tests) j r f = r
code_known ending (behind sets) j r f = r
code_known ending (behind unlocks) j r f = r
code_known ending (behind returned) j r f = r

runner_kept :
    (ending : Ending) (at : RunnerAt) (j j' : Joining)
    → j'.thread.is_finished ≡ j.thread.is_finished
    → j'.returned_code ≡ j.returned_code
    → KnowsRunner ending at j
    → KnowsRunner ending at j'
runner_kept ending runs j j' f c r = f ∙ r
runner_kept ending (behind destroys) j j' f c r = r
runner_kept ending (behind locks) j j' f c r = c ∙ r
runner_kept ending (behind tests) j j' f c r = c ∙ r
runner_kept ending (behind sets) j j' f c r = c ∙ r
runner_kept ending (behind unlocks) j j' f c r = c ∙ r
runner_kept ending (behind returned) j j' f c r = c ∙ r

join_at-Sound :
    (ending : Ending) (at : JoinAt) (j : Joining)
    → j.thread.is_detached ≡ false
    → KnowsRunner ending j.runner j
    → KnowsJoiner ending at j
    → at ≡ j.joiner
    → Sound ending (join_at at j)
join_at-Sound ending spins j a r h e = elim (Bool-cases (j.thread.is_finished)) [
  | inl f ↦
      subst (λ b. Sound ending (if b then record j { joiner = frees } else j)) (sym f)
        (record {
          attached = a;
          knows_runner = runner_kept ending j.runner j (record j { joiner = frees }) refl refl r;
          knows_joiner = (h, f);
        })
  | inr f ↦
      subst (λ b. Sound ending (if b then record j { joiner = frees } else j)) (sym f)
        (record {
          attached = a;
          knows_runner = r;
          knows_joiner = subst (λ p. KnowsJoiner ending p j) e h;
        })
]
join_at-Sound ending frees j a r (none_yet, f) e =
    let j' = record j {
      joiner = reads;
      thread = record (j.thread) { destroyed = j.thread.destroyed + 1 };
    } in
    record {
      attached = a;
      knows_runner = runner_kept ending j.runner j j' refl refl r;
      knows_joiner = (omega (arith, none_yet), f);
    }
join_at-Sound ending reads j a r (once, f) e = record {
  attached = a;
  knows_runner =
      runner_kept ending j.runner j (record j { joiner = gone; joined = some (j.returned_code) })
        refl refl r;
  knows_joiner = (once, f, ap some (code_known ending j.runner j r f));
}
join_at-Sound ending gone j a r h e = record {
  attached = a;
  knows_runner = r;
  knows_joiner = subst (λ p. KnowsJoiner ending p j) e h;
}

join_schedule-Sound :
    (ending : Ending) (turns : List Bool) (j : Joining)
    → Sound ending j
    → Sound ending (join_schedule ending turns j)
unfolding join_schedule cthread_join
join_schedule-Sound ending [] j h = h
join_schedule-Sound ending (true ∷ turns) j h =
    join_schedule-Sound ending turns (runner_at j.runner ending j)
      (runner_at-Sound ending j.runner j h.attached h.knows_runner h.knows_joiner)
join_schedule-Sound ending (false ∷ turns) j h =
    join_schedule-Sound ending turns (join_at j.joiner j)
      (join_at-Sound ending j.joiner j h.attached h.knows_runner h.knows_joiner refl)

-- However the moves of the thread and of the one that joins it are ordered, and whether its function
-- returns or calls cthread_exit: when cthread_join has returned, the thread has finished and was
-- destroyed once, and the result is the code that the function ended with.
pub join_schedule-joined :
    (ending : Ending) (turns : List Bool)
    → (join_schedule ending turns joining).joiner ≡ gone
    → ((join_schedule ending turns joining).thread.destroyed ≡ 1)
      × ((join_schedule ending turns joining).thread.is_finished ≡ true)
      × ((join_schedule ending turns joining).joined ≡ some (code_of ending))
join_schedule-joined ending turns h =
    let s =
      join_schedule-Sound ending turns joining
        (record { attached = refl; knows_runner = refl; knows_joiner = refl }) in
    subst (λ at. KnowsJoiner ending at (join_schedule ending turns joining)) h s.knows_joiner
