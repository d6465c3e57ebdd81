-- ===== src/Shell/Exec/Laws.antt =====
-- What `exec_cmds` asks of the system, and how it ends.
use mathlib.Core.List.{map}
use iu_sysprog.Prelude.{
  ℕ, zero, suc, ◌≡◌, ◌≢◌, refl, ◌∙◌, true, false, none, some, List, [], ◌∷◌, ◌++◌, length, arith,
  All,
}
use iu_sysprog.Shell.CString.{str_equal, strdup}
use iu_sysprog.Shell.Command.{Cmd}
use iu_sysprog.Shell.Exec.{
  copy_args, add_name_to_argv, Action, Os, Status, returned, crashed, exited, cd_name, Turn, next,
  end, change_dir, run_child, exec_cmd, exec_cmds,
}

copy_args-map :
    (argv : List (List ℕ))
    → copy_args (length argv) argv ≡ some (map (λ a. some (strdup a)) argv ++ none ∷ [])
unfolding copy_args
copy_args-map [] = refl
copy_args-map (arg ∷ argv) = rw (copy_args-map argv)

-- The vector of a command that counts its arguments: the name, the arguments in order, and the
-- one NULL at the end.
pub add_name_to_argv-vector :
    (name : List ℕ) (argv : List (List ℕ)) (argc : ℕ)
    → argc ≡ length argv
    → add_name_to_argv name argv argc
      ≡ some (some (strdup name) ∷ (map (λ a. some (strdup a)) argv ++ none ∷ []))
unfolding add_name_to_argv
add_name_to_argv-vector name argv argc e = rw (e, copy_args-map argv)

abbrev pub unmarked : Cmd → Cmd
unmarked c = record c { special = false }

-- What happens behind an execution: it goes on if and only if the loop came to its end.
abbrev pub followed :
    Status × List Action → (List Action → Status × List Action) → Status × List Action
followed (returned zero, trace) more = more trace
followed (returned (suc k), trace) more = (returned (suc k), trace)
followed (exited, trace) more = (exited, trace)
followed (crashed, trace) more = (crashed, trace)

module _ (os : Os) where
  exec_cmd-unmarked :
      (c : Cmd) (trace : List Action) → exec_cmd os (unmarked c) trace ≡ exec_cmd os c trace
  unfolding exec_cmd run_child
  exec_cmd-unmarked c trace = refl

  exec_cmd-ne-returned :
      (c : Cmd) (trace t : List Action) → exec_cmd os c trace ≢ end (returned 0) t
  unfolding exec_cmd run_child change_dir
  exec_cmd-ne-returned c trace t = ground arith

  exec_cmds-next :
      (c : Cmd) (cs : List Cmd) (trace : List Action) {t : List Action}
      → exec_cmd os c trace ≡ next t
      → exec_cmds os (c ∷ cs) trace ≡ exec_cmds os cs t
  unfolding exec_cmds
  exec_cmds-next c cs trace e = rw (e, exec_cmds)

  exec_cmds-end :
      (c : Cmd) (cs : List Cmd) (trace : List Action) {s : Status} {t : List Action}
      → exec_cmd os c trace ≡ end s t
      → exec_cmds os (c ∷ cs) trace ≡ (s, t)
  unfolding exec_cmds
  exec_cmds-end c cs trace e = rw (e, exec_cmds)

  -- The commands run one after the other: what stands behind a list of commands runs where the
  -- list came to its end, and is not looked at where it ended by `exit` or by a failure.
  pub exec_cmds-append :
      (cs ds : List Cmd) (trace : List Action)
      → exec_cmds os (cs ++ ds) trace ≡ followed (exec_cmds os cs trace) (exec_cmds os ds)
  exec_cmds-append [] ds trace = unfold exec_cmds in refl
  exec_cmds-append (c ∷ cs) ds trace = by_turn (exec_cmd os c trace) refl (exec_cmds-append cs ds)
    where
      by_turn :
          (turn : Turn)
          → exec_cmd os c trace ≡ turn
          → ((t : List Action)
              → exec_cmds os (cs ++ ds) t ≡ followed (exec_cmds os cs t) (exec_cmds os ds))
          → exec_cmds os (c ∷ (cs ++ ds)) trace
            ≡ followed (exec_cmds os (c ∷ cs) trace) (exec_cmds os ds)
      by_turn (next t) e ih =
          rw (exec_cmds-next c (cs ++ ds) trace e, exec_cmds-next c cs trace e) (ih t)
      by_turn (end (returned zero) t) e ih = absurd (exec_cmd-ne-returned c trace t e)
      by_turn (end (returned (suc k)) t) e ih =
          rw (exec_cmds-end c (cs ++ ds) trace e, exec_cmds-end c cs trace e)
      by_turn (end exited t) e ih =
          rw (exec_cmds-end c (cs ++ ds) trace e, exec_cmds-end c cs trace e)
      by_turn (end crashed t) e ih =
          rw (exec_cmds-end c (cs ++ ds) trace e, exec_cmds-end c cs trace e)

  -- The mark of operators is ignored: `|`, `>` or `&&` is run as a program of that name.
  pub exec_cmds-unmarked :
      (cs : List Cmd) (trace : List Action)
      → exec_cmds os (map unmarked cs) trace ≡ exec_cmds os cs trace
  exec_cmds-unmarked [] trace = refl
  exec_cmds-unmarked (c ∷ cs) trace = by_turn (exec_cmd os c trace) refl (exec_cmds-unmarked cs)
    where
      by_turn :
          (turn : Turn)
          → exec_cmd os c trace ≡ turn
          → ((t : List Action) → exec_cmds os (map unmarked cs) t ≡ exec_cmds os cs t)
          → exec_cmds os (map unmarked (c ∷ cs)) trace ≡ exec_cmds os (c ∷ cs) trace
      by_turn (next t) e ih =
          rw
            (
              exec_cmds-next (unmarked c) (map unmarked cs) trace (exec_cmd-unmarked c trace ∙ e),
              exec_cmds-next c cs trace e,
            )
            (ih t)
      by_turn (end s t) e ih = rw (
        exec_cmds-end (unmarked c) (map unmarked cs) trace (exec_cmd-unmarked c trace ∙ e),
        exec_cmds-end c cs trace e,
      )

  -- `cd` without an argument reads through NULL, in every state of the system.
  pub exec_cmds-cd :
      (c : Cmd) (cs : List Cmd) (trace : List Action)
      → str_equal c.name cd_name ≡ true
      → c.argv ≡ []
      → exec_cmds os (c ∷ cs) trace ≡ (crashed, trace)
  unfolding exec_cmd change_dir
  exec_cmds-cd c cs trace e none_given = exec_cmds-end c cs trace (rw (e, none_given))

  -- A command that the loop survives: not a `cd` without an argument.
  abbrev pub IsSafe : Cmd → Type 0
  IsSafe c = str_equal c.name cd_name ≡ true → c.argv ≢ []

  exec_cmd-ne-crashed :
      (c : Cmd) (trace t : List Action) → IsSafe c → exec_cmd os c trace ≢ end crashed t
  unfolding exec_cmd run_child change_dir
  exec_cmd-ne-crashed c trace t h = ground arith

  -- If no `cd` comes without an argument, the loop reads through no NULL pointer.
  pub exec_cmds-ne-crashed :
      (cs : List Cmd) (trace : List Action) → All IsSafe cs → (exec_cmds os cs trace).0 ≢ crashed
  exec_cmds-ne-crashed [] trace h = unfold exec_cmds in ground arith
  exec_cmds-ne-crashed (c ∷ cs) trace h =
      by_turn (exec_cmd os c trace) refl (λ t. exec_cmds-ne-crashed cs t h.1)
    where
      by_turn :
          (turn : Turn)
          → exec_cmd os c trace ≡ turn
          → ((t : List Action) → (exec_cmds os cs t).0 ≢ crashed)
          → (exec_cmds os (c ∷ cs) trace).0 ≢ crashed
      by_turn (next t) e ih = rw (exec_cmds-next c cs trace e) (ih t)
      by_turn (end crashed t) e ih = absurd (exec_cmd-ne-crashed c trace t h.0 e)
      by_turn (end exited t) e ih = rw (exec_cmds-end c cs trace e) (ground arith)
      by_turn (end (returned k) t) e ih = rw (exec_cmds-end c cs trace e) (ground arith)
