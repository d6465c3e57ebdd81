-- ===== src/Shell/Exec.antt =====
-- `add_name_to_argv` and `exec_cmds` of 2/solution/solution.c. What the shell asks of the system is
-- a trace of actions, and the answers of the system are a parameter: they may depend on the trace.
pub mod Laws
use iu_sysprog.Prelude.{
  ℕ, zero, suc, Bool, Option, none, some, List, [], ◌∷◌, ◌++◌, if◌then◌else◌, ◌>>=◌,
}
use iu_sysprog.Shell.CString.{str_equal, strdup}
use iu_sysprog.Shell.Command.{Cmd}

-- The entries of an argument vector: a string, or NULL.
abbrev pub Vector : Type 0
Vector = List (Option (List ℕ))

-- The `for` over `argc` arguments: `none` is a read behind `argv`.
copy_args : ℕ → List (List ℕ) → Option Vector
copy_args zero argv = some (none ∷ [])
copy_args (suc n) [] = none
copy_args (suc n) (arg ∷ argv) = copy_args n argv >>= λ rest. some (some (strdup arg) ∷ rest)

unfoldable pub add_name_to_argv : List ℕ → List (List ℕ) → ℕ → Option Vector
unfolding copy_args
add_name_to_argv name argv argc = copy_args argc argv >>= λ rest. some (some (strdup name) ∷ rest)

-- `ran` is a child that calls `execvp`, up to the end of the wait for it; `none` in place of the
-- vector is a child that crashed while it built it.
pub data Action : Type 0 where
  changed_dir : List ℕ → Action
  no_such_dir : List ℕ → Action
  fork_failed : Action
  ran : List ℕ → Option Vector → Action

pub record Os : Type 0 where
  pub chdir_ok : List Action → List ℕ → Bool
  pub fork_ok : List Action → Bool

-- How the loop over the commands ends: by `return`, by `exit(EXIT_FAILURE)` or by a read of NULL.
pub data Status : Type 0 where
  returned : ℕ → Status
  exited : Status
  crashed : Status

abbrev pub cd_name : List ℕ
cd_name = b'c' ∷ b'd' ∷ 0 ∷ []

abbrev pub exit_name : List ℕ
exit_name = b'e' ∷ b'x' ∷ b'i' ∷ b't' ∷ 0 ∷ []

-- What the loop does with one command: go on with a longer trace, or end.
pub data Turn : Type 0 where
  next : List Action → Turn
  end : Status → List Action → Turn

module _ (os : Os) where
  -- `cd`: the directory is `argv[0]`, and `argv` is NULL where there is no argument.
  unfoldable pub change_dir : List (List ℕ) → List Action → Turn
  change_dir [] trace = end crashed trace
  change_dir (dir ∷ argv) trace =
      if os.chdir_ok trace dir
      then next (trace ++ changed_dir dir ∷ [])
      else next (trace ++ no_such_dir dir ∷ [])

  unfoldable pub run_child : Cmd → List Action → Turn
  run_child c trace =
      if os.fork_ok trace
      then next (trace ++ ran c.name (add_name_to_argv c.name c.argv c.argc) ∷ [])
      else end exited (trace ++ fork_failed ∷ [])

  unfoldable pub exec_cmd : Cmd → List Action → Turn
  unfolding change_dir run_child
  exec_cmd c trace =
      if str_equal c.name cd_name
      then change_dir c.argv trace
      else if str_equal c.name exit_name
      then end (returned 1) trace
      else run_child c trace

  unfoldable pub exec_cmds : List Cmd → List Action → Status × List Action
  exec_cmds [] trace = (returned 0, trace)
  exec_cmds (c ∷ comms) trace = elim (exec_cmd c trace) [
    | next trace' ↦ exec_cmds comms trace'
    | end status trace' ↦ (status, trace')
  ]
