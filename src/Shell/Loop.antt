-- ===== src/Shell/Loop.antt =====
-- `shell_loop` of 2/solution/solution.c: rounds of reading a line, cutting it into tokens, grouping
-- these into commands and running them. `parse_line` and `parse_cmds` give the lengths through
-- pointers to locals that are gone; the model reads the values that stood there. What the loop
-- frees at the end of a round is not looked at again.
pub mod Lines
pub mod Rounds
use iu_sysprog.Prelude.{ℕ, zero, suc, Option, none, some, List, [], ◌∷◌, ◌++◌, ◌>>=◌}
use iu_sysprog.Shell.Pair.{make_pair, fst_pair, snd_pair}
use iu_sysprog.Shell.ReadLine.{read_line}
use iu_sysprog.Shell.Lexer.{parse_line}
use iu_sysprog.Shell.Command.{Cmd, Parsed, null, commands, parse_cmds}
use iu_sysprog.Shell.Exec.{Os, Action, Status, returned, exec_cmds}

abbrev pub pair_of : Parsed → Option (List Cmd × ℕ)
pair_of null = none
pair_of (commands cmds count) = some (make_pair cmds count)

-- `commands_array`, which stays NULL where there is no command, cut to `commands_count`.
abbrev pub commands_array : Option (List Cmd) → List Cmd
commands_array none = []
commands_array (some cmds) = cmds

pub record Session : Type 0 where
  pub input : List ℕ
  pub trace : List Action

module _ (os : Os) where
  -- One round: the status of `exec_cmds`, and the session behind it. `none` is a fault.
  unfoldable pub shell_round : Session → Option (Status × Session)
  shell_round s = read_line s.input >>= λ (raw_input, rest). parse_line raw_input >>= λ tokens.
      snd_pair (some tokens) >>= λ tokens_len. fst_pair (some tokens) >>= λ tokens_args.
      parse_cmds tokens_args tokens_len >>= λ parsed.
      (let (status, trace) = exec_cmds os (commands_array (fst_pair (pair_of parsed))) s.trace in
        some (status, record { input = rest; trace = trace }))

  -- The loop on fuel: `none` also stands for fuel that ran out.
  unfoldable pub shell_loop : ℕ → Session → Option (Status × Session)
  unfolding shell_round
  shell_loop zero s = none
  shell_loop (suc fuel) s = shell_round s >>= λ (status, s'). elim status [
    | returned k ↦ elim k [ zero ↦ shell_loop fuel s' | suc j ↦ some (returned (suc j), s') ]
    | other ↦ some (other, s')
  ]
