-- ===== src/Ipc/Sems.antt =====
-- The loop of lecture_examples/7_ipc/8_sem.c. `sscanf` and what the kernel answers to `semop` are
-- parameters; a line in the buffer is its bytes before the NUL.
pub mod Rounds
use iu_sysprog.Prelude.{
  ℕ, zero, suc, ◌+◌, ◌-◌, ◌%◌, ◌^◌, Bool, true, false, Option, none, some, List, [], ◌∷◌, ◌++◌,
  ◌==◌, ltb, if◌then◌else◌, length, bytes_eq,
}

-- `struct sembuf`; `sem_op` is 1 or -1.
pub record Sembuf : Type 0 where
  pub sem_num : ℕ
  pub is_up : Bool

-- The locals of `main`: the buffer of `line`, the operations before `ops_count`, and what the last
-- `sscanf`s left in `sem_num` and `cmd`. `calls` are the calls of `semop`.
pub record Sems : Type 0 where
  pub line : List ℕ
  pub ops : List Sembuf
  pub is_inside_txn : Bool
  pub sem_num : ℕ
  pub cmd : ℕ
  pub calls : List (List Sembuf)

-- A round goes on or returns from `main`; `outside` is a write outside the buffer or the array.
pub data Outcome : Type 0 where
  goes : Sems → Outcome
  returned : Outcome
  outside : Outcome

pub data Command : Type 0 where
  begin : Command
  commit : Command
  rollback : Command
  delete : Command
  quit : Command
  show : Command
  operation : Command

unfoldable pub command_of : List ℕ → Command
command_of line =
    if bytes_eq line (b'b' ∷ b'e' ∷ b'g' ∷ b'i' ∷ b'n' ∷ [])
    then begin
    else if bytes_eq line (b'c' ∷ b'o' ∷ b'm' ∷ b'm' ∷ b'i' ∷ b't' ∷ [])
    then commit
    else if bytes_eq line (b'r' ∷ b'o' ∷ b'l' ∷ b'l' ∷ b'b' ∷ b'a' ∷ b'c' ∷ b'k' ∷ [])
    then rollback
    else if bytes_eq line (b'd' ∷ b'e' ∷ b'l' ∷ b'e' ∷ b't' ∷ b'e' ∷ [])
    then delete
    else if bytes_eq line (b'q' ∷ b'u' ∷ b'i' ∷ b't' ∷ [])
    then quit
    else if bytes_eq line (b's' ∷ b'h' ∷ b'o' ∷ b'w' ∷ [])
    then show
    else operation

-- The bytes but the last one.
unfoldable pub trimmed : ℕ → List ℕ → List ℕ
trimmed c [] = []
trimmed c (d ∷ line) = c ∷ trimmed d line

-- What a conversion of `sscanf` leaves in a variable.
abbrev pub kept : ℕ → Option ℕ → ℕ
kept old none = old
kept old (some n) = n

-- `scan` is `sscanf(line, "%d %c", ...)`: the numbers that it converts. `accepts` is what `semop`
-- answers, after the calls before.
module _ (scan : List ℕ → Option ℕ × Option ℕ)
    (accepts : List (List Sembuf) → List Sembuf → Bool) where
  unfoldable pub commit_ops : Sems → Sems
  commit_ops s =
      if accepts s.calls s.ops
      then record s { is_inside_txn = false; ops = []; calls = s.calls ++ s.ops ∷ [] }
      else record s { calls = s.calls ++ s.ops ∷ [] }

  -- `*op` is filled in, and handed to `semop` or counted.
  unfoldable pub put_op : Bool → Sems → Outcome
  put_op is_up s =
      let op : Sembuf = record { sem_num = (s.sem_num + 2 ^ 16 - 1) % 2 ^ 16; is_up = is_up } in
      if ltb (length s.ops) 100
      then if s.is_inside_txn
        then goes (record s { ops = s.ops ++ op ∷ [] })
        else goes (record s { calls = s.calls ++ (op ∷ []) ∷ [] })
      else outside

  unfoldable pub read_op : Sems → Outcome
  unfolding put_op
  read_op s =
      if s.cmd == b'-' then put_op false s else if s.cmd == b'+' then put_op true s else goes s

  unfoldable pub perform : Command → Sems → Outcome
  unfolding commit_ops read_op
  perform begin s = goes (record s { is_inside_txn = true })
  perform commit s = goes (commit_ops s)
  perform rollback s = goes (record s { is_inside_txn = false; ops = [] })
  perform delete s = returned
  perform quit s = returned
  perform show s = goes s
  perform operation s =
      let (sem_num, cmd) = scan s.line in
      read_op (record s { sem_num = kept s.sem_num sem_num; cmd = kept s.cmd cmd })

  -- A round with the line in the buffer, whose last byte is cut off first.
  unfoldable pub sem_round : List ℕ → Sems → Outcome
  unfolding command_of trimmed perform
  sem_round [] s = outside
  sem_round (c ∷ line) s =
      perform (command_of (trimmed c line)) (record s { line = trimmed c line })

  -- The rounds of the lines that `getline` reads.
  unfoldable pub feed : List (List ℕ) → Sems → Outcome
  unfolding sem_round
  feed [] s = goes s
  feed (line ∷ lines) s = elim (sem_round line s) [
    | goes s' ↦ feed lines s'
    | returned ↦ returned
    | outside ↦ outside
  ]

  -- Rounds at the end of the input, where `getline` leaves `line` as it is; `has_line` is false where it
  -- is NULL.
  unfoldable pub at_end : Bool → ℕ → Sems → Outcome
  unfolding sem_round
  at_end has_line zero s = goes s
  at_end false (suc n) s = at_end false n s
  at_end true (suc n) s = elim (sem_round s.line s) [
    | goes s' ↦ at_end true n s'
    | returned ↦ returned
    | outside ↦ outside
  ]
