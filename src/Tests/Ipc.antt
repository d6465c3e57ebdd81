-- ===== src/Tests/Ipc.antt =====
-- The sorts of lecture_examples/7_ipc at concrete files, processes and pipes.
use iu_sysprog.Prelude.{
  ◌≤◌, ℕ, zero, suc, ◌++◌, Bool, true, false, Option, none, some, List, [], ◌∷◌, ◌≡◌, refl, arith,
  ◌-◌, ◌+◌, ◌<◌, All, length,
}
use iu_sysprog.Prelude.Int.{ℤ, pos, negsuc, ltb_ℤ}
use iu_sysprog.Ipc.Locks
use iu_sysprog.Ipc.Locks.Spelled.{Command, writes, locks, asks}
use mathlib.Core.List.{map}
use iu_sysprog.Prelude.{leb, length, Bool, ◌||◌}
use iu_sysprog.Ipc.Order.{cmp, cmp-ltb_ℤ}
use iu_sysprog.Ipc.SharedMem.{returned, run, start}
use iu_sysprog.Ipc.SharedMem.Handover.{Goes, run-got, run-Goes}
use iu_sysprog.Ipc.MemSort.{Worker}
use mathlib.Core.List.{map}
use iu_sysprog.Ipc.Sems.{Sembuf, Sems, goes, command_of, feed, at_end}
use iu_sysprog.Ipc.Sems.Rounds.{
  Typed, sembuf_of, sign_of, lines_of, Scans, Ends, begin_line, commit_line, feed-commit,
  at_end-Ends,
}
use iu_sysprog.Ipc.Messages.{send_msg, unpack_msg, send_msg-unpack_msg}
use iu_sysprog.Ipc.Events
use iu_sysprog.Ipc.Events.Feeds.{IsFed, left, gated, lines_in, event_main-IsFed}
use iu_sysprog.Threads.Interleave.{sum}
use iu_sysprog.Ipc.Pipe.{Reads, read_from_pipe, read_from_pipe-Reads}

cmp-ltb_ℤ_example :
    (ltb_ℤ (cmp (negsuc 4) (pos 3)) (pos 0) ≡ true)
    × (ltb_ℤ (cmp (negsuc 4) (pos (2147483647))) (pos 0) ≡ false)
cmp-ltb_ℤ_example = (
  (cmp-ltb_ℤ (negsuc 4) (pos 3) (omega arith, omega arith) (omega arith, omega arith)).0
      (omega arith),
  (cmp-ltb_ℤ (negsuc 4) (pos (2147483647)) (omega arith, omega arith) (omega arith, omega arith)).1
      (omega arith),
)

-- A function that reverses stands for the sort.
abbrev flip : List ℤ → List ℤ
flip [] = []
flip (x ∷ xs) = flip xs ++ x ∷ []

-- A reader that asks for three bytes, then for one, and for no more.
abbrev asks_twice : List (List ℕ) → Option ℕ
asks_twice [] = some 3
asks_twice (a ∷ []) = some 1
asks_twice (a ∷ b ∷ more) = none

abbrev by_turns : ℕ → List Bool
by_turns zero = []
by_turns (suc n) = true ∷ false ∷ true ∷ by_turns n

run-returned :
    (run 2 asks_twice
      (by_turns 20)
      (start 2 asks_twice (0 ∷ 0 ∷ []) (7 ∷ 8 ∷ 9 ∷ []) ((4 ∷ []) ∷ []))).reads_at
    ≡ returned
unfolding run start
run-returned = refl

run-got_example :
    (run 2 asks_twice
      (by_turns 20)
      (start 2 asks_twice (0 ∷ 0 ∷ []) (7 ∷ 8 ∷ 9 ∷ []) ((4 ∷ []) ∷ []))).reader.got
    ≡ (7 ∷ 8 ∷ 9 ∷ []) ∷ (4 ∷ []) ∷ []
run-got_example =
    run-got 2 asks_twice (0 ∷ 0 ∷ []) (7 ∷ 8 ∷ 9 ∷ []) ((4 ∷ []) ∷ []) (by_turns 20)
      (refl, (refl, refl)) run-returned

run-Goes_example :
    let s =
      run 2 asks_twice
        (by_turns 3)
        (start 2 asks_twice (0 ∷ 0 ∷ []) (7 ∷ 8 ∷ 9 ∷ []) ((4 ∷ []) ∷ [])) in
    Goes 2 asks_twice ((7 ∷ 8 ∷ 9 ∷ []) ∷ (4 ∷ []) ∷ []) s.writes_at s.reads_at s.shared s.reader
run-Goes_example =
    run-Goes 2 asks_twice (0 ∷ 0 ∷ []) (7 ∷ 8 ∷ 9 ∷ []) ((4 ∷ []) ∷ []) (by_turns 3)
      (refl, (refl, refl))

abbrev worker : Worker
worker = record { mem = 0 ∷ 0 ∷ []; array = 3 ∷ 500 ∷ []; turns = by_turns 20 }

read_from_pipe-Reads_example :
    Reads 4
      ((1 ∷ 2 ∷ 3 ∷ []) ∷ (4 ∷ 5 ∷ []) ∷ [])
      []
      (read_from_pipe 4 ((1 ∷ 2 ∷ 3 ∷ []) ∷ (4 ∷ 5 ∷ []) ∷ []))
read_from_pipe-Reads_example =
    read_from_pipe-Reads 4 ((1 ∷ 2 ∷ 3 ∷ []) ∷ (4 ∷ 5 ∷ []) ∷ []) (omega arith, (omega arith, tt))

-- A digit, a blank and a sign.
abbrev scan_short : List ℕ → Option ℕ × Option ℕ
scan_short (d ∷ blank ∷ c ∷ []) = (some (d - 48), some c)
scan_short line = (none, none)

abbrev accepts_all : List (List Sembuf) → List Sembuf → Bool
accepts_all calls ops = true

abbrev short : Typed → List ℕ
short t = (48 + t.number) ∷ 32 ∷ sign_of t.is_up ∷ []

abbrev two_ops : List Typed
two_ops = record { number = 1; is_up = true } ∷ record { number = 3; is_up = false } ∷ []

abbrev sems_first : Sems
sems_first = record { line = []; ops = []; is_inside_txn = false; sem_num = 0; cmd = 0; calls = [] }

two_ops-Scans : All (λ t. Scans scan_short accepts_all (short t) t × (0 < length (short t))) two_ops
unfolding command_of
two_ops-Scans = (((refl, refl), omega arith), (((refl, refl), omega arith), tt))

feed-commit_example :
    (s' : Sems) × (feed scan_short accepts_all
        (begin_line ∷ lines_of short two_ops ++ commit_line ∷ [])
        sems_first
      ≡ feed scan_short accepts_all [] s')
    × (s'.calls ≡ [] ++ map sembuf_of two_ops ∷ [])
    × (s'.ops ≡ [])
feed-commit_example =
    feed-commit scan_short accepts_all short two_ops [] sems_first two_ops-Scans (omega arith) refl

abbrev showing : Sems
showing = record sems_first { line = b's' ∷ b'h' ∷ b'o' ∷ b'w' ∷ [] }

at_end-Ends_example :
    Ends (length showing.ops) showing.line (at_end scan_short accepts_all true 5 showing)
    × ((n : ℕ) → at_end scan_short accepts_all false n showing ≡ goes showing)
at_end-Ends_example = at_end-Ends scan_short accepts_all showing

send_msg-unpack_msg_example :
    (msg : List ℕ) × (send_msg 3 (b'h' ∷ b'i' ∷ b'\n' ∷ []) ≡ some msg)
    × (unpack_msg (msg ++ 7 ∷ []) ≡ (3, 3, b'h' ∷ b'i' ∷ b'\n' ∷ 7 ∷ []))
send_msg-unpack_msg_example =
    send_msg-unpack_msg 3 (b'h' ∷ b'i' ∷ b'\n' ∷ []) (7 ∷ []) (omega arith) (omega arith)

-- A source of each type with a line, and two consumers.
abbrev event_start : List Events.Pc
event_start =
    Events.sends Events.first 1
    ∷ Events.sends Events.second 1
    ∷ Events.sends Events.third 1
    ∷ Events.locks
    ∷ Events.locks
    ∷ []

abbrev event_turns : List ℕ
event_turns = 0 ∷ 1 ∷ 2 ∷ 3 ∷ 2 ∷ 1 ∷ 0 ∷ 4 ∷ 3 ∷ 4 ∷ []

event_main-IsFed_example :
    let (pcs, m) = Events.event_main event_turns event_start in
    (sum (left gated) pcs ≤ 1)
    × All (IsFed m) pcs
    × ((i : Events.SourceId) → m.queue i + m.received i + lines_in pcs i ≡ lines_in event_start i)
event_main-IsFed_example = event_main-IsFed event_turns event_start (tt, (tt, (tt, (tt, (tt, tt)))))

-- The kernel refuses what comes behind two calls, until five were made.
abbrev busy_kernel : List Locks.Call → Locks.Call → Bool
busy_kernel calls call = leb (length calls) 1 || leb 5 (length calls)

-- write 4 x, lockb w s 5 10, getlock r e 0 7
abbrev lock_commands : List Command
lock_commands =
    writes (b'4', []) b'x'
    ∷ locks true b'w' b's' (b'5', []) (b'1', b'0' ∷ [])
    ∷ asks b'r' b'e' (b'0', []) (b'7', [])
    ∷ []
