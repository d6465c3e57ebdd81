-- ===== src/Ipc/Events.antt =====
-- The sources and the consumers of lecture_examples/7_ipc/9_sem_event_source.c and
-- 9_sem_event_cons.c, which share a queue of messages and four semaphores. A move is one system call;
-- a process that the kernel makes wait is one whose move changes nothing. A source is taken before the
-- end of its input, where the first one removes the queue and the semaphores.
pub mod Feeds
use iu_sysprog.Prelude.{
  ℕ, zero, suc, ◌+◌, ◌-◌, Bool, true, false, List, [], ◌∷◌, ltb, ◌&&◌, if◌then◌else◌,
}
use iu_sysprog.Threads.Interleave.{interleave}

-- `myid`, for the three sources that the consumer reads from.
pub data SourceId : Type 0 where
  first : SourceId
  second : SourceId
  third : SourceId

abbrev pub same : SourceId → SourceId → Bool
same first first = true
same second second = true
same third third = true
same _ _ = false

-- The semaphores of the sources, the last one, the messages of each type that wait, and those that
-- were received.
pub record Shared : Type 0 where
  pub sems : SourceId → ℕ
  pub gate : ℕ
  pub queue : SourceId → ℕ
  pub received : SourceId → ℕ

-- A source before `send_msg` or `sem_inc`, with the lines of its input that are still to come; a
-- consumer before `lock_events`, a `recv_msg`, or `unlock_events`.
pub data Pc : Type 0 where
  sends : SourceId → ℕ → Pc
  counts : SourceId → ℕ → Pc
  locks : Pc
  receives : SourceId → Pc
  unlocks : Pc

abbrev pub plus_one : (SourceId → ℕ) → SourceId → SourceId → ℕ
plus_one f i j = if same j i then f j + 1 else f j

abbrev pub minus_one : (SourceId → ℕ) → SourceId → SourceId → ℕ
minus_one f i j = if same j i then f j - 1 else f j

-- `semop` with -1 on all four semaphores: all of them or none.
unfoldable pub lock_events : Shared → Pc × Shared
lock_events m =
    if ltb 0 (m.sems first) && ltb 0 (m.sems second) && ltb 0 (m.sems third) && ltb 0 m.gate
    then (receives first, record m { sems = λ j. m.sems j - 1; gate = m.gate - 1 })
    else (locks, m)

-- The `for` of `read_data`.
abbrev pub next_read : SourceId → Pc
next_read first = receives second
next_read second = receives third
next_read third = unlocks

unfoldable pub recv_msg : SourceId → Shared → Pc × Shared
recv_msg i m =
    if ltb 0 (m.queue i)
    then (next_read i, record m { queue = minus_one m.queue i; received = plus_one m.received i })
    else (receives i, m)

unfoldable pub event_step : Pc → Shared → Pc × Shared
unfolding lock_events recv_msg
event_step (sends i zero) m = (sends i zero, m)
event_step (sends i (suc n)) m = (counts i n, record m { queue = plus_one m.queue i })
event_step (counts i n) m = (sends i n, record m { sems = plus_one m.sems i })
event_step locks m = lock_events m
event_step (receives i) m = recv_msg i m
event_step unlocks m = (locks, record m { gate = m.gate + 1 })

-- `sem_get_or_create`: the values {0, 0, 0, 1}.
unfoldable pub sem_create : Shared
sem_create = record { sems = λ i. 0; gate = 1; queue = λ i. 0; received = λ i. 0 }

unfoldable pub event_main : List ℕ → List Pc → List Pc × Shared
unfolding interleave event_step sem_create
event_main is pcs = interleave event_step is pcs sem_create
