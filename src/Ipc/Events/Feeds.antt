-- ===== src/Ipc/Events/Feeds.antt =====
-- A consumer of lecture_examples/7_ipc/9_sem_event_cons.c that has passed `lock_events` finds its
-- messages.
use iu_sysprog.Prelude.{
  ℕ, zero, suc, ◌+◌, ◌-◌, ◌<◌, ◌≤◌, Bool, true, false, List, [], ◌∷◌, ltb, ◌&&◌, if◌then◌else◌, ◌≡◌,
  refl, arith, All, Bool-cases, inl, inr, bit,
}
use iu_sysprog.Threads.Interleave.{sum, Keeps, Kept, IsSound, interleave-IsSound}
use iu_sysprog.Ipc.Events.{
  SourceId, first, second, third, same, Shared, Pc, sends, counts, locks, receives, unlocks,
  plus_one, minus_one, lock_events, next_read, recv_msg, event_step, sem_create, event_main,
}

-- What is kept: the messages of each type against the semaphore, those against the lines, and the last
-- semaphore.
pub data Amount : Type 0 where
  queued : SourceId → Amount
  lines : SourceId → Amount
  gated : Amount

-- The messages of a type that a consumer at this read has before it.
abbrev pub to_read : SourceId → SourceId → ℕ
to_read i first = 1
to_read first second = 0
to_read second second = 1
to_read third second = 1
to_read first third = 0
to_read second third = 0
to_read third third = 1

abbrev pub left : Amount → Pc → ℕ
left (queued i) (sends j n) = 0
left (queued i) (counts j n) = bit (same i j)
left (queued i) locks = 0
left (queued i) (receives j) = to_read i j
left (queued i) unlocks = 0
left (lines i) (sends j n) = if same i j then n else 0
left (lines i) (counts j n) = if same i j then n else 0
left (lines i) _ = 0
left gated (receives j) = 1
left gated unlocks = 1
left gated _ = 0

module _ (lines_of : SourceId → ℕ) where
  abbrev pub done : Amount → Shared → ℕ
  done (queued i) m = lines_of i - m.queue i + m.sems i
  done (lines i) m = m.queue i + m.received i
  done gated m = m.gate

  abbrev pub total : Amount → ℕ
  total (queued i) = lines_of i
  total (lines i) = lines_of i
  total gated = 1

  abbrev Same : Pc → Shared → Pc → Shared → Amount → Type 0
  Same pc m pc' m' k = done k m' + left k pc' ≡ done k m + left k pc

  abbrev Within : Pc → Shared → Type 0
  Within pc m = (k : Amount) → done k m + left k pc ≤ total k

  sent :
      (i : SourceId) (n : ℕ) (m : Shared)
      → Within (sends i (suc n)) m
      → (k : Amount)
      → Same (sends i (suc n)) m (counts i n) (record m { queue = plus_one m.queue i }) k
  sent i n m a (queued j) = elim (Bool-cases (same j i)) [
    | inl e ↦ let few = a (lines j) in rw e (omega (arith, rw e at few))
    | inr e ↦ rw e refl
  ]
  sent i n m a (lines j) = elim (Bool-cases (same j i)) [
    | inl e ↦ rw e (omega arith)
    | inr e ↦ rw e refl
  ]
  sent i n m a gated = refl

  counted :
      (i : SourceId) (n : ℕ) (m : Shared)
      → (k : Amount) → Same (counts i n) m (sends i n) (record m { sems = plus_one m.sems i }) k
  counted i n m (queued j) = elim (Bool-cases (same j i)) [
    | inl e ↦ rw e (omega arith)
    | inr e ↦ rw e refl
  ]
  counted i n m (lines j) = refl
  counted i n m gated = refl

  passed :
      (m : Shared)
      → ((j : SourceId) → 0 < m.sems j)
      → 0 < m.gate
      → (k : Amount)
      → Same locks m (receives first) (record m { sems = λ j. m.sems j - 1; gate = m.gate - 1 }) k
  passed m s g (queued first) = let up = s first in omega (arith, up)
  passed m s g (queued second) = let up = s second in omega (arith, up)
  passed m s g (queued third) = let up = s third in omega (arith, up)
  passed m s g (lines j) = refl
  passed m s g gated = omega (arith, g)

  let_out : (m : Shared) (k : Amount) → Same unlocks m locks (record m { gate = m.gate + 1 }) k
  let_out m (queued j) = refl
  let_out m (lines j) = refl
  let_out m gated = omega arith

  every_sem :
      (m : Shared)
      → 0 < m.sems first
      → 0 < m.sems second
      → 0 < m.sems third
      → (j : SourceId) → 0 < m.sems j
  every_sem m a b c first = a
  every_sem m a b c second = b
  every_sem m a b c third = c

  taken :
      (i : SourceId) (m : Shared)
      → Within (receives i) m
      → 0 < m.queue i
      → (k : Amount)
      → Same
          (receives i)
          m
          (next_read i)
          (record m { queue = minus_one m.queue i; received = plus_one m.received i })
          k
  taken first m a q (queued first) = let few = a (lines first) in omega (arith, few, q)
  taken first m a q (queued second) = refl
  taken first m a q (queued third) = refl
  taken second m a q (queued first) = refl
  taken second m a q (queued second) = let few = a (lines second) in omega (arith, few, q)
  taken second m a q (queued third) = refl
  taken third m a q (queued first) = refl
  taken third m a q (queued second) = refl
  taken third m a q (queued third) = let few = a (lines third) in omega (arith, few, q)
  taken first m a q (lines first) = omega (arith, q)
  taken first m a q (lines second) = refl
  taken first m a q (lines third) = refl
  taken second m a q (lines first) = refl
  taken second m a q (lines second) = omega (arith, q)
  taken second m a q (lines third) = refl
  taken third m a q (lines first) = refl
  taken third m a q (lines second) = refl
  taken third m a q (lines third) = omega (arith, q)
  taken first m a q gated = refl
  taken second m a q gated = refl
  taken third m a q gated = refl

  abbrev Keeping : ℕ → Pc → Shared → Pc × Shared → Type 0
  Keeping x pc m after =
      Kept event_step (λ pc. 0) (λ m. 0) (λ pc m. Unit) (λ m. Unit) left done total x pc m after.0
        after.1

  amounts_kept :
      (x : ℕ) (pc : Pc) (m : Shared) (after : Pc × Shared)
      → 0 + x ≡ 0
      → ((k : Amount) → Same pc m after.0 after.1 k)
      → Keeping x pc m after
  amounts_kept x pc m after h s = record {
    held = h;
    once = omega arith;
    knows = tt;
    idle = λ e. tt;
    amount = s;
    spares = λ q l k. tt;
  }

  opened :
      (b : Bool) (x : ℕ) (m : Shared)
      → (ltb 0 (m.sems first) && ltb 0 (m.sems second) && ltb 0 (m.sems third) && ltb 0 m.gate) ≡ b
      → 0 + x ≡ 0
      → Keeping x locks m (
          if b
          then (receives first, record m { sems = λ j. m.sems j - 1; gate = m.gate - 1 })
          else (locks, m))
  opened true x m e h =
      amounts_kept x locks m
        (receives first, record m { sems = λ j. m.sems j - 1; gate = m.gate - 1 }) h
        (passed m (every_sem m (ground (arith, e)) (ground (arith, e)) (ground (arith, e)))
          (ground (arith, e)))
  opened false x m e h = amounts_kept x locks m (locks, m) h (λ k. refl)

  found :
      (b : Bool) (x : ℕ) (i : SourceId) (m : Shared)
      → ltb 0 (m.queue i) ≡ b
      → 0 + x ≡ 0
      → Within (receives i) m
      → Keeping x (receives i) m (
          if b
          then (
            next_read i,
            record m { queue = minus_one m.queue i; received = plus_one m.received i },
          )
          else (receives i, m))
  found true x i m e h a =
      amounts_kept x (receives i) m
        (next_read i, record m { queue = minus_one m.queue i; received = plus_one m.received i }) h
        (taken i m a (ground (arith, e)))
  found false x i m e h a = amounts_kept x (receives i) m (receives i, m) h (λ k. refl)

  event_step-Kept : Keeps event_step (λ pc. 0) (λ m. 0) (λ pc m. Unit) (λ m. Unit) left done total
  unfolding event_step lock_events recv_msg
  event_step-Kept (sends i zero) m x h o n d a =
      amounts_kept x (sends i zero) m (sends i zero, m) h (λ k. refl)
  event_step-Kept (sends i (suc l)) m x h o n d a =
      amounts_kept x (sends i (suc l)) m (counts i l, record m { queue = plus_one m.queue i }) h
        (sent i l m a)
  event_step-Kept (counts i l) m x h o n d a =
      amounts_kept x (counts i l) m (sends i l, record m { sems = plus_one m.sems i }) h
        (counted i l m)
  event_step-Kept locks m x h o n d a = opened _ x m refl h
  event_step-Kept (receives i) m x h o n d a = found (ltb 0 (m.queue i)) x i m refl h a
  event_step-Kept unlocks m x h o n d a =
      amounts_kept x unlocks m (locks, record m { gate = m.gate + 1 }) h (let_out m)

-- How the processes start: sources with lines to come, and consumers.
abbrev pub IsStart : Pc → Type 0
IsStart (sends i n) = Unit
IsStart locks = Unit
IsStart _ = ⊥

-- The lines that the sources of a type have.
abbrev pub lines_in : List Pc → SourceId → ℕ
lines_in pcs i = sum (left (lines i)) pcs

sum_zero : (pcs : List Pc) → sum (λ (pc : Pc). 0) pcs ≡ 0
sum_zero [] = refl
sum_zero (pc ∷ pcs) = omega (arith, sum_zero pcs)

units_everywhere : (pcs : List Pc) → All (λ (pc : Pc). Unit {0}) pcs
units_everywhere [] = tt
units_everywhere (pc ∷ pcs) = (tt, units_everywhere pcs)

start_sums :
    (pcs : List Pc)
    → All IsStart pcs
    → ((i : SourceId) → sum (left (queued i)) pcs ≡ 0) × (sum (left gated) pcs ≡ 0)
start_sums [] h = (λ i. refl, refl)
start_sums (sends i n ∷ pcs) h =
    let (q, g) = start_sums pcs h.1 in (λ j. omega (arith, q j), omega (arith, g))
start_sums (locks ∷ pcs) h =
    let (q, g) = start_sums pcs h.1 in (λ j. omega (arith, q j), omega (arith, g))
start_sums (counts i n ∷ pcs) h = absurd h.0
start_sums (receives i ∷ pcs) h = absurd h.0
start_sums (unlocks ∷ pcs) h = absurd h.0

first_amounts :
    (pcs : List Pc) (k : Amount)
    → All IsStart pcs
    → done (lines_in pcs) k sem_create + sum (left k) pcs + 0 ≡ total (lines_in pcs) k
unfolding sem_create
first_amounts pcs (queued i) h = let q = (start_sums pcs h).0 i in omega (arith, q)
first_amounts pcs (lines i) h = omega arith
first_amounts pcs gated h = omega (arith, (start_sums pcs h).1)

event_main-IsSound :
    (is : List ℕ) (pcs : List Pc)
    → All IsStart pcs
    → IsSound event_step
        (λ pc. 0)
        (λ m. 0)
        (λ pc m. Unit)
        (λ m. Unit)
        left
        (done (lines_in pcs))
        (total (lines_in pcs))
        0
        (λ k. 0)
        ((event_main is pcs).0)
        ((event_main is pcs).1)
unfolding event_main
event_main-IsSound is pcs h =
    interleave-IsSound event_step (λ pc. 0) (λ m. 0) (λ pc m. Unit) (λ m. Unit) left
      (done (lines_in pcs)) (total (lines_in pcs)) (event_step-Kept (lines_in pcs)) is pcs
      sem_create 0 (λ k. 0)
      (record {
        held = omega (arith, sum_zero pcs);
        once = omega arith;
        knows = units_everywhere pcs;
        idle = λ e. tt;
        amount = λ k. first_amounts pcs k h;
      })

-- A consumer before a `recv_msg` has its message in the queue.
abbrev pub IsFed : Shared → Pc → Type 0
IsFed m (receives i) = 0 < m.queue i
IsFed m _ = Unit

All-IsFed :
    (lines_of : SourceId → ℕ) (pcs : List Pc) (m : Shared) (y : SourceId → ℕ)
    → ((i : SourceId) → done lines_of (queued i) m + sum (left (queued i)) pcs + y i ≡ lines_of i)
    → All (IsFed m) pcs
All-IsFed lines_of [] m y h = tt
All-IsFed lines_of (pc ∷ pcs) m y h = (
  head pc h,
  All-IsFed lines_of pcs m (λ i. left (queued i) pc + y i) (λ i. let e = h i in omega (arith, e)),
)
  where
    head :
        (pc : Pc)
        → ((i : SourceId)
            → done lines_of (queued i) m + sum (left (queued i)) (pc ∷ pcs) + y i ≡ lines_of i)
        → IsFed m pc
    head (receives first) h = let e = h first in omega (arith, e)
    head (receives second) h = let e = h second in omega (arith, e)
    head (receives third) h = let e = h third in omega (arith, e)
    head (sends i n) h = tt
    head (counts i n) h = tt
    head locks h = tt
    head unlocks h = tt

-- Any number of sources and consumers, in whatever order they move: at most one consumer is between
-- `lock_events` and `unlock_events`; it finds the message that it receives next in the queue, so that
-- no `msgrcv` waits; and each line of a source is still to come, in the queue, or received.
pub event_main-IsFed :
    (is : List ℕ) (pcs : List Pc)
    → All IsStart pcs
    → let (pcs', m) = event_main is pcs in
      (sum (left gated) pcs' ≤ 1)
      × All (IsFed m) pcs'
      × ((i : SourceId) → m.queue i + m.received i + lines_in pcs' i ≡ lines_in pcs i)
event_main-IsFed is pcs h =
    let s = event_main-IsSound is pcs h in
    let (pcs', m) = event_main is pcs in
    (
      omega (arith, s.amount gated),
      All-IsFed (lines_in pcs) pcs' m (λ i. 0) (λ i. s.amount (queued i)),
      λ i. let e = s.amount (lines i) in omega (arith, e),
    )
