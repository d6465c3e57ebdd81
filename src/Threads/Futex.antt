-- ===== src/Threads/Futex.antt =====
-- lecture_examples/6_threads/8_futex.c. `futex_wait` is left to the kernel: a thread in it returns
-- whenever it moves, which covers every kernel, since one that sleeps is a thread that is not moved.
use iu_sysprog.Prelude.{
  ℕ, zero, suc, ◌+◌, ◌*◌, ◌%◌, ◌^◌, ◌<◌, ◌≤◌, Bool, true, false, List, [], ◌∷◌, ◌==◌, if◌then◌else◌,
  ◌≡◌, refl, sym, ◌∙◌, arith, All, Bool-cases, inl, inr,
}
use iu_sysprog.Threads.Interleave.{
  Single, single, sum, interleave, Keeps, Kept, IsSound, interleave-IsSound,
}

-- The places of a thread, with the rounds of its loop that follow; `opens` is `main` before it sets
-- `start`. `adds` has loaded the counter.
pub data Pc : Type 0 where
  opens : Pc
  awaits : ℕ → Pc
  locks : ℕ → Pc
  waits : ℕ → Pc
  loads : ℕ → Pc
  adds : ℕ → ℕ → Pc
  unlocks : ℕ → Pc
  wakes : ℕ → Pc
  returned : Pc

-- `counter` is the 32 bits of the `int`, which are its value below 2^31.
pub record Shared : Type 0 where
  pub start : Bool
  pub futex : ℕ
  pub counter : ℕ

-- The test of the `for`.
unfoldable pub loop_test : ℕ → Pc
loop_test zero = returned
loop_test (suc more) = locks more

unfoldable pub futex_lock : ℕ → Shared → Pc × Shared
futex_lock more m = if m.futex == 0 then (loads more, record m { futex = 1 }) else (waits more, m)

unfoldable pub futex_unlock : ℕ → Shared → Pc × Shared
futex_unlock more m = (wakes more, record m { futex = if m.futex == 1 then 0 else m.futex })

unfoldable pub thread_f : Pc → Shared → Pc × Shared
unfolding loop_test futex_lock futex_unlock
thread_f opens m = (returned, record m { start = true })
thread_f (awaits rounds) m = (if m.start then loop_test rounds else awaits rounds, m)
thread_f (locks more) m = futex_lock more m
thread_f (waits more) m = (locks more, m)
thread_f (loads more) m = (adds more m.counter, m)
thread_f (adds more n) m = (unlocks more, record m { counter = (n + 1) % 2 ^ 32 })
thread_f (unlocks more) m = futex_unlock more m
thread_f (wakes more) m = (loop_test more, m)
thread_f returned m = (returned, m)

unfoldable pub created : ℕ → ℕ → List Pc
created zero rounds = []
created (suc n) rounds = awaits rounds ∷ created n rounds

-- `main` and its threads.
unfoldable pub main : List ℕ → ℕ → ℕ → List Pc × Shared
unfolding interleave thread_f created
main is n rounds =
    interleave thread_f is (opens ∷ created n rounds)
      (record { start = false; futex = 0; counter = 0 })

-- A thread between `futex_lock` and `futex_unlock`.
abbrev pub holds : Pc → ℕ
holds (loads more) = 1
holds (adds more n) = 1
holds (unlocks more) = 1
holds _ = 0

-- The additions that a thread has left.
abbrev pub left : Single → Pc → ℕ
left k opens = 0
left k (awaits rounds) = rounds
left k (locks more) = suc more
left k (waits more) = suc more
left k (loads more) = suc more
left k (adds more n) = suc more
left k (unlocks more) = more
left k (wakes more) = more
left k returned = 0

abbrev pub Knows : Pc → Shared → Type 0
Knows (adds more n) m = n ≡ m.counter
Knows _ m = Unit

abbrev pub counted : Single → Shared → ℕ
counted k m = m.counter

-- A step that leaves the counter alone.
calm : (q : Pc) (m m' : Shared) → m'.counter ≡ m.counter → Knows q m → Knows q m'
calm (adds more n) m m' e h = h ∙ sym e
calm opens m m' e h = tt
calm (awaits rounds) m m' e h = tt
calm (locks more) m m' e h = tt
calm (waits more) m m' e h = tt
calm (loads more) m m' e h = tt
calm (unlocks more) m m' e h = tt
calm (wakes more) m m' e h = tt
calm returned m m' e h = tt

-- A thread without the lock knows nothing of the counter.
unaware : (q : Pc) (m m' : Shared) → holds q ≤ 0 → Knows q m'
unaware (adds more n) m m' l = absurd (omega (arith, l))
unaware opens m m' l = tt
unaware (awaits rounds) m m' l = tt
unaware (locks more) m m' l = tt
unaware (waits more) m m' l = tt
unaware (loads more) m m' l = tt
unaware (unlocks more) m m' l = tt
unaware (wakes more) m m' l = tt
unaware returned m m' l = tt

loop_test-rest :
    (more : ℕ) (m : Shared)
    → (holds (loop_test more) ≡ 0)
      × (left single (loop_test more) ≡ more)
      × Knows (loop_test more) m
unfolding loop_test
loop_test-rest zero m = (refl, refl, tt)
loop_test-rest (suc more) m = (refl, refl, tt)

module _ (total : ℕ) (few : total < 2 ^ 31) where
  abbrev Keeping : ℕ → Pc → Shared → Pc → Shared → Type 0
  Keeping x pc m pc' m' =
      Kept thread_f holds (λ m. m.futex) Knows (λ m. Unit) left counted (λ k. total) x pc m pc' m'

  -- A move of the thread alone.
  stays :
      (pc pc' : Pc) (x : ℕ) (m : Shared)
      → holds pc' ≡ holds pc
      → left single pc' ≡ left single pc
      → Knows pc' m
      → holds pc + x ≡ m.futex
      → m.futex ≤ 1
      → Keeping x pc m pc' m
  stays pc pc' x m same rest knows h o = record {
    held = omega (arith, same, h);
    once = o;
    knows = knows;
    idle = λ e. tt;
    amount = λ k. elim k [ single ↦ omega (arith, rest) ];
    spares = λ q l k. k;
  }

  to_loop :
      (pc : Pc) (more x : ℕ) (m : Shared)
      → holds pc ≡ 0
      → left single pc ≡ more
      → holds pc + x ≡ m.futex
      → m.futex ≤ 1
      → Keeping x pc m (loop_test more) m
  to_loop pc more x m none same h o =
      let (held, rest, knows) = loop_test-rest more m in
      stays pc (loop_test more) x m (held ∙ sym none) (rest ∙ sym same) knows h o

  started :
      (b : Bool) (rounds x : ℕ) (m : Shared)
      → holds (awaits rounds) + x ≡ m.futex
      → m.futex ≤ 1
      → Keeping x (awaits rounds) m (if b then loop_test rounds else awaits rounds) m
  started true rounds x m h o = to_loop (awaits rounds) rounds x m refl refl h o
  started false rounds x m h o = stays (awaits rounds) (awaits rounds) x m refl refl tt h o

  thread_f-Kept : Keeps thread_f holds (λ m. m.futex) Knows (λ m. Unit) left counted (λ k. total)
  unfolding thread_f
  thread_f-Kept opens m x h o n i a = record {
    held = h;
    once = o;
    knows = tt;
    idle = λ e. tt;
    amount = λ k. refl;
    spares = λ q l k. calm q m (record m { start = true }) refl k;
  }
  thread_f-Kept (awaits rounds) m x h o n i a = started (m.start) rounds x m h o
  thread_f-Kept (locks more) m x h o n i a = elim (Bool-cases (m.futex == 0)) [
    | inl e ↦ rw e (record {
      held = ground (arith, h, e);
      once = omega arith;
      knows = tt;
      idle = λ e. tt;
      amount = λ k. refl;
      spares = λ q l k. calm q m (record m { futex = 1 }) refl k;
    })
    | inr e ↦ rw e (stays (locks more) (waits more) x m refl refl tt h o)
  ]
  thread_f-Kept (waits more) m x h o n i a = stays (waits more) (locks more) x m refl refl tt h o
  thread_f-Kept (loads more) m x h o n i a =
      stays (loads more) (adds more (m.counter)) x m refl refl refl h o
  thread_f-Kept (adds more c) m x h o n i a = record {
    held = h;
    once = o;
    knows = tt;
    idle = λ e. tt;
    amount = λ k. elim k [ single ↦ omega (arith, n, a single, few) ];
    spares =
        λ q l k. unaware q m (record m { counter = (c + 1) % 2 ^ 32 }) (omega (arith, l, h, o));
  }
  thread_f-Kept (unlocks more) m x h o n i a =
      let v = if m.futex == 1 then 0 else m.futex in
      record {
        held = ground (arith, h, o);
        once = ground (arith, o);
        knows = tt;
        idle = λ e. tt;
        amount = λ k. refl;
        spares = λ q l k. calm q m (record m { futex = v }) refl k;
      }
  thread_f-Kept (wakes more) m x h o n i a = to_loop (wakes more) more x m refl refl h o
  thread_f-Kept returned m x h o n i a = stays (returned) (returned) x m refl refl tt h o

created-sums :
    (n rounds : ℕ) (m : Shared)
    → (sum holds (created n rounds) ≡ 0)
      × (sum (left single) (created n rounds) ≡ n * rounds)
      × All (λ pc. Knows pc m) (created n rounds)
unfolding created
created-sums zero rounds m = (refl, omega arith, tt)
created-sums (suc n) rounds m =
    let (held, rest, knows) = created-sums n rounds m in
    (omega (arith, held), omega (arith, rest), (tt, knows))

main-IsSound :
    (is : List ℕ) (n rounds : ℕ)
    → n * rounds < 2 ^ 31
    → IsSound thread_f holds
        (λ m. m.futex)
        Knows
        (λ m. Unit)
        left
        counted
        (λ k. n * rounds)
        0
        (λ k. 0)
        ((main is n rounds).0)
        ((main is n rounds).1)
unfolding main
main-IsSound is n rounds few =
    let m : Shared = record { start = false; futex = 0; counter = 0 } in
    let (held, rest, knows) = created-sums n rounds m in
    interleave-IsSound thread_f holds (λ m. m.futex) Knows (λ m. Unit) left counted
      (λ k. n * rounds) (thread_f-Kept (n * rounds) few) is (opens ∷ created n rounds) m 0 (λ k. 0)
      (record {
        held = omega (arith, held);
        once = omega arith;
        knows = (tt, knows);
        idle = λ e. tt;
        amount = λ k. elim k [ single ↦ omega (arith, rest) ];
      })

-- However the moves of the threads are ordered, at most one of them is between `futex_lock` and
-- `futex_unlock`, and the counter with the additions that are left is the number of all additions,
-- where these are fewer than 2^31.
pub main-sum :
    (is : List ℕ) (n rounds : ℕ)
    → n * rounds < 2 ^ 31
    → (sum holds ((main is n rounds).0) ≤ 1)
      × ((main is n rounds).1.counter + sum (left single) ((main is n rounds).0) ≡ n * rounds)
main-sum is n rounds few =
    let s = main-IsSound is n rounds few in
    (omega (arith, s.held, s.once), omega (arith, s.amount single))
