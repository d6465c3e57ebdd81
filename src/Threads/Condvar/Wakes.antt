-- ===== src/Threads/Condvar/Wakes.antt =====
-- Each signal of lecture_examples/6_threads/14_condvar.c that finds a waiter wakes one waiter.
use mathlib.Core.Path.{subst}
use iu_sysprog.Prelude.{
  ℕ, zero, suc, ◌+◌, ◌-◌, ◌≤◌, Bool, true, false, List, [], ◌∷◌, ◌==◌, if◌then◌else◌, ◌≡◌, refl,
  sym, ap, arith, All, Bool-cases, inl, inr, bit,
}
use iu_sysprog.Threads.Interleave.{sum, moves, interleave, Keeps, Kept, IsSound, interleave-IsSound}
use iu_sysprog.Threads.Condvar.{
  Owner, nobody, by_main, by_waiter, Signaler, reads, sets, unlocks, spins, locks, clears, joins,
  Condvar, Pc, main, adds, tries, tests, takes, subtracts, leaves, retries, condvar_create,
  condvar_signal, lock_main, lock_waiter, condvar_wait, waiters, condvar_main,
}

-- A thread that has the mutex.
abbrev pub holds : Pc → ℕ
holds main = 0
holds adds = 0
holds tries = 0
holds _ = 1

abbrev pub lock : Condvar → ℕ
lock c = elim c.owner [ by_waiter ↦ 1 | _ ↦ 0 ]

-- What `main` knows where it stands.
abbrev pub KnowsMain : Signaler → Condvar → Type 0
KnowsMain (reads n) c = (c.owner ≡ by_main) × (c.is_event_set ≡ false)
KnowsMain (sets n) c = (c.owner ≡ by_main) × (c.is_event_set ≡ false)
KnowsMain (unlocks n) c = c.owner ≡ by_main
KnowsMain (spins n) c = Unit
KnowsMain (locks n) c = c.is_event_set ≡ false
KnowsMain (clears n) c = (c.owner ≡ by_main) × (c.is_event_set ≡ false)
KnowsMain joins c = (c.owner ≡ by_main) × (c.is_event_set ≡ false)

abbrev pub Knows : Pc → Condvar → Type 0
Knows main c = KnowsMain c.main_at c
Knows takes c = c.is_event_set ≡ true
Knows _ c = Unit

-- The amounts that are kept: the characters, the threads outside `condvar_wait`, and those inside.
pub data Amount : Type 0 where
  signals : Amount
  outside : Amount
  inside : Amount

-- The signals that `main` has not set yet.
abbrev pub unsent : Signaler → ℕ
unsent (reads n) = n
unsent (sets n) = suc n
unsent (unlocks n) = n
unsent (spins n) = n
unsent (locks n) = n
unsent (clears n) = n
unsent joins = 0

abbrev pub done : ℕ → Amount → Condvar → ℕ
done n signals c = c.taken + bit c.is_event_set + c.skipped + unsent c.main_at
done n outside c = c.wait_count
done n inside c = n - c.wait_count

abbrev pub left : Amount → Pc → ℕ
left signals pc = 0
left outside adds = 1
left outside leaves = 1
left outside _ = 0
left inside adds = 0
left inside leaves = 0
left inside main = 0
left inside _ = 1

abbrev pub total : ℕ → ℕ → Amount → ℕ
total n chars signals = chars
total n chars outside = n
total n chars inside = n

module _ (n chars : ℕ) where
  abbrev Keeping : ℕ → Pc → Condvar → Pc → Condvar → Type 0
  Keeping x pc c pc' c' =
      Kept condvar_wait holds lock Knows (λ c. Unit) left (done n) (total n chars) x pc c pc' c'

  abbrev Same : Pc → Condvar → Pc → Condvar → Amount → Type 0
  Same pc c pc' c' k = done n k c' + left k pc' ≡ done n k c + left k pc

  each_amount :
      (pc : Pc) (c : Condvar) (pc' : Pc) (c' : Condvar)
      → Same pc c pc' c' signals
      → Same pc c pc' c' outside
      → Same pc c pc' c' inside
      → (k : Amount) → Same pc c pc' c' k
  each_amount pc c pc' c' h i j signals = h
  each_amount pc c pc' c' h i j outside = i
  each_amount pc c pc' c' h i j inside = j

-- The mutex changes hands, where `main` does not have it.
handed :
    (at : Signaler) (c : Condvar) (o : Owner)
    → (c.owner ≡ by_main → ⊥)
    → KnowsMain at c
    → KnowsMain at (record c { owner = o })
handed (reads n) c o f h = absurd (f h.0)
handed (sets n) c o f h = absurd (f h.0)
handed (unlocks n) c o f h = absurd (f h)
handed (spins n) c o f h = tt
handed (locks n) c o f h = h
handed (clears n) c o f h = absurd (f h.0)
handed joins c o f h = absurd (f h.0)

cleared :
    (at : Signaler) (c : Condvar) (taken : ℕ)
    → KnowsMain at c
    → KnowsMain at (record c { is_event_set = false; taken = taken })
cleared (reads n) c t h = (h.0, refl)
cleared (sets n) c t h = (h.0, refl)
cleared (unlocks n) c t h = h
cleared (spins n) c t h = tt
cleared (locks n) c t h = refl
cleared (clears n) c t h = (h.0, refl)
cleared joins c t h = (h.0, refl)

count_changed :
    (at : Signaler) (c : Condvar) (w : ℕ)
    → KnowsMain at c
    → KnowsMain at (record c { wait_count = w })
count_changed (reads n) c w h = h
count_changed (sets n) c w h = h
count_changed (unlocks n) c w h = h
count_changed (spins n) c w h = tt
count_changed (locks n) c w h = h
count_changed (clears n) c w h = h
count_changed joins c w h = h

lock_free : (o : Owner) (c : Condvar) → c.owner ≡ o → (o ≡ by_waiter → ⊥) → lock c ≡ 0
lock_free nobody c e f = ap (λ o. elim o [ by_waiter ↦ 1 | _ ↦ 0 ]) e
lock_free by_main c e f = ap (λ o. elim o [ by_waiter ↦ 1 | _ ↦ 0 ]) e
lock_free by_waiter c e f = absurd (f refl)

not_main : (c : Condvar) (x : ℕ) → 1 + x ≡ lock c → c.owner ≡ by_main → ⊥
not_main c x h e = omega (arith, h, lock_free by_main c e (λ d. cc))

-- A move spares another thread, where the lock lets it.
spared :
    (q : Pc) (c c' : Condvar) (x : ℕ)
    → holds q ≤ x
    → (1 ≤ x → c.is_event_set ≡ true → c'.is_event_set ≡ true)
    → (KnowsMain c.main_at c → KnowsMain c'.main_at c')
    → Knows q c
    → Knows q c'
spared main c c' x l e m h = m h
spared takes c c' x l e m h = e l h
spared adds c c' x l e m h = tt
spared tries c c' x l e m h = tt
spared tests c c' x l e m h = tt
spared subtracts c c' x l e m h = tt
spared leaves c c' x l e m h = tt
spared retries c c' x l e m h = tt

module _ (n chars : ℕ) where
  main-Kept :
      (x : ℕ) (c c' : Condvar)
      → 0 + x ≡ lock c
      → lock c ≤ 1
      → lock c' ≡ lock c
      → KnowsMain c'.main_at c'
      → done n signals c' ≡ done n signals c
      → c'.wait_count ≡ c.wait_count
      → (1 ≤ x → c.is_event_set ≡ true → c'.is_event_set ≡ true)
      → Keeping n chars x main c main c'
  main-Kept x c c' h o same knows sent count event = record {
    held = omega (arith, h, same);
    once = omega (arith, o, same);
    knows = knows;
    idle = λ e. tt;
    amount =
        each_amount n chars main c main c' (omega (arith, sent)) (omega (arith, count))
          (omega (arith, count));
    spares = λ q l k. spared q c c' x l event (λ m. knows) k;
  }

  locked :
      (o : Owner) (m x : ℕ) (c : Condvar)
      → c.owner ≡ o
      → c.main_at ≡ locks m
      → 0 + x ≡ lock c
      → lock c ≤ 1
      → c.is_event_set ≡ false
      → KnowsMain c.main_at c
      → Keeping n chars x main c main (lock_main m o c)
  locked nobody m x c e at h o event k =
      main-Kept x c (record c { owner = by_main; main_at = clears m }) h o
        (sym (lock_free nobody c e (λ d. cc))) (refl, event) (omega (arith, ap unsent at)) refl
        (λ l t. t)
  locked by_main m x c e at h o event k = main-Kept x c c h o refl k refl refl (λ l t. t)
  locked by_waiter m x c e at h o event k = main-Kept x c c h o refl k refl refl (λ l t. t)

  spun :
      (b : Bool) (m x : ℕ) (c : Condvar)
      → c.is_event_set ≡ b
      → c.main_at ≡ spins m
      → 0 + x ≡ lock c
      → lock c ≤ 1
      → KnowsMain c.main_at c
      → Keeping n chars x main c main (if b then c else record c { main_at = locks m })
  spun true m x c e at h o k = main-Kept x c c h o refl k refl refl (λ l t. t)
  spun false m x c e at h o k =
      main-Kept x c (record c { main_at = locks m }) h o refl e (omega (arith, ap unsent at)) refl
        (λ l t. t)

  signal-Kept :
      (at : Signaler) (x : ℕ) (c : Condvar)
      → c.main_at ≡ at
      → 0 + x ≡ lock c
      → lock c ≤ 1
      → KnowsMain at c
      → KnowsMain c.main_at c
      → Keeping n chars x main c main (condvar_signal at c)
  unfolding condvar_signal
  signal-Kept (reads zero) x c e h o k k' =
      main-Kept x c (record c { main_at = joins }) h o refl k (omega (arith, ap unsent e)) refl
        (λ l t. t)
  signal-Kept (reads (suc m)) x c e h o k k' = elim (Bool-cases (c.wait_count == 0)) [
    | inl w ↦ rw w (
        main-Kept x c (record c { main_at = reads m; skipped = c.skipped + 1 }) h o refl k
          (omega (arith, ap unsent e)) refl (λ l t. t))
    | inr w ↦ rw w (
        main-Kept x c (record c { main_at = sets m }) h o refl k (omega (arith, ap unsent e)) refl
          (λ l t. t))
  ]
  signal-Kept (sets m) x c e h o k k' =
      main-Kept x c (record c { is_event_set = true; main_at = unlocks m }) h o refl (k.0)
        (omega (arith, ap unsent e, ap bit k.1)) refl (λ l t. refl)
  signal-Kept (unlocks m) x c e h o k k' =
      main-Kept x c (record c { owner = nobody; main_at = spins m }) h o
        (sym (lock_free by_main c k (λ d. cc))) tt (omega (arith, ap unsent e)) refl (λ l t. t)
  signal-Kept (spins m) x c e h o k k' = spun c.is_event_set m x c refl e h o k'
  signal-Kept (locks m) x c e h o k k' = locked c.owner m x c refl e h o k k'
  signal-Kept (clears m) x c e h o k k' =
      main-Kept x c (record c { is_event_set = false; main_at = reads m }) h o refl (k.0, refl)
        (omega (arith, ap unsent e, ap bit k.1)) refl
        (λ l t. absurd (omega (arith, l, h, lock_free by_main c k.0 (λ d. cc))))
  signal-Kept joins x c e h o k k' = main-Kept x c c h o refl k' refl refl (λ l t. t)

  -- A move of a waiting thread that has the lock before and behind it, or not at all.
  waiter-Kept :
      (x : ℕ) (pc : Pc) (c : Condvar) (pc' : Pc) (c' : Condvar)
      → holds pc' + x ≡ lock c'
      → lock c' ≤ 1
      → Knows pc' c'
      → Same n chars pc c pc' c' signals
      → Same n chars pc c pc' c' outside
      → Same n chars pc c pc' c' inside
      → (KnowsMain c.main_at c → KnowsMain c'.main_at c')
      → (1 ≤ x → c.is_event_set ≡ true → c'.is_event_set ≡ true)
      → Keeping n chars x pc c pc' c'
  waiter-Kept x pc c pc' c' h o knows s i j m event = record {
    held = h;
    once = o;
    knows = knows;
    idle = λ e. tt;
    amount = each_amount n chars pc c pc' c' s i j;
    spares = λ q l k. spared q c c' x l event m k;
  }

  tried :
      (o : Owner) (x : ℕ) (c : Condvar)
      → c.owner ≡ o
      → 0 + x ≡ lock c
      → lock c ≤ 1
      → Keeping n chars x tries c ((lock_waiter o c).0) ((lock_waiter o c).1)
  tried nobody x c e h o =
      let free = lock_free nobody c e (λ d. cc) in
      waiter-Kept x tries c tests (record c { owner = by_waiter }) (omega (arith, h, free))
        (omega arith) tt refl refl refl (λ k. handed c.main_at c by_waiter (λ d. cc) k) (λ l t. t)
  tried by_main x c e h o = waiter-Kept x tries c tries c h o tt refl refl refl (λ k. k) (λ l t. t)
  tried by_waiter x c e h o =
      waiter-Kept x tries c tries c h o tt refl refl refl (λ k. k) (λ l t. t)

  tested :
      (b : Bool) (x : ℕ) (c : Condvar)
      → c.is_event_set ≡ b
      → 1 + x ≡ lock c
      → lock c ≤ 1
      → Keeping n chars x tests c (if b then takes else retries) c
  tested true x c e h o = waiter-Kept x tests c takes c h o e refl refl refl (λ k. k) (λ l t. t)
  tested false x c e h o = waiter-Kept x tests c retries c h o tt refl refl refl (λ k. k) (λ l t. t)

  condvar_wait-Kept : Keeps condvar_wait holds lock Knows (λ c. Unit) left (done n) (total n chars)
  unfolding condvar_wait
  condvar_wait-Kept main c x h o k i a = signal-Kept c.main_at x c refl h o k k
  condvar_wait-Kept adds c x h o k i a =
      waiter-Kept x adds c tries (record c { wait_count = c.wait_count + 1 }) h o tt refl
        (omega arith) (omega (arith, a outside)) (count_changed c.main_at c (c.wait_count + 1))
        (λ l t. t)
  condvar_wait-Kept tries c x h o k i a = tried c.owner x c refl h o
  condvar_wait-Kept tests c x h o k i a = tested c.is_event_set x c refl h o
  condvar_wait-Kept takes c x h o k i a =
      waiter-Kept x takes c subtracts (record c { is_event_set = false; taken = c.taken + 1 }) h o
        tt (omega (arith, ap bit k)) refl refl (cleared c.main_at c (c.taken + 1))
        (λ l t. absurd (omega (arith, l, h, o)))
  condvar_wait-Kept subtracts c x h o k i a =
      waiter-Kept x subtracts c leaves (record c { wait_count = c.wait_count - 1 }) h o tt refl
        (omega (arith, a inside, a outside)) (omega (arith, a inside, a outside))
        (count_changed c.main_at c (c.wait_count - 1)) (λ l t. t)
  condvar_wait-Kept leaves c x h o k i a =
      waiter-Kept x leaves c adds (record c { owner = nobody }) (omega (arith, h, o)) (omega arith)
        tt refl refl refl (handed c.main_at c nobody (not_main c x h)) (λ l t. t)
  condvar_wait-Kept retries c x h o k i a =
      waiter-Kept x retries c tries (record c { owner = nobody }) (omega (arith, h, o))
        (omega arith) tt refl refl refl (handed c.main_at c nobody (not_main c x h)) (λ l t. t)

waiters-sums :
    (n : ℕ) (c : Condvar)
    → (sum holds (waiters n) ≡ 0)
      × (sum (left signals) (waiters n) ≡ 0)
      × (sum (left outside) (waiters n) ≡ n)
      × (sum (left inside) (waiters n) ≡ 0)
      × All (λ pc. Knows pc c) (waiters n)
unfolding waiters
waiters-sums zero c = (refl, refl, refl, refl, tt)
waiters-sums (suc n) c =
    let (h, s, o, i, k) = waiters-sums n c in
    (omega (arith, h), omega (arith, s), omega (arith, o), omega (arith, i), (tt, k))

first_amounts :
    (n chars : ℕ) (k : Amount)
    → done n k (condvar_create chars) + sum (left k) (main ∷ waiters n) + 0 ≡ total n chars k
unfolding condvar_create
first_amounts n chars signals =
    let (h, s, o, i, k) = waiters-sums n (condvar_create chars) in omega (arith, s)
first_amounts n chars outside =
    let (h, s, o, i, k) = waiters-sums n (condvar_create chars) in omega (arith, o)
first_amounts n chars inside =
    let (h, s, o, i, k) = waiters-sums n (condvar_create chars) in omega (arith, i)

condvar_main-IsSound :
    (is : List ℕ) (n chars : ℕ)
    → IsSound condvar_wait holds lock Knows
        (λ c. Unit)
        left
        (done n)
        (total n chars)
        0
        (λ k. 0)
        ((condvar_main is n chars).0)
        ((condvar_main is n chars).1)
unfolding condvar_main condvar_create
condvar_main-IsSound is n chars =
    let (h, s, o, i, k) = waiters-sums n (condvar_create chars) in
    interleave-IsSound condvar_wait holds lock Knows (λ c. Unit) left (done n) (total n chars)
      (condvar_wait-Kept n chars) is (main ∷ waiters n) (condvar_create chars) 0 (λ k. 0)
      (record {
        held = omega (arith, h);
        once = omega arith;
        knows = ((refl, refl), k);
        idle = λ e. tt;
        amount = first_amounts n chars;
      })

none_left : (pcs : List Pc) → sum (left signals) pcs ≡ 0
none_left [] = refl
none_left (pc ∷ pcs) = omega (arith, none_left pcs)

at_joins : (at : Signaler) (c : Condvar) → at ≡ joins → KnowsMain at c → c.is_event_set ≡ false
at_joins joins c e k = k.1
at_joins (reads n) c e k = cc
at_joins (sets n) c e k = cc
at_joins (unlocks n) c e k = cc
at_joins (spins n) c e k = cc
at_joins (locks n) c e k = cc
at_joins (clears n) c e k = cc

main_first :
    (is : List ℕ) (pcs : List Pc) (c : Condvar)
    → (rest : List Pc) × ((interleave condvar_wait is (main ∷ pcs) c).0 ≡ main ∷ rest)
unfolding interleave moves condvar_wait
main_first [] pcs c = (pcs, refl)
main_first (zero ∷ is) pcs c = main_first is pcs (condvar_signal c.main_at c)
main_first (suc i ∷ is) pcs c = let (pcs', c') = moves condvar_wait i pcs c in main_first is pcs' c'

knows_main :
    (is : List ℕ) (n chars : ℕ)
    → KnowsMain ((condvar_main is n chars).1.main_at) ((condvar_main is n chars).1)
unfolding condvar_main
knows_main is n chars =
    let (rest, e) = main_first is (waiters n) (condvar_create chars) in
    (subst (All (λ pc. Knows pc ((condvar_main is n chars).1))) e
      ((condvar_main-IsSound is n chars).knows)).0

-- `main` where it has the mutex.
abbrev pub main_holds : Signaler → ℕ
main_holds (spins n) = 0
main_holds (locks n) = 0
main_holds _ = 1

-- Where `main` has the mutex, no other thread does.
main_alone :
    (at : Signaler) (c : Condvar) → KnowsMain at c → lock c ≤ 1 → lock c + main_holds at ≤ 1
main_alone (reads n) c k o = omega (arith, lock_free by_main c k.0 (λ d. cc))
main_alone (sets n) c k o = omega (arith, lock_free by_main c k.0 (λ d. cc))
main_alone (unlocks n) c k o = omega (arith, lock_free by_main c k (λ d. cc))
main_alone (spins n) c k o = omega (arith, o)
main_alone (locks n) c k o = omega (arith, o)
main_alone (clears n) c k o = omega (arith, lock_free by_main c k.0 (λ d. cc))
main_alone joins c k o = omega (arith, lock_free by_main c k.0 (λ d. cc))

-- However the moves are ordered: at most one thread, `main` among them, has the mutex, `wait_count`
-- counts the threads in `condvar_wait`, and each character of the input is one return of it, one signal
-- that found no waiter, the one event that is set, or a signal that is still to come. So a signal wakes
-- one waiter at most, and none is lost.
pub condvar_main-signals :
    (is : List ℕ) (n chars : ℕ)
    → let (pcs, c) = condvar_main is n chars in
      (sum holds pcs + main_holds c.main_at ≤ 1)
      × (c.wait_count + sum (left outside) pcs ≡ n)
      × (c.taken + bit c.is_event_set + c.skipped + unsent c.main_at ≡ chars)
condvar_main-signals is n chars =
    let s = condvar_main-IsSound is n chars in
    let c = (condvar_main is n chars).1 in
    let alone = main_alone c.main_at c (knows_main is n chars) s.once in
    (
      omega (arith, s.held, alone),
      omega (arith, s.amount outside),
      omega (arith, s.amount signals, none_left ((condvar_main is n chars).0)),
    )

-- When `main` has come to its joins, the returns of `condvar_wait` and the signals that found no waiter
-- are the characters of the input.
pub condvar_main-taken :
    (is : List ℕ) (n chars : ℕ)
    → (condvar_main is n chars).1.main_at ≡ joins
    → (condvar_main is n chars).1.taken + (condvar_main is n chars).1.skipped ≡ chars
condvar_main-taken is n chars e =
    let c = (condvar_main is n chars).1 in
    let (once, count, sent) = condvar_main-signals is n chars in
    let event = at_joins c.main_at c e (knows_main is n chars) in
    omega (arith, sent, ap bit event, ap unsent e)
