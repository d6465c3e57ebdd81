-- ===== src/HeapHelp/Lock.antt =====
-- `heaph_touch` of utils/heap_help/heap_help.c under every interleaving of the threads.
use iu_sysprog.Prelude.{
  bit, ℕ, zero, suc, ◌+◌, ◌≤◌, Bool, true, false, some, List, [], ◌∷◌, ◌≡◌, refl, ap, ◌∙◌, arith,
  get_elem?, All, Bool-cases, inl, inr, some-inj,
}
use iu_sysprog.HeapHelp.Touch.{
  Pc, loads, spins, inits, exchanges, unlocks, asserts, touched, aborted, Shared, heaph_touch,
  heaph_lock, heaph_unlock, move, schedule, untouched,
}

-- A thread between `heaph_lock` and `heaph_unlock`.
abbrev pub holds : Pc → ℕ
holds inits = 1
holds exchanges = 1
holds (unlocks old) = 1
holds _ = 0

abbrev pub holders : List Pc → ℕ
holders [] = 0
holders (pc ∷ pcs) = holds pc + holders pcs

abbrev pub starting : ℕ → List Pc
starting zero = []
starting (suc n) = loads ∷ starting n

heaph_touch-held :
    (pc : Pc) (m : Shared)
    → holds pc ≤ bit (m.global_lock)
    → holds ((heaph_touch pc m).0) + bit (m.global_lock)
      ≡ holds pc + bit ((heaph_touch pc m).1.global_lock)
unfolding heaph_touch heaph_lock heaph_unlock
heaph_touch-held loads m h = elim (Bool-cases (m.is_done)) [
  | inl e ↦ rw e (omega arith)
  | inr e ↦ rw e (omega arith)
]
heaph_touch-held spins m h = elim (Bool-cases (m.global_lock)) [
  | inl e ↦ rw e (omega arith)
  | inr e ↦ rw e (omega arith)
]
heaph_touch-held inits m h = omega arith
heaph_touch-held exchanges m h = omega arith
heaph_touch-held (unlocks old) m h = elim (Bool-cases (m.global_lock)) [
  | inl e ↦ rw e (omega arith)
  | inr e ↦ absurd (omega (arith, h, ap bit e))
]
heaph_touch-held (asserts true) m h = omega arith
heaph_touch-held (asserts false) m h = omega arith
heaph_touch-held touched m h = omega arith
heaph_touch-held aborted m h = omega arith

move-held :
    (i : ℕ) (pcs : List Pc) (m : Shared)
    → holders pcs ≤ bit (m.global_lock)
    → holders ((move i pcs m).0) + bit (m.global_lock)
      ≡ holders pcs + bit ((move i pcs m).1.global_lock)
unfolding move
move-held i [] m h = omega arith
move-held zero (pc ∷ pcs) m h = omega (arith, heaph_touch-held pc m (omega (arith, h)))
move-held (suc i) (pc ∷ pcs) m h = omega (arith, move-held i pcs m (omega (arith, h)))

schedule-held :
    (is : List ℕ) (pcs : List Pc) (m : Shared)
    → holders pcs ≡ bit (m.global_lock)
    → holders ((schedule is pcs m).0) ≡ bit ((schedule is pcs m).1.global_lock)
unfolding schedule
schedule-held [] pcs m h = h
schedule-held (i ∷ is) pcs m h =
    schedule-held is ((move i pcs m).0) ((move i pcs m).1)
      (omega (arith, h, move-held i pcs m (omega (arith, h))))

holders-starting : (n : ℕ) → holders (starting n) ≡ 0
holders-starting zero = refl
holders-starting (suc n) = omega (arith, holders-starting n)

bit-small : (b : Bool) → bit b ≤ 1
bit-small true = omega arith
bit-small false = omega arith

-- However the moves of any number of threads are ordered, at most one of them is between
-- `heaph_lock` and `heaph_unlock`, and while one is, the lock is taken: the `assert` of
-- `heaph_unlock` does not fail.
pub schedule-exclusive :
    (is : List ℕ) (n : ℕ)
    → (holders ((schedule is (starting n) untouched).0) ≤ 1)
      × (holders ((schedule is (starting n) untouched).0)
          ≡ bit ((schedule is (starting n) untouched).1.global_lock))
schedule-exclusive is n =
    let e = schedule-held is (starting n) untouched (holders-starting n) in
    (omega (arith, e, bit-small ((schedule is (starting n) untouched).1.global_lock)), e)

-- The moves of one thread in a row.
abbrev alone : ℕ → Pc → Shared → Pc × Shared
alone zero pc m = (pc, m)
alone (suc k) pc m = let (pc', m') = heaph_touch pc m in alone k pc' m'

abbrev pub times : ℕ → ℕ → List ℕ
times zero i = []
times (suc k) i = i ∷ times k i

move-at :
    (i : ℕ) (pcs : List Pc) (pc : Pc) (m : Shared)
    → get_elem? pcs i ≡ some pc
    → (get_elem? ((move i pcs m).0) i ≡ some ((heaph_touch pc m).0))
      × ((move i pcs m).1 ≡ (heaph_touch pc m).1)
unfolding move
move-at i [] pc m h = cc
move-at zero (x ∷ pcs) pc m h = let e = some-inj h in rw e (refl, refl)
move-at (suc i) (x ∷ pcs) pc m h = move-at i pcs pc m h

schedule-alone :
    (k i : ℕ) (pcs : List Pc) (pc : Pc) (m : Shared)
    → get_elem? pcs i ≡ some pc
    → (get_elem? ((schedule (times k i) pcs m).0) i ≡ some ((alone k pc m).0))
      × ((schedule (times k i) pcs m).1 ≡ (alone k pc m).1)
unfolding schedule
schedule-alone zero i pcs pc m h = (h, refl)
schedule-alone (suc k) i pcs pc m h =
    let (at, shared) = move-at i pcs pc m h in
    let (at', shared') =
      schedule-alone k i ((move i pcs m).0) ((heaph_touch pc m).0) ((move i pcs m).1) at in
    (
      at' ∙ ap (λ m'. some ((alone k ((heaph_touch pc m).0) m').0)) shared,
      shared' ∙ ap (λ m'. (alone k ((heaph_touch pc m).0) m').1) shared,
    )

alone-late :
    (m : Shared)
    → m.is_done ≡ true
    → m.global_lock ≡ false
    → ((alone 5 spins m).0 ≡ aborted) × ((alone 5 spins m).1.inited ≡ m.inited + 1)
unfolding heaph_touch heaph_lock heaph_unlock
alone-late m done unlocked = rw (unlocked, done) (refl, refl)

-- A thread that spins for the lock where another one has initialised the checker and left the lock, and
-- that makes the next five moves, no other thread moving in between, initialises the checker again and
-- fails the last `assert`, wherever the other threads are.
pub schedule-late :
    (i : ℕ) (pcs : List Pc) (m : Shared)
    → get_elem? pcs i ≡ some spins
    → m.is_done ≡ true
    → m.global_lock ≡ false
    → (get_elem? ((schedule (times 5 i) pcs m).0) i ≡ some aborted)
      × ((schedule (times 5 i) pcs m).1.inited ≡ m.inited + 1)
schedule-late i pcs m h done unlocked =
    let (at, shared) = schedule-alone 5 i pcs spins m h in
    let (last, inited) = alone-late m done unlocked in
    (at ∙ ap some last, ap (λ m'. m'.inited) shared ∙ inited)

abbrev pub IsLater : Pc → Type 0
IsLater loads = Unit
IsLater touched = Unit
IsLater _ = ⊥

heaph_touch-IsLater :
    (pc : Pc) (m : Shared)
    → m.is_done ≡ true
    → IsLater pc
    → IsLater ((heaph_touch pc m).0) × ((heaph_touch pc m).1 ≡ m)
unfolding heaph_touch
heaph_touch-IsLater loads m h l = rw h (tt, refl)
heaph_touch-IsLater touched m h l = (tt, refl)
heaph_touch-IsLater spins m h l = absurd l
heaph_touch-IsLater inits m h l = absurd l
heaph_touch-IsLater exchanges m h l = absurd l
heaph_touch-IsLater (unlocks b) m h l = absurd l
heaph_touch-IsLater (asserts b) m h l = absurd l
heaph_touch-IsLater aborted m h l = absurd l

move-IsLater :
    (i : ℕ) (pcs : List Pc) (m : Shared)
    → m.is_done ≡ true
    → All IsLater pcs
    → All IsLater ((move i pcs m).0) × ((move i pcs m).1 ≡ m)
unfolding move
move-IsLater i [] m h l = (tt, refl)
move-IsLater zero (pc ∷ pcs) m h l =
    let (later, same) = heaph_touch-IsLater pc m h l.0 in ((later, l.1), same)
move-IsLater (suc i) (pc ∷ pcs) m h l =
    let (later, same) = move-IsLater i pcs m h l.1 in ((l.0, later), same)

-- Where the checker is initialised and every thread starts its touch after that or is behind it, no
-- order of the moves initialises it again, takes the lock or fails an `assert`.
pub schedule-IsLater :
    (is : List ℕ) (pcs : List Pc) (m : Shared)
    → m.is_done ≡ true
    → All IsLater pcs
    → All IsLater ((schedule is pcs m).0) × ((schedule is pcs m).1 ≡ m)
unfolding schedule
schedule-IsLater [] pcs m h l = (l, refl)
schedule-IsLater (i ∷ is) pcs m h l =
    let (later, same) = move-IsLater i pcs m h l in
    let (later', same') =
      schedule-IsLater is ((move i pcs m).0) ((move i pcs m).1) (ap (λ m'. m'.is_done) same ∙ h)
        later in
    (later', same' ∙ same)
