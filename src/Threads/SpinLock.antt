-- ===== src/Threads/SpinLock.antt =====
-- lecture_examples/6_threads/7_spin_lock.c: a thread that gets the lock fills the string with its
-- letter, and one that does not get it gives up.
use iu_sysprog.Prelude.{
  bit, ℕ, zero, suc, ◌+◌, ◌%◌, ◌<◌, ◌≤◌, Bool, true, false, List, [], ◌∷◌, ◌==◌, ltb, if◌then◌else◌,
  ◌≡◌, refl, ap, arith, All, Bool-cases, inl, inr,
}
use iu_sysprog.Threads.Interleave.{
  Single, single, sum, interleave, Keeps, Kept, IsSound, interleave-IsSound,
}

-- The places of the thread with this id; `opens` is `main` before it sets `start`, and `writes` has
-- the index that comes next.
pub data Pc : Type 0 where
  opens : Pc
  awaits : ℕ → Pc
  tries : ℕ → Pc
  writes : ℕ → ℕ → Pc
  unlocks : ℕ → Pc
  returned : Pc

-- `struct complex_thing` and `start`.
pub record Thing : Type 0 where
  pub start : Bool
  pub lock : Bool
  pub string : ℕ → ℕ

-- `'a' + id` in a `char`.
abbrev pub letter : ℕ → ℕ
letter id = (97 + id) % 256

abbrev pub store : (ℕ → ℕ) → ℕ → ℕ → ℕ → ℕ
store string i c j = if j == i then c else string j

unfoldable pub try_lock : ℕ → Bool → Thing → Pc × Thing
try_lock id true m = (returned, m)
try_lock id false m = (writes id 0, record m { lock = true })

unfoldable pub thread_f : Pc → Thing → Pc × Thing
unfolding try_lock
thread_f opens m = (returned, record m { start = true })
thread_f (awaits id) m = (if m.start then tries id else awaits id, m)
thread_f (tries id) m = try_lock id m.lock m
thread_f (writes id i) m = (
  if ltb (i + 1) 127 then writes id (i + 1) else unlocks id,
  record m { string = store m.string i (letter id) },
)
thread_f (unlocks id) m = (returned, record m { lock = false })
thread_f returned m = (returned, m)

unfoldable pub created : ℕ → List Pc
created zero = []
created (suc n) = awaits n ∷ created n

-- `main` and its threads.
unfoldable pub main : List ℕ → ℕ → List Pc × Thing
unfolding interleave thread_f created
main is n =
    interleave thread_f is (opens ∷ created n)
      (record { start = false; lock = false; string = λ i. 0 })

-- A thread that has the lock.
abbrev pub holds : Pc → ℕ
holds (writes id i) = 1
holds (unlocks id) = 1
holds _ = 0

-- The first `i` cells have this byte.
abbrev pub Filled : ℕ → ℕ → Thing → Type 0
Filled i c m = (j : ℕ) → j < i → m.string j ≡ c

abbrev pub Knows : Pc → Thing → Type 0
Knows (writes id i) m = (i < 127) × Filled i (letter id) m
Knows (unlocks id) m = Filled 127 (letter id) m
Knows _ m = Unit

-- All cells before the last have the same byte.
abbrev pub IsUniform : Thing → Type 0
IsUniform m = (c : ℕ) × Filled 127 c m

abbrev pub nothing : Single → Pc → ℕ
nothing k pc = 0

abbrev pub none_done : Single → Thing → ℕ
none_done k m = 0

abbrev Keeping : ℕ → Pc → Thing → Pc → Thing → Type 0
Keeping x pc m pc' m' =
    Kept thread_f holds (λ m. bit m.lock) Knows IsUniform nothing none_done (λ k. 0) x pc m pc' m'

-- A thread without the lock knows nothing of the string.
unaware : (q : Pc) (m : Thing) → holds q ≤ 0 → Knows q m
unaware (writes id i) m l = absurd (omega (arith, l))
unaware (unlocks id) m l = absurd (omega (arith, l))
unaware opens m l = tt
unaware (awaits id) m l = tt
unaware (tries id) m l = tt
unaware returned m l = tt

opened : (q : Pc) (m : Thing) → Knows q m → Knows q (record m { start = true })
opened (writes id i) m h = h
opened (unlocks id) m h = h
opened opens m h = tt
opened (awaits id) m h = tt
opened (tries id) m h = tt
opened returned m h = tt

-- A move that leaves the lock and the string alone.
stays :
    (pc pc' : Pc) (x : ℕ) (m : Thing)
    → holds pc' ≡ holds pc
    → Knows pc' m
    → holds pc + x ≡ bit m.lock
    → bit m.lock ≤ 1
    → (bit m.lock ≡ 0 → IsUniform m)
    → Keeping x pc m pc' m
stays pc pc' x m same knows h o i = record {
  held = omega (arith, same, h);
  once = o;
  knows = knows;
  idle = i;
  amount = λ k. refl;
  spares = λ q l k. k;
}

started :
    (b : Bool) (id x : ℕ) (m : Thing)
    → 0 + x ≡ bit m.lock
    → bit m.lock ≤ 1
    → (bit m.lock ≡ 0 → IsUniform m)
    → Keeping x (awaits id) m (if b then tries id else awaits id) m
started true id x m h o i = stays (awaits id) (tries id) x m refl tt h o i
started false id x m h o i = stays (awaits id) (awaits id) x m refl tt h o i

tried :
    (b : Bool) (id x : ℕ) (m : Thing)
    → b ≡ m.lock
    → 0 + x ≡ bit m.lock
    → bit m.lock ≤ 1
    → (bit m.lock ≡ 0 → IsUniform m)
    → Keeping x (tries id) m ((try_lock id b m).0) ((try_lock id b m).1)
unfolding try_lock
tried true id x m e h o i = stays (tries id) returned x m refl tt h o i
tried false id x m e h o i =
    let none : x ≡ 0 = omega (arith, h, ap bit e) in
    record {
      held = omega (arith, none);
      once = omega arith;
      knows = (omega arith, λ j l. absurd (omega (arith, l)));
      idle = λ u. absurd (omega (arith, u));
      amount = λ k. refl;
      spares = λ q l k. unaware q (record m { lock = true }) (omega (arith, l, none));
    }

store-Filled :
    (i c : ℕ) (m : Thing)
    → Filled i c m
    → Filled (i + 1) c (record m { string = store m.string i c })
store-Filled i c m f j l = elim (Bool-cases (j == i)) [
  | inl e ↦ rw e refl
  | inr e ↦ rw e (f j (ground (arith, l, e)))
]

written :
    (b : Bool) (id i : ℕ) (m : Thing)
    → b ≡ ltb (i + 1) 127
    → i < 127
    → Filled (i + 1) (letter id) m
    → (holds (if b then writes id (i + 1) else unlocks id) ≡ 1)
      × Knows (if b then writes id (i + 1) else unlocks id) m
written true id i m e l f = (refl, (ground (arith, e), f))
written false id i m e l f = (refl, λ j k. f j (ground (arith, e, l, k)))

thread_f-Kept : Keeps thread_f holds (λ m. bit m.lock) Knows IsUniform nothing none_done (λ k. 0)
unfolding thread_f
thread_f-Kept opens m x h o n i a = record {
  held = h;
  once = o;
  knows = tt;
  idle = i;
  amount = λ k. refl;
  spares = λ q l k. opened q m k;
}
thread_f-Kept (awaits id) m x h o n i a = started (m.start) id x m h o i
thread_f-Kept (tries id) m x h o n i a = tried (m.lock) id x m refl h o i
thread_f-Kept (writes id j) m x h o n i a =
    let m' = record m { string = store m.string j (letter id) } in
    let none : x ≡ 0 = omega (arith, h, o) in
    let (held, knows) =
      written (ltb (j + 1) 127) id j m' refl n.0 (store-Filled j (letter id) m n.1) in
    record {
      held = omega (arith, held, h);
      once = o;
      knows = knows;
      idle = λ u. absurd (omega (arith, u, h));
      amount = λ k. refl;
      spares = λ q l k. unaware q m' (omega (arith, l, none));
    }
thread_f-Kept (unlocks id) m x h o n i a =
    let none : x ≡ 0 = omega (arith, h, o) in
    record {
      held = omega (arith, none);
      once = omega arith;
      knows = tt;
      idle = λ u. (letter id, n);
      amount = λ k. refl;
      spares = λ q l k. unaware q (record m { lock = false }) (omega (arith, l, none));
    }
thread_f-Kept returned m x h o n i a = stays returned returned x m refl tt h o i

created-sums :
    (n : ℕ) (m : Thing)
    → (sum holds (created n) ≡ 0)
      × (sum (nothing single) (created n) ≡ 0)
      × All (λ pc. Knows pc m) (created n)
unfolding created
created-sums zero m = (refl, refl, tt)
created-sums (suc n) m =
    let (held, rest, knows) = created-sums n m in
    (omega (arith, held), omega (arith, rest), (tt, knows))

main-IsSound :
    (is : List ℕ) (n : ℕ)
    → IsSound thread_f holds
        (λ m. bit m.lock)
        Knows
        IsUniform
        nothing
        none_done
        (λ k. 0)
        0
        (λ k. 0)
        ((main is n).0)
        ((main is n).1)
unfolding main
main-IsSound is n =
    let m : Thing = record { start = false; lock = false; string = λ i. 0 } in
    let (held, rest, knows) = created-sums n m in
    interleave-IsSound thread_f holds (λ m. bit m.lock) Knows IsUniform nothing none_done (λ k. 0)
      thread_f-Kept is (opens ∷ created n) m 0 (λ k. 0)
      (record {
        held = omega (arith, held);
        once = omega arith;
        knows = (tt, knows);
        idle = λ u. (0, λ j l. refl);
        amount = λ k. elim k [ single ↦ omega (arith, rest) ];
      })

sum-returned : (pcs : List Pc) → All (λ pc. pc ≡ returned) pcs → sum holds pcs ≡ 0
sum-returned [] h = refl
sum-returned (pc ∷ pcs) h = omega (arith, ap holds h.0, sum-returned pcs h.1)

-- However the moves of any number of threads are ordered, when all have returned, the cells of the
-- string before its last are all the same: no two threads wrote into it at once.
pub main-IsUniform :
    (is : List ℕ) (n : ℕ) → All (λ pc. pc ≡ returned) ((main is n).0) → IsUniform ((main is n).1)
main-IsUniform is n h =
    let s = main-IsSound is n in s.idle (omega (arith, s.held, sum-returned ((main is n).0) h))
