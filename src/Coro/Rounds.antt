-- ===== src/Coro/Rounds.antt =====
-- Which coroutine 1/solution/libcoro.c goes on with, and which finished one it gives back, in terms
-- of the list that the links spell out.
use mathlib.Core.Path.{subst}
use iu_sysprog.Prelude.{
  ℕ, zero, suc, ◌+◌, true, false, Option, none, some, List, [], ◌∷◌, ◌++◌, ◌≡◌, ◌<◌, ◌==◌, arith,
  sym, refl, ap, ◌∙◌, length, length-append, All-split, if◌then◌else◌, All, Bool-cases, inl, inr,
}
use iu_sysprog.Prelude.Int.{ℤ}
use iu_sysprog.Coro.Store.{
  Coro, Heap, Store, coro_list_delete, fresh, coro_new, yields_to, finish, find_finished, Wait,
  over, returns, resumes, waits, wait_round, coro_sched_wait,
}
use iu_sysprog.Coro.Chain.{
  head_of, Chain, Distinct, links_of, eq_refl, differs-sym, Lists, Differs, coro_list_add-Lists,
  coro_list_delete-Lists,
}

-- On a list, every coroutine gives way to the one behind it, and the last one to the scheduler.
pub yields_to-Lists :
    (c : ℕ) (s : Store) (l r : List ℕ) → Lists s (l ++ c ∷ r) → yields_to c s ≡ head_of r
unfolding yields_to
yields_to-Lists c s l r k = (links_of s.heap none l r c k.links).1

abbrev pub IsWorking : Heap → ℕ → Type 0
IsWorking heap x = (heap x).is_finished ≡ false

-- The first finished coroutine of a list, and what stands round it.
pub data First (heap : Heap) : List ℕ → Option ℕ → Type 0 where
  nobody : {xs : List ℕ} → All (IsWorking heap) xs → First heap xs none
  found :
      (l r : List ℕ) (c : ℕ)
      → All (IsWorking heap) l
      → (heap c).is_finished ≡ true
      → First heap (l ++ c ∷ r) (some c)

later :
    (heap : Heap) (x : ℕ) {xs : List ℕ} {o : Option ℕ}
    → IsWorking heap x
    → First heap xs o
    → First heap (x ∷ xs) o
later heap x w (nobody a) = nobody (w, a)
later heap x w (found l r c a f) = found (x ∷ l) r c (w, a) f

find_finished-First :
    (heap : Heap) (before : Option ℕ) (xs : List ℕ) (fuel : ℕ)
    → Chain heap before xs
    → length xs < fuel
    → (o : Option ℕ) × (find_finished fuel heap (head_of xs) ≡ some o) × First heap xs o
unfolding find_finished
find_finished-First heap before xs zero k f = absurd (omega (arith, f))
find_finished-First heap before [] (suc fuel) k f = (none, refl, nobody tt)
find_finished-First heap before (x ∷ xs) (suc fuel) k f = elim (Bool-cases ((heap x).is_finished)) [
  | inl e ↦ (some x, rw e refl, found [] xs x tt e)
  | inr e ↦
      let (o, same, first) = find_finished-First heap (some x) xs fuel k.2 (omega (arith, f)) in
      (o, rw (e, k.1) same, later heap x e first)
]

-- A round of the scheduler on the list `xs`.
pub data Waits (s : Store) : List ℕ → Wait → Type 0 where
  waits_over : Waits s [] over
  waits_returns :
      (l r : List ℕ) (c : ℕ) (s' : Store)
      → All (IsWorking s.heap) l
      → (s.heap c).is_finished ≡ true
      → Lists s' (l ++ r)
      → Waits s (l ++ c ∷ r) (returns c s')
  waits_resumes :
      (x : ℕ) (xs : List ℕ) → All (IsWorking s.heap) (x ∷ xs) → Waits s (x ∷ xs) (resumes x)

waits-Waits :
    (s : Store) (x : ℕ) (xs ys : List ℕ) (o : Option ℕ)
    → ys ≡ x ∷ xs
    → Lists s ys
    → First s.heap ys o
    → Waits s ys (waits s o x)
waits-Waits s x xs ys o e k (nobody a) =
    subst (λ l. Waits s l (resumes x)) (sym e)
      (waits_resumes x xs (subst (λ l. All (IsWorking s.heap) l) e a))
waits-Waits s x xs ys o e k (found l r c a f) =
    waits_returns l r c (coro_list_delete c s) a f (coro_list_delete-Lists c s l r k)

pub coro_sched_wait-fuel :
    (fuel : ℕ) (s : Store) (xs : List ℕ)
    → length xs < fuel
    → Lists s xs
    → (w : Wait) × (coro_sched_wait fuel s ≡ some w) × Waits s xs w
unfolding coro_sched_wait wait_round
coro_sched_wait-fuel fuel s [] f k = (over, rw (k.first) refl, waits_over)
coro_sched_wait-fuel fuel s (x ∷ xs) f k =
    let (o, same, first) = find_finished-First s.heap none (x ∷ xs) fuel k.links f in
    (waits s o x, rw (k.first, same) refl, waits-Waits s x xs (x ∷ xs) o refl k first)

-- With fuel for the list, a round of coro_sched_wait ends: it returns NULL where the list is empty;
-- else it returns the first finished coroutine and takes it from the list; and only where none is
-- finished it resumes one, the first.
pub coro_sched_wait-Waits :
    (s : Store) (xs : List ℕ)
    → Lists s xs
    → (w : Wait) × (coro_sched_wait (length xs + 1) s ≡ some w) × Waits s xs w
coro_sched_wait-Waits s xs k = coro_sched_wait-fuel (length xs + 1) s xs (omega arith) k

pub Chain-links :
    (h h' : Heap) (before : Option ℕ) (xs : List ℕ)
    → All (λ x. ((h' x).prev ≡ (h x).prev) × ((h' x).next ≡ (h x).next)) xs
    → Chain h before xs
    → Chain h' before xs
Chain-links h h' before [] same k = tt
Chain-links h h' before (x ∷ xs) same k =
    (same.0.0 ∙ k.0, same.0.1 ∙ k.1, Chain-links h h' (some x) xs same.1 k.2)

-- What holds of every number holds of those of a list.
pub everywhere {ℓ} : {P : ℕ → Type ℓ} → ((x : ℕ) → P x) → (xs : List ℕ) → All P xs
everywhere h [] = tt
everywhere h (x ∷ xs) = (h x, everywhere h xs)

apart-links :
    (c : ℕ) (h : Heap) (n : Coro) (xs : List ℕ)
    → All (Differs (some c)) xs
    → All
        (λ x.
          ((if x == c then n else h x).prev ≡ (h x).prev)
          × ((if x == c then n else h x).next ≡ (h x).next))
        xs
apart-links c h n [] d = tt
apart-links c h n (x ∷ xs) d = (rw (d.0) (refl, refl), apart-links c h n xs d.1)

-- A new coroutine, in memory that no coroutine of the list has, becomes the first of the list.
pub coro_new-Lists :
    (c : ℕ) (s : Store) (xs : List ℕ)
    → Lists s xs
    → All (Differs (some c)) xs
    → Lists (coro_new c s) (c ∷ xs)
unfolding coro_new
coro_new-Lists c s xs k d =
    coro_list_add-Lists c (record s { heap = λ d'. if d' == c then fresh else s.heap d' }) xs
      (record {
        first = k.first;
        links =
            Chain-links s.heap (λ d'. if d' == c then fresh else s.heap d') none xs
              (apart-links c s.heap fresh xs d) k.links;
        distinct = k.distinct;
      })
      d

pub finish-links :
    (c : ℕ) (ret : ℤ) (s : Store) (x : ℕ)
    → (((finish c ret s).heap x).prev ≡ (s.heap x).prev)
      × (((finish c ret s).heap x).next ≡ (s.heap x).next)
unfolding finish
finish-links c ret s x = elim (Bool-cases (x == c)) [
  | inl e ↦ rw e (refl, refl)
  | inr e ↦ rw e (refl, refl)
]

finish-IsWorking :
    (c : ℕ) (ret : ℤ) (s : Store) (l r : List ℕ)
    → Distinct (l ++ c ∷ r)
    → All (IsWorking s.heap) l
    → All (IsWorking ((finish c ret s).heap)) l
unfolding finish
finish-IsWorking c ret s [] r d w = tt
finish-IsWorking c ret s (x ∷ l) r d w =
    let other = All-split (Differs (some x)) l (c ∷ r) d.0 in
    (rw (differs-sym c x (other.1.0)) (w.0), finish-IsWorking c ret s l r d.1 w.1)

finish-finished : (c : ℕ) (ret : ℤ) (s : Store) → ((finish c ret s).heap c).is_finished ≡ true
unfolding finish
finish-finished c ret s = rw (eq_refl c) refl

find_finished-there :
    (h : Heap) (before : Option ℕ) (l r : List ℕ) (c fuel : ℕ)
    → Chain h before (l ++ c ∷ r)
    → All (IsWorking h) l
    → (h c).is_finished ≡ true
    → length l < fuel
    → find_finished fuel h (head_of (l ++ c ∷ r)) ≡ some (some c)
unfolding find_finished
find_finished-there h before l r c zero k w e f = absurd (omega (arith, f))
find_finished-there h before [] r c (suc fuel) k w e f = rw e refl
find_finished-there h before (x ∷ l) r c (suc fuel) k w e f =
    rw (w.0, k.1) (find_finished-there h (some x) l r c fuel k.2 w.1 e (omega (arith, f)))

round-returns :
    (s : Store) (first : Option ℕ) (fuel c : ℕ)
    → find_finished fuel s.heap first ≡ some (some c)
    → wait_round fuel s first ≡ some (returns c (coro_list_delete c s))
unfolding wait_round find_finished
round-returns s none zero c f = cc
round-returns s none (suc fuel) c f = cc
round-returns s (some x) fuel c f = rw f refl

-- Finishing changes no link, and the next round of the scheduler takes the coroutine
-- from the list and returns it, where those before it still work.
pub finish-returned :
    (c : ℕ) (ret : ℤ) (s : Store) (l r : List ℕ)
    → Lists s (l ++ c ∷ r)
    → All (IsWorking s.heap) l
    → Lists (finish c ret s) (l ++ c ∷ r)
      × (coro_sched_wait (length (l ++ c ∷ r) + 1) (finish c ret s)
          ≡ some (returns c (coro_list_delete c (finish c ret s))))
unfolding finish coro_sched_wait
finish-returned c ret s l r k w =
    let s' = finish c ret s in
    let links =
      Chain-links s.heap s'.heap none (l ++ c ∷ r) (everywhere (finish-links c ret s) (l ++ c ∷ r))
        k.links in
    (
      record { first = k.first; links = links; distinct = k.distinct },
      ap (wait_round (length (l ++ c ∷ r) + 1) s') k.first
          ∙ round-returns s' (head_of (l ++ c ∷ r)) (length (l ++ c ∷ r) + 1) c (
              find_finished-there s'.heap none l r c (length (l ++ c ∷ r) + 1) links
                (finish-IsWorking c ret s l r k.distinct w) (finish-finished c ret s)
                (omega (arith, length-append l (c ∷ r)))),
    )
