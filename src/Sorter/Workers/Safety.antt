-- ===== src/Sorter/Workers/Safety.antt =====
-- What the coroutines of 1/solution/solution.c do to the files, in whatever order they move.
use mathlib.Core.List.{Perm}
use mathlib.Core.Path.{subst}
use iu_sysprog.Prelude.{
  ℕ, zero, suc, ◌<◌, Bool, true, false, Option, none, some, List, [], ◌∷◌, ◌≡◌, ◌⊎◌, inl, inr, refl,
  sym, ap, ◌∙◌, arith, ◌==◌, length, All, get_elem?, set, length-set, Bool-cases, some-inj,
}
use iu_sysprog.Sorter.Merge.{Cells}
use iu_sysprog.Sorter.Sorted.{IsSorted}
use iu_sysprog.Sorter.Sorts.{me_mergesort-IsSorted}
use iu_sysprog.Sorter.Workers.{
  Pc, fetches, sorts, left, Shared, get_file, put, sorting, fetched, intermediate, resume, schedule,
}
use iu_sysprog.Sorter.Workers.Kept.{
  Held, Inv, Kept, Kept-Inv, fetched-Kept, sorts-Kept, get_file-none,
}

-- A coroutine has left only where every file was taken.
abbrev pub Swept : ℕ → List Pc → Shared → Type 0
Swept size pcs m = (k i : ℕ) → get_elem? pcs k ≡ some left → i < size → m.processed i ≡ true

get_elem?-set :
    (k j : ℕ) (pcs : List Pc) (pc : Pc)
    → get_elem? (set pcs k pc) j ≡ some left
    → (pc ≡ left) ⊎ (get_elem? pcs j ≡ some left)
get_elem?-set k j [] pc e = inr e
get_elem?-set zero zero (x ∷ pcs) pc e = inl (some-inj e)
get_elem?-set zero (suc j) (x ∷ pcs) pc e = inr e
get_elem?-set (suc k) zero (x ∷ pcs) pc e = inr e
get_elem?-set (suc k) (suc j) (x ∷ pcs) pc e = get_elem?-set k j pcs pc e

put-true : (p : ℕ → Bool) (j i : ℕ) → p i ≡ true → put p j true i ≡ true
put-true p j i e = elim (Bool-cases (i == j)) [ inl h ↦ rw h refl | inr h ↦ rw h e ]

get_elem?-inside :
    (pcs : List Pc) (k : ℕ) → k < length pcs → (pc : Pc) × (get_elem? pcs k ≡ some pc)
get_elem?-inside [] k h = absurd (omega (arith, h))
get_elem?-inside (x ∷ pcs) zero h = (x, refl)
get_elem?-inside (x ∷ pcs) (suc k) h = get_elem?-inside pcs k (omega (arith, h))

pub record Safe (size : ℕ) (contents : ℕ → Cells) (pcs : List Pc) (m : Shared) : Type 0 where
  pub inv : Inv contents pcs m
  pub swept : Swept size pcs m

module _ (clock : ℕ → ℕ) (size : ℕ) (contents : ℕ → Cells) where
  -- A move is one that the invariants outlive.
  record Moves (m : Shared) (pc : Pc) (o : Option (Pc × Shared)) : Type 0 where
    after : Pc
    state : Shared
    moved : o ≡ some (after, state)
    kept : Kept contents m pc after state
    grows : (i : ℕ) → m.processed i ≡ true → state.processed i ≡ true
    last : after ≡ left → (pc ≡ left) ⊎ ((i : ℕ) → i < size → state.processed i ≡ true)

  fetched-Moves :
      (o : Option ℕ) (m : Shared)
      → (o ≡ none → (i : ℕ) → i < size → m.processed i ≡ true)
      → Moves m fetches (some (fetched clock size contents o m))
  unfolding fetched
  fetched-Moves none m h = record {
    after = left;
    state = m;
    moved = refl;
    kept = fetched-Kept clock size contents none m;
    grows = λ i p. p;
    last = λ e. inr (h refl);
  }
  fetched-Moves (some j) m h = record {
    after = sorts j;
    state = (fetched clock size contents (some j) m).1;
    moved = refl;
    kept = fetched-Kept clock size contents (some j) m;
    grows = λ i p. put-true m.processed j i p;
    last = λ e. cc;
  }

  intermediate-Moves :
      (pc : Pc) (m : Shared)
      → ((i : ℕ) → m.processed i ≡ true → Perm (m.numbers i) (contents i))
      → Moves m pc (intermediate clock size contents pc m)
  unfolding intermediate
  intermediate-Moves fetches m h =
      fetched-Moves (get_file size 0 m.processed) m
        (λ e i l. get_file-none size 0 i m.processed e (omega arith) (omega (arith, l)))
  intermediate-Moves (sorts j) m h =
      let (t, e, sorted, perm) = me_mergesort-IsSorted clock (sorting (m.numbers j)) in
      record {
        after = fetches;
        state = record m { numbers = put m.numbers j t.array };
        moved = rw e refl;
        kept = sorts-Kept clock size contents j m t.array sorted perm h;
        grows = λ i p. p;
        last = λ e'. cc;
      }
  intermediate-Moves left m h = record {
    after = left;
    state = m;
    moved = refl;
    kept = λ i p. inr (p, refl, λ e. cc);
    grows = λ i p. p;
    last = λ e. inl refl;
  }

  resume-Safe :
      (k : ℕ) (pcs : List Pc) (m : Shared)
      → k < length pcs
      → Safe size contents pcs m
      → (pcs' : List Pc) × (m' : Shared) × (resume clock size contents k pcs m ≡ some (pcs', m'))
        × Safe size contents pcs' m'
        × (length pcs' ≡ length pcs)
  unfolding resume
  resume-Safe k pcs m h s =
      let (pc, e) = get_elem?-inside pcs k h in
      let v = intermediate-Moves pc m (λ i p. (s.inv i p).0) in
      (
        set pcs k v.after,
        v.state,
        rw (e, v.moved) refl,
        record {
          inv = Kept-Inv contents k pcs pc v.after m v.state e v.kept s.inv;
          swept = λ j i l b. elim (get_elem?-set k j pcs v.after l) [
            | inr before ↦ v.grows i (s.swept j i before b)
            | inl now ↦ elim (v.last now) [
              | inr all ↦ all i b
              | inl was ↦ v.grows i (s.swept k i (e ∙ ap some was) b)
            ]
          ];
        },
        length-set pcs k v.after,
      )

  schedule-Safe :
      (ks : List ℕ) (pcs : List Pc) (m : Shared)
      → All (λ k. k < length pcs) ks
      → Safe size contents pcs m
      → (pcs' : List Pc) × (m' : Shared) × (schedule clock size contents ks pcs m ≡ some (pcs', m'))
        × Safe size contents pcs' m'
  unfolding schedule
  schedule-Safe [] pcs m h s = (pcs, m, refl, s)
  schedule-Safe (k ∷ ks) pcs m h s =
      let (pcs1, m1, e1, s1, same) = resume-Safe k pcs m h.0 s in
      let (pcs2, m2, e2, s2) =
        schedule-Safe ks pcs1 m1 (subst (λ n. All (λ k'. k' < n) ks) (sym same) h.1) s1 in
      (pcs2, m2, rw e1 e2, s2)

abbrev pub starting : ℕ → List Pc
starting zero = []
starting (suc n) = fetches ∷ starting n

abbrev pub unread : Shared
unread = record { processed = λ i. false; numbers = λ i. [] }

pub length-starting : (n : ℕ) → length (starting n) ≡ n
length-starting zero = refl
length-starting (suc n) = ap suc (length-starting n)

starting-left : (n k : ℕ) → get_elem? (starting n) k ≡ some left → ⊥
starting-left zero k e = cc
starting-left (suc n) zero e = cc
starting-left (suc n) (suc k) e = starting-left n k e

Held-left : (i : ℕ) (pcs : List Pc) → All (λ pc. pc ≡ left) pcs → Held i pcs → ⊥
Held-left i [] h held = held
Held-left i (pc ∷ pcs) h (inl e) = cc
Held-left i (pc ∷ pcs) h (inr held) = Held-left i pcs h.1 held

starting-Safe : (size : ℕ) (contents : ℕ → Cells) (n : ℕ) → Safe size contents (starting n) unread
starting-Safe size contents n = record {
  inv = λ i e. cc;
  swept = λ k i e l. absurd (starting-left n k e);
}

-- Any number of coroutines, in whatever order they move, go on without an access outside an array.
pub schedule-total :
    (clock : ℕ → ℕ) (size : ℕ) (contents : ℕ → Cells) (n : ℕ) (ks : List ℕ)
    → All (λ k. k < n) ks
    → (pcs : List Pc) × (m : Shared) × (schedule clock size contents ks (starting n) unread
        ≡ some (pcs, m))
schedule-total clock size contents n ks h =
    let (pcs, m, e, s) =
      schedule-Safe clock size contents ks (starting n) unread
        (subst (λ l. All (λ k. k < l) ks) (sym (length-starting n)) h)
        (starting-Safe size contents n) in
    (pcs, m, e)

-- When all coroutines, one at least, have left the loop, the array of each file holds the numbers of
-- that file in ascending order, in whatever order the coroutines moved.
pub schedule-IsSorted :
    (clock : ℕ → ℕ) (size : ℕ) (contents : ℕ → Cells) (n : ℕ) (ks : List ℕ) (pcs : List Pc)
    (m : Shared) (i : ℕ)
    → All (λ k. k < n) ks
    → schedule clock size contents ks (starting n) unread ≡ some (left ∷ pcs, m)
    → All (λ pc. pc ≡ left) pcs
    → i < size
    → IsSorted (m.numbers i) × Perm (m.numbers i) (contents i)
schedule-IsSorted clock size contents n ks pcs m i h e all l =
    let (pcs', m', e', s') =
      schedule-Safe clock size contents ks (starting n) unread
        (subst (λ b. All (λ k. k < b) ks) (sym (length-starting n)) h)
        (starting-Safe size contents n) in
    let same = some-inj (sym e' ∙ e) in
    let s = subst (λ w. Safe size contents w.0 w.1) same s' in
    let (perm, rest) = s.inv i (s.swept 0 i refl l) in
    elim rest [
      | inl sorted ↦ (sorted, perm)
      | inr held ↦ absurd (Held-left i (left ∷ pcs) (refl, all) held)
    ]
