-- ===== src/Sorter/Workers/Ends.antt =====
-- The wait of `main` of 1/solution/solution.c for its coroutines, in whatever order they move.
use mathlib.Core.Path.{subst}
use iu_sysprog.Prelude.{
  ℕ, zero, suc, ◌+◌, ◌*◌, ◌≤◌, ◌<◌, Bool, true, false, not, some, List, [], ◌∷◌, ◌≡◌, inl, inr,
  refl, ap, ◌∙◌, arith, ◌==◌, length, All, get_elem?, set, Bool-cases, some-inj, if◌then◌else◌, bit,
  Option-cases, length-set,
}
use iu_sysprog.Threads.Interleave.{sum}
use iu_sysprog.Sorter.Merge.{Cells}
use iu_sysprog.Sorter.Sorts.{me_mergesort-IsSorted}
use iu_sysprog.Sorter.Workers.{
  Pc, fetches, sorts, left, has_left, have_left, Shared, get_file, put, sorting, fetched,
  intermediate, resume, schedule, wait_all,
}

-- The moves that a coroutine has left where there is no more file.
abbrev pub left_of : Pc → ℕ
left_of fetches = 1
left_of (sorts i) = 2
left_of left = 0

-- The files from `i` on that were not taken, of `size`.
abbrev pub unprocessed : ℕ → ℕ → (ℕ → Bool) → ℕ
unprocessed zero i processed = 0
unprocessed (suc size) i processed = bit (not (processed i)) + unprocessed size (i + 1) processed

put-before :
    (size i j : ℕ) (processed : ℕ → Bool)
    → j < i
    → unprocessed size i (put processed j true) ≡ unprocessed size i processed
put-before zero i j processed l = refl
put-before (suc size) i j processed l =
    let ih = put-before size (i + 1) j processed (omega (arith, l)) in ground (arith, ih, l)

get_file-unprocessed :
    (size i j : ℕ) (processed : ℕ → Bool)
    → get_file size i processed ≡ some j
    → (i ≤ j) × (unprocessed size i (put processed j true) + 1 ≡ unprocessed size i processed)
unfolding get_file
get_file-unprocessed zero i j processed e = cc
get_file-unprocessed (suc size) i j processed e = elim (Bool-cases (processed i)) [
  | inl h ↦
      let e' : get_file size (i + 1) processed ≡ some j = ground (arith, e, h) in
      let (le, ih) = get_file-unprocessed size (i + 1) j processed e' in
      (omega (arith, le), ground (arith, h, ih, le))
  | inr h ↦
      let here : i ≡ j = ground (arith, e, h) in
      let ih = put-before size (i + 1) j processed (omega (arith, here)) in
      (omega (arith, here), ground (arith, h, ih, here))
]

sum-set :
    (pcs : List Pc) (k : ℕ) (pc pc' : Pc)
    → get_elem? pcs k ≡ some pc
    → sum left_of (set pcs k pc') + left_of pc ≡ sum left_of pcs + left_of pc'
sum-set [] k pc pc' e = cc
sum-set (x ∷ pcs) zero pc pc' e =
    let h : left_of x ≡ left_of pc = ap left_of (some-inj e) in omega (arith, h)
sum-set (x ∷ pcs) (suc k) pc pc' e = let h = sum-set pcs k pc pc' e in omega (arith, h)

none_left : (pcs : List Pc) → sum left_of pcs ≡ 0 → have_left pcs ≡ true
none_left [] h = refl
none_left (fetches ∷ pcs) h = absurd (omega (arith, h))
none_left (sorts i ∷ pcs) h = absurd (omega (arith, h))
none_left (left ∷ pcs) h = none_left pcs (omega (arith, h))

-- The coroutine at the place that is picked has not left.
abbrev pub Picks : (ℕ → List Pc → ℕ) → Type 0
Picks pick =
    (n : ℕ) (pcs : List Pc)
    → have_left pcs ≡ false
    → (pc : Pc) × (get_elem? pcs (pick n pcs) ≡ some pc) × (has_left pc ≡ false)

get_elem?-bound : (pcs : List Pc) (k : ℕ) {pc : Pc} → get_elem? pcs k ≡ some pc → k < length pcs
get_elem?-bound [] k e = cc
get_elem?-bound (x ∷ pcs) zero e = omega arith
get_elem?-bound (x ∷ pcs) (suc k) e = omega (arith, get_elem?-bound pcs k e)

module _ (clock : ℕ → ℕ) (size : ℕ) (contents : ℕ → Cells) where
  -- A coroutine that has not left has one move less to make, and takes no file from the others.
  record Spends (pc : Pc) (m : Shared) : Type 0 where
    after : Pc
    state : Shared
    moved : intermediate clock size contents pc m ≡ some (after, state)
    less :
        left_of after + 2 * unprocessed size 0 state.processed + 1
        ≡ left_of pc + 2 * unprocessed size 0 m.processed

  intermediate-Spends : (pc : Pc) (m : Shared) → has_left pc ≡ false → Spends pc m
  unfolding intermediate fetched
  intermediate-Spends left m h = cc
  intermediate-Spends (sorts i) m h =
      let (t, e, sorted, perm) = me_mergesort-IsSorted clock (sorting (m.numbers i)) in
      record {
        after = fetches;
        state = record m { numbers = λ j. if j == i then t.array else m.numbers j };
        moved = rw e refl;
        less = omega arith;
      }
  intermediate-Spends fetches m h = elim (Option-cases (get_file size 0 m.processed)) [
    | inl e ↦ record { after = left; state = m; moved = rw e refl; less = omega arith }
    | inr (i, e) ↦
        let (le, fewer) = get_file-unprocessed size 0 i m.processed e in
        record {
          after = sorts i;
          state = (fetched clock size contents (some i) m).1;
          moved = rw e refl;
          less = omega (arith, fewer);
        }
  ]

  -- A run to the end, and its schedule.
  pub record Runs (pick : ℕ → List Pc → ℕ) (n : ℕ) (pcs : List Pc) (m : Shared) : Type 0 where
    pub last : List Pc
    pub state : Shared
    pub waited : wait_all clock size contents pick n pcs m ≡ some (last, state)
    pub turns : List ℕ
    pub inside : All (λ k. k < length pcs) turns
    pub scheduled : schedule clock size contents turns pcs m ≡ some (last, state)
    pub all_left : have_left last ≡ true
    pub amount : length last ≡ length pcs

  stops_at :
      (pick : ℕ → List Pc → ℕ) (n : ℕ) (pcs : List Pc) (m : Shared)
      → have_left pcs ≡ true
      → wait_all clock size contents pick n pcs m ≡ some (pcs, m)
  unfolding wait_all
  stops_at pick zero pcs m h = rw h refl
  stops_at pick (suc n) pcs m h = rw h refl

  stops :
      (pick : ℕ → List Pc → ℕ) (n : ℕ) (pcs : List Pc) (m : Shared)
      → have_left pcs ≡ true
      → Runs pick n pcs m
  unfolding wait_all schedule
  stops pick n pcs m h = record {
    last = pcs;
    state = m;
    waited = stops_at pick n pcs m h;
    turns = [];
    inside = tt;
    scheduled = refl;
    all_left = h;
    amount = refl;
  }

  pub wait_all-Runs :
      (pick : ℕ → List Pc → ℕ) (picks : Picks pick) (n : ℕ) (pcs : List Pc) (m : Shared)
      → sum left_of pcs + 2 * unprocessed size 0 m.processed ≤ n
      → Runs pick n pcs m
  unfolding wait_all schedule resume
  wait_all-Runs pick picks zero pcs m le = stops pick zero pcs m (none_left pcs (omega (arith, le)))
  wait_all-Runs pick picks (suc n) pcs m le = elim (Bool-cases (have_left pcs)) [
    | inl h ↦ stops pick (suc n) pcs m h
    | inr h ↦
        let (pc, at, busy) = picks n pcs h in
        let s = intermediate-Spends pc m busy in
        let pcs' = set pcs (pick n pcs) s.after in
        let spent = sum-set pcs (pick n pcs) pc s.after at in
        let less = s.less in
        let r = wait_all-Runs pick picks n pcs' s.state (omega (arith, le, spent, less)) in
        record {
          last = r.last;
          state = r.state;
          waited = rw (h, at, s.moved) r.waited;
          turns = pick n pcs ∷ r.turns;
          inside = (
            get_elem?-bound pcs (pick n pcs) at,
            subst (λ l. All (λ k. k < l) r.turns) (length-set pcs (pick n pcs) s.after) r.inside,
          );
          scheduled = rw (at, s.moved) r.scheduled;
          all_left = r.all_left;
          amount = r.amount ∙ length-set pcs (pick n pcs) s.after;
        }
  ]
