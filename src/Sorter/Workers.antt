-- ===== src/Sorter/Workers.antt =====
-- `get_file` and `intermediate` of 1/solution/solution.c: the coroutines that share the files. A
-- move is the part of `intermediate` from `get_file` to the `coro_yield` behind the reading, or the
-- sorting, which gives way in between but whose array no other coroutine has. The coroutine that
-- moves is any; the times are in Sorter/MergeSort.
pub mod Kept
pub mod Safety
pub mod Ends
use iu_sysprog.Prelude.{
  ℕ, zero, suc, ◌+◌, Bool, true, false, not, ◌&&◌, Option, none, some, List, [], ◌∷◌, if◌then◌else◌,
  ◌>>=◌, ◌==◌, length, get_elem?, set,
}
use iu_sysprog.Sorter.Merge.{Cells}
use iu_sysprog.Sorter.MergeSort.{Sorting, me_mergesort}

-- Before `get_file`, before the sorting of a file, and behind the loop.
pub data Pc : Type 0 where
  fetches : Pc
  sorts : ℕ → Pc
  left : Pc

abbrev pub has_left : Pc → Bool
has_left left = true
has_left _ = false

abbrev pub have_left : List Pc → Bool
have_left [] = true
have_left (pc ∷ pcs) = has_left pc && have_left pcs

-- `processed` of each file, and the arrays.
pub record Shared : Type 0 where
  pub processed : ℕ → Bool
  pub numbers : ℕ → Cells

-- The files from `i` on, `size` of them.
unfoldable pub get_file : ℕ → ℕ → (ℕ → Bool) → Option ℕ
get_file zero i processed = none
get_file (suc size) i processed =
    let rest = get_file size (i + 1) processed in if not (processed i) then some i else rest

abbrev pub put {ℓ} : {A : Type ℓ} → (ℕ → A) → ℕ → A → ℕ → A
put f i v j = if j == i then v else f j

-- The array with a coroutine's times at 0.
abbrev pub sorting : Cells → Sorting
sorting array = record {
  array = array;
  t_invoked = 0;
  t_summary = 0;
  switch_count = 0;
  readings = 0;
  switches = 0;
}

-- `contents` is what `read_file` returns for each file.
module _ (clock : ℕ → ℕ) (size : ℕ) (contents : ℕ → Cells) where
  unfoldable pub fetched : Option ℕ → Shared → Pc × Shared
  fetched none m = (left, m)
  fetched (some i) m = (
    sorts i,
    record { processed = put m.processed i true; numbers = put m.numbers i (contents i) },
  )

  unfoldable pub intermediate : Pc → Shared → Option (Pc × Shared)
  unfolding get_file fetched me_mergesort
  intermediate fetches m = some (fetched (get_file size 0 m.processed) m)
  intermediate (sorts i) m =
      me_mergesort clock (length (m.numbers i)) (sorting (m.numbers i)) >>= λ s.
      some (fetches, record m { numbers = put m.numbers i s.array })
  intermediate left m = some (left, m)

  -- The coroutine at place `k` moves.
  unfoldable pub resume : ℕ → List Pc → Shared → Option (List Pc × Shared)
  unfolding intermediate
  resume k pcs m =
      get_elem? pcs k >>= λ pc. intermediate pc m >>= λ (pc', m'). some (set pcs k pc', m')

  -- The moves of a schedule.
  unfoldable pub schedule : List ℕ → List Pc → Shared → Option (List Pc × Shared)
  unfolding resume
  schedule [] pcs m = some (pcs, m)
  schedule (k ∷ ks) pcs m = resume k pcs m >>= λ (pcs', m'). schedule ks pcs' m'

  -- `main` until `coro_sched_wait` returns NULL, in so many moves at most: `pick` names the coroutine
  -- that moves, from the moves that are left and from where the coroutines stand.
  module _ (pick : ℕ → List Pc → ℕ) where
    unfoldable pub wait_all : ℕ → List Pc → Shared → Option (List Pc × Shared)
    unfolding resume
    wait_all zero pcs m = if have_left pcs then some (pcs, m) else none
    wait_all (suc n) pcs m =
        let rest = resume (pick n pcs) pcs m >>= λ (pcs', m'). wait_all n pcs' m' in
        if have_left pcs then some (pcs, m) else rest
