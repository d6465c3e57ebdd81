-- ===== src/Sorter/Sorts.antt =====
-- `me_mergesort` ends, stays inside its array and sorts it.
use mathlib.Core.List.{Perm}
use mathlib.Core.List.Perm
use iu_sysprog.Prelude.{
  ℕ, zero, suc, ◌+◌, ◌-◌, ◌*◌, ◌≤◌, ◌<◌, ◌≡◌, refl, ap, ◌∙◌, Option, none, some, [], ◌∷◌, ◌>>=◌,
  leb, length, length-append, arith, inl, inr, Bool-cases,
}
use iu_sysprog.Sorter.Merge.{Cells}
use iu_sysprog.Sorter.Sorted.{IsSorted, length-perm}
use iu_sysprog.Sorter.MergeSort.{Sorting, yield_block, merge_pass, size_loop, me_mergesort}
use iu_sysprog.Sorter.Blocks.{Blocks, final, block, Passes, merge_pass-Passes}

-- Any array is made of sorted runs of one cell.
Blocks-one : (l : Cells) → Blocks 1 l
Blocks-one [] = final (omega arith) tt
Blocks-one (x ∷ l) = block (x ∷ []) l refl refl (tt, tt) (Blocks-one l)

Blocks-IsSorted : {c : ℕ} {l : Cells} → length l < c → Blocks c l → IsSorted l
Blocks-IsSorted h (final le so) = so
Blocks-IsSorted h (block run rest e n so b) =
    absurd (omega (arith, ap length e, length-append run rest))

abbrev Sorts : Cells → Option Sorting → Type 0
Sorts l none = ⊥
Sorts l (some t) = IsSorted t.array × Perm t.array l

module _ (clock : ℕ → ℕ) (rhs : ℕ) where
  yield_block_array : (s : Sorting) → (yield_block clock s).array ≡ s.array
  unfolding yield_block
  yield_block_array s = refl

  weaken : (l r : Cells) (o : Option Sorting) → Perm l r → Sorts l o → Sorts r o
  weaken l r none p h = h
  weaken l r (some t) p h = (h.0, Perm.trans h.1 p)

  after_pass :
      (fuel c : ℕ) (s : Sorting) (o : Option Sorting)
      → rhs ≡ length s.array
      → Passes (2 * c) [] s.array o
      → ((t : Sorting)
          → rhs ≡ length t.array
          → Blocks (2 * c) t.array
          → Sorts t.array (size_loop clock fuel (2 * c) rhs t))
      → Sorts s.array (o >>= λ s'. size_loop clock fuel (2 * c) rhs (yield_block clock s'))
  after_pass fuel c s none n p ih = absurd p
  after_pass fuel c s (some t) n p ih =
      let e = yield_block_array t ∙ p.splits in
      let t' = yield_block clock t in
      let perm : Perm t'.array s.array = rw e p.perm in
      weaken t'.array s.array (size_loop clock fuel (2 * c) rhs t') perm
        (ih t' (omega (arith, length-perm t'.array s.array perm)) (rw e p.runs))

  size_loop-Sorts :
      (fuel c : ℕ) (s : Sorting)
      → rhs ≡ length s.array
      → 0 < c
      → rhs + 1 - c < fuel
      → Blocks c s.array
      → Sorts s.array (size_loop clock fuel c rhs s)
  unfolding size_loop
  size_loop-Sorts zero c s n pos f b = absurd (omega arith)
  size_loop-Sorts (suc fuel) c s n pos f b = elim (Bool-cases (leb c rhs)) [
    | inl more ↦
        let le : c ≤ rhs = ground arith in
        rw more (
          after_pass fuel c s (merge_pass clock (rhs + 1) 0 c rhs s) n
            (merge_pass-Passes clock c rhs pos (rhs + 1) 0 [] s.array s
              (record { cells = refl; here = refl; bound = omega arith; fuelled = omega arith }) b)
            (λ t n' b'. size_loop-Sorts fuel (2 * c) t n' (omega arith) (omega arith) b'))
    | inr stop ↦ rw stop (Blocks-IsSorted (ground arith) b, Perm.refl s.array)
  ]

  IsSorted-some :
      (l : Cells) (o : Option Sorting)
      → Sorts l o
      → (t : Sorting) × ((o >>= λ s'. some (record s' { switch_count = s'.switches })) ≡ some t)
        × IsSorted t.array
        × Perm t.array l
  IsSorted-some l none h = absurd h
  IsSorted-some l (some t) h = (record t { switch_count = t.switches }, refl, h.0, h.1)

-- For every array and clock, the sort ends without an access outside the array, and leaves the
-- same cells in ascending order.
pub me_mergesort-IsSorted :
    (clock : ℕ → ℕ) (s : Sorting)
    → (t : Sorting) × (me_mergesort clock (length s.array) s ≡ some t)
      × IsSorted t.array
      × Perm t.array s.array
unfolding me_mergesort
me_mergesort-IsSorted clock s =
    let n = length s.array in
    IsSorted-some clock n s.array (size_loop clock (n + 1) 1 n s)
      (size_loop-Sorts clock n (n + 1) 1 s refl (omega arith) (omega arith) (Blocks-one s.array))
