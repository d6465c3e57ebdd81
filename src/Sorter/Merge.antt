-- ===== src/Sorter/Merge.antt =====
-- `me_merge` of 1/solution/solution.c. An array is the list of its cells; `none` is an access out
-- of its bounds. The counters `i` and `j` are the suffixes of the two copies that are left.
use iu_sysprog.Prelude.{
  ℕ, zero, suc, ◌+◌, ◌-◌, Option, none, some, List, [], ◌∷◌, if◌then◌else◌, ◌>>=◌, ltb, length,
  get_elem?, set,
}
use iu_sysprog.Prelude.Int.{ℤ, ltb_ℤ}

abbrev pub Cells : Type 0
Cells = List ℤ

-- `array[k] = v`
unfoldable pub write_cell : Cells → ℕ → ℤ → Option Cells
write_cell array k v = if ltb k (length array) then some (set array k v) else none

-- A `for` that copies `n` cells from place `k` on.
unfoldable pub copy_cells : ℕ → ℕ → Cells → Option Cells
copy_cells zero k array = some []
copy_cells (suc n) k array =
    get_elem? array k >>= λ x. copy_cells n (k + 1) array >>= λ xs. some (x ∷ xs)

-- The locals of the merge: what is left of `larr` and `rarr`, `k` and the array.
pub record Merging : Type 0 where
  pub larr : Cells
  pub rarr : Cells
  pub k : ℕ
  pub array : Cells

abbrev pub merging : Cells → Cells → ℕ → Cells → Merging
merging larr rarr k array = record { larr = larr; rarr = rarr; k = k; array = array }

-- `while (i < lsize && j < rsize)`
unfoldable pub merge_both : Cells → Cells → ℕ → Cells → Option Merging
unfolding write_cell
merge_both [] rarr k array = some (merging [] rarr k array)
merge_both (x ∷ larr) [] k array = some (merging (x ∷ larr) [] k array)
merge_both (x ∷ larr) (y ∷ rarr) k array =
    if ltb_ℤ x y
    then (write_cell array k x >>= λ array'. merge_both larr (y ∷ rarr) (k + 1) array')
    else (write_cell array k y >>= λ array'. merge_both (x ∷ larr) rarr (k + 1) array')

-- `while (i < lsize)` and `while (j < rsize)`: the next place and the array.
unfoldable pub drain : Cells → ℕ → Cells → Option (ℕ × Cells)
unfolding write_cell
drain [] k array = some (k, array)
drain (x ∷ xs) k array = write_cell array k x >>= λ array'. drain xs (k + 1) array'

unfoldable pub me_merge : Cells → ℕ → ℕ → ℕ → Option Cells
unfolding copy_cells merge_both drain
me_merge array lhs mid rhs = copy_cells (mid + 1 - lhs) lhs array >>= λ larr.
    copy_cells (rhs - mid) (mid + 1) array >>= λ rarr. merge_both larr rarr lhs array >>= λ m.
    drain m.larr m.k m.array >>= λ (k, array').
    drain m.rarr k array' >>= λ (k', array''). some array''
