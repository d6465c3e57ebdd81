-- ===== src/Sorter/Program.antt =====
-- The end of `main` of 1/solution/solution.c: the arrays of all files are merged into the output.
use mathlib.Core.List.{Perm}
use mathlib.Core.List.Perm
use mathlib.Core.Path.{subst}
use iu_sysprog.Prelude.{
  ℕ, zero, suc, ◌+◌, ◌<◌, Option, some, List, [], ◌∷◌, ◌≡◌, refl, sym, ap, ◌∙◌, arith, All,
}
use mathlib.Mathlib.Data.Multiset.Defs.{of_list}
use iu_sysprog.Sorter.Merge.{Cells}
use iu_sysprog.Sorter.Bag.{ascending, ascending_unique}
use iu_sysprog.Sorter.Sorted.{IsSorted}
use iu_sysprog.Sorter.Output.{Rows, write_result_to_file}
use iu_sysprog.Sorter.Scans.{flat, AreSorted}
use iu_sysprog.Sorter.Merges.{write_result_to_file-IsSorted}
use iu_sysprog.Sorter.Workers.{Pc, left, Shared, schedule}
use iu_sysprog.Sorter.Workers.Safety.{starting, unread, schedule-IsSorted}

-- The arrays of `size` files from `i` on.
unfoldable pub arrays : ℕ → ℕ → (ℕ → Cells) → Rows
arrays zero i numbers = []
arrays (suc size) i numbers = numbers i ∷ arrays size (i + 1) numbers

-- What `main` writes from the arrays of its files.
unfoldable pub output : ℕ → Shared → Option Cells
unfolding arrays write_result_to_file
output size m = write_result_to_file (arrays size 0 m.numbers)

arrays-AreSorted :
    (size i : ℕ) (numbers contents : ℕ → Cells)
    → ((j : ℕ) → j < i + size → IsSorted (numbers j) × Perm (numbers j) (contents j))
    → AreSorted (arrays size i numbers)
      × Perm (flat (arrays size i numbers)) (flat (arrays size i contents))
unfolding arrays
arrays-AreSorted zero i numbers contents h = (tt, Perm.refl [])
arrays-AreSorted (suc size) i numbers contents h =
    let (sorted, perm) = h i (omega arith) in
    let (rest, perms) =
      arrays-AreSorted size (i + 1) numbers contents (λ j l. h j (omega (arith, l))) in
    ((sorted, rest), Perm.append perm perms)

written :
    (x : Cells) (rows : Rows)
    → (x ≡ [] → ⊥)
    → AreSorted (x ∷ rows)
    → (file : Cells) × (write_result_to_file (x ∷ rows) ≡ some file)
      × IsSorted file
      × Perm file (flat (x ∷ rows))
written [] rows h s = absurd (h refl)
written (y ∷ row) rows h s = write_result_to_file-IsSorted y row rows s

-- When all coroutines, one at least, have left the loop, in whatever order they moved, and the first
-- file holds a number, the output is written to its end, and holds the numbers of all files in
-- ascending order.
pub output-IsSorted :
    (clock : ℕ → ℕ) (size : ℕ) (contents : ℕ → Cells) (n : ℕ) (ks : List ℕ) (pcs : List Pc)
    (m : Shared)
    → All (λ k. k < n) ks
    → schedule clock (suc size) contents ks (starting n) unread ≡ some (left ∷ pcs, m)
    → All (λ pc. pc ≡ left) pcs
    → (contents 0 ≡ [] → ⊥)
    → (file : Cells) × (output (suc size) m ≡ some file)
      × IsSorted file
      × Perm file (flat (arrays (suc size) 0 contents))
unfolding output arrays
output-IsSorted clock size contents n ks pcs m h e all some_number =
    let each = λ (i : ℕ) (l : i < suc size).
      schedule-IsSorted clock (suc size) contents n ks pcs m i h e all l in
    let (sorted, perm) =
      arrays-AreSorted (suc size) 0 m.numbers contents (λ i l. each i (omega (arith, l))) in
    let (file, wrote, ascending, same) =
      written (m.numbers 0) (arrays size 1 m.numbers)
        (λ none_left. some_number (
          sym
            (Perm.nil-eq (subst (λ x. Perm x (contents 0)) none_left ((each 0 (omega arith)).1)))))
        sorted in
    (file, wrote, ascending, Perm.trans same perm)

-- In whatever order the coroutines moved, and for any clock: when all of them, one at least, have left
-- the loop, and the first file holds a number, the output is the ascending array of the bag of the
-- numbers of all files.
pub output-ascending :
    (clock : ℕ → ℕ) (size : ℕ) (contents : ℕ → Cells) (n : ℕ) (ks : List ℕ) (pcs : List Pc)
    (m : Shared)
    → All (λ k. k < n) ks
    → schedule clock (suc size) contents ks (starting n) unread ≡ some (left ∷ pcs, m)
    → All (λ pc. pc ≡ left) pcs
    → (contents 0 ≡ [] → ⊥)
    → output (suc size) m ≡ some (ascending (of_list (flat (arrays (suc size) 0 contents))))
output-ascending clock size contents n ks pcs m h e all some_number =
    let (file, wrote, sorted, perm) =
      output-IsSorted clock size contents n ks pcs m h e all some_number in
    wrote ∙ ap some (ascending_unique file (flat (arrays (suc size) 0 contents)) sorted perm)
