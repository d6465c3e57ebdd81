-- ===== src/Sorter/Bag.antt =====
-- What the sort of 1/solution/solution.c promises: its output depends on the numbers of the files alone,
-- and not on their order, on the files that they stand in, or on the order in which the coroutines move.
use mathlib.Core.Path.{subst}
use mathlib.Core.Logic.{∥∥₁_elim}
use mathlib.Core.HLevel.{×_prop}
use mathlib.Core.List.{Perm, Permᴰ}
use mathlib.Core.List.Perm
use native.Mathlib.Nat.{ℕ_set}
use mathlib.Core.Quot
use mathlib.Core.Quot.{Quot}
use mathlib.Mathlib.Data.Multiset.Defs.{Multiset, of_list}
use native.Mathlib.Bridge.{le_prop}
use iu_sysprog.Prelude.{[], ◌∷◌, ◌≡◌, sym, ap, ◌∙◌, arith}
use iu_sysprog.Prelude.Int.{ℤ, pos, negsuc, ◌≤ℤ◌}
use iu_sysprog.Sorter.Merge.{Cells}
use iu_sysprog.Sorter.Sorted.{IsBelow, IsSorted, merged, merged-perm, merged-IsSorted}

IsBelow-prop : (x : ℤ) (l : Cells) → IsProp (IsBelow x l)
IsBelow-prop x [] = hlevel
IsBelow-prop x (y ∷ l) = ×_prop le_prop (IsBelow-prop x l)

IsBelow-Permᴰ : (x : ℤ) {l r : Cells} → Permᴰ l r → IsBelow x l → IsBelow x r
IsBelow-Permᴰ x Permᴰ.nil h = h
IsBelow-Permᴰ x (Permᴰ.cons e p) h = (subst (λ y. x ≤ℤ y) e h.0, IsBelow-Permᴰ x p h.1)
IsBelow-Permᴰ x (Permᴰ.swap e f) h =
    (subst (λ y. x ≤ℤ y) f h.1.0, (subst (λ y. x ≤ℤ y) e h.0, h.1.1))
IsBelow-Permᴰ x (Permᴰ.trans p q) h = IsBelow-Permᴰ x q (IsBelow-Permᴰ x p h)

IsBelow-Perm : (x : ℤ) (l r : Cells) → Perm l r → IsBelow x l → IsBelow x r
IsBelow-Perm x l r p h = ∥∥₁_elim p (IsBelow-prop x r) (λ d. IsBelow-Permᴰ x d h)

reflexive : (x : ℤ) → x ≤ℤ x
reflexive x = omega arith

antisym : (x y : ℤ) → x ≤ℤ y → y ≤ℤ x → x ≡ y
antisym (pos a) (pos b) h k = ap pos (omega (arith, h, k))
antisym (pos a) (negsuc b) h k = absurd (omega (arith, h, k))
antisym (negsuc a) (pos b) h k = absurd (omega (arith, h, k))
antisym (negsuc a) (negsuc b) h k = ap negsuc (omega (arith, h, k))

pub cells_set : IsSet Cells
cells_set = hlevel ℕ_set

-- Two ascending arrays of the same numbers are the same array.
sorted_unique : (l r : Cells) → IsSorted l → IsSorted r → Perm l r → l ≡ r
sorted_unique [] r hl hr p = Perm.nil-eq p
sorted_unique (x ∷ l) [] hl hr p = Perm.eq-nil p
sorted_unique (x ∷ l) (y ∷ r) hl hr p =
    let le : x ≤ℤ y = (IsBelow-Perm x (x ∷ l) (y ∷ r) p (reflexive x, hl.0)).0 in
    let ge : y ≤ℤ x = (IsBelow-Perm y (y ∷ r) (x ∷ l) (Perm.symm p) (reflexive y, hr.0)).0 in
    let e = antisym x y le ge in
    let rest =
      sorted_unique l r hl.1 hr.1 (Perm.cons_inv (subst (λ z. Perm (x ∷ l) (z ∷ r)) (sym e) p)) in
    ap (λ z. z ∷ l) e ∙ ap (◌∷◌ y) rest

-- The sort by insertion.
unfoldable pub insertion_sort : Cells → Cells
insertion_sort [] = []
insertion_sort (x ∷ l) = merged (x ∷ []) (insertion_sort l)

insertion_sort-IsSorted : (l : Cells) → IsSorted (insertion_sort l)
unfolding insertion_sort
insertion_sort-IsSorted [] = tt
insertion_sort-IsSorted (x ∷ l) =
    merged-IsSorted (x ∷ []) (insertion_sort l) (tt, tt) (insertion_sort-IsSorted l)

insertion_sort-perm : (l : Cells) → Perm (insertion_sort l) l
unfolding insertion_sort
insertion_sort-perm [] = Perm.nil
insertion_sort-perm (x ∷ l) =
    Perm.trans (merged-perm (x ∷ []) (insertion_sort l)) (Perm.cons x (insertion_sort-perm l))

pub insertion_sort-same : (l r : Cells) → Perm l r → insertion_sort l ≡ insertion_sort r
insertion_sort-same l r p =
    sorted_unique (insertion_sort l) (insertion_sort r) (insertion_sort-IsSorted l)
      (insertion_sort-IsSorted r)
      (Perm.trans (insertion_sort-perm l) (Perm.trans p (Perm.symm (insertion_sort-perm r))))

-- The ascending array of a bag of numbers.
unfoldable pub ascending : Multiset ℤ → Cells
ascending = Quot.lift cells_set insertion_sort insertion_sort-same

-- An ascending array of the numbers of a list is the one of its bag.
pub ascending_unique : (l r : Cells) → IsSorted l → Perm l r → l ≡ ascending (of_list r)
unfolding ascending
ascending_unique l r h p =
    sorted_unique l (insertion_sort r) h (insertion_sort-IsSorted r)
      (Perm.trans p (Perm.symm (insertion_sort-perm r)))
