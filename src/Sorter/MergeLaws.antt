-- ===== src/Sorter/MergeLaws.antt =====
-- `me_merge` stays inside its array, and merges the two runs in place.
use iu_sysprog.Prelude.{
  ℕ, suc, ◌+◌, ◌-◌, ◌≡◌, true, refl, ap, Option, some, List, [], ◌∷◌, ◌++◌, ◌>>=◌, ltb, length,
  length-append, get_elem?, set, arith, inl, inr, Bool-cases, append_assoc,
}
use iu_sysprog.Prelude.Int.{ℤ, ltb_ℤ}
use iu_sysprog.Sorter.Merge.{Cells, write_cell, copy_cells, merge_both, drain, me_merge}
use iu_sysprog.Sorter.Sorted.{merged, merged_left, merged_right, merged-nil, merged_nil_left}

get_elem?-append {ℓ} :
    {A : Type ℓ} (pre : List A) (x : A) (post : List A)
    → get_elem? (pre ++ x ∷ post) (length pre) ≡ some x
get_elem?-append [] x post = refl
get_elem?-append (y ∷ pre) x post = get_elem?-append pre x post

set-append {ℓ} :
    {A : Type ℓ} (pre : List A) (x v : A) (post : List A)
    → set (pre ++ x ∷ post) (length pre) v ≡ pre ++ v ∷ post
set-append [] x v post = refl
set-append (y ∷ pre) x v post = ap (◌∷◌ y) (set-append pre x v post)

write_cell-append :
    (pre : Cells) (x v : ℤ) (post : Cells) (k : ℕ)
    → k ≡ length pre
    → write_cell (pre ++ x ∷ post) k v ≡ some (pre ++ v ∷ post)
unfolding write_cell
write_cell-append pre x v post k e =
    let inside : ltb (length pre) (length (pre ++ x ∷ post)) ≡ true =
      let n = length-append pre (x ∷ post) in ground (arith, n) in
    rw (e, inside, set-append)

copy_cells-append :
    (pre run post : Cells) (k : ℕ)
    → k ≡ length pre
    → copy_cells (length run) k (pre ++ (run ++ post)) ≡ some run
unfolding copy_cells
copy_cells-append pre [] post k e = refl
copy_cells-append pre (x ∷ run) post k e =
    let k' : k + 1 ≡ length (pre ++ x ∷ []) = omega (arith, length-append pre (x ∷ [])) in
    let rest = copy_cells-append (pre ++ x ∷ []) run post (k + 1) k' in
    let got = rw (← e) at (get_elem?-append pre x (run ++ post)) in
    rw got (rw (rw append_assoc at rest))

-- The cells that the loops write over.
drain-append :
    (xs pre stale post : Cells) (k : ℕ)
    → k ≡ length pre
    → length stale ≡ length xs
    → drain xs k (pre ++ (stale ++ post)) ≡ some (k + length xs, pre ++ (xs ++ post))
unfolding drain
drain-append [] pre [] post k e n = let e' : k + 0 ≡ k = omega arith in rw e'
drain-append [] pre (s ∷ stale) post k e n = absurd (omega arith)
drain-append (x ∷ xs) pre [] post k e n = absurd (omega arith)
drain-append (x ∷ xs) pre (s ∷ stale) post k e n =
    let k' : k + 1 ≡ length (pre ++ x ∷ []) = omega (arith, length-append pre (x ∷ [])) in
    let total : k + 1 + length xs ≡ k + suc (length xs) = omega arith in
    let rest = drain-append xs (pre ++ x ∷ []) stale post (k + 1) k' (omega arith) in
    rw (write_cell-append pre s x (stale ++ post) k e) (
      rw (append_assoc pre (x ∷ []) (stale ++ post), append_assoc pre (x ∷ []) (xs ++ post), total)
        at rest)

drain_nil : (k : ℕ) (array : Cells) → drain [] k array ≡ some (k, array)
unfolding drain
drain_nil k array = refl

-- The three loops, one behind the other.
merge_loops : Cells → Cells → ℕ → Cells → Option Cells
merge_loops l r k array = merge_both l r k array >>= λ m.
    drain m.larr m.k m.array >>= λ (k, array').
    drain m.rarr k array' >>= λ (k', array''). some array''

merge_loops-merged :
    (l r pre stale post : Cells) (k : ℕ)
    → k ≡ length pre
    → length stale ≡ length l + length r
    → merge_loops l r k (pre ++ (stale ++ post)) ≡ some (pre ++ (merged l r ++ post))
unfolding merge_loops merge_both
merge_loops-merged [] r pre stale post k e n =
    let whole = drain-append r pre stale post k e (omega arith) in
    rw (drain_nil, merged_nil_left) (rw whole)
merge_loops-merged (x ∷ l) [] pre stale post k e n =
    let whole = drain-append (x ∷ l) pre stale post k e (omega arith) in
    rw (whole, merged-nil) (rw drain_nil)
merge_loops-merged (x ∷ l) (y ∷ r) pre [] post k e n = absurd (omega arith)
merge_loops-merged (x ∷ l) (y ∷ r) pre (s ∷ stale) post k e n = elim (Bool-cases (ltb_ℤ x y)) [
  | inl h ↦
      let k' : k + 1 ≡ length (pre ++ x ∷ []) = omega (arith, length-append pre (x ∷ [])) in
      let rest = merge_loops-merged l (y ∷ r) (pre ++ x ∷ []) stale post (k + 1) k' (omega arith) in
      rw (h, write_cell-append pre s x (stale ++ post) k e, merged_left x y l r h)
        (rw
          (
            append_assoc pre (x ∷ []) (stale ++ post),
            append_assoc pre (x ∷ []) (merged l (y ∷ r) ++ post),
          )
          at rest)
  | inr h ↦
      let k' : k + 1 ≡ length (pre ++ y ∷ []) = omega (arith, length-append pre (y ∷ [])) in
      let rest = merge_loops-merged (x ∷ l) r (pre ++ y ∷ []) stale post (k + 1) k' (omega arith) in
      rw (h, write_cell-append pre s y (stale ++ post) k e, merged_right x y l r h)
        (rw
          (
            append_assoc pre (y ∷ []) (stale ++ post),
            append_assoc pre (y ∷ []) (merged (x ∷ l) r ++ post),
          )
          at rest)
]

-- Two neighbouring runs of an array, the second possibly empty, become their merge, and the other
-- cells stay as they are. No access is outside the array.
pub me_merge-merged :
    (pre l r post : Cells) (lhs mid rhs : ℕ)
    → lhs ≡ length pre
    → mid + 1 ≡ lhs + length l
    → rhs ≡ mid + length r
    → me_merge (pre ++ (l ++ (r ++ post))) lhs mid rhs ≡ some (pre ++ (merged l r ++ post))
unfolding me_merge merge_loops
me_merge-merged pre l r post lhs mid rhs e f g =
    let lsize : mid + 1 - lhs ≡ length l = omega arith in
    let rsize : rhs - mid ≡ length r = omega arith in
    let second : mid + 1 ≡ length (pre ++ l) = omega (arith, length-append pre l) in
    let larr = copy_cells-append pre l (r ++ post) lhs e in
    let rarr = rw append_assoc at (copy_cells-append (pre ++ l) r post (mid + 1) second) in
    let loops = merge_loops-merged l r pre (l ++ r) post lhs e (length-append l r) in
    rw (lsize, rsize, larr, rarr) (rw append_assoc at loops)
