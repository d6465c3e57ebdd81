-- ===== src/Sorter/Sorted.antt =====
-- Ascending arrays, and the merge of two as a function of lists.
use mathlib.Core.List.{Perm, perm_middle}
use mathlib.Core.List.Perm
use mathlib.Core.List
use native.Mathlib.Bridge.{from_ℕ}
use iu_sysprog.Prelude.{
  suc, ◌+◌, ◌≡◌, true, false, refl, ap, sym, ◌∙◌, [], ◌∷◌, ◌++◌, length, All, arith, inl, inr,
  Bool-cases, append-nil,
}
use iu_sysprog.Prelude.Int.{ℤ, ltb_ℤ, ◌≤ℤ◌}
use iu_sysprog.Sorter.Merge.{Cells}

abbrev pub IsBelow : ℤ → Cells → Type 0
IsBelow x = All (λ y. x ≤ℤ y)

-- Each cell is at most every later one.
abbrev pub IsSorted : Cells → Type 0
IsSorted [] = Unit
IsSorted (x ∷ l) = IsBelow x l × IsSorted l

pub merged : Cells → Cells → Cells
merged [] r = r
merged (x ∷ l) [] = x ∷ l
merged (x ∷ l) (y ∷ r) = elim (ltb_ℤ x y) [
  | true ↦ x ∷ merged l (y ∷ r)
  | false ↦ y ∷ merged (x ∷ l) r
]

pub merged_left :
    (x y : ℤ) (l r : Cells) → ltb_ℤ x y ≡ true → merged (x ∷ l) (y ∷ r) ≡ x ∷ merged l (y ∷ r)
unfolding merged
merged_left x y l r h = rw (h, merged)

pub merged_right :
    (x y : ℤ) (l r : Cells) → ltb_ℤ x y ≡ false → merged (x ∷ l) (y ∷ r) ≡ y ∷ merged (x ∷ l) r
unfolding merged
merged_right x y l r h = rw (h, merged)

pub merged-nil : (l : Cells) → merged l [] ≡ l
unfolding merged
merged-nil [] = refl
merged-nil (x ∷ l) = refl

pub merged_nil_left : (r : Cells) → merged [] r ≡ r
unfolding merged
merged_nil_left r = refl

pub merged-perm : (l r : Cells) → Perm (merged l r) (l ++ r)
merged-perm [] r = rw merged_nil_left (Perm.refl r)
merged-perm (x ∷ l) [] = rw (merged-nil, append-nil) (Perm.refl (x ∷ l))
merged-perm (x ∷ l) (y ∷ r) = elim (Bool-cases (ltb_ℤ x y)) [
  | inl h ↦ rw (merged_left x y l r h) (Perm.cons x (merged-perm l (y ∷ r)))
  | inr h ↦
      rw (merged_right x y l r h)
        (Perm.trans (Perm.cons y (merged-perm (x ∷ l) r)) (Perm.symm (perm_middle (x ∷ l) r)))
]

pub merged-All : (P : ℤ → Type 0) (l r : Cells) → All P l → All P r → All P (merged l r)
merged-All P [] r hl hr = rw merged_nil_left hr
merged-All P (x ∷ l) [] hl hr = rw merged-nil hl
merged-All P (x ∷ l) (y ∷ r) hl hr = elim (Bool-cases (ltb_ℤ x y)) [
  | inl h ↦ rw (merged_left x y l r h) (hl.0, merged-All P l (y ∷ r) hl.1 hr)
  | inr h ↦ rw (merged_right x y l r h) (hr.0, merged-All P (x ∷ l) r hl hr.1)
]

pub length-merged : (l r : Cells) → length (merged l r) ≡ length l + length r
length-merged [] r = rw merged_nil_left (omega arith)
length-merged (x ∷ l) [] = rw merged-nil (omega arith)
length-merged (x ∷ l) (y ∷ r) = elim (Bool-cases (ltb_ℤ x y)) [
  | inl h ↦ rw (merged_left x y l r h) (omega (arith, length-merged l (y ∷ r)))
  | inr h ↦ rw (merged_right x y l r h) (omega (arith, length-merged (x ∷ l) r))
]

pub IsBelow-trans : (x y : ℤ) (l : Cells) → x ≤ℤ y → IsBelow y l → IsBelow x l
IsBelow-trans x y [] h k = tt
IsBelow-trans x y (z ∷ l) h k = (omega (arith, k.0), IsBelow-trans x y l h k.1)

pub merged-IsSorted : (l r : Cells) → IsSorted l → IsSorted r → IsSorted (merged l r)
merged-IsSorted [] r hl hr = rw merged_nil_left hr
merged-IsSorted (x ∷ l) [] hl hr = rw merged-nil hl
merged-IsSorted (x ∷ l) (y ∷ r) hl hr = elim (Bool-cases (ltb_ℤ x y)) [
  | inl h ↦
      let le : x ≤ℤ y = ground arith in
      rw (merged_left x y l r h) (
        merged-All (λ z. x ≤ℤ z) l (y ∷ r) hl.0 (le, IsBelow-trans x y r le hr.0),
        merged-IsSorted l (y ∷ r) hl.1 hr,
      )
  | inr h ↦
      let le : y ≤ℤ x = ground arith in
      rw (merged_right x y l r h) (
        merged-All (λ z. y ≤ℤ z) (x ∷ l) r (le, IsBelow-trans y x l le hl.0) hr.0,
        merged-IsSorted (x ∷ l) r hl hr.1,
      )
]

length-from_ℕ : (l : Cells) → length l ≡ from_ℕ (List.length l)
length-from_ℕ [] = refl
length-from_ℕ (x ∷ l) = ap suc (length-from_ℕ l)

pub length-perm : (l r : Cells) → Perm l r → length l ≡ length r
length-perm l r p = length-from_ℕ l ∙ ap from_ℕ (Perm.length-eq p) ∙ sym (length-from_ℕ r)
