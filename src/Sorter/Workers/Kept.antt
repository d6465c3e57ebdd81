-- ===== src/Sorter/Workers/Kept.antt =====
-- What one move of a coroutine of 1/solution/solution.c does to the files that others hold.
use mathlib.Core.List.{Perm}
use mathlib.Core.List.Perm
use mathlib.Core.Path.{subst}
use iu_sysprog.Prelude.{
  ℕ, zero, suc, ◌+◌, ◌<◌, ◌≤◌, Bool, true, false, not, Option, none, some, List, [], ◌∷◌, ◌≡◌, ◌⊎◌,
  inl, inr, refl, sym, ap, ◌∙◌, arith, if◌then◌else◌, ◌==◌, get_elem?, set, Bool-cases, some-inj,
  ==_iff,
}
use iu_sysprog.Sorter.Merge.{Cells}
use iu_sysprog.Sorter.Sorted.{IsSorted}
use iu_sysprog.Sorter.Workers.{Pc, fetches, sorts, Shared, get_file, put, fetched}

-- A coroutine is about to sort file `i`.
abbrev pub Held : ℕ → List Pc → Type 0
Held i [] = ⊥
Held i (pc ∷ pcs) = (pc ≡ sorts i) ⊎ Held i pcs

-- The array of each file that was taken holds its numbers, in order or in the hands of a coroutine.
abbrev pub Inv : (ℕ → Cells) → List Pc → Shared → Type 0
Inv contents pcs m =
    (i : ℕ)
    → m.processed i ≡ true
    → Perm (m.numbers i) (contents i) × (IsSorted (m.numbers i) ⊎ Held i pcs)

Held-other :
    (i k : ℕ) (pcs : List Pc) (pc pc' : Pc)
    → get_elem? pcs k ≡ some pc
    → Held i pcs
    → (pc ≡ sorts i) ⊎ Held i (set pcs k pc')
Held-other i k [] pc pc' e h = absurd h
Held-other i zero (x ∷ pcs) pc pc' e (inl h) = inl (sym (some-inj e) ∙ h)
Held-other i zero (x ∷ pcs) pc pc' e (inr h) = inr (inr h)
Held-other i (suc k) (x ∷ pcs) pc pc' e (inl h) = inr (inl h)
Held-other i (suc k) (x ∷ pcs) pc pc' e (inr h) = elim (Held-other i k pcs pc pc' e h) [
  | inl same ↦ inl same
  | inr held ↦ inr (inr held)
]

Held-set :
    (i k : ℕ) (pcs : List Pc) (pc : Pc) → get_elem? pcs k ≡ some pc → Held i (set pcs k (sorts i))
Held-set i k [] pc e = cc
Held-set i zero (x ∷ pcs) pc e = inl refl
Held-set i (suc k) (x ∷ pcs) pc e = inr (Held-set i k pcs pc e)

-- What a move has to give for the invariant to stay: the arrays that it leaves alone stay held,
-- unless the coroutine held them.
abbrev pub Kept : (ℕ → Cells) → Shared → Pc → Pc → Shared → Type 0
Kept contents m pc pc' m' =
    (i : ℕ)
    → m'.processed i ≡ true
    → (Perm (m'.numbers i) (contents i) × (IsSorted (m'.numbers i) ⊎ (pc' ≡ sorts i)))
      ⊎ ((m.processed i ≡ true) × (m'.numbers i ≡ m.numbers i) × ((pc ≡ sorts i) → ⊥))

pub Kept-Inv :
    (contents : ℕ → Cells) (k : ℕ) (pcs : List Pc) (pc pc' : Pc) (m m' : Shared)
    → get_elem? pcs k ≡ some pc
    → Kept contents m pc pc' m'
    → Inv contents pcs m
    → Inv contents (set pcs k pc') m'
Kept-Inv contents k pcs pc pc' m m' e kept inv i p = elim (kept i p) [
  | inl (perm, inl s) ↦ (perm, inl s)
  | inl (perm, inr same) ↦ (perm, inr (rw same (Held-set i k pcs pc e)))
  | inr (before, same, free) ↦ elim ((inv i before).1) [
    | inl s ↦ rw same ((inv i before).0, inl s)
    | inr h ↦ elim (Held-other i k pcs pc pc' e h) [
      | inl mine ↦ absurd (free mine)
      | inr held ↦ rw same ((inv i before).0, inr held)
    ]
  ]
]

put-other {ℓ} :
    {A : Type ℓ} (f : ℕ → A) (j : ℕ) (v : A) (i : ℕ) → (i == j) ≡ false → put f j v i ≡ f i
put-other f j v i e = rw e refl

sorts-inj : {i j : ℕ} → sorts i ≡ sorts j → i ≡ j
sorts-inj e = cc

not_same : (j i : ℕ) → (i == j) ≡ false → j ≡ i → ⊥
not_same j i e same = ground (arith, e, same)

passed :
    (b : Bool) (o : Option ℕ) (i : ℕ)
    → (if not b then some i else o) ≡ none
    → (b ≡ true) × (o ≡ none)
passed true o i e = (refl, e)
passed false o i e = cc

pub get_file-none :
    (size i j : ℕ) (processed : ℕ → Bool)
    → get_file size i processed ≡ none
    → i ≤ j
    → j < i + size
    → processed j ≡ true
unfolding get_file
get_file-none zero i j p e l h = absurd (omega (arith, l, h))
get_file-none (suc size) i j p e l h =
    let (taken, rest) = passed (p i) (get_file size (i + 1) p) i e in
    elim (Bool-cases (j == i)) [
      | inl same ↦ rw ((==_iff j i).0 same) taken
      | inr other ↦
          get_file-none size (i + 1) j p rest (ground (arith, other, l)) (omega (arith, h))
    ]

module _ (clock : ℕ → ℕ) (size : ℕ) (contents : ℕ → Cells) where
  pub fetched-Kept :
      (o : Option ℕ) (m : Shared)
      → Kept contents m fetches
          ((fetched clock size contents o m).0)
          ((fetched clock size contents o m).1)
  unfolding fetched
  fetched-Kept none m i p = inr (p, refl, λ e. cc)
  fetched-Kept (some j) m i p = elim (Bool-cases (i == j)) [
    | inl e ↦
        let same = (==_iff i j).0 e in
        inl (
          rw e (subst (λ x. Perm (contents x) (contents i)) same (Perm.refl (contents i))),
          inr (ap sorts (sym same)),
        )
    | inr e ↦ inr (sym (put-other m.processed j true i e) ∙ p, rw e refl, λ e. cc)
  ]

  pub sorts-Kept :
      (j : ℕ) (m : Shared) (s : Cells)
      → IsSorted s
      → Perm s (m.numbers j)
      → ((i : ℕ) → m.processed i ≡ true → Perm (m.numbers i) (contents i))
      → Kept contents m (sorts j) fetches (record m { numbers = put m.numbers j s })
  sorts-Kept j m s sorted perm all i p = elim (Bool-cases (i == j)) [
    | inl e ↦
        let same = (==_iff i j).0 e in
        inl (
          rw e (Perm.trans perm (subst (λ x. Perm (m.numbers x) (contents i)) same (all i p))),
          inl (rw e sorted),
        )
    | inr e ↦ inr (p, rw e refl, λ e'. not_same j i e (sorts-inj e'))
  ]
