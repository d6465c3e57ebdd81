-- ===== src/Coro/Chain.antt =====
-- The list that the links of 1/solution/libcoro.c spell out, and what adding and deleting do to it.
use mathlib.Core.Path.{subst}
use iu_sysprog.Prelude.{
  ℕ, true, false, Option, none, some, List, [], ◌∷◌, ◌++◌, ◌==◌, ◌≡◌, refl, sym, ap, ◌∙◌, arith,
  All, All-append, All-split, Bool-cases, inl, inr,
}
use iu_sysprog.Coro.Store.{Heap, Store, set_next, set_prev, coro_list_add, coro_list_delete}

abbrev pub head_of : List ℕ → Option ℕ
head_of [] = none
head_of (x ∷ xs) = some x

-- The last place of a list, and what stands before the list where it is empty.
abbrev pub last_or : Option ℕ → List ℕ → Option ℕ
last_or before [] = before
last_or before (x ∷ xs) = last_or (some x) xs

abbrev pub Differs : Option ℕ → ℕ → Type 0
Differs none x = Unit
Differs (some y) x = (x == y) ≡ false

abbrev pub Distinct : List ℕ → Type 0
Distinct [] = Unit
Distinct (x ∷ xs) = All (Differs (some x)) xs × Distinct xs

abbrev pub Chain : Heap → Option ℕ → List ℕ → Type 0
Chain heap before [] = Unit
Chain heap before (x ∷ xs) =
    ((heap x).prev ≡ before) × ((heap x).next ≡ head_of xs) × Chain heap (some x) xs

-- The links of the store spell out the list `xs`.
pub record Lists (s : Store) (xs : List ℕ) : Type 0 where
  pub first : s.coro_list ≡ head_of xs
  pub links : Chain s.heap none xs
  pub distinct : Distinct xs

pub eq_refl : (x : ℕ) → (x == x) ≡ true
eq_refl x = ground arith

pub differs-sym : (x y : ℕ) → (x == y) ≡ false → (y == x) ≡ false
differs-sym x y h = ground (arith, h)

set_next-at : (h : Heap) (x : ℕ) (v : Option ℕ) → (set_next h (some x) v x).next ≡ v
unfolding set_next
set_next-at h x v = rw (eq_refl x) refl

set_prev-at : (h : Heap) (x : ℕ) (v : Option ℕ) → (set_prev h (some x) v x).prev ≡ v
unfolding set_prev
set_prev-at h x v = rw (eq_refl x) refl

set_next-other : (h : Heap) (to v : Option ℕ) (x : ℕ) → Differs to x → set_next h to v x ≡ h x
unfolding set_next
set_next-other h none v x d = refl
set_next-other h (some y) v x d = rw d refl

set_prev-other : (h : Heap) (to v : Option ℕ) (x : ℕ) → Differs to x → set_prev h to v x ≡ h x
unfolding set_prev
set_prev-other h none v x d = refl
set_prev-other h (some y) v x d = rw d refl

set_next-prev : (h : Heap) (to v : Option ℕ) (x : ℕ) → (set_next h to v x).prev ≡ (h x).prev
unfolding set_next
set_next-prev h none v x = refl
set_next-prev h (some y) v x = elim (Bool-cases (x == y)) [ inl e ↦ rw e refl | inr e ↦ rw e refl ]

set_prev-next : (h : Heap) (to v : Option ℕ) (x : ℕ) → (set_prev h to v x).next ≡ (h x).next
unfolding set_prev
set_prev-next h none v x = refl
set_prev-next h (some y) v x = elim (Bool-cases (x == y)) [ inl e ↦ rw e refl | inr e ↦ rw e refl ]

Chain-same :
    (h h' : Heap) (before : Option ℕ) (xs : List ℕ)
    → All (λ x. h' x ≡ h x) xs
    → Chain h before xs
    → Chain h' before xs
Chain-same h h' before [] a c = tt
Chain-same h h' before (x ∷ xs) a c =
    (ap (λ n. n.prev) a.0 ∙ c.0, ap (λ n. n.next) a.0 ∙ c.1, Chain-same h h' (some x) xs a.1 c.2)

set_next-Chain :
    (h : Heap) (to v before : Option ℕ) (xs : List ℕ)
    → All (Differs to) xs
    → Chain h before xs
    → Chain (set_next h to v) before xs
set_next-Chain h to v before [] d c = tt
set_next-Chain h to v before (x ∷ xs) d c =
    let e = set_next-other h to v x d.0 in
    (ap (λ n. n.prev) e ∙ c.0, ap (λ n. n.next) e ∙ c.1, set_next-Chain h to v (some x) xs d.1 c.2)

set_prev-Chain :
    (h : Heap) (to v before : Option ℕ) (xs : List ℕ)
    → All (Differs to) xs
    → Chain h before xs
    → Chain (set_prev h to v) before xs
set_prev-Chain h to v before [] d c = tt
set_prev-Chain h to v before (x ∷ xs) d c =
    let e = set_prev-other h to v x d.0 in
    (ap (λ n. n.prev) e ∙ c.0, ap (λ n. n.next) e ∙ c.1, set_prev-Chain h to v (some x) xs d.1 c.2)

Differs-nothing : (xs : List ℕ) → All (Differs none) xs
Differs-nothing [] = tt
Differs-nothing (x ∷ xs) = (tt, Differs-nothing xs)

-- The first place of a list gets a new place before it.
relinked :
    (h : Heap) (before v : Option ℕ) (xs : List ℕ)
    → Distinct xs
    → Chain h before xs
    → Chain (set_prev h (head_of xs) v) v xs
relinked h before v [] d c = tt
relinked h before v (x ∷ xs) d c = (
  set_prev-at h x v,
  set_prev-next h (some x) v x ∙ c.1,
  set_prev-Chain h (some x) v (some x) xs d.0 c.2,
)

head-Differs : (c : ℕ) (xs : List ℕ) → All (Differs (some c)) xs → Differs (head_of xs) c
head-Differs c [] d = tt
head-Differs c (x ∷ xs) d = differs-sym x c d.0

added-Chain :
    (c : ℕ) (h : Heap) (xs : List ℕ)
    → Distinct xs
    → Chain h none xs
    → All (Differs (some c)) xs
    → Chain
        (set_prev (set_prev (set_next h (some c) (head_of xs)) (some c) none) (head_of xs) (some c))
        none
        (c ∷ xs)
added-Chain c h xs distinct k d =
    let h1 = set_next h (some c) (head_of xs) in
    let h2 = set_prev h1 (some c) none in
    let links =
      set_prev-Chain h1 (some c) none none xs d
        (set_next-Chain h (some c) (head_of xs) none xs d k) in
    let other = set_prev-other h2 (head_of xs) (some c) c (head-Differs c xs d) in
    (
      ap (λ n. n.prev) other ∙ set_prev-at h1 c none,
      ap (λ n. n.next) other ∙ set_prev-next h1 (some c) none c ∙ set_next-at h c (head_of xs),
      relinked h2 none (some c) xs distinct links,
    )

-- A coroutine that is not on the list becomes its first.
pub coro_list_add-Lists :
    (c : ℕ) (s : Store) (xs : List ℕ)
    → Lists s xs
    → All (Differs (some c)) xs
    → Lists (coro_list_add c s) (c ∷ xs)
unfolding coro_list_add
coro_list_add-Lists c s xs l d = record {
  first = refl;
  links =
      subst
        (λ first.
          Chain (set_prev (set_prev (set_next s.heap (some c) first) (some c) none) first (some c))
            none (c ∷ xs))
        (sym l.first) (added-Chain c s.heap xs l.distinct l.links d);
  distinct = (d, l.distinct);
}

last-Differs :
    (x : ℕ) (before : Option ℕ) (l : List ℕ)
    → Differs before x
    → All (Differs (some x)) l
    → Differs (last_or before l) x
last-Differs x before [] b d = b
last-Differs x before (y ∷ l) b d = last-Differs x (some y) l (differs-sym y x d.0) d.1

-- The links round a coroutine on the list.
pub links_of :
    (h : Heap) (before : Option ℕ) (l r : List ℕ) (c : ℕ)
    → Chain h before (l ++ c ∷ r)
    → ((h c).prev ≡ last_or before l) × ((h c).next ≡ head_of r)
links_of h before [] r c k = (k.0, k.1)
links_of h before (x ∷ l) r c k = links_of h (some x) l r c k.2

abbrev bridged : Heap → Option ℕ → Option ℕ → Heap
bridged h before behind = set_prev (set_next h before behind) behind before

bridged-Chain :
    (h : Heap) (before : Option ℕ) (l r : List ℕ) (c : ℕ)
    → Chain h before (l ++ c ∷ r)
    → Distinct (l ++ c ∷ r)
    → All (Differs before) (l ++ c ∷ r)
    → Chain (bridged h (last_or before l) (head_of r)) before (l ++ r)
bridged-Chain h before [] r c k d b =
    relinked (set_next h before (head_of r)) (some c) before r d.1
      (set_next-Chain h before (head_of r) (some c) r b.1 k.2)
bridged-Chain h before (x ∷ []) r c k d b =
    let other =
      set_prev-other (set_next h (some x) (head_of r)) (head_of r) (some x) x
        (head-Differs x r d.0.1) in
    (
      ap (λ n. n.prev) other ∙ set_next-prev h (some x) (head_of r) x ∙ k.0,
      ap (λ n. n.next) other ∙ set_next-at h x (head_of r),
      bridged-Chain h (some x) [] r c k.2 d.1 d.0,
    )
bridged-Chain h before (x ∷ y ∷ l) r c k d b =
    let last = last_or (some y) l in
    let (apart, behind) = All-split (Differs (some x)) (y ∷ l) (c ∷ r) d.0 in
    let other =
      set_prev-other (set_next h last (head_of r)) (head_of r) last x (head-Differs x r behind.1) in
    (
      ap (λ n. n.prev) other ∙ set_next-prev h last (head_of r) x ∙ k.0,
      ap (λ n. n.next) other
          ∙ ap (λ n. n.next)
              (set_next-other h last (head_of r) x
                (last-Differs x (some y) l (differs-sym y x apart.0 ∙ refl) apart.1))
          ∙ k.1,
      bridged-Chain h (some x) (y ∷ l) r c k.2 d.1 d.0,
    )

kept-Distinct : (l r : List ℕ) (c : ℕ) → Distinct (l ++ c ∷ r) → Distinct (l ++ r)
kept-Distinct [] r c d = d.1
kept-Distinct (x ∷ l) r c d =
    let (apart, behind) = All-split (Differs (some x)) l (c ∷ r) d.0 in
    (All-append (Differs (some x)) l r apart behind.1, kept-Distinct l r c d.1)

last-some : (y : ℕ) (l : List ℕ) → (p : ℕ) × (last_or (some y) l ≡ some p)
last-some y [] = (y, refl)
last-some y (x ∷ l) = last-some x l

head-append :
    (l r : List ℕ) (c : ℕ) (first : Option ℕ)
    → first ≡ head_of (l ++ c ∷ r)
    → elim (last_or none l) [ none ↦ head_of r | some p ↦ first ] ≡ head_of (l ++ r)
head-append [] r c first e = refl
head-append (x ∷ []) r c first e = e
head-append (x ∷ y ∷ l) r c first e = let (p, found) = last-some y l in rw found e

-- Deleting a coroutine that is on the list, wherever it is, leaves the others in their order.
pub coro_list_delete-Lists :
    (c : ℕ) (s : Store) (l r : List ℕ)
    → Lists s (l ++ c ∷ r)
    → Lists (coro_list_delete c s) (l ++ r)
unfolding coro_list_delete
coro_list_delete-Lists c s l r k =
    let (prev, next) = links_of s.heap none l r c k.links in
    let chained =
      bridged-Chain s.heap none l r c k.links k.distinct (Differs-nothing (l ++ c ∷ r)) in
    record {
      first =
          subst (λ b. elim b [ none ↦ (s.heap c).next | some p ↦ s.coro_list ] ≡ head_of (l ++ r))
            (sym prev)
            (subst
              (λ b. elim (last_or none l) [ none ↦ b | some p ↦ s.coro_list ] ≡ head_of (l ++ r))
              (sym next) (head-append l r c s.coro_list k.first));
      links =
          subst (λ b. Chain (bridged s.heap b (s.heap c).next) none (l ++ r)) (sym prev)
            (subst (λ b. Chain (bridged s.heap (last_or none l) b) none (l ++ r)) (sym next)
              chained);
      distinct = kept-Distinct l r c k.distinct;
    }
