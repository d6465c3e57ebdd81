-- ===== src/Shell/CharStack/Nodes/Refines.antt =====
-- The operations of 2/solution/stack.c on nodes of the heap against those on the list of characters.
use iu_sysprog.Prelude.{
  ℕ, zero, suc, ◌≤◌, none, some, List, [], ◌∷◌, ◌==◌, if◌then◌else◌, ◌≡◌, refl, sym, ◌∙◌, arith,
  length,
}
use iu_sysprog.Shell.CharStack.Nodes.{
  Pointer, Cell, Heap, load, free, Store, cs_push, pop_node, cs_pop, cs_free, Spells,
}

pub load-free :
    (a b : ℕ) (heap : Heap) → load b (free a heap) ≡ (if a == b then none else load b heap)
unfolding load free
load-free a b [] = ground arith
load-free a b ((x, node) ∷ heap) = let ih = load-free a b heap in ground (arith, ih)

load-free_same : (a : ℕ) (heap : Heap) → load a (free a heap) ≡ none
load-free_same a heap = let e = load-free a a heap in ground (arith, e)

load-free_of_none : (a b : ℕ) (heap : Heap) → load b heap ≡ none → load b (free a heap) ≡ none
load-free_of_none a b heap h = let e = load-free a b heap in ground (arith, e, h)

-- Heaps with the same nodes spell the same.
Spells-heap :
    (before heap heap' : Heap) (p : Pointer) (cs : List ℕ)
    → ((b : ℕ) → load b heap' ≡ load b heap)
    → Spells before heap p cs
    → Spells before heap' p cs
Spells-heap before heap heap' p [] same (e, h) = (e, λ b. same b ∙ h b)
Spells-heap before heap heap' p (c ∷ cs) same (a, next, e, l, fresh, rest) = (
  a,
  next,
  e,
  same a ∙ l,
  fresh,
  Spells-heap before (free a heap) (free a heap') next cs
      (λ b.
        let x = load-free a b heap in
        let y = load-free a b heap' in let z = same b in ground (arith, x, y, z))
      rest,
)

-- What is not allocated now was not allocated before.
Spells-fresh :
    (before heap : Heap) (p : Pointer) (cs : List ℕ) (b : ℕ)
    → Spells before heap p cs
    → load b heap ≡ none
    → load b before ≡ none
Spells-fresh before heap p [] b (e, h) n = sym (h b) ∙ n
Spells-fresh before heap p (c ∷ cs) b (a, next, e, l, fresh, rest) n =
    Spells-fresh before (free a heap) next cs b rest (load-free_of_none a b heap n)

-- What was allocated before is there, unchanged.
pub Spells-kept :
    (before heap : Heap) (p : Pointer) (cs : List ℕ) (b : ℕ) (node : Cell)
    → Spells before heap p cs
    → load b before ≡ some node
    → load b heap ≡ some node
Spells-kept before heap p [] b node (e, h) k = h b ∙ k
Spells-kept before heap p (c ∷ cs) b node (a, next, e, l, fresh, rest) k =
    let ih = Spells-kept before (free a heap) next cs b node rest k in
    let x = load-free a b heap in ground (arith, ih, x)

module _ (malloc : Heap → ℕ) (unused : (heap : Heap) → load (malloc heap) heap ≡ none) where
  load-push :
      (c b : ℕ) (s : Store)
      → load b (free (malloc s.heap) (cs_push malloc c s).heap) ≡ load b s.heap
  unfolding cs_push free
  load-push c b s =
      let x = load-free (malloc s.heap) b s.heap in let y = unused s.heap in ground (arith, x, y)

  pub cs_push-Spells :
      (before : Heap) (c : ℕ) (cs : List ℕ) (s : Store)
      → Spells before s.heap s.top cs
      → Spells before (cs_push malloc c s).heap (cs_push malloc c s).top (c ∷ cs)
  unfolding cs_push load
  cs_push-Spells before c cs s h = (
    malloc s.heap,
    s.top,
    refl,
    ground arith,
    Spells-fresh before s.heap s.top cs (malloc s.heap) h (unused s.heap),
    Spells-heap before s.heap (free (malloc s.heap) (cs_push malloc c s).heap) s.top cs
        (λ b. load-push c b s) h,
  )

pub cs_pop-Spells :
    (before : Heap) (c : ℕ) (cs : List ℕ) (s : Store)
    → Spells before s.heap s.top (c ∷ cs)
    → (s' : Store) × (cs_pop s ≡ some s') × Spells before s'.heap s'.top cs
unfolding cs_pop pop_node
cs_pop-Spells before c cs s (a, next, e, l, fresh, rest) =
    (record { heap = free a s.heap; top = next }, rw (e, l) refl, rest)

pub cs_free-Spells :
    (before : Heap) (cs : List ℕ) (n : ℕ) (s : Store)
    → length cs ≤ n
    → Spells before s.heap s.top cs
    → (s' : Store) × (cs_free n s ≡ some s') × Spells before s'.heap s'.top []
unfolding cs_free
cs_free-Spells before [] zero s le h = (s, rw h.0 refl, h)
cs_free-Spells before [] (suc n) s le h = (s, rw h.0 refl, h)
cs_free-Spells before (c ∷ cs) zero s le h = absurd (omega (arith, le))
cs_free-Spells before (c ∷ cs) (suc n) s le h =
    let (s1, e1, h1) = cs_pop-Spells before c cs s h in
    let (s', e', h') = cs_free-Spells before cs n s1 (omega (arith, le)) h1 in
    (s', rw (e1, h.2) e', h')
