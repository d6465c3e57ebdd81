-- ===== src/Shell/CharStack/Nodes/Readings.antt =====
-- The loops of 2/solution/stack.c that walk along the nodes.
use mathlib.Core.List.{reverse_aux}
use iu_sysprog.Prelude.{ℕ, zero, suc, ◌≤◌, none, some, List, [], ◌∷◌, ◌≡◌, refl, ap, arith, length}
use iu_sysprog.Shell.CharStack.Nodes.{
  Pointer, Cell, char_node, Heap, load, free, Store, cs_push, reverse_loop, count_loop, copy_loop,
  cs_splice, Spells,
}
use iu_sysprog.Shell.CharStack.Nodes.Refines.{load-free, Spells-kept, cs_push-Spells}

-- The nodes from `p` on can be read and carry these characters.
abbrev pub Reads : Heap → Pointer → List ℕ → Type 0
Reads heap p [] = p ≡ none
Reads heap p (c ∷ cs) =
    (a : ℕ) × (next : Pointer) × (p ≡ some a)
    × (load a heap ≡ some (char_node c next))
    × Reads heap next cs

pub Reads-heap :
    (heap heap' : Heap) (p : Pointer) (cs : List ℕ)
    → ((b : ℕ) (node : Cell) → load b heap ≡ some node → load b heap' ≡ some node)
    → Reads heap p cs
    → Reads heap' p cs
Reads-heap heap heap' p [] kept h = h
Reads-heap heap heap' p (c ∷ cs) kept (a, next, e, l, rest) =
    (a, next, e, kept a (char_node c next) l, Reads-heap heap heap' next cs kept rest)

pub Spells-Reads :
    (before heap : Heap) (p : Pointer) (cs : List ℕ) → Spells before heap p cs → Reads heap p cs
Spells-Reads before heap p [] h = h.0
Spells-Reads before heap p (c ∷ cs) (a, next, e, l, fresh, rest) = (
  a,
  next,
  e,
  l,
  Reads-heap (free a heap) heap next cs
      (λ b node k. let x = load-free a b heap in ground (arith, x, k))
      (Spells-Reads before (free a heap) next cs rest),
)

pub count_loop-length :
    (heap : Heap) (p : Pointer) (cs : List ℕ) (n : ℕ)
    → length cs ≤ n
    → Reads heap p cs
    → count_loop n p heap ≡ some (length cs)
unfolding count_loop
count_loop-length heap p [] zero le h = rw h refl
count_loop-length heap p [] (suc n) le h = rw h refl
count_loop-length heap p (c ∷ cs) zero le h = absurd (omega (arith, le))
count_loop-length heap p (c ∷ cs) (suc n) le (a, next, e, l, rest) =
    let ih = count_loop-length heap next cs n (omega (arith, le)) rest in
    rw (e, l, ih) (ap some (omega arith))

pub copy_loop-length :
    (heap : Heap) (p : Pointer) (cs : List ℕ)
    → Reads heap p cs
    → copy_loop (length cs) p heap ≡ some cs
unfolding copy_loop
copy_loop-length heap p [] h = refl
copy_loop-length heap p (c ∷ cs) (a, next, e, l, rest) =
    rw (e, l, copy_loop-length heap next cs rest) refl

pub splice-Reads :
    (heap : Heap) (p : Pointer) (cs : List ℕ) (n : ℕ)
    → length cs ≤ n
    → Reads heap p cs
    → cs_splice n (record { heap = heap; top = p }) ≡ some cs
unfolding cs_splice
splice-Reads heap p cs n le h =
    rw (count_loop-length heap p cs n le h) (copy_loop-length heap p cs h)

module _ (malloc : Heap → ℕ) (unused : (heap : Heap) → load (malloc heap) heap ≡ none) where
  pub reverse_loop-Spells :
      (before : Heap) (p : Pointer) (cs ds : List ℕ) (n : ℕ) (temp : Store)
      → length cs ≤ n
      → Reads before p cs
      → Spells before temp.heap temp.top ds
      → (s : Store) × (reverse_loop malloc n p temp ≡ some s)
        × Spells before s.heap s.top (reverse_aux cs ds)
  unfolding reverse_loop
  reverse_loop-Spells before p [] ds zero temp le r h = (temp, rw r refl, h)
  reverse_loop-Spells before p [] ds (suc n) temp le r h = (temp, rw r refl, h)
  reverse_loop-Spells before p (c ∷ cs) ds zero temp le r h = absurd (omega (arith, le))
  reverse_loop-Spells before p (c ∷ cs) ds (suc n) temp le (a, next, e, l, rest) h =
      let k = Spells-kept before temp.heap temp.top ds a (char_node c next) h l in
      let (s, e', h') =
        reverse_loop-Spells before next cs (c ∷ ds) n (cs_push malloc c temp) (omega (arith, le))
          rest (cs_push-Spells malloc unused before c ds temp h) in
      (s, rw (e, k) e', h')
