-- ===== src/Shell/CharStack/Nodes/Runs.antt =====
-- Sequences of operations of 2/solution/stack.c, on nodes of the heap and on the list of characters.
use mathlib.Core.List.{reverse, reverse_aux}
use mathlib.Core.Path.{subst}
use iu_sysprog.Prelude.{
  some-inj, ℕ, ◌+◌, ◌≤◌, Option, none, some, List, [], ◌∷◌, ◌>>=◌, ◌≡◌, ◌≢◌, refl, sym, ap, ◌∙◌,
  arith, length,
}
use iu_sysprog.Shell.CharStack
use iu_sysprog.Shell.CharStack.Laws.{cs_splice-top, cs_reverse-top}
use iu_sysprog.Shell.CharStack.Nodes
use iu_sysprog.Shell.CharStack.Nodes.{Heap, Pointer, Store, load, Spells}
use iu_sysprog.Shell.CharStack.Nodes.Refines.{
  Spells-kept, cs_push-Spells, cs_pop-Spells, cs_free-Spells,
}
use iu_sysprog.Shell.CharStack.Nodes.Readings.{
  Reads-heap, Spells-Reads, splice-Reads, reverse_loop-Spells,
}

pub data Op : Type 0 where
  push : ℕ → Op
  pop : Op

unfoldable pub on_list : List Op → CharStack.CharStack → Option CharStack.CharStack
on_list [] stack = some stack
on_list (push c ∷ ops) stack = on_list ops (CharStack.cs_push stack c).0
on_list (pop ∷ ops) stack = CharStack.cs_pop stack >>= on_list ops

unfoldable pub on_nodes : (Heap → ℕ) → List Op → Store → Option Store
on_nodes malloc [] s = some s
on_nodes malloc (push c ∷ ops) s = on_nodes malloc ops (Nodes.cs_push malloc c s)
on_nodes malloc (pop ∷ ops) s = Nodes.cs_pop s >>= on_nodes malloc ops

length-reverse_aux : (xs ys : List ℕ) → length (reverse_aux xs ys) ≡ length xs + length ys
length-reverse_aux [] ys = omega arith
length-reverse_aux (x ∷ xs) ys = omega (arith, length-reverse_aux xs (x ∷ ys))

module _ (malloc : Heap → ℕ) (unused : (heap : Heap) → load (malloc heap) heap ≡ none) where
  on_nodes-Spells :
      (before : Heap) (ops : List Op) (cs : List ℕ) (s : Store) (stack : CharStack.CharStack)
      → on_list ops (record { top = cs }) ≡ some stack
      → Spells before s.heap s.top cs
      → (s' : Store) × (on_nodes malloc ops s ≡ some s') × Spells before s'.heap s'.top stack.top
  unfolding on_list on_nodes CharStack.cs_push CharStack.cs_pop
  on_nodes-Spells before [] cs s stack e h = (
    s,
    refl,
    subst (λ (o : CharStack.CharStack). Spells before s.heap s.top o.top) (some-inj e) h,
  )
  on_nodes-Spells before (push c ∷ ops) cs s stack e h =
      on_nodes-Spells before ops (c ∷ cs) (Nodes.cs_push malloc c s) stack e
        (cs_push-Spells malloc unused before c cs s h)
  on_nodes-Spells before (pop ∷ ops) [] s stack e h = cc
  on_nodes-Spells before (pop ∷ ops) (c ∷ cs) s stack e h =
      let (s1, e1, h1) = cs_pop-Spells before c cs s h in
      let (s', e', h') = on_nodes-Spells before ops cs s1 stack e h1 in (s', rw e1 e', h')

  struct_there :
      (heap : Heap) → load (malloc heap) ((Nodes.cs_init malloc heap).heap) ≡ some Nodes.char_stack
  unfolding Nodes.cs_init load
  struct_there heap = ground arith

  struct_alone :
      (heap : Heap) (b : ℕ)
      → b ≢ malloc heap
      → load b ((Nodes.cs_init malloc heap).heap) ≡ load b heap
  unfolding Nodes.cs_init load
  struct_alone heap b other = ground (arith, other)

  struct_kept :
      (heap : Heap) (b : ℕ) (node : Nodes.Cell)
      → load b heap ≡ some node
      → load b ((Nodes.cs_init malloc heap).heap) ≡ some node
  unfolding Nodes.cs_init load
  struct_kept heap b node h = let e = unused heap in ground (arith, h, e)

  new_stack :
      (before : Heap)
      → Spells
          ((Nodes.cs_init malloc before).heap)
          ((Nodes.cs_init malloc before).heap)
          ((Nodes.cs_init malloc before).top)
          []
  unfolding Nodes.cs_init
  new_stack before = (refl, λ b. refl)

  -- `cs_reverse` on a stack, and what it leaves.
  reversed :
      (before : Heap) (cs : List ℕ) (s : Store) (n : ℕ)
      → length cs ≤ n
      → Spells before s.heap s.top cs
      → (r : Store) × (Nodes.cs_reverse malloc n s ≡ some r)
        × (Nodes.cs_splice n r ≡ some (reverse cs))
        × (Nodes.cs_splice n (record { heap = r.heap; top = s.top }) ≡ some cs)
  unfolding Nodes.cs_reverse Nodes.cs_init
  reversed before cs s n le h =
      let heap = (Nodes.cs_init malloc s.heap).heap in
      let reads =
        Reads-heap s.heap heap s.top cs (struct_kept s.heap)
          (Spells-Reads before s.heap s.top cs h) in
      let (r, e, spells) =
        reverse_loop-Spells malloc unused heap s.top cs [] n (Nodes.cs_init malloc s.heap) le reads
          (refl, λ b. refl) in
      (
        r,
        e,
        splice-Reads r.heap r.top (reverse cs) n (omega (arith, le, length-reverse_aux cs []))
            (Spells-Reads heap r.heap r.top (reverse cs) spells),
        splice-Reads r.heap s.top cs n le (
            Reads-heap heap r.heap s.top cs
              (λ b node k. Spells-kept heap r.heap r.top (reverse cs) b node spells k) reads),
      )

  -- Any pushes and pops that the list allows, from a new stack on: the nodes allow them too, `cs_splice`
  -- copies the characters of the list, `cs_reverse` builds a second stack with the reversed ones and
  -- leaves the first as it was, and `cs_free` leaves the stack empty and the heap as it was before
  -- `cs_init`, but for the `struct` of the stack, which stays allocated. For loops that may take a round
  -- for each character.
  pub on_nodes-refines :
      (before : Heap) (ops : List Op) (stack : CharStack.CharStack) (n : ℕ)
      → on_list ops CharStack.cs_init ≡ some stack
      → length stack.top ≤ n
      → (s : Store) × (on_nodes malloc ops (Nodes.cs_init malloc before) ≡ some s)
        × (Nodes.cs_splice n s ≡ CharStack.cs_splice stack)
        × ((r : Store) × (Nodes.cs_reverse malloc n s ≡ some r)
            × (Nodes.cs_splice n r ≡ CharStack.cs_splice (CharStack.cs_reverse stack))
            × (Nodes.cs_splice n (record { heap = r.heap; top = s.top })
                ≡ CharStack.cs_splice stack))
        × ((f : Store) × (Nodes.cs_free n s ≡ some f)
            × (f.top ≡ none)
            × (load (malloc before) f.heap ≡ some Nodes.char_stack)
            × ((b : ℕ) → b ≢ malloc before → load b f.heap ≡ load b before))
  unfolding CharStack.cs_init
  on_nodes-refines before ops stack n e le =
      let made = Nodes.cs_init malloc before in
      let (s, run, spells) = on_nodes-Spells made.heap ops [] made stack e (new_stack before) in
      let (r, rev, splice_r, splice_s) = reversed made.heap stack.top s n le spells in
      let (f, freed, (empty, same)) = cs_free-Spells made.heap stack.top n s le spells in
      let top = cs_splice-top stack in
      (
        s,
        run,
        splice-Reads s.heap s.top stack.top n le
              (Spells-Reads made.heap s.heap s.top stack.top spells)
            ∙ sym top,
        (
          r,
          rev,
          splice_r
              ∙ sym (cs_splice-top (CharStack.cs_reverse stack) ∙ ap some (cs_reverse-top stack)),
          splice_s ∙ sym top,
        ),
        (
          f,
          freed,
          empty,
          same (malloc before) ∙ struct_there before,
          λ b other. same b ∙ struct_alone before b other,
        ),
      )
