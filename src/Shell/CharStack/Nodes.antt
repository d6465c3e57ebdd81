-- ===== src/Shell/CharStack/Nodes.antt =====
-- The nodes of 2/solution/stack.c on the heap. A `char_node *` is an address, or `none` for NULL; a
-- node is its character and its `next`. `malloc` answers an address and is a parameter; an access
-- through NULL or to a node that is not allocated is `none`.
pub mod Refines
pub mod Readings
pub mod Runs
use iu_sysprog.Prelude.{
  ℕ, zero, suc, ◌+◌, Bool, true, false, not, Option, none, some, List, [], ◌∷◌, ◌==◌, ◌>>=◌,
  if◌then◌else◌, ◌≡◌,
}
use iu_sysprog.Shell.CharStack.{CharStack}

abbrev pub Pointer : Type 0
Pointer = Option ℕ

-- What `malloc` gave memory for: a `struct char_node`, or a `struct char_stack`, whose `top` is kept in
-- the `Store` of the stack at hand.
pub data Cell : Type 0 where
  char_node : ℕ → Pointer → Cell
  char_stack : Cell

-- A node, of an address that holds one.
abbrev pub CharNode : Type 0
CharNode = ℕ × Pointer

abbrev pub as_node : Cell → Option CharNode
as_node (char_node c next) = some (c, next)
as_node char_stack = none

-- The memory that is allocated.
abbrev pub Heap : Type 0
Heap = List (ℕ × Cell)

unfoldable pub load : ℕ → Heap → Option Cell
load b [] = none
load b ((a, node) ∷ heap) = let rest = load b heap in if a == b then some node else rest

unfoldable pub free : ℕ → Heap → Heap
free b [] = []
free b ((a, node) ∷ heap) = let rest = free b heap in if a == b then rest else (a, node) ∷ rest

-- The heap, and `top` of the stack at hand.
pub record Store : Type 0 where
  pub heap : Heap
  pub top : Pointer

-- The node at an address.
abbrev pub node_in : ℕ → Heap → Option CharNode
node_in a heap = load a heap >>= as_node

-- `*pntr`.
abbrev pub node_at : Pointer → Heap → Option CharNode
node_at none heap = none
node_at (some a) heap = node_in a heap

abbrev pub is_null : Pointer → Bool
is_null none = true
is_null (some _) = false

module _ (malloc : Heap → ℕ) where
  -- The new stack on a heap, where its `struct` takes memory as well.
  unfoldable pub cs_init : Heap → Store
  cs_init heap = record { heap = (malloc heap, char_stack) ∷ heap; top = none }

  unfoldable pub cs_push : ℕ → Store → Store
  cs_push c s = record {
    heap = (malloc s.heap, char_node c s.top) ∷ s.heap;
    top = some (malloc s.heap);
  }

  -- The `while` of `cs_reverse`, by the rounds that it may take: the nodes from `pntr` on are pushed on
  -- `temp`.
  unfoldable pub reverse_loop : ℕ → Pointer → Store → Option Store
  unfolding cs_push
  reverse_loop zero pntr temp = if is_null pntr then some temp else none
  reverse_loop (suc n) none temp = some temp
  reverse_loop (suc n) (some a) temp =
      node_in a temp.heap >>= λ (c, next). reverse_loop n next (cs_push c temp)

  -- `top` of the store that it returns is that of the new stack.
  unfoldable pub cs_reverse : ℕ → Store → Option Store
  unfolding reverse_loop cs_init
  cs_reverse n stack = reverse_loop n stack.top (cs_init stack.heap)

unfoldable pub cs_peek : Store → Option ℕ
cs_peek s = node_at s.top s.heap >>= λ (c, next). some c

unfoldable pub pop_node : Pointer → Heap → Option Store
pop_node none heap = none
pop_node (some a) heap =
    node_in a heap >>= λ (c, next). some (record { heap = free a heap; top = next })

unfoldable pub cs_pop : Store → Option Store
unfolding pop_node
cs_pop s = pop_node s.top s.heap

-- The `while` of `cs_free`, by the rounds that it may take; the `struct` is not freed.
unfoldable pub cs_free : ℕ → Store → Option Store
unfolding cs_pop
cs_free zero s = if is_null s.top then some s else none
cs_free (suc n) s = let rest = cs_pop s >>= cs_free n in if is_null s.top then some s else rest

-- The `while` of `cs_splice` that counts the nodes, by the rounds that it may take.
unfoldable pub count_loop : ℕ → Pointer → Heap → Option ℕ
count_loop zero pntr heap = if is_null pntr then some 0 else none
count_loop (suc n) none heap = some 0
count_loop (suc n) (some a) heap =
    node_in a heap >>= λ (c, next). count_loop n next heap >>= λ len. some (len + 1)

-- The `for` that copies the characters of `len` nodes.
unfoldable pub copy_loop : ℕ → Pointer → Heap → Option (List ℕ)
copy_loop zero pntr heap = some []
copy_loop (suc len) pntr heap =
    node_at pntr heap >>= λ (c, next). copy_loop len next heap >>= λ rest. some (c ∷ rest)

unfoldable pub cs_splice : ℕ → Store → Option (List ℕ)
unfolding count_loop copy_loop
cs_splice n s = count_loop n s.top s.heap >>= λ len. copy_loop len s.top s.heap

-- The nodes from `p` on spell these characters, none of them was allocated in `before`, and no other
-- node was allocated, freed or changed since.
abbrev pub Spells : Heap → Heap → Pointer → List ℕ → Type 0
Spells before heap p [] = (p ≡ none) × ((b : ℕ) → load b heap ≡ load b before)
Spells before heap p (c ∷ cs) =
    (a : ℕ) × (next : Pointer) × (p ≡ some a)
    × (load a heap ≡ some (char_node c next))
    × (load a before ≡ none)
    × Spells before (free a heap) next cs
