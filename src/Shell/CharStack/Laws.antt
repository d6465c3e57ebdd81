-- ===== src/Shell/CharStack/Laws.antt =====
-- What the operations of the character stack do to the list of its characters.
use mathlib.Core.List.{reverse, reverse_aux}
use iu_sysprog.Prelude.{ℕ, ◌+◌, ◌≡◌, refl, false, some, List, [], ◌∷◌, arith, length}
use iu_sysprog.Shell.CharStack.{
  CharStack, cs_init, cs_push, cs_isempty, cs_peek, cs_pop, count_nodes, copy_nodes, cs_splice,
  reverse_nodes, cs_reverse, free_nodes, cs_free,
}

-- What was pushed last is on top and is popped first.
pub cs_pop-cs_push :
    (stack : CharStack) (c : ℕ)
    → (cs_peek (cs_push stack c).0 ≡ some c)
      × (cs_pop (cs_push stack c).0 ≡ some stack)
      × (cs_isempty (some (cs_push stack c).0) ≡ false)
unfolding cs_peek cs_pop cs_push cs_isempty
cs_pop-cs_push stack c = (refl, refl, refl)

count_nodes-length : (len : ℕ) (l : List ℕ) → count_nodes len l ≡ len + length l
unfolding count_nodes
count_nodes-length len [] = omega arith
count_nodes-length len (c ∷ l) = omega (arith, count_nodes-length (len + 1) l)

copy_nodes-length : (l : List ℕ) → copy_nodes (length l) l ≡ some l
unfolding copy_nodes
copy_nodes-length [] = refl
copy_nodes-length (c ∷ l) = rw (copy_nodes-length l)

-- `cs_splice` reads no NULL pointer, and copies the characters from the top down.
pub cs_splice-top : (stack : CharStack) → cs_splice stack ≡ some stack.top
unfolding cs_splice
cs_splice-top stack =
    let e : count_nodes 0 stack.top ≡ length stack.top =
      omega (arith, count_nodes-length 0 stack.top) in
    rw e (copy_nodes-length stack.top)

reverse_nodes-top :
    (temp : CharStack) (l : List ℕ) → (reverse_nodes temp l).top ≡ reverse_aux l temp.top
unfolding reverse_nodes cs_push
reverse_nodes-top temp [] = refl
reverse_nodes-top temp (c ∷ l) = reverse_nodes-top (cs_push temp c).0 l

-- `cs_reverse` builds the chain of the same characters in reverse order.
pub cs_reverse-top : (stack : CharStack) → (cs_reverse stack).top ≡ reverse stack.top
unfolding cs_reverse cs_init
cs_reverse-top stack = reverse_nodes-top cs_init stack.top

free_nodes-top : (l : List ℕ) → free_nodes l (record { top = l }) ≡ some (record { top = [] })
unfolding free_nodes cs_isempty cs_pop
free_nodes-top [] = refl
free_nodes-top (c ∷ l) = free_nodes-top l

-- `cs_free` pops every node and reads no NULL pointer.
pub cs_free-top : (stack : CharStack) → cs_free stack ≡ some (record { top = [] })
unfolding cs_free
cs_free-top stack = free_nodes-top stack.top
