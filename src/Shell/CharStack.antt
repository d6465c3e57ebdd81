-- ===== src/Shell/CharStack.antt =====
-- The character stack of 2/solution/stack.c. A stack owns its chain of nodes and shares it with
-- nobody, so a `char_node *` is the list of the characters of the chain; NULL is the empty one.
-- `none` stands for the read through NULL that the source leaves to its callers to prevent.
pub mod Laws
pub mod Nodes
use iu_sysprog.Prelude.{
  ℕ, zero, suc, ◌+◌, Bool, true, false, Option, none, some, List, [], ◌∷◌, ◌>>=◌, if◌then◌else◌,
}

pub record CharStack : Type 0 where
  pub top : List ℕ

unfoldable pub cs_init : CharStack
cs_init = record { top = [] }

-- The new stack and the returned character.
unfoldable pub cs_push : CharStack → ℕ → CharStack × ℕ
cs_push stack c = (record { top = c ∷ stack.top }, c)

abbrev is_null : List ℕ → Bool
is_null [] = true
is_null (_ ∷ _) = false

-- The argument is a pointer that may be NULL.
unfoldable pub cs_isempty : Option CharStack → Bool
cs_isempty none = false
cs_isempty (some stack) = is_null stack.top

head_data : List ℕ → Option ℕ
head_data [] = none
head_data (c ∷ next) = some c

unfoldable pub cs_peek : CharStack → Option ℕ
unfolding head_data
cs_peek stack = head_data stack.top

next_node : List ℕ → Option CharStack
next_node [] = none
next_node (c ∷ next) = some (record { top = next })

unfoldable pub cs_pop : CharStack → Option CharStack
unfolding next_node
cs_pop stack = next_node stack.top

-- The `while` that counts the nodes.
count_nodes : ℕ → List ℕ → ℕ
count_nodes len [] = len
count_nodes len (_ ∷ next) = count_nodes (len + 1) next

-- The `for` that copies them, by the rounds left.
copy_nodes : ℕ → List ℕ → Option (List ℕ)
copy_nodes zero pntr = some []
copy_nodes (suc n) [] = none
copy_nodes (suc n) (c ∷ next) = do rest ← copy_nodes n next; some (c ∷ rest)

unfoldable pub cs_splice : CharStack → Option (List ℕ)
unfolding count_nodes copy_nodes
cs_splice stack = copy_nodes (count_nodes 0 stack.top) stack.top

reverse_nodes : CharStack → List ℕ → CharStack
reverse_nodes temp [] = temp
reverse_nodes temp (c ∷ next) = reverse_nodes (cs_push temp c).0 next

unfoldable pub cs_reverse : CharStack → CharStack
unfolding reverse_nodes cs_init cs_push
cs_reverse stack = reverse_nodes cs_init stack.top

-- The `while` of `cs_free`, by the nodes of the chain: each round pops one.
free_nodes : List ℕ → CharStack → Option CharStack
free_nodes [] stack = if cs_isempty (some stack) then some stack else none
free_nodes (_ ∷ more) stack =
    let rest = cs_pop stack >>= free_nodes more in
    if cs_isempty (some stack) then some stack else rest

unfoldable pub cs_free : CharStack → Option CharStack
unfolding free_nodes
cs_free stack = free_nodes stack.top stack
