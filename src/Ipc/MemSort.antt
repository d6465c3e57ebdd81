-- ===== src/Ipc/MemSort.antt =====
-- The worker and the parent of lecture_examples/7_ipc/3_mem_sort.c: the size of the sorted array, and
-- then its cells, go through the shared memory. A number is the 32 bits of its `int`.
use iu_sysprog.Prelude.{
  ltb, if◌then◌else◌, ◌+◌, ◌>>=◌, ℕ, ◌*◌, ◌^◌, ◌<◌, Bool, Option, none, some, List, [], ◌∷◌, ◌++◌,
  ◌≡◌, length, All,
}
use iu_sysprog.Ipc.Bytes.{bytes_of, bytes_of_array, int_of, array_of}
use iu_sysprog.Ipc.SharedMem.{returned, System, run, start}

-- What the parent reads next, where it has these messages of a worker: the size, and then as many
-- cells of 4 bytes.
unfoldable pub parent_asks : List (List ℕ) → Option ℕ
unfolding int_of
parent_asks [] = some 4
parent_asks (size ∷ []) = some (int_of size * 4)
parent_asks (size ∷ array ∷ more) = none

-- `MEM_SIZE - MEM_META_SIZE`
abbrev pub mem_size : ℕ
mem_size = 65534

-- A worker of the parent: what its memory holds at first, its sorted array, and the order in which
-- it and the parent move.
pub record Worker : Type 0 where
  pub mem : List ℕ
  pub array : List ℕ
  pub turns : List Bool

unfoldable pub hand_over : Worker → System
unfolding run start parent_asks bytes_of bytes_of_array
hand_over w =
    run mem_size parent_asks w.turns
      (start mem_size parent_asks w.mem (bytes_of (length w.array)) (bytes_of_array w.array ∷ []))

-- `w->array` from the two messages.
unfoldable pub array_read : List (List ℕ) → List ℕ
unfolding array_of
array_read (size ∷ array ∷ more) = array_of array
array_read _ = []

-- `w->size` from the first message.
unfoldable pub size_read : List (List ℕ) → ℕ
unfolding int_of
size_read (size ∷ more) = int_of size
size_read [] = 0

-- `total_size`, of an `int`: `none` is a sum that does not fit.
unfoldable pub total_size : ℕ → List Worker → Option ℕ
unfolding hand_over size_read
total_size total [] = some total
total_size total (w ∷ ws) =
    let sum = total + size_read ((hand_over w).reader.got) in
    let rest = total_size sum ws in if ltb sum (2 ^ 31) then rest else none

-- The `memcpy`s of the arrays, one behind the other.
unfoldable pub copied : List Worker → List ℕ
unfolding hand_over array_read
copied [] = []
copied (w ∷ ws) = array_read ((hand_over w).reader.got) ++ copied ws

-- `total_array`, for which there is memory.
unfoldable pub total_array : List Worker → Option (List ℕ)
unfolding total_size copied
total_array ws = total_size 0 ws >>= λ total. some (copied ws)

abbrev pub arrays : List Worker → List ℕ
arrays [] = []
arrays (w ∷ ws) = w.array ++ arrays ws

-- A worker whose array fits an `int` in bytes, and that the parent has waited for.
pub record IsDone (w : Worker) : Type 0 where
  pub few : length w.array < 2 ^ 29
  pub ints : All (λ n. n < 2 ^ 32) w.array
  pub read : (hand_over w).reads_at ≡ returned
