-- ===== src/Sorter/Main.antt =====
-- `main` of 1/solution/solution.c from its arguments to the output. A string is its bytes before the
-- NUL; `atoi` and the files are parameters.
pub mod Total
use mathlib.Core.Path.{subst}
use mathlib.Core.List.{map}
use mathlib.Mathlib.Data.Multiset.Defs.{of_list}
use iu_sysprog.Prelude.{
  ℕ, zero, suc, ◌+◌, ◌-◌, ◌*◌, ◌≤◌, ◌<◌, Bool, true, false, ◌&&◌, ◌⊎◌, inl, inr, Option, none, some,
  List, [], ◌∷◌, ◌++◌, ◌≡◌, refl, sym, ap, ◌∙◌, ◌>>=◌, arith, All, drop, leb, bytes_eq,
  if◌then◌else◌, length, get_elem?,
}
use iu_sysprog.Prelude.Int.{ℤ, pos, negsuc}
use iu_sysprog.Threads.Interleave.{sum}
use iu_sysprog.Sorter.Merge.{Cells}
use iu_sysprog.Sorter.Bag.{ascending}
use iu_sysprog.Sorter.Scans.{flat}
use iu_sysprog.Sorter.Program.{arrays, output, output-ascending}
use iu_sysprog.Sorter.Input.{Stream, Input, scanned, exited, undefined, read_file}
use iu_sysprog.Sorter.Workers.{Pc, left, fetches, sorts, Shared, has_left, have_left, wait_all}
use iu_sysprog.Sorter.Workers.Safety.{starting, unread, length-starting}
use iu_sysprog.Sorter.Workers.Ends.{left_of, unprocessed, Picks, Runs, wait_all-Runs}

abbrev pub Name : Type 0
Name = List ℕ

abbrev pub flag : Name
flag = b'-' ∷ b'c' ∷ []

pub record Options : Type 0 where
  pub coro_param : ℤ
  pub files_count : ℕ

abbrev is_flag : Option Name → Bool
is_flag none = false
is_flag (some arg) = bytes_eq arg flag

-- `coro_param` behind the flag; the test before has seen that the argument is there.
abbrev count_of : (Name → ℤ) → Option Name → ℤ
count_of atoi none = pos 0
count_of atoi (some arg) = atoi arg

unfoldable pub read_args : (Name → ℤ) → List Name → Options
read_args atoi argv =
    if leb 3 (length argv) && is_flag (get_elem? argv 1)
    then record { coro_param = count_of atoi (get_elem? argv 2); files_count = length argv - 1 - 2 }
    else record { coro_param = pos 6; files_count = length argv - 1 }

-- The names of `coro_files`: so many arguments from the place `i` on. `none` is a read behind `argv`.
unfoldable pub file_names : ℕ → ℕ → List Name → Option (List Name)
file_names zero i argv = some []
file_names (suc files_count) i argv = get_elem? argv i >>= λ name.
    file_names files_count (i + 1) argv >>= λ names. some (name ∷ names)

-- `coro_args_list` has `coro_param` elements, which must be one at least.
abbrev start_coros : ℤ → Option (List Pc)
start_coros (pos (suc n)) = some (starting (suc n))
start_coros _ = none

-- The array that `read_file` returns; where it exits, or does what C leaves undefined, the program does
-- not come to its output.
abbrev pub array_read_of : Input → Option Cells
array_read_of (scanned cells count) = some cells
array_read_of exited = none
array_read_of undefined = none

abbrev pub row_at : List Cells → ℕ → Cells
row_at [] i = []
row_at (row ∷ rows) zero = row
row_at (row ∷ rows) (suc i) = row_at rows i

-- `realloc`, `junk`, `calloc` and `fuel` are those of `read_file`, and `files` is what stands in the file
-- of a name, where it can be opened.
module _ (realloc : ℕ → Bool) (junk : ℕ → ℤ) (calloc : Bool) (fuel : ℕ)
    (files : Name → Option Stream) where
  -- The arrays of the files. Which coroutine reads a file, and when, makes no difference to its array.
  unfoldable pub read_all : List Name → Option (List Cells)
  unfolding read_file
  read_all [] = some []
  read_all (name ∷ names) = read_file realloc junk calloc fuel (files name) >>= λ input.
      array_read_of input >>= λ row. read_all names >>= λ rows. some (row ∷ rows)

  module _ (clock : ℕ → ℕ) (atoi : Name → ℤ) (pick : ℕ → List Pc → ℕ) where
    -- What stands in the output, where the coroutines make so many moves at most.
    unfoldable pub main : ℕ → List Name → Option Cells
    unfolding read_args file_names read_all output
    main moves argv =
        let o = read_args atoi argv in
        file_names o.files_count (length argv - o.files_count) argv >>= λ names.
        start_coros o.coro_param >>= λ coros. read_all names >>= λ rows.
        wait_all clock (length names) (row_at rows) pick moves coros unread >>= λ (pcs, m).
        output (length names) m

-- The command line: the program, the number of coroutines or none, and the names. The number behind
-- the command line is one less than that of the coroutines, which is 6 if none is given.
pub data Asks (atoi : Name → ℤ) : List Name → ℕ → List Name → Type 0 where
  chosen :
      (prog count name : Name) (names : List Name) (n : ℕ)
      → atoi count ≡ pos (suc n)
      → Asks atoi (prog ∷ flag ∷ count ∷ name ∷ names) n (name ∷ names)
  default :
      (prog name : Name) (names : List Name)
      → (bytes_eq name flag ≡ false) ⊎ (names ≡ [])
      → Asks atoi (prog ∷ name ∷ names) 5 (name ∷ names)
