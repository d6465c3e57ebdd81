-- ===== src/Sorter/Input.antt =====
-- `read_file` of 1/solution/solution.c. The file is what `fscanf` makes of it; `realloc` is a
-- parameter, the answer for so many bytes. The cells of `temp` that were reached are a list, beside
-- the number of cells that are `allocated`.
pub mod Laws
use iu_sysprog.Prelude.{
  ℕ, zero, suc, ◌*◌, ◌^◌, Bool, true, false, Option, none, some, [], ◌∷◌, ◌++◌, if◌then◌else◌,
  ◌>>=◌, ltb, ◌==◌, length,
}
use iu_sysprog.Prelude.Int.{ℤ}
use iu_sysprog.Sorter.Merge.{Cells}

-- `ended` is a file at its end, `stuck` one at text that is no number, which `fscanf` leaves there,
-- and `signed` one at a sign without a number, of which `fscanf` takes the sign.
pub data Stream : Type 0 where
  ended : Stream
  stuck : Stream
  signed : Stream → Stream
  number : ℤ → Stream → Stream

-- How the function ends: the array and its length, an `exit`, or behaviour that C does not define.
pub data Input : Type 0 where
  scanned : Cells → ℕ → Input
  exited : Input
  undefined : Input

-- The memory behind a number: the cells that are allocated, where there is no end.
pub data Memory : Type 0 where
  enough : ℕ → Memory
  fails : Input → Memory

-- `junk` is what a cell of fresh memory holds.
module _ (realloc : ℕ → Bool) (junk : ℕ → ℤ) where
  -- `fscanf(file, "%d", &temp[i])`: `none` is EOF, and else the cell `i` and the file behind it.
  unfoldable pub scan : ℕ → Stream → Option (ℤ × Stream)
  scan i ended = none
  scan i stuck = some (junk i, stuck)
  scan i (signed stream) = some (junk i, stream)
  scan i (number x stream) = some (x, stream)

  -- `if (count == allocated)`: twice the cells, in an `int`.
  unfoldable pub grow : ℕ → ℕ → Memory
  grow count allocated =
      if count == allocated
      then (if ltb (allocated * 2) (2 ^ 31)
          then (if realloc (4 * (allocated * 2)) then enough (allocated * 2) else fails exited)
          else fails undefined)
      else enough allocated

  -- The loop on fuel: `none` is fuel that ran out.
  unfoldable pub scan_loop : ℕ → Stream → Cells → ℕ → Option Input
  unfolding scan grow
  scan_loop zero stream temp allocated = none
  scan_loop (suc fuel) stream temp allocated =
      let round : Option Input = elim (scan (length temp) stream) [
        | none ↦ some (scanned temp (length temp))
        | some (cell, rest) ↦ elim (grow (suc (length temp)) allocated) [
          | enough more ↦ scan_loop fuel rest (temp ++ cell ∷ []) more
          | fails how ↦ some how
        ]
      ] in
      if ltb (length temp) allocated then round else some undefined

  -- The array is cut to its length.
  unfoldable pub shrink : Input → Input
  shrink (scanned temp count) = if realloc (4 * count) then scanned temp count else exited
  shrink exited = exited
  shrink undefined = undefined

  -- `fscanf` writes a number through NULL where the memory for the first cell was refused.
  abbrev pub into_null : Bool → Stream → Bool
  into_null false (number x stream) = true
  into_null _ _ = false

  -- `calloc` says whether there is memory for the first cell. A file that cannot be opened is read
  -- through NULL.
  unfoldable pub read_file : Bool → ℕ → Option Stream → Option Input
  unfolding scan_loop shrink
  read_file calloc fuel none = some undefined
  read_file calloc fuel (some stream) =
      let scanning = scan_loop fuel stream [] 1 >>= λ i. some (shrink i) in
      if into_null calloc stream then some undefined else scanning
