-- ===== src/Sorter/Output.antt =====
-- `write_result_to_file` of 1/solution/solution.c. `iters[i]` only moves forward through row `i`,
-- so that a row and its iterator are the cells of the row that are left. The file is the list of
-- the numbers that were printed.
use iu_sysprog.Prelude.{
  ℕ, zero, suc, ◌+◌, ◌-◌, Option, none, some, List, [], ◌∷◌, ◌++◌, if◌then◌else◌, ◌>>=◌, ltb,
  length,
}
use iu_sysprog.Prelude.Int.{ℤ, ltb_ℤ}
use iu_sysprog.Sorter.Merge.{Cells}

abbrev pub Rows : Type 0
Rows = List Cells

-- `min` and `min_idx`; `none` is the index -1.
abbrev pub Choice : Type 0
Choice = Option (ℤ × ℕ)

-- The loop that takes any available number, from row `i` on.
unfoldable pub any_scan : ℕ → Rows → Choice → Choice
any_scan i [] chosen = chosen
any_scan i ([] ∷ rows) chosen = any_scan (i + 1) rows chosen
any_scan i ((x ∷ row) ∷ rows) chosen = any_scan (i + 1) rows (some (x, i))

-- The loop that looks for a smaller one.
unfoldable pub min_scan : ℕ → Rows → ℤ × ℕ → ℤ × ℕ
min_scan i [] chosen = chosen
min_scan i ([] ∷ rows) chosen = min_scan (i + 1) rows chosen
min_scan i ((x ∷ row) ∷ rows) chosen =
    min_scan (i + 1) rows (if ltb_ℤ x chosen.0 then (x, i) else chosen)

-- `iters[min_idx] += 1`
unfoldable pub advance : ℕ → Rows → Rows
advance i [] = []
advance zero ([] ∷ rows) = [] ∷ rows
advance zero ((x ∷ row) ∷ rows) = row ∷ rows
advance (suc i) (row ∷ rows) = row ∷ advance i rows

-- `iters[min_idx] >= sizes[min_idx]`, where the first number is the amount that `zeros` loses.
unfoldable pub exhausted : ℕ → Rows → ℕ
exhausted i [] = 0
exhausted zero ([] ∷ rows) = 1
exhausted zero ((x ∷ row) ∷ rows) = 0
exhausted (suc i) (row ∷ rows) = exhausted i rows

-- The loop on fuel; `none` is fuel that ran out.
unfoldable pub write_loop : ℕ → Rows → ℕ → Cells → Option Cells
unfolding any_scan min_scan advance exhausted
write_loop zero rows left_rows printed = none
write_loop (suc fuel) rows left_rows printed =
    let turn : Option Cells = elim (any_scan 0 rows none) [
      | none ↦ some printed
      | some chosen ↦
          let m = min_scan 0 rows chosen in
          let rows' = advance m.1 rows in
          write_loop fuel rows' (left_rows - exhausted m.1 rows') (printed ++ m.0 ∷ [])
    ] in
    if ltb 0 left_rows then turn else some printed

-- `array[0][0]`, which the source reads first; `none` is a read outside the rows.
abbrev pub first_cell : Rows → Option ℤ
first_cell [] = none
first_cell ([] ∷ rows) = none
first_cell ((x ∷ row) ∷ rows) = some x

abbrev pub total : Rows → ℕ
total [] = 0
total (row ∷ rows) = length row + total rows

unfoldable pub write_result_to_file : Rows → Option Cells
unfolding write_loop
write_result_to_file rows =
    first_cell rows >>= λ min. write_loop (total rows + 1) rows (length rows) []
