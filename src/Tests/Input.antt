-- ===== src/Tests/Input.antt =====
-- The reading of files at a concrete file.
use iu_sysprog.Prelude.{true, false, ℕ, Bool, some, none, [], ◌∷◌, ◌≡◌, ◌⊎◌, refl, arith, ltb}
use iu_sysprog.Prelude.Int.{ℤ, pos, negsuc}
use iu_sysprog.Sorter.Merge.{Cells}
use iu_sysprog.Sorter.Input.{ended, stuck, scanned, exited, undefined, read_file}
use iu_sysprog.Sorter.Input.Laws.{file_of, Refused, IsLost, read_file-file, read_file-text}

abbrev numbers : Cells
numbers = pos 3 ∷ negsuc 0 ∷ pos 8 ∷ []

-- A system that gives memory, but no block of 0 bytes.
abbrev plenty : ℕ → Bool
plenty n = ltb 0 n

abbrev junk : ℕ → ℤ
junk i = pos 0

read_file-file_example :
    (read_file plenty junk true 4 (some (file_of numbers ended)) ≡ some (scanned numbers 3))
    ⊎ (((read_file plenty junk true 4 (some (file_of numbers ended)) ≡ some exited)
          × Refused plenty)
        ⊎ ((read_file plenty junk true 4 (some (file_of numbers ended)) ≡ some undefined)
            × (true ≡ false)))
read_file-file_example = read_file-file plenty junk true numbers (omega arith)

read_file-text_example : IsLost (read_file plenty junk true 5 (some (file_of numbers stuck)))
read_file-text_example = read_file-text plenty junk true numbers 5

read_numbers :
    read_file plenty junk true 4 (some (file_of numbers ended)) ≡ some (scanned numbers 3)
unfolding read_file
read_numbers = refl

-- An empty file ends the program.
read_nothing : read_file plenty junk true 1 (some (file_of [] ended)) ≡ some exited
unfolding read_file
read_nothing = refl

read_text : read_file plenty junk true 6 (some (file_of numbers stuck)) ≡ none
unfolding read_file
read_text = refl

read_closed : read_file plenty junk true 6 none ≡ some undefined
unfolding read_file
read_closed = refl
