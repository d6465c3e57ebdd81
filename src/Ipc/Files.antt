-- ===== src/Ipc/Files.antt =====
-- `sorter` and `main` of lecture_examples/7_ipc/1_simple_sort.c. The file is what `fscanf` makes of
-- it, `qsort` is a parameter. The array is the list of its cells that were written, beside its
-- capacity; `none` is a write behind it.
use iu_sysprog.Prelude.{
  ℕ, suc, ◌*◌, ◌<◌, ◌≡◌, Option, none, some, true, List, [], ◌∷◌, ◌++◌, ◌==◌, ltb, if◌then◌else◌,
  ◌>>=◌, length, refl, ap, sym, ◌∙◌, arith, append-nil, append_assoc, length-append, Bool-cases,
  inl, inr,
}
use iu_sysprog.Prelude.Int.{ℤ}
use iu_sysprog.Sorter.Input.{Stream, ended, stuck, signed, number}

-- `while (fscanf(...) > 0)`: both the end of the file and text that is no number end the loop.
unfoldable pub scan_numbers : Stream → List ℤ → ℕ → Option (List ℤ)
scan_numbers ended array capacity = some array
scan_numbers stuck array capacity = some array
scan_numbers (signed file) array capacity = some array
scan_numbers (number x file) array capacity =
    let rest =
      scan_numbers file (array ++ x ∷ [])
        (if suc (length array) == capacity then capacity * 2 else capacity) in
    if ltb (length array) capacity then rest else none

module _ (qsort : List ℤ → List ℤ) where
  -- `worker->array`; its length is `worker->size`.
  unfoldable pub sorter : Stream → Option (List ℤ)
  unfolding scan_numbers
  sorter file = scan_numbers file [] 1024 >>= λ array. some (qsort array)

  -- The workers, and `memcpy` of their arrays one behind the other into `total_array`.
  unfoldable pub sort_files : List Stream → Option (List ℤ)
  unfolding sorter
  sort_files [] = some []
  sort_files (file ∷ files) =
      sorter file >>= λ array. sort_files files >>= λ rest. some (array ++ rest)

-- The numbers of a file up to its end, or up to other text.
abbrev pub numbers_of : Stream → List ℤ
numbers_of ended = []
numbers_of stuck = []
numbers_of (signed file) = []
numbers_of (number x file) = x ∷ numbers_of file

scan_numbers-all :
    (file : Stream) (array : List ℤ) (capacity : ℕ)
    → length array < capacity
    → scan_numbers file array capacity ≡ some (array ++ numbers_of file)
unfolding scan_numbers
scan_numbers-all ended array capacity h = ap some (sym (append-nil array))
scan_numbers-all stuck array capacity h = ap some (sym (append-nil array))
scan_numbers-all (signed file) array capacity h = ap some (sym (append-nil array))
scan_numbers-all (number x file) array capacity h =
    let inside : ltb (length array) capacity ≡ true = ground (arith, h) in
    let n = length-append array (x ∷ []) in
    let rest = λ (more : ℕ) (l : length (array ++ x ∷ []) < more).
      scan_numbers-all file (array ++ x ∷ []) more l
      ∙ ap some (append_assoc array (x ∷ []) (numbers_of file)) in
    elim (Bool-cases (suc (length array) == capacity)) [
      | inl full ↦ rw (inside, full) (rest (capacity * 2) (ground (arith, n, full, h)))
      | inr room ↦ rw (inside, room) (rest capacity (ground (arith, n, room, h)))
    ]

-- One behind the other, the sorted numbers of each file.
abbrev pub sorted_files : (List ℤ → List ℤ) → List Stream → List ℤ
sorted_files qsort [] = []
sorted_files qsort (file ∷ files) = qsort (numbers_of file) ++ sorted_files qsort files

-- For any files, `main` writes no cell outside an array, and its array holds the numbers of each file,
-- up to its end or to other text, as `qsort` leaves them, one file behind the other.
pub sort_files-sorted :
    (qsort : List ℤ → List ℤ) (files : List Stream)
    → sort_files qsort files ≡ some (sorted_files qsort files)
unfolding sort_files
sort_files-sorted qsort [] = refl
sort_files-sorted qsort (file ∷ files) =
    rw (scan_numbers-all file [] 1024 (omega arith), sort_files-sorted qsort files) refl
