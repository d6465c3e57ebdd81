-- ===== src/Tests/Sorter.antt =====
-- The sort at concrete arrays.
use mathlib.Core.List.{Perm}
use iu_sysprog.Prelude.{ℕ, [], ◌∷◌, ◌≡◌, refl, some, arith, length}
use iu_sysprog.Prelude.Int.{pos, negsuc}
use iu_sysprog.Sorter.Merge.{Cells}
use iu_sysprog.Sorter.Sorted.{IsSorted}
use iu_sysprog.Sorter.MergeSort.{Sorting, me_mergesort}
use iu_sysprog.Sorter.Sorts.{me_mergesort-IsSorted}
use iu_sysprog.Sorter.Time.{IsClock, Spends, me_mergesort-Spends}
use iu_sysprog.Sorter.Output.{write_result_to_file}
use iu_sysprog.Sorter.Scans.{flat}
use iu_sysprog.Sorter.Merges.{write_result_to_file-IsSorted}

abbrev unsorted : Cells
unsorted = pos 5 ∷ negsuc 1 ∷ pos 3 ∷ pos 9 ∷ pos 0 ∷ []

abbrev start : Sorting
start = record {
  array = unsorted;
  t_invoked = 0;
  t_summary = 0;
  switch_count = 0;
  readings = 0;
  switches = 0;
}

abbrev frozen : ℕ → ℕ
frozen n = 7

abbrev finish : Sorting
finish = record {
  array = negsuc 1 ∷ pos 0 ∷ pos 3 ∷ pos 5 ∷ pos 9 ∷ [];
  t_invoked = 7;
  t_summary = 7;
  switch_count = 7;
  readings = 14;
  switches = 7;
}

mergesort_runs : me_mergesort frozen 5 start ≡ some finish
unfolding me_mergesort
mergesort_runs = refl

output_runs :
    write_result_to_file ((pos 1 ∷ pos 4 ∷ []) ∷ [] ∷ (negsuc 0 ∷ pos 4 ∷ pos 6 ∷ []) ∷ [])
    ≡ some (negsuc 0 ∷ pos 1 ∷ pos 4 ∷ pos 4 ∷ pos 6 ∷ [])
unfolding write_result_to_file
output_runs = refl

me_mergesort-IsSorted_example :
    (t : Sorting) × (me_mergesort frozen (length start.array) start ≡ some t)
    × IsSorted t.array
    × Perm t.array start.array
me_mergesort-IsSorted_example = me_mergesort-IsSorted frozen start

frozen-IsClock : IsClock frozen
frozen-IsClock = record { steps = λ n. omega arith; fits = λ n. omega arith }

me_mergesort-Spends_example : Spends frozen start finish × (finish.switch_count ≡ finish.switches)
me_mergesort-Spends_example =
    me_mergesort-Spends frozen frozen-IsClock 5 start
      (record { summed = omega arith; resumed = omega arith }) mergesort_runs

write_result_to_file-IsSorted_example :
    (file : Cells) × (write_result_to_file ((pos 1 ∷ pos 4 ∷ []) ∷ (negsuc 0 ∷ []) ∷ [])
      ≡ some file)
    × IsSorted file
    × Perm file (flat ((pos 1 ∷ pos 4 ∷ []) ∷ (negsuc 0 ∷ []) ∷ []))
write_result_to_file-IsSorted_example =
    write_result_to_file-IsSorted (pos 1) (pos 4 ∷ []) ((negsuc 0 ∷ []) ∷ []) (ground arith)
