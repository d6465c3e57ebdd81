-- ===== src/Sorter/Merges.antt =====
-- `write_result_to_file` ends, and writes all numbers of sorted rows in ascending order.
use mathlib.Core.List.{Perm}
use mathlib.Core.List.Perm
use iu_sysprog.Prelude.{
  ℕ, zero, suc, ◌+◌, ◌-◌, ◌≤◌, ◌<◌, ◌≡◌, refl, sym, ◌∙◌, Option, none, some, [], ◌∷◌, ◌++◌, ltb,
  length, length-append, arith, inl, inr, Bool-cases, Option-cases, append-nil, append_assoc,
}
use iu_sysprog.Prelude.Int.{ℤ}
use iu_sysprog.Sorter.Merge.{Cells}
use iu_sysprog.Sorter.Sorted.{IsSorted, IsBelow}
use iu_sysprog.Sorter.Output.{
  Rows, any_scan, min_scan, advance, exhausted, write_loop, total, write_result_to_file,
}
use iu_sysprog.Sorter.Scans.{flat, AreSorted, live, Least, any_scan-none, min_scan-Least}

-- What the loop writes behind `file`.
record Written (rows : Rows) (printed out : Cells) : Type 0 where
  numbers : Cells
  behind : out ≡ printed ++ numbers
  sorted : IsSorted numbers
  perm : Perm numbers (flat rows)
  above : (x : ℤ) → IsBelow x (flat rows) → IsBelow x numbers

abbrev Writes : Rows → Cells → Option Cells → Type 0
Writes rows printed none = ⊥
Writes rows printed (some out) = Written rows printed out

nothing_left : (rows : Rows) (printed : Cells) → flat rows ≡ [] → Written rows printed printed
nothing_left rows printed e = record {
  numbers = [];
  behind = sym (append-nil printed);
  sorted = tt;
  perm = rw e (Perm.refl []);
  above = λ x h. tt;
}

live-flat : (rows : Rows) → live rows ≡ 0 → flat rows ≡ []
live-flat [] e = refl
live-flat ([] ∷ rows) e = live-flat rows e
live-flat ((x ∷ row) ∷ rows) e = absurd (omega arith)

one_more :
    (rows : Rows) (printed : Cells) (c m : ℤ × ℕ) (o : Option Cells)
    → AreSorted rows
    → Least rows c m
    → Writes (advance m.1 rows) (printed ++ m.0 ∷ []) o
    → Writes rows printed o
one_more rows printed c m none s l w = absurd w
one_more rows printed c m (some out) s l w = record {
  numbers = m.0 ∷ w.numbers;
  behind = w.behind ∙ append_assoc printed (m.0 ∷ []) w.numbers;
  sorted = (w.above m.0 (l.taken.kept m.0 (l.least s)).1, w.sorted);
  perm = Perm.trans (Perm.cons m.0 w.perm) (Perm.symm l.taken.perm);
  above = λ x h. let k = l.taken.kept x h in (k.0, w.above x k.1);
}

write_loop-Writes :
    (fuel : ℕ) (rows : Rows) (left_rows : ℕ) (printed : Cells)
    → AreSorted rows
    → length (flat rows) < fuel
    → live rows ≤ left_rows
    → Writes rows printed (write_loop fuel rows left_rows printed)
unfolding write_loop
write_loop-Writes zero rows left_rows printed s f z = absurd (omega arith)
write_loop-Writes (suc fuel) rows left_rows printed s f z = elim (Bool-cases (ltb 0 left_rows)) [
  | inr done ↦ rw done (nothing_left rows printed (live-flat rows (ground (arith, z))))
  | inl more ↦ elim (Option-cases (any_scan 0 rows none)) [
    | inl e ↦ rw (more, e) (nothing_left rows printed (any_scan-none rows 0 e))
    | inr (c, e) ↦
        let m = min_scan 0 rows c in
        let l = min_scan-Least rows c e in
        rw (more, e)
          (one_more rows printed c m _ s l (
            write_loop-Writes fuel (advance m.1 rows) (left_rows - exhausted m.1 (advance m.1 rows))
              (printed ++ m.0 ∷ []) (l.taken.sorted s) (omega (arith, l.taken.fewer))
              (omega (arith, l.taken.still_live))))
  ]
]

live-le-length : (rows : Rows) → live rows ≤ length rows
live-le-length [] = omega arith
live-le-length ([] ∷ rows) = omega (arith, live-le-length rows)
live-le-length ((x ∷ row) ∷ rows) = omega (arith, live-le-length rows)

total-flat : (rows : Rows) → total rows ≡ length (flat rows)
total-flat [] = refl
total-flat (row ∷ rows) = omega (arith, total-flat rows, length-append row (flat rows))

written :
    (rows : Rows) (o : Option Cells)
    → Writes rows [] o
    → (printed : Cells) × (o ≡ some printed) × IsSorted printed × Perm printed (flat rows)
written rows none w = absurd w
written rows (some out) w = (out, refl, rw w.behind w.sorted, rw w.behind w.perm)

-- For sorted rows, the first of them not empty, the loop ends, and the file holds the numbers of
-- all rows in ascending order.
pub write_result_to_file-IsSorted :
    (x : ℤ) (row : Cells) (rows : Rows)
    → AreSorted ((x ∷ row) ∷ rows)
    → (printed : Cells) × (write_result_to_file ((x ∷ row) ∷ rows) ≡ some printed)
      × IsSorted printed
      × Perm printed (flat ((x ∷ row) ∷ rows))
unfolding write_result_to_file
write_result_to_file-IsSorted x row rows s =
    let all = (x ∷ row) ∷ rows in
    written all (write_loop (total all + 1) all (length all) []) (
      write_loop-Writes (total all + 1) all (length all) [] s (omega (arith, total-flat all))
        (live-le-length all))
