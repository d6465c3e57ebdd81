-- ===== src/Sorter/Scans.antt =====
-- The two scans choose a smallest number among the first ones of the rows.
use mathlib.Core.List.{Perm, perm_middle}
use mathlib.Core.List.Perm
use iu_sysprog.Prelude.{
  ℕ, zero, suc, ◌+◌, ◌≡◌, refl, none, some, [], ◌∷◌, ◌++◌, length, length-append, arith, inl, inr,
  Bool-cases, append_assoc, All, All-append, All-split,
}
use iu_sysprog.Prelude.Int.{ℤ, ltb_ℤ, ◌≤ℤ◌}
use iu_sysprog.Sorter.Merge.{Cells}
use iu_sysprog.Sorter.Sorted.{IsSorted, IsBelow, IsBelow-trans}
use iu_sysprog.Sorter.Output.{Rows, Choice, any_scan, min_scan, advance, exhausted}

abbrev pub flat : Rows → Cells
flat [] = []
flat (row ∷ rows) = row ++ flat rows

abbrev IsHead : Cells → ℤ → Type 0
IsHead [] x = ⊥
IsHead (y ∷ row) x = y ≡ x

-- Row `i` is there and begins with `x`.
abbrev pub HeadAt : Rows → ℕ → ℤ → Type 0
HeadAt [] i x = ⊥
HeadAt (row ∷ rows) zero x = IsHead row x
HeadAt (row ∷ rows) (suc i) x = HeadAt rows i x

abbrev pub IsChoice : Rows → Choice → Type 0
IsChoice rows none = Unit
IsChoice rows (some c) = HeadAt rows c.1 c.0

HeadAt-append :
    (pre : Rows) (x : ℤ) (row : Cells) (rows : Rows) (i : ℕ)
    → i ≡ length pre
    → HeadAt (pre ++ (x ∷ row) ∷ rows) i x
HeadAt-append [] x row rows zero e = refl
HeadAt-append [] x row rows (suc i) e = absurd (omega arith)
HeadAt-append (p ∷ pre) x row rows zero e = absurd (omega arith)
HeadAt-append (p ∷ pre) x row rows (suc i) e = HeadAt-append pre x row rows i (omega arith)

any_scan-IsChoice :
    (rows pre : Rows) (i : ℕ) (c : Choice)
    → i ≡ length pre
    → IsChoice (pre ++ rows) c
    → IsChoice (pre ++ rows) (any_scan i rows c)
unfolding any_scan
any_scan-IsChoice [] pre i c e h = h
any_scan-IsChoice ([] ∷ rows) pre i c e h =
    let next = append_assoc pre ([] ∷ []) rows in
    rw next at (
      any_scan-IsChoice rows (pre ++ [] ∷ []) (i + 1) c (omega (arith, length-append pre ([] ∷ [])))
        (rw next h))
any_scan-IsChoice ((x ∷ row) ∷ rows) pre i c e h =
    let next = append_assoc pre ((x ∷ row) ∷ []) rows in
    rw next at (
      any_scan-IsChoice rows (pre ++ (x ∷ row) ∷ []) (i + 1) (some (x, i))
        (omega (arith, length-append pre ((x ∷ row) ∷ [])))
        (rw next (HeadAt-append pre x row rows i e)))

any_scan-ne-none :
    (rows : Rows) (i : ℕ) (c : ℤ × ℕ) (r : Choice) → any_scan i rows (some c) ≡ r → r ≡ none → ⊥
unfolding any_scan
any_scan-ne-none [] i c r e h = cc
any_scan-ne-none ([] ∷ rows) i c r e h = any_scan-ne-none rows (i + 1) c r e h
any_scan-ne-none ((x ∷ row) ∷ rows) i c r e h = any_scan-ne-none rows (i + 1) (x, i) r e h

-- Nothing is chosen only if no number is left.
pub any_scan-none : (rows : Rows) (i : ℕ) → any_scan i rows none ≡ none → flat rows ≡ []
unfolding any_scan
any_scan-none [] i e = refl
any_scan-none ([] ∷ rows) i e = any_scan-none rows (i + 1) e
any_scan-none ((x ∷ row) ∷ rows) i e = absurd (any_scan-ne-none rows (i + 1) (x, i) none e refl)

-- The first number of each row that has one is at least `x`.
abbrev HeadsAbove : ℤ → Rows → Type 0
HeadsAbove x [] = Unit
HeadsAbove x ([] ∷ rows) = HeadsAbove x rows
HeadsAbove x ((y ∷ row) ∷ rows) = (x ≤ℤ y) × HeadsAbove x rows

record IsMin (all rows : Rows) (c m : ℤ × ℕ) : Type 0 where
  head : HeadAt all m.1 m.0
  below : m.0 ≤ℤ c.0
  above : HeadsAbove m.0 rows

min_scan-IsMin :
    (rows pre : Rows) (i : ℕ) (c : ℤ × ℕ)
    → i ≡ length pre
    → HeadAt (pre ++ rows) c.1 c.0
    → IsMin (pre ++ rows) rows c (min_scan i rows c)
unfolding min_scan
min_scan-IsMin [] pre i c e h = record { head = h; below = omega arith; above = tt }
min_scan-IsMin ([] ∷ rows) pre i c e h =
    let next = append_assoc pre ([] ∷ []) rows in
    let ih =
      min_scan-IsMin rows (pre ++ [] ∷ []) (i + 1) c (omega (arith, length-append pre ([] ∷ [])))
        (rw next h) in
    record { head = rw next at (ih.head); below = ih.below; above = ih.above }
min_scan-IsMin ((x ∷ row) ∷ rows) pre i c e h =
    let next = append_assoc pre ((x ∷ row) ∷ []) rows in
    let k : i + 1 ≡ length (pre ++ (x ∷ row) ∷ []) =
      omega (arith, length-append pre ((x ∷ row) ∷ [])) in
    elim (Bool-cases (ltb_ℤ x c.0)) [
      | inl lt ↦
          let ih =
            min_scan-IsMin rows (pre ++ (x ∷ row) ∷ []) (i + 1) (x, i) k
              (rw next (HeadAt-append pre x row rows i e)) in
          let le : x ≤ℤ c.0 = ground arith in
          rw lt (record {
            head = rw next at (ih.head);
            below = omega (arith, ih.below, le);
            above = (ih.below, ih.above);
          })
      | inr ge ↦
          let ih = min_scan-IsMin rows (pre ++ (x ∷ row) ∷ []) (i + 1) c k (rw next h) in
          let le : c.0 ≤ℤ x = ground arith in
          rw ge (record {
            head = rw next at (ih.head);
            below = ih.below;
            above = (omega (arith, ih.below, le), ih.above);
          })
    ]

pub chosen_head : (rows : Rows) (c : ℤ × ℕ) → any_scan 0 rows none ≡ some c → HeadAt rows c.1 c.0
chosen_head rows c e = rw e at (any_scan-IsChoice rows [] 0 none refl tt)

abbrev pub AreSorted : Rows → Type 0
AreSorted = All IsSorted

IsBelow-flat : (x : ℤ) (rows : Rows) → AreSorted rows → HeadsAbove x rows → IsBelow x (flat rows)
IsBelow-flat x [] s h = tt
IsBelow-flat x ([] ∷ rows) s h = IsBelow-flat x rows s.1 h
IsBelow-flat x ((y ∷ row) ∷ rows) s h = (
  h.0,
  All-append (λ z. x ≤ℤ z) row (flat rows) (IsBelow-trans x y row h.0 s.0.0)
      (IsBelow-flat x rows s.1 h.1),
)

-- Rows that still have a number.
abbrev pub live : Rows → ℕ
live [] = 0
live ([] ∷ rows) = live rows
live ((x ∷ row) ∷ rows) = suc (live rows)

-- What it means for the rest of the rows that `x`, the head of row `i`, is taken.
pub record Taken (rows : Rows) (i : ℕ) (x : ℤ) : Type 0 where
  pub perm : Perm (flat rows) (x ∷ flat (advance i rows))
  pub kept : (z : ℤ) → IsBelow z (flat rows) → IsBelow z (x ∷ flat (advance i rows))
  pub fewer : length (flat rows) ≡ suc (length (flat (advance i rows)))
  pub sorted : AreSorted rows → AreSorted (advance i rows)
  pub still_live : live rows ≡ live (advance i rows) + exhausted i (advance i rows)

pub advance-Taken : (rows : Rows) (i : ℕ) (x : ℤ) → HeadAt rows i x → Taken rows i x
unfolding advance exhausted
advance-Taken [] i x h = absurd h
advance-Taken ([] ∷ rows) zero x h = absurd h
advance-Taken ((y ∷ []) ∷ rows) zero x h = rw (← h) (record {
  perm = Perm.refl (y ∷ flat rows);
  kept = λ z k. k;
  fewer = refl;
  sorted = λ s. (tt, s.1);
  still_live = omega arith;
})
advance-Taken ((y ∷ z ∷ row) ∷ rows) zero x h = rw (← h) (record {
  perm = Perm.refl (y ∷ z ∷ (row ++ flat rows));
  kept = λ z k. k;
  fewer = refl;
  sorted = λ s. (s.0.1, s.1);
  still_live = omega arith;
})
advance-Taken (row ∷ rows) (suc i) x h =
    let t = advance-Taken rows i x h in
    record {
      perm =
          Perm.trans (Perm.append_left row t.perm)
            (perm_middle {a = x} row (flat (advance i rows)));
      kept = λ z k.
          let (front, back) = All-split (λ y. z ≤ℤ y) row (flat rows) k in
          let (first, others) = t.kept z back in
          (first, All-append (λ y. z ≤ℤ y) row (flat (advance i rows)) front others);
      fewer = omega (
        arith,
        length-append row (flat rows),
        length-append row (flat (advance i rows)),
        t.fewer,
      );
      sorted = λ s. (s.0, t.sorted s.1);
      still_live = live-cons row t.still_live;
    }
  where
    live-cons :
        (row : Cells)
        → live rows ≡ live (advance i rows) + exhausted i (advance i rows)
        → live (row ∷ rows) ≡ live (row ∷ advance i rows) + exhausted i (advance i rows)
    live-cons [] e = e
    live-cons (y ∷ row) e = omega (arith, e)

-- The number that the two scans choose.
pub record Least (rows : Rows) (c m : ℤ × ℕ) : Type 0 where
  pub taken : Taken rows m.1 m.0
  pub least : AreSorted rows → IsBelow m.0 (flat rows)

pub min_scan-Least :
    (rows : Rows) (c : ℤ × ℕ) → any_scan 0 rows none ≡ some c → Least rows c (min_scan 0 rows c)
min_scan-Least rows c e =
    let m = min_scan-IsMin rows [] 0 c refl (chosen_head rows c e) in
    record {
      taken = advance-Taken rows (min_scan 0 rows c).1 (min_scan 0 rows c).0 m.head;
      least = λ s. IsBelow-flat (min_scan 0 rows c).0 rows s m.above;
    }
