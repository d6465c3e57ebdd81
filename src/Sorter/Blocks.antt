-- ===== src/Sorter/Blocks.antt =====
-- One pass of the merge sort: sorted runs of `c` cells become sorted runs of `2 * c`.
use mathlib.Core.List.{Perm}
use mathlib.Core.List.Perm
use iu_sysprog.Prelude.{
  ℕ, zero, suc, ◌+◌, ◌-◌, ◌*◌, ◌≤◌, ◌<◌, ◌≡◌, true, false, refl, ap, sym, ◌∙◌, Option, none, some,
  [], ◌∷◌, ◌++◌, ltb, length, length-append, min, arith, inl, inr, Bool-cases, append-nil,
  append_assoc,
}
use iu_sysprog.Sorter.Merge.{Cells, me_merge}
use iu_sysprog.Sorter.Sorted.{IsSorted, merged, merged-perm, merged-IsSorted, length-merged}
use iu_sysprog.Sorter.MergeLaws.{me_merge-merged}
use iu_sysprog.Sorter.MergeSort.{Sorting, yield_block, merge_pass}

-- Runs of `c` cells, and a last one of at most `c`, are sorted.
pub data Blocks (c : ℕ) : Cells → Type 0 where
  final : {l : Cells} → length l ≤ c → IsSorted l → Blocks c l
  block :
      {l : Cells} (run rest : Cells)
      → l ≡ run ++ rest
      → length run ≡ c
      → IsSorted run
      → Blocks c rest
      → Blocks c l

pub short-IsSorted : (l : Cells) → length l ≤ 1 → IsSorted l
short-IsSorted [] h = tt
short-IsSorted (x ∷ []) h = (tt, tt)
short-IsSorted (x ∷ y ∷ l) h = absurd (omega arith)

-- What a pass leaves of the cells `rest` from `left_start` on.
pub record Passed (c : ℕ) (pre rest : Cells) (t : Sorting) : Type 0 where
  pub left : Cells
  pub splits : t.array ≡ pre ++ left
  pub runs : Blocks c left
  pub perm : Perm left rest

abbrev pub Passes : ℕ → Cells → Cells → Option Sorting → Type 0
Passes c pre rest none = ⊥
Passes c pre rest (some t) = Passed c pre rest t

module _ (clock : ℕ → ℕ) (c rhs : ℕ) (c_pos : 0 < c) where
  merge_pass-stop :
      (fuel left_start : ℕ) (s : Sorting)
      → rhs ≤ left_start + 1
      → merge_pass clock (suc fuel) left_start c rhs s ≡ some s
  unfolding merge_pass
  merge_pass-stop fuel left_start s h =
      let e : ltb left_start (rhs - 1) ≡ false = ground arith in rw e

  merge_pass-go :
      (fuel left_start mid right_end : ℕ) (s : Sorting) (array : Cells)
      → left_start < rhs - 1
      → mid ≡ min (left_start + c - 1) (rhs - 1)
      → right_end ≡ min (left_start + 2 * c - 1) (rhs - 1)
      → me_merge s.array left_start mid right_end ≡ some array
      → merge_pass clock (suc fuel) left_start c rhs s
        ≡ merge_pass clock fuel
            (left_start + 2 * c)
            c
            rhs
            (yield_block clock (record s { array = array }))
  unfolding merge_pass
  merge_pass-go fuel left_start mid right_end s array h m r e =
      let test : ltb left_start (rhs - 1) ≡ true = ground arith in rw test (rw (← m, ← r, e))

  yield_block-array : (s : Sorting) → (yield_block clock s).array ≡ s.array
  unfolding yield_block
  yield_block-array s = refl

  -- The facts of the loop at its head, with the cells `pre` done and `rest` to do.
  pub record At (fuel left_start : ℕ) (pre rest : Cells) (s : Sorting) : Type 0 where
    pub cells : s.array ≡ pre ++ rest
    pub here : left_start ≡ length pre
    pub bound : rhs ≡ length pre + length rest
    pub fuelled : rhs - left_start < fuel

  -- The pass ends with the pair of runs `l` and `r`.
  pass_last :
      (fuel left_start : ℕ) (pre l r : Cells) (s : Sorting)
      → At fuel left_start pre (l ++ r) s
      → left_start < rhs - 1
      → left_start + length l ≡ min (left_start + c) rhs
      → IsSorted l
      → IsSorted r
      → length (l ++ r) ≤ 2 * c
      → Passes (2 * c) pre (l ++ r) (merge_pass clock fuel left_start c rhs s)
  pass_last zero left_start pre l r s a go mid sl sr short = absurd (omega (arith, a.fuelled))
  pass_last (suc zero) left_start pre l r s a go mid sl sr short = absurd (omega (arith, a.fuelled))
  pass_last (suc (suc fuel)) left_start pre l r s a go mid sl sr short =
      let n = length-append l r in
      let m = left_start + length l - 1 in
      let array =
        rw (append-nil r, append-nil (merged l r)) at
          (me_merge-merged pre l r [] left_start m (rhs - 1) a.here (omega arith)
            (omega (arith, a.bound, a.here))) in
      let array' = rw (← a.cells) at array in
      let step =
        merge_pass-go (suc fuel) left_start m (rhs - 1) s (pre ++ merged l r) go (omega arith)
          (omega (arith, a.bound, a.here)) array' in
      rw
        (
          step,
          merge_pass-stop fuel (left_start + 2 * c)
              (yield_block clock (record s { array = pre ++ merged l r }))
              (omega (arith, a.bound, a.here)),
        )
        (record {
          left = merged l r;
          splits = yield_block-array (record s { array = pre ++ merged l r });
          runs = final (omega (arith, length-merged l r)) (merged-IsSorted l r sl sr);
          perm = merged-perm l r;
        })

  -- At most one cell is left.
  pass_short :
      (fuel left_start : ℕ) (pre rest : Cells) (s : Sorting)
      → At fuel left_start pre rest s
      → rhs ≤ left_start + 1
      → Passes (2 * c) pre rest (merge_pass clock fuel left_start c rhs s)
  pass_short zero left_start pre rest s a h = absurd (omega (arith, a.fuelled))
  pass_short (suc fuel) left_start pre rest s a h =
      rw (merge_pass-stop fuel left_start s h) (record {
        left = rest;
        splits = a.cells;
        runs =
            final (omega (arith, a.bound, a.here))
              (short-IsSorted rest (omega (arith, a.bound, a.here)));
        perm = Perm.refl rest;
      })

  -- Two full runs, and the rest of the pass behind them.
  pass_pair :
      (fuel left_start : ℕ) (pre l r rest : Cells) (s : Sorting)
      → At (suc fuel) left_start pre (l ++ (r ++ rest)) s
      → length l ≡ c
      → length r ≡ c
      → IsSorted l
      → IsSorted r
      → ((t : Sorting)
          → At fuel (left_start + 2 * c) (pre ++ merged l r) rest t
          → Passes
              (2 * c)
              (pre ++ merged l r)
              rest
              (merge_pass clock fuel (left_start + 2 * c) c rhs t))
      → Passes (2 * c) pre (l ++ (r ++ rest)) (merge_pass clock (suc fuel) left_start c rhs s)
  pass_pair fuel left_start pre l r rest s a nl nr sl sr ih =
      let n = length-append l (r ++ rest) in
      let n' = length-append r rest in
      let n'' = length-append pre (merged l r) in
      let n3 = length-merged l r in
      let m = left_start + length l - 1 in
      let end = m + length r in
      let array = me_merge-merged pre l r rest left_start m end a.here (omega arith) refl in
      let array' = rw (← a.cells) at array in
      let step =
        merge_pass-go fuel left_start m end s (pre ++ (merged l r ++ rest))
          (omega (arith, a.bound, a.here)) (omega (arith, a.bound, a.here))
          (omega (arith, a.bound, a.here)) array' in
      let t = yield_block clock (record s { array = pre ++ (merged l r ++ rest) }) in
      let at : At fuel (left_start + 2 * c) (pre ++ merged l r) rest t = record {
        cells =
            yield_block-array (record s { array = pre ++ (merged l r ++ rest) })
            ∙ sym (append_assoc pre (merged l r) rest);
        here = omega (arith, a.here);
        bound = omega (arith, a.bound);
        fuelled = omega (arith, a.fuelled, a.bound, a.here);
      } in
      rw step (joined (merge_pass clock fuel (left_start + 2 * c) c rhs t) (ih t at))
    where
      joined :
          (o : Option Sorting)
          → Passes (2 * c) (pre ++ merged l r) rest o
          → Passes (2 * c) pre (l ++ (r ++ rest)) o
      joined none h = absurd h
      joined (some t) h = record {
        left = merged l r ++ h.left;
        splits = h.splits ∙ append_assoc pre (merged l r) h.left;
        runs =
            block (merged l r) h.left refl (omega (arith, length-merged l r))
              (merged-IsSorted l r sl sr) h.runs;
        perm =
            Perm.trans (Perm.append (merged-perm l r) h.perm)
              (rw append_assoc (Perm.refl (l ++ (r ++ rest))));
      }

  stops : (left_start : ℕ) → ltb left_start (rhs - 1) ≡ false → rhs ≤ left_start + 1
  stops left_start h = ground arith

  goes : (left_start : ℕ) → ltb left_start (rhs - 1) ≡ true → left_start < rhs - 1
  goes left_start h = ground arith

  -- A pass over sorted runs of `c` cells ends with its fuel, and leaves sorted runs of twice as
  -- many, which hold the same cells.
  pub merge_pass-Passes :
      (fuel left_start : ℕ) (pre rest : Cells) (s : Sorting)
      → At fuel left_start pre rest s
      → Blocks c rest
      → Passes (2 * c) pre rest (merge_pass clock fuel left_start c rhs s)
  merge_pass-Passes zero left_start pre rest s a b = absurd (omega (arith, a.fuelled))
  merge_pass-Passes (suc fuel) left_start pre rest s a (final le so) =
      elim (Bool-cases (ltb left_start (rhs - 1))) [
        | inl go ↦ rw append-nil at (
            pass_last (suc fuel) left_start pre rest [] s (rw (← append-nil rest) at a)
              (goes left_start go) (omega (arith, a.bound, a.here)) so tt
              (rw append-nil (omega arith)))
        | inr stop ↦ pass_short (suc fuel) left_start pre rest s a (stops left_start stop)
      ]
  merge_pass-Passes (suc fuel) left_start pre rest s a (block run more e n so (final le so')) =
      elim (Bool-cases (ltb left_start (rhs - 1))) [
        | inl go ↦
            let k = length-append run more in
            rw e (
              pass_last (suc fuel) left_start pre run more s (rw e at a) (goes left_start go)
                (omega (arith, a.bound, a.here, ap length e)) so so' (omega arith))
        | inr stop ↦ pass_short (suc fuel) left_start pre rest s a (stops left_start stop)
      ]
  merge_pass-Passes (suc fuel) left_start pre rest s a
        (block run more e n so (block run' more' e' n' so' b)) =
      let whole = e ∙ ap (λ l. run ++ l) e' in
      rw whole (
        pass_pair fuel left_start pre run run' more' s (rw whole at a) n n' so so' (λ t at.
          merge_pass-Passes fuel (left_start + 2 * c) (pre ++ merged run run') more' t at b))
