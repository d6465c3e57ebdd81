-- ===== src/Sorter/Time.antt =====
-- The time that a coroutine counts for itself while it sorts.
use iu_sysprog.Prelude.{
  sym, ap, ◌∙◌, ℕ, zero, suc, ◌+◌, ◌-◌, ◌*◌, ◌%◌, ◌^◌, ◌≤◌, ◌<◌, ◌≡◌, refl, some, >>=-eq-some,
  some-inj, ltb, leb, min, arith, inl, inr, Bool-cases,
}
use mathlib.Core.Path.{subst}
use iu_sysprog.Sorter.Merge.{me_merge}
use iu_sysprog.Sorter.MergeSort.{
  Sorting, add_time, yield_block, merge_pass, size_loop, me_mergesort,
}

-- A clock that does not go back, and whose readings fit `uint64_t`.
pub record IsClock (clock : ℕ → ℕ) : Type 0 where
  pub steps : (n : ℕ) → clock n ≤ clock (n + 1)
  pub fits : (n : ℕ) → clock n < 2 ^ 64

-- The time counted so far is not more than the clock showed when the coroutine was resumed, and
-- that reading is not ahead of the clock.
pub record IsTimed (clock : ℕ → ℕ) (s : Sorting) : Type 0 where
  pub summed : s.t_summary ≤ s.t_invoked
  pub resumed : s.t_invoked ≤ clock s.readings

-- The time of `k` turns of a coroutine that was resumed at the time `invoked` and then reads the clock
-- for the reading `r`: each turn is from a resumption to the next stop, and the clock is read at both.
abbrev pub worked : (ℕ → ℕ) → ℕ → ℕ → ℕ → ℕ
worked clock invoked r zero = 0
worked clock invoked r (suc k) = (clock r - invoked) + worked clock (clock (r + 1)) (r + 2) k

-- The time of the last resumption.
abbrev pub resumed_at : (ℕ → ℕ) → ℕ → ℕ → ℕ → ℕ
resumed_at clock invoked r zero = invoked
resumed_at clock invoked r (suc k) = resumed_at clock (clock (r + 1)) (r + 2) k

-- From `s` to `t` the coroutine gave way `turns` times, looked at the clock twice for each, and counted
-- exactly the time that it ran.
pub record Spends (clock : ℕ → ℕ) (s t : Sorting) : Type 0 where
  pub turns : ℕ
  pub switched : t.switches ≡ s.switches + turns
  pub counted : t.readings ≡ s.readings + 2 * turns
  pub summed_up : t.t_summary ≡ s.t_summary + worked clock s.t_invoked s.readings turns
  pub invoked : t.t_invoked ≡ resumed_at clock s.t_invoked s.readings turns
  pub timed : IsTimed clock t

worked-append :
    (clock : ℕ → ℕ) (j k m i r r' : ℕ)
    → m ≡ j + k
    → r' ≡ r + 2 * j
    → (worked clock i r m ≡ worked clock i r j + worked clock (resumed_at clock i r j) r' k)
      × (resumed_at clock i r m ≡ resumed_at clock (resumed_at clock i r j) r' k)
worked-append clock zero k m i r r' e f =
    let e' : m ≡ k = omega (arith, e) in
    let f' : r' ≡ r = omega (arith, f) in rw (e', f') (omega arith, refl)
worked-append clock (suc j) k zero i r r' e f = absurd (omega (arith, e))
worked-append clock (suc j) k (suc m) i r r' e f =
    let (sums, times) =
      worked-append clock j k m (clock (r + 1)) (r + 2) r' (omega (arith, e)) (omega (arith, f)) in
    (omega (arith, sums), times)

module _ (clock : ℕ → ℕ) (c : IsClock clock) where
  Spends-refl : (s : Sorting) → IsTimed clock s → Spends clock s s
  Spends-refl s h = record {
    turns = 0;
    switched = omega arith;
    counted = omega arith;
    summed_up = omega arith;
    invoked = refl;
    timed = h;
  }

  Spends-trans : (s t u : Sorting) → Spends clock s t → Spends clock t u → Spends clock s u
  Spends-trans s t u h k =
      let (sums, times) =
        worked-append clock h.turns k.turns (h.turns + k.turns) s.t_invoked s.readings t.readings
          refl h.counted in
      let from = ap (λ i. worked clock i t.readings k.turns) h.invoked in
      record {
        turns = h.turns + k.turns;
        switched = omega (arith, h.switched, k.switched);
        counted = omega (arith, h.counted, k.counted);
        summed_up = omega (arith, h.summed_up, k.summed_up, sums, from);
        invoked = k.invoked ∙ ap (λ i. resumed_at clock i t.readings k.turns) h.invoked ∙ sym times;
        timed = k.timed;
      }

  yield_block-Spends : (s : Sorting) → IsTimed clock s → Spends clock s (yield_block clock s)
  unfolding yield_block add_time
  yield_block-Spends s h =
      let now = clock s.readings in
      let fits : now < 2 ^ 64 = c.fits s.readings in
      let later : now ≤ clock (s.readings + 1) = c.steps s.readings in
      let later' : clock (s.readings + 1) ≤ clock (s.readings + 1 + 1) = c.steps (s.readings + 1) in
      let wrapped : (s.t_summary + (now + 2 ^ 64 - s.t_invoked)) % 2 ^ 64
          ≡ s.t_summary + (now - s.t_invoked) =
        omega (arith, h.summed, h.resumed) in
      record {
        turns = 1;
        switched = omega arith;
        counted = omega arith;
        summed_up = omega (arith, wrapped);
        invoked = refl;
        timed = record { summed = omega (arith, h.summed, h.resumed); resumed = later' };
      }

  merge_pass-Spends :
      (fuel left_start curr rhs : ℕ) (s : Sorting) {t : Sorting}
      → IsTimed clock s
      → merge_pass clock fuel left_start curr rhs s ≡ some t
      → Spends clock s t
  unfolding merge_pass
  merge_pass-Spends zero left_start curr rhs s h e = cc
  merge_pass-Spends (suc fuel) left_start curr rhs s {t} h e =
      elim (Bool-cases (ltb left_start (rhs - 1))) [
        | inl go ↦
            let (array, _, e') =
              >>=-eq-some
                (me_merge s.array left_start (min (left_start + curr - 1) (rhs - 1))
                  (min (left_start + 2 * curr - 1) (rhs - 1)))
                _ (rw go at e) in
            let s' = record s { array = array } in
            let y = yield_block-Spends s' (record { summed = h.summed; resumed = h.resumed }) in
            let r =
              merge_pass-Spends fuel (left_start + 2 * curr) curr rhs (yield_block clock s') y.timed
                e' in
            let y' : Spends clock s (yield_block clock s') = record {
              turns = y.turns;
              switched = y.switched;
              counted = y.counted;
              summed_up = y.summed_up;
              invoked = y.invoked;
              timed = y.timed;
            } in
            Spends-trans s (yield_block clock s') t y' r
        | inr stop ↦ subst (Spends clock s) (some-inj (rw stop at e)) (Spends-refl s h)
      ]

  size_loop-Spends :
      (fuel curr rhs : ℕ) (s : Sorting) {t : Sorting}
      → IsTimed clock s
      → size_loop clock fuel curr rhs s ≡ some t
      → Spends clock s t
  unfolding size_loop
  size_loop-Spends zero curr rhs s h e = cc
  size_loop-Spends (suc fuel) curr rhs s {t} h e = elim (Bool-cases (leb curr rhs)) [
    | inl go ↦
        let (s', e', e'') = >>=-eq-some (merge_pass clock (rhs + 1) 0 curr rhs s) _ (rw go at e) in
        let p = merge_pass-Spends (rhs + 1) 0 curr rhs s h e' in
        let y = yield_block-Spends s' p.timed in
        let r = size_loop-Spends fuel (2 * curr) rhs (yield_block clock s') y.timed e'' in
        Spends-trans s s' t p (Spends-trans s' (yield_block clock s') t y r)
    | inr stop ↦ subst (Spends clock s) (some-inj (rw stop at e)) (Spends-refl s h)
  ]

  -- With a clock that does not go back and fits `uint64_t`, for a coroutine that has counted before no
  -- more than the time at which it was resumed: while it sorts, it adds to its time exactly the sum of
  -- the times from each of its resumptions to the stop behind it, without wrap-around, and the switch
  -- count that it stores is that of its switches, each with two clock readings.
  pub me_mergesort-Spends :
      (rhs : ℕ) (s : Sorting) {t : Sorting}
      → IsTimed clock s
      → me_mergesort clock rhs s ≡ some t
      → Spends clock s t × (t.switch_count ≡ t.switches)
  unfolding me_mergesort
  me_mergesort-Spends rhs s h e =
      let (s', e', e'') = >>=-eq-some (size_loop clock (rhs + 1) 1 rhs s) _ e in
      let r = size_loop-Spends (rhs + 1) 1 rhs s h e' in
      subst (λ t. Spends clock s t × (t.switch_count ≡ t.switches)) (some-inj e'')
        (
          record {
            turns = r.turns;
            switched = r.switched;
            counted = r.counted;
            summed_up = r.summed_up;
            invoked = r.invoked;
            timed = record { summed = r.timed.summed; resumed = r.timed.resumed };
          },
          refl,
        )
