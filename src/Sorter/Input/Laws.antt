-- ===== src/Sorter/Input/Laws.antt =====
-- What `read_file` of 1/solution/solution.c makes of a file of numbers, and of other text.
use iu_sysprog.Prelude.{
  ℕ, zero, suc, ◌+◌, ◌*◌, ◌^◌, ◌≤◌, ◌<◌, Bool, true, false, Option, none, some, [], ◌∷◌, ◌++◌,
  ◌>>=◌, ◌==◌, ◌≡◌, ◌⊎◌, inl, inr, refl, sym, ltb, arith, length, length-append, append-nil,
  append_assoc, Bool-cases,
}
use iu_sysprog.Prelude.Int.{ℤ}
use iu_sysprog.Sorter.Merge.{Cells}
use iu_sysprog.Sorter.Input.{
  Stream, ended, stuck, number, Input, scanned, exited, undefined, Memory, enough, fails, scan,
  grow, scan_loop, shrink, read_file, into_null,
}

-- A file that holds numbers, and text behind them or none.
abbrev pub file_of : Cells → Stream → Stream
file_of [] rest = rest
file_of (x ∷ xs) rest = number x (file_of xs rest)

-- A refused request for memory ends the program.
abbrev pub Refused : (ℕ → Bool) → Type 0
Refused realloc = (n : ℕ) × (realloc n ≡ false)

-- The results of a loop that does not end by itself.
abbrev pub IsLost : Option Input → Type 0
IsLost (some (scanned temp count)) = ⊥
IsLost _ = Unit

abbrev pub IsSound : Memory → Type 0
IsSound (fails (scanned temp count)) = ⊥
IsSound _ = Unit

module _ (realloc : ℕ → Bool) (junk : ℕ → ℤ) where
  fits :
      (count allocated : ℕ)
      → count < 2 ^ 30
      → (count == allocated) ≡ true
      → ltb (allocated * 2) (2 ^ 31) ≡ true
  fits count allocated h e = ground (arith, e)

  inside : (n allocated : ℕ) → n < allocated → ltb n allocated ≡ true
  inside n allocated h = ground (arith, h)

  grow-enough :
      (count allocated : ℕ)
      → 0 < count
      → count < 2 ^ 30
      → count ≤ allocated
      → allocated < 2 * count + 2
      → ((more : ℕ) × (grow realloc junk count allocated ≡ enough more)
          × (count < more)
          × (more < 2 * count + 2))
        ⊎ ((grow realloc junk count allocated ≡ fails exited) × Refused realloc)
  unfolding grow
  grow-enough count allocated p h l u = elim (Bool-cases (count == allocated)) [
    | inr e ↦ rw e (inl (allocated, refl, ground (arith, e), omega (arith, u)))
    | inl e ↦ elim (Bool-cases (realloc (4 * (allocated * 2)))) [
      | inl ok ↦
          rw (e, fits count allocated h e, ok)
            (inl (allocated * 2, refl, ground (arith, e), ground (arith, e)))
      | inr denied ↦
          rw (e, fits count allocated h e, denied) (inr (refl, (4 * (allocated * 2), denied)))
    ]
  ]

  scan_loop-file :
      (xs temp : Cells) (allocated fuel : ℕ)
      → length temp + length xs < 2 ^ 30
      → length temp < allocated
      → allocated < 2 * length temp + 2
      → length xs < fuel
      → (scan_loop realloc junk fuel (file_of xs ended) temp allocated
          ≡ some (scanned (temp ++ xs) (length (temp ++ xs))))
        ⊎ ((scan_loop realloc junk fuel (file_of xs ended) temp allocated ≡ some exited)
            × Refused realloc)
  unfolding scan_loop scan
  scan_loop-file xs temp allocated zero h l u f = absurd (omega (arith, f))
  scan_loop-file [] temp allocated (suc fuel) h l u f =
      rw (inside (length temp) allocated l, append-nil temp) (inl refl)
  scan_loop-file (x ∷ xs) temp allocated (suc fuel) h l u f =
      elim (grow-enough (suc (length temp)) allocated (omega arith) (omega (arith, h))
        (omega (arith, l)) (omega (arith, u))) [
          | inr (e, denied) ↦ rw (inside (length temp) allocated l, e) (inr (refl, denied))
          | inl (more, e, above, below) ↦
              let n = length-append temp (x ∷ []) in
              let rest =
                scan_loop-file xs (temp ++ x ∷ []) more fuel (omega (arith, n, h))
                  (omega (arith, n, above)) (omega (arith, n, below)) (omega (arith, f)) in
              rw (inside (length temp) allocated l, e, sym (append_assoc temp (x ∷ []) xs)) rest
        ]

  -- The loop and the cut behind it, once there is memory for the first cell.
  scanned_file :
      (xs : Cells)
      → length xs < 2 ^ 30
      → ((scan_loop realloc junk (length xs + 1) (file_of xs ended) [] 1 >>= λ i.
            some (shrink realloc junk i))
          ≡ some (scanned xs (length xs)))
        ⊎ (((scan_loop realloc junk (length xs + 1) (file_of xs ended) [] 1 >>= λ i.
                some (shrink realloc junk i))
              ≡ some exited)
            × Refused realloc)
  unfolding shrink
  scanned_file xs h =
      elim (scan_loop-file xs [] 1 (length xs + 1) (omega (arith, h)) (omega arith) (omega arith)
        (omega arith)) [
          | inr (e, denied) ↦ rw e (inr (refl, denied))
          | inl e ↦ elim (Bool-cases (realloc (4 * length xs))) [
            | inl ok ↦ rw (e, ok) (inl refl)
            | inr denied ↦ rw (e, denied) (inr (refl, (4 * length xs, denied)))
          ]
        ]

  -- For a file of fewer than 2^30 numbers, with fuel for one round more than there are numbers: the
  -- numbers and their amount are returned, or realloc refused a request and the program exits, or
  -- calloc refused the memory for the first cell and a number is written through NULL. Where calloc
  -- gives it, nothing undefined is done: no cell outside the memory is written, and no `int` overflows.
  pub read_file-file :
      (calloc : Bool) (xs : Cells)
      → length xs < 2 ^ 30
      → (read_file realloc junk calloc (length xs + 1) (some (file_of xs ended))
          ≡ some (scanned xs (length xs)))
        ⊎ (((read_file realloc junk calloc (length xs + 1) (some (file_of xs ended)) ≡ some exited)
              × Refused realloc)
            ⊎ ((read_file realloc junk calloc (length xs + 1) (some (file_of xs ended))
                  ≡ some undefined)
                × (calloc ≡ false)))
  unfolding read_file
  read_file-file true xs h = elim (scanned_file xs h) [ inl e ↦ inl e | inr d ↦ inr (inl d) ]
  read_file-file false [] h = elim (scanned_file [] h) [ inl e ↦ inl e | inr d ↦ inr (inl d) ]
  read_file-file false (x ∷ xs) h = inr (inr (refl, refl))

  grow-IsSound : (count allocated : ℕ) → IsSound (grow realloc junk count allocated)
  unfolding grow
  grow-IsSound count allocated = elim (Bool-cases (count == allocated)) [
    | inr e ↦ rw e tt
    | inl e ↦ elim (Bool-cases (ltb (allocated * 2) (2 ^ 31))) [
      | inr big ↦ rw (e, big) tt
      | inl small ↦ elim (Bool-cases (realloc (4 * (allocated * 2)))) [
        | inl ok ↦ rw (e, small, ok) tt
        | inr denied ↦ rw (e, small, denied) tt
      ]
    ]
  ]

  turn-IsLost :
      (m : Memory) (next : ℕ → Option Input)
      → IsSound m
      → ((more : ℕ) → IsLost (next more))
      → IsLost (elim m [ enough more ↦ next more | fails how ↦ some how ])
  turn-IsLost (enough more) next s h = h more
  turn-IsLost (fails (scanned temp count)) next s h = absurd s
  turn-IsLost (fails exited) next s h = tt
  turn-IsLost (fails undefined) next s h = tt

  scan_loop-stuck :
      (fuel : ℕ) (temp : Cells) (allocated : ℕ)
      → IsLost (scan_loop realloc junk fuel stuck temp allocated)
  unfolding scan_loop scan
  scan_loop-stuck zero temp allocated = tt
  scan_loop-stuck (suc fuel) temp allocated = elim (Bool-cases (ltb (length temp) allocated)) [
    | inr e ↦ rw e tt
    | inl e ↦ rw e (
        turn-IsLost (grow realloc junk (suc (length temp)) allocated)
          (λ more. scan_loop realloc junk fuel stuck (temp ++ junk (length temp) ∷ []) more)
          (grow-IsSound (suc (length temp)) allocated)
          (λ more. scan_loop-stuck fuel (temp ++ junk (length temp) ∷ []) more))
  ]

  scan_loop-text :
      (xs : Cells) (fuel : ℕ) (temp : Cells) (allocated : ℕ)
      → IsLost (scan_loop realloc junk fuel (file_of xs stuck) temp allocated)
  unfolding scan_loop scan
  scan_loop-text [] fuel temp allocated = scan_loop-stuck fuel temp allocated
  scan_loop-text (x ∷ xs) zero temp allocated = tt
  scan_loop-text (x ∷ xs) (suc fuel) temp allocated =
      elim (Bool-cases (ltb (length temp) allocated)) [
        | inr e ↦ rw e tt
        | inl e ↦ rw e (
            turn-IsLost (grow realloc junk (suc (length temp)) allocated)
              (λ more. scan_loop realloc junk fuel (file_of xs stuck) (temp ++ x ∷ []) more)
              (grow-IsSound (suc (length temp)) allocated)
              (λ more. scan_loop-text xs fuel (temp ++ x ∷ []) more))
      ]

  shrunk-IsLost : (o : Option Input) → IsLost o → IsLost (o >>= λ i. some (shrink realloc junk i))
  unfolding shrink
  shrunk-IsLost none h = tt
  shrunk-IsLost (some (scanned temp count)) h = absurd h
  shrunk-IsLost (some exited) h = tt
  shrunk-IsLost (some undefined) h = tt

  -- For a file with numbers and then text at which `fscanf` stays, no amount of fuel makes the function
  -- return an array.
  pub read_file-text :
      (calloc : Bool) (xs : Cells) (fuel : ℕ)
      → IsLost (read_file realloc junk calloc fuel (some (file_of xs stuck)))
  unfolding read_file
  read_file-text calloc xs fuel =
      let lost =
        shrunk-IsLost (scan_loop realloc junk fuel (file_of xs stuck) [] 1)
          (scan_loop-text xs fuel [] 1) in
      elim (Bool-cases (into_null realloc junk calloc (file_of xs stuck))) [
        | inl e ↦ rw e tt
        | inr e ↦ rw e lost
      ]
