-- ===== src/Threads/Interleave.antt =====
-- Threads that share a state: a thread is the place that it has come to, a move is one access to
-- what is shared, and a schedule says who moves.
use iu_sysprog.Prelude.{ℕ, zero, suc, ◌+◌, ◌≤◌, List, [], ◌∷◌, ◌≡◌, arith, All}

abbrev pub sum {ℓ} : {A : Type ℓ} → (A → ℕ) → List A → ℕ
sum f [] = 0
sum f (x ∷ xs) = f x + sum f xs

-- The index of one amount.
pub data Single : Type 0 where
  single : Single

module _ {Pc Shared : Type 0} (step : Pc → Shared → Pc × Shared) where
  -- The thread at place `i` of the list moves; a thread that is not there does nothing.
  unfoldable pub moves : ℕ → List Pc → Shared → List Pc × Shared
  moves i [] m = ([], m)
  moves zero (pc ∷ pcs) m = let (pc', m') = step pc m in (pc' ∷ pcs, m')
  moves (suc i) (pc ∷ pcs) m = let (pcs', m') = moves i pcs m in (pc ∷ pcs', m')

  unfoldable pub interleave : List ℕ → List Pc → Shared → List Pc × Shared
  unfolding moves
  interleave [] pcs m = (pcs, m)
  interleave (i ∷ is) pcs m = let (pcs', m') = moves i pcs m in interleave is pcs' m'

  -- One lock: who holds it, what a thread knows of the shared state where it stands, what holds while
  -- nobody has the lock, and for each `k` an amount that the threads have left and that is done.
  module _ (holds : Pc → ℕ) (lock : Shared → ℕ) (Knows : Pc → Shared → Type 0)
      (Idle : Shared → Type 0) {K : Type 0} (left : K → Pc → ℕ) (done : K → Shared → ℕ)
      (total : K → ℕ) where
    -- What a step keeps, where the other threads hold the lock `x` times.
    pub record Kept (x : ℕ) (pc : Pc) (m : Shared) (pc' : Pc) (m' : Shared) : Type 0 where
      pub held : holds pc' + x ≡ lock m'
      pub once : lock m' ≤ 1
      pub knows : Knows pc' m'
      pub idle : lock m' ≡ 0 → Idle m'
      pub amount : (k : K) → done k m' + left k pc' ≡ done k m + left k pc
      pub spares : (q : Pc) → holds q ≤ x → Knows q m → Knows q m'

    abbrev pub Keeps : Type 0
    Keeps =
        (pc : Pc) (m : Shared) (x : ℕ)
        → holds pc + x ≡ lock m
        → lock m ≤ 1
        → Knows pc m
        → (lock m ≡ 0 → Idle m)
        → ((k : K) → done k m + left k pc ≤ total k)
        → Kept x pc m ((step pc m).0) ((step pc m).1)

    -- The invariant of threads, beside others that hold the lock `x` times and have `y` left.
    pub record IsSound (x : ℕ) (y : K → ℕ) (pcs : List Pc) (m : Shared) : Type 0 where
      pub held : sum holds pcs + x ≡ lock m
      pub once : lock m ≤ 1
      pub knows : All (λ pc. Knows pc m) pcs
      pub idle : lock m ≡ 0 → Idle m
      pub amount : (k : K) → done k m + sum (left k) pcs + y k ≡ total k

    module _ (keeps : Keeps) where
      spared :
          (x : ℕ) (pcs : List Pc) (m m' : Shared)
          → ((q : Pc) → holds q ≤ sum holds pcs + x → Knows q m → Knows q m')
          → All (λ pc. Knows pc m) pcs
          → All (λ pc. Knows pc m') pcs
      spared x [] m m' f h = tt
      spared x (pc ∷ pcs) m m' f h =
          (f pc (omega arith) h.0, spared x pcs m m' (λ q l. f q (omega (arith, l))) h.1)

      moves-IsSound :
          (i : ℕ) (pcs : List Pc) (m : Shared) (x : ℕ) (y : K → ℕ)
          → IsSound x y pcs m
          → IsSound x y ((moves i pcs m).0) ((moves i pcs m).1)
            × ((q : Pc) → holds q ≤ x → Knows q m → Knows q ((moves i pcs m).1))
      unfolding moves
      moves-IsSound i [] m x y s = (s, λ q l h. h)
      moves-IsSound zero (pc ∷ pcs) m x y s =
          let kept =
            keeps pc m (sum holds pcs + x) (omega (arith, s.held)) s.once s.knows.0 s.idle
              (λ k. omega (arith, s.amount k)) in
          (
            record {
              held = omega (arith, kept.held);
              once = kept.once;
              knows = (kept.knows, spared x pcs m ((step pc m).1) kept.spares s.knows.1);
              idle = kept.idle;
              amount = λ k. omega (arith, kept.amount k, s.amount k);
            },
            λ q l h. kept.spares q (omega (arith, l)) h,
          )
      moves-IsSound (suc i) (pc ∷ pcs) m x y s =
          let (ih, spares) =
            moves-IsSound i pcs m (holds pc + x) (λ k. left k pc + y k)
              (record {
                held = omega (arith, s.held);
                once = s.once;
                knows = s.knows.1;
                idle = s.idle;
                amount = λ k. omega (arith, s.amount k);
              }) in
          (
            record {
              held = omega (arith, ih.held);
              once = ih.once;
              knows = (spares pc (omega arith) s.knows.0, ih.knows);
              idle = ih.idle;
              amount = λ k. omega (arith, ih.amount k);
            },
            λ q l h. spares q (omega (arith, l)) h,
          )

      pub interleave-IsSound :
          (is : List ℕ) (pcs : List Pc) (m : Shared) (x : ℕ) (y : K → ℕ)
          → IsSound x y pcs m
          → IsSound x y ((interleave is pcs m).0) ((interleave is pcs m).1)
      unfolding interleave
      interleave-IsSound [] pcs m x y s = s
      interleave-IsSound (i ∷ is) pcs m x y s =
          interleave-IsSound is ((moves i pcs m).0) ((moves i pcs m).1) x y
            ((moves-IsSound i pcs m x y s).0)
