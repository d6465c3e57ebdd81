-- ===== src/HeapHelp/Touch.antt =====
-- `heaph_touch` of utils/heap_help/heap_help.c, in any number of threads. A thread is the place that
-- it has come to; a move is one atomic operation on what the threads share. The waiting of
-- `heaph_lock` is a move that changes nothing.
use iu_sysprog.Prelude.{ℕ, zero, suc, ◌+◌, Bool, true, false, List, [], ◌∷◌, if◌then◌else◌}

-- The places: before the load of `is_done`, in the spin, at `heaph_init`, at the exchange, at
-- `heaph_unlock`, at the last `assert`, behind it, and in a failed `assert`.
pub data Pc : Type 0 where
  loads : Pc
  spins : Pc
  inits : Pc
  exchanges : Pc
  unlocks : Bool → Pc
  asserts : Bool → Pc
  touched : Pc
  aborted : Pc

-- `inited` counts the calls of `heaph_init`.
pub record Shared : Type 0 where
  pub global_lock : Bool
  pub is_done : Bool
  pub inited : ℕ

unfoldable pub heaph_unlock : Bool → Shared → Pc × Shared
heaph_unlock old m =
    if m.global_lock then (asserts old, record m { global_lock = false }) else (aborted, m)

-- The exchange of `global_lock` with true.
unfoldable pub heaph_lock : Shared → Pc × Shared
heaph_lock m = if m.global_lock then (spins, m) else (inits, record m { global_lock = true })

unfoldable pub heaph_touch : Pc → Shared → Pc × Shared
unfolding heaph_lock heaph_unlock
heaph_touch loads m = (if m.is_done then touched else spins, m)
heaph_touch spins m = heaph_lock m
heaph_touch inits m = (exchanges, record m { inited = m.inited + 1 })
heaph_touch exchanges m = (unlocks (m.is_done), record m { is_done = true })
heaph_touch (unlocks old) m = heaph_unlock old m
heaph_touch (asserts old) m = (if old then aborted else touched, m)
heaph_touch touched m = (touched, m)
heaph_touch aborted m = (aborted, m)

-- The thread at place `i` of the list moves; a thread that is not there does nothing.
unfoldable pub move : ℕ → List Pc → Shared → List Pc × Shared
unfolding heaph_touch
move i [] m = ([], m)
move zero (pc ∷ pcs) m = let (pc', m') = heaph_touch pc m in (pc' ∷ pcs, m')
move (suc i) (pc ∷ pcs) m = let (pcs', m') = move i pcs m in (pc ∷ pcs', m')

-- The moves of a schedule.
unfoldable pub schedule : List ℕ → List Pc → Shared → List Pc × Shared
unfolding move
schedule [] pcs m = (pcs, m)
schedule (i ∷ is) pcs m = let (pcs', m') = move i pcs m in schedule is pcs' m'

abbrev pub untouched : Shared
untouched = record { global_lock = false; is_done = false; inited = 0 }
