-- ===== src/Coro/Alloca.antt =====
-- The coroutines of examples/coro_alloca.c: an array of a fixed length, and the choice of the one that
-- goes on. The contexts are left out.
use iu_sysprog.Prelude.{
  ℕ, zero, suc, ◌+◌, ◌%◌, Bool, true, false, Option, none, some, List, [], ◌∷◌, ◌≡◌, refl, ap, ◌∙◌,
  length, get_elem?, if◌then◌else◌,
}

-- `coros[i].is_finished`; a read outside the array is `none`.
abbrev pub Coros : Type 0
Coros = List Bool

-- One look at a coroutine, by its flag; `rest` is what the loop does behind it.
abbrev pub try_next : ℕ → Option (Option ℕ) → Option Bool → Option (Option ℕ)
try_next next rest none = none
try_next next rest (some true) = rest
try_next next rest (some false) = some (some next)

-- The `for` of `coro_yield`, with the rounds that are left. The outer `none` is a read outside the
-- array; the inner one says that nothing was done, and else the coroutine that goes on.
unfoldable pub yield_loop : ℕ → ℕ → Coros → Option (Option ℕ)
yield_loop zero coro_i coros = some none
yield_loop (suc rounds) coro_i coros =
    let next = (coro_i + 1) % length coros in
    try_next next (yield_loop rounds coro_i coros) (get_elem? coros next)

unfoldable pub coro_yield : ℕ → Coros → Option (Option ℕ)
unfolding yield_loop
coro_yield coro_i coros = yield_loop (length coros) coro_i coros

-- The `for` of `coro_continue_next` from `i` on: the coroutine that goes on.
unfoldable pub coro_continue_next : ℕ → Coros → Option ℕ
coro_continue_next i [] = none
coro_continue_next i (finished ∷ coros) =
    let rest = coro_continue_next (i + 1) coros in if finished then rest else some i

-- One look at the coroutine behind, with wrap-around.
abbrev pub looks_ahead : ℕ → Option Bool → Option (Option ℕ)
looks_ahead next = try_next next (some none)

yield_loop-done :
    (rounds coro_i : ℕ) (coros : Coros)
    → get_elem? coros ((coro_i + 1) % length coros) ≡ some true
    → yield_loop rounds coro_i coros ≡ some none
unfolding yield_loop
yield_loop-done zero coro_i coros e = refl
yield_loop-done (suc rounds) coro_i coros e =
    ap (try_next ((coro_i + 1) % length coros) (yield_loop rounds coro_i coros)) e
    ∙ yield_loop-done rounds coro_i coros e

yield_loop-ahead :
    (rounds coro_i : ℕ) (coros : Coros) (o : Option Bool)
    → get_elem? coros ((coro_i + 1) % length coros) ≡ o
    → yield_loop (suc rounds) coro_i coros ≡ looks_ahead ((coro_i + 1) % length coros) o
unfolding yield_loop
yield_loop-ahead rounds coro_i coros none e =
    ap (try_next ((coro_i + 1) % length coros) (yield_loop rounds coro_i coros)) e
yield_loop-ahead rounds coro_i coros (some true) e = yield_loop-done (suc rounds) coro_i coros e
yield_loop-ahead rounds coro_i coros (some false) e =
    ap (try_next ((coro_i + 1) % length coros) (yield_loop rounds coro_i coros)) e

-- The rounds of coro_yield do what one look at the coroutine behind does: it goes on if it has not
-- finished; if it has, nothing is done, and no other coroutine is looked at.
pub coro_yield-looks_ahead :
    (coro_i : ℕ) (c : Bool) (coros : Coros)
    → let next = (coro_i + 1) % length (c ∷ coros) in
      coro_yield coro_i (c ∷ coros) ≡ looks_ahead next (get_elem? (c ∷ coros) next)
unfolding coro_yield
coro_yield-looks_ahead coro_i c coros =
    yield_loop-ahead (length coros) coro_i (c ∷ coros)
      (get_elem? (c ∷ coros) ((coro_i + 1) % length (c ∷ coros))) refl
