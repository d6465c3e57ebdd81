-- ===== src/Sorter/Main/Total.antt =====
-- The command line of 1/solution/solution.c, and the whole run of its `main`.
use mathlib.Core.Path.{subst}
use mathlib.Mathlib.Data.Multiset.Defs.{of_list}
use iu_sysprog.Prelude.{
  Bool, Option, ℕ, zero, suc, ◌+◌, ◌-◌, ◌*◌, ◌≤◌, ◌<◌, true, false, ◌⊎◌, inl, inr, some, List, [],
  ◌∷◌, ◌≡◌, refl, sym, ap, ◌∙◌, arith, All, drop, leb, bytes_eq, length, get_elem?,
}
use iu_sysprog.Prelude.Int.{ℤ, pos}
use iu_sysprog.Threads.Interleave.{sum}
use iu_sysprog.Sorter.Merge.{Cells}
use iu_sysprog.Sorter.Bag.{ascending}
use iu_sysprog.Sorter.Scans.{flat}
use iu_sysprog.Sorter.Program.{arrays, output, output-ascending}
use iu_sysprog.Sorter.Input.{Stream, scanned, read_file}
use iu_sysprog.Sorter.Workers.{Pc, left, fetches, sorts, Shared, have_left, wait_all}
use iu_sysprog.Sorter.Workers.Safety.{starting, unread, length-starting}
use iu_sysprog.Sorter.Workers.Ends.{left_of, unprocessed, Picks, wait_all-Runs}
use iu_sysprog.Sorter.Main.{
  Name, flag, read_args, file_names, row_at, read_all, main, Asks, chosen, default,
}

abbrev head_of : List Name → Name
head_of [] = []
head_of (x ∷ xs) = x

abbrev tail_of : List Name → List Name
tail_of [] = []
tail_of (x ∷ xs) = xs

drop-cons :
    (argv : List Name) (i k : ℕ) {name : Name} {names : List Name}
    → k ≡ suc i
    → drop i argv ≡ name ∷ names
    → (get_elem? argv i ≡ some name) × (drop k argv ≡ names)
drop-cons [] zero k n e = cc
drop-cons [] (suc i) k n e = cc
drop-cons (x ∷ argv) zero k n e = rw n (ap (λ l. some (head_of l)) e, ap tail_of e)
drop-cons (x ∷ argv) (suc i) k n e = rw n (drop-cons argv i (suc i) refl e)

file_names-drop :
    (argv : List Name) (i : ℕ) (names : List Name)
    → drop i argv ≡ names
    → file_names (length names) i argv ≡ some names
unfolding file_names
file_names-drop argv i [] e = refl
file_names-drop argv i (name ∷ names) e =
    let (here, behind) = drop-cons argv i (i + 1) (omega arith) e in
    rw (here, file_names-drop argv (i + 1) names behind) refl

-- Without the flag, or where nothing can stand behind it, all arguments are names.
no_flag :
    (atoi : Name → ℤ) (prog name : Name) (names : List Name)
    → (bytes_eq name flag ≡ false) ⊎ (names ≡ [])
    → read_args atoi (prog ∷ name ∷ names)
      ≡ record { coro_param = pos 6; files_count = suc (length names) }
unfolding read_args
no_flag atoi prog name [] h = refl
no_flag atoi prog name (x ∷ names) (inr h) = cc
no_flag atoi prog name (x ∷ names) (inl h) =
    let argc = suc (suc (suc (length names))) in
    let enough : leb 3 argc ≡ true = ground arith in
    let rest : argc - 1 ≡ suc (suc (length names)) = omega arith in rw (enough, h, rest) refl

read_args-Asks :
    (atoi : Name → ℤ) (argv : List Name) (n : ℕ) (names : List Name)
    → Asks atoi argv n names
    → ((read_args atoi argv).coro_param ≡ pos (suc n))
      × ((read_args atoi argv).files_count ≡ length names)
      × (drop (length argv - length names) argv ≡ names)
unfolding read_args
read_args-Asks atoi _ _ _ (chosen prog count name names n e) =
    let argc = suc (suc (suc (suc (length names)))) in
    let enough : leb 3 argc ≡ true = ground arith in
    let start : argc - suc (length names) ≡ 3 = omega arith in
    (rw enough e, rw enough (omega arith), rw start refl)
read_args-Asks atoi _ _ _ (default prog name names h) =
    let start : suc (suc (length names)) - suc (length names) ≡ 1 = omega arith in
    let e = no_flag atoi prog name names h in (rw e refl, rw e refl, rw start refl)

arrays-row_at :
    (rows : List Cells) (i : ℕ) (numbers : ℕ → Cells)
    → ((j : ℕ) → j < length rows → numbers (i + j) ≡ row_at rows j)
    → arrays (length rows) i numbers ≡ rows
unfolding arrays
arrays-row_at [] i numbers h = refl
arrays-row_at (row ∷ rows) i numbers h =
    let here : i + 0 ≡ i = omega arith in
    let first = ap numbers (sym here) ∙ h 0 (omega arith) in
    let rest = arrays-row_at rows (i + 1) numbers (λ j l.
      let e : i + 1 + j ≡ i + suc j = omega arith in ap numbers e ∙ h (suc j) (omega (arith, l))) in
    rw (first, rest) refl

have_left-All : (pcs : List Pc) → have_left pcs ≡ true → All (λ pc. pc ≡ left) pcs
have_left-All [] h = tt
have_left-All (left ∷ pcs) h = (refl, have_left-All pcs h)
have_left-All (fetches ∷ pcs) h = cc
have_left-All (sorts i ∷ pcs) h = cc

all_of_left :
    (pcs : List Pc) (n : ℕ)
    → have_left pcs ≡ true
    → length pcs ≡ suc n
    → (rest : List Pc) × (pcs ≡ left ∷ rest) × All (λ pc. pc ≡ left) rest
all_of_left [] n h l = absurd (omega (arith, l))
all_of_left (left ∷ pcs) n h l = (pcs, refl, have_left-All pcs h)
all_of_left (fetches ∷ pcs) n h l = cc
all_of_left (sorts i ∷ pcs) n h l = cc

sum-starting : (n : ℕ) → sum left_of (starting n) ≡ n
sum-starting zero = refl
sum-starting (suc n) = omega (arith, sum-starting n)

all_unprocessed : (size i : ℕ) → unprocessed size i (λ j. false) ≡ size
all_unprocessed zero i = refl
all_unprocessed (suc size) i = omega (arith, all_unprocessed size (i + 1))

module _ (clock : ℕ → ℕ) (pick : ℕ → List Pc → ℕ) (picks : Picks pick) where
  wait_all-ascending :
      (size : ℕ) (contents : ℕ → Cells) (n moves : ℕ)
      → (contents 0 ≡ [] → ⊥)
      → 2 * suc size + suc n ≤ moves
      → (pcs : List Pc) × (m : Shared) × (wait_all clock
            (suc size)
            contents
            pick
            moves
            (starting (suc n))
            unread
          ≡ some (pcs, m))
        × (output (suc size) m ≡ some (ascending (of_list (flat (arrays (suc size) 0 contents)))))
  wait_all-ascending size contents n moves some_number enough =
      let potential = sum-starting (suc n) in
      let files = all_unprocessed (suc size) 0 in
      let r =
        wait_all-Runs clock (suc size) contents pick picks moves (starting (suc n)) unread
          (omega (arith, enough, potential, files)) in
      let coros = length-starting (suc n) in
      let (rest, last, all) = all_of_left r.last n r.all_left (r.amount ∙ coros) in
      (
        r.last,
        r.state,
        r.waited,
        output-ascending clock size contents (suc n) r.turns rest r.state
            (subst (λ l. All (λ k. k < l) r.turns) coros r.inside)
            (r.scheduled ∙ ap (λ l. some (l, r.state)) last) all some_number,
      )

module _ (realloc : ℕ → Bool) (junk : ℕ → ℤ) (calloc : Bool) (fuel : ℕ)
    (files : Name → Option Stream) where
  -- `read_file` returns these arrays for the files of these names.
  abbrev pub AreRead : List Name → List Cells → Type 0
  AreRead [] [] = Unit
  AreRead (name ∷ names) (row ∷ rows) =
      (read_file realloc junk calloc fuel (files name) ≡ some (scanned row (length row)))
      × AreRead names rows
  AreRead _ _ = ⊥

  read_all-AreRead :
      (names : List Name) (rows : List Cells)
      → AreRead names rows
      → (read_all realloc junk calloc fuel files names ≡ some rows) × (length rows ≡ length names)
  unfolding read_all
  read_all-AreRead [] [] h = (refl, refl)
  read_all-AreRead [] (row ∷ rows) h = absurd h
  read_all-AreRead (name ∷ names) [] h = absurd h
  read_all-AreRead (name ∷ names) (row ∷ rows) h =
      let (rest, same) = read_all-AreRead names rows h.1 in (rw (h.0, rest) refl, ap suc same)

  -- For every command line that asks for one coroutine at least and names one file at least, where
  -- read_file returns an array for each of the files, and that of the first is not empty: whichever
  -- coroutine that has not left goes on at each move, main waits for at most two moves for each file and
  -- one for each coroutine, and then writes the ascending array of the bag of the numbers of all files.
  pub main-ascending :
      (clock : ℕ → ℕ) (atoi : Name → ℤ) (pick : ℕ → List Pc → ℕ)
      → Picks pick
      → (argv : List Name) (n : ℕ) (name : Name) (names : List Name) (x : ℤ) (row : Cells)
        (rows : List Cells) (moves : ℕ)
      → Asks atoi argv n (name ∷ names)
      → AreRead (name ∷ names) ((x ∷ row) ∷ rows)
      → 2 * suc (length names) + suc n ≤ moves
      → main realloc junk calloc fuel files clock atoi pick moves argv
        ≡ some (ascending (of_list (flat ((x ∷ row) ∷ rows))))
  unfolding main
  main-ascending clock atoi pick picks argv n name names x row rows moves asks read enough =
      let contents = row_at ((x ∷ row) ∷ rows) in
      let (coros, count, tail) = read_args-Asks atoi argv n (name ∷ names) asks in
      let listed = file_names-drop argv (length argv - length (name ∷ names)) (name ∷ names) tail in
      let (all_read, same) = read_all-AreRead (name ∷ names) ((x ∷ row) ∷ rows) read in
      let table =
        arrays-row_at ((x ∷ row) ∷ rows) 0 contents
          (λ j l. let e : 0 + j ≡ j = omega arith in ap contents e) in
      let (pcs, m, waited, wrote) =
        wait_all-ascending clock pick picks (length names) contents n moves (λ e. cc) enough in
      rw (count, listed, coros, all_read, waited, wrote)
        (ap (λ k. some (ascending (of_list (flat (arrays k 0 contents))))) (sym same)
          ∙ ap (λ (l : List Cells). some (ascending (of_list (flat l)))) table)
