-- ===== src/Tests/Workers.antt =====
-- Two coroutines and two files.
use iu_sysprog.Prelude.{ℕ, zero, suc, true, false, some, List, [], ◌∷◌, ◌≡◌, refl, arith}
use iu_sysprog.Prelude.Int.{pos}
use iu_sysprog.Sorter.Merge.{Cells}
use iu_sysprog.Sorter.Scans.{flat}
use mathlib.Mathlib.Data.Multiset.Defs.{of_list}
use iu_sysprog.Sorter.Bag.{ascending}
use iu_sysprog.Sorter.Main.{Name, main, chosen}
use iu_sysprog.Sorter.Main.Total.{AreRead, main-ascending}
use iu_sysprog.Sorter.Input.{Stream, number, ended, read_file}
use iu_sysprog.Prelude.{Bool, Option, none}
use iu_sysprog.Sorter.Workers.{Pc, fetches, sorts}
use iu_sysprog.Sorter.Workers.Ends.{Picks}
use iu_sysprog.Prelude.{◌-◌}
use iu_sysprog.Prelude.Int.{ℤ}
use iu_sysprog.Sorter.Program.{output-ascending, arrays, output}
use iu_sysprog.Sorter.Workers.{left, Shared, put, schedule}
use iu_sysprog.Sorter.Workers.Safety.{starting, unread}

abbrev clock : ℕ → ℕ
clock n = n

abbrev contents : ℕ → Cells
contents zero = pos 4 ∷ pos 2 ∷ []
contents (suc i) = pos 1 ∷ []

-- Both take a file, the second sorts first, and each finds nothing left.
abbrev turns : List ℕ
turns = 0 ∷ 1 ∷ 1 ∷ 1 ∷ 0 ∷ 0 ∷ []

abbrev finished : Shared
finished = record {
  processed = put (put (λ i. false) 0 true) 1 true;
  numbers =
      put (put (put (put (λ i. []) 0 (contents 0)) 1 (contents 1)) 1 (pos 1 ∷ [])) 0
        (pos 2 ∷ pos 4 ∷ []);
}

all_left : schedule clock 2 contents turns (starting 2) unread ≡ some (left ∷ left ∷ [], finished)
unfolding schedule
all_left = refl

output-ascending_example :
    output 2 finished ≡ some (ascending (of_list (flat (arrays 2 0 contents))))
output-ascending_example =
    output-ascending clock 1 contents 2 turns (left ∷ []) finished
      (omega arith, (omega arith, (omega arith, (omega arith, (omega arith, (omega arith, tt))))))
      all_left (refl, tt) (λ e. cc)

-- The first coroutine that has not left.
abbrev first_busy : List Pc → ℕ
first_busy [] = 0
first_busy (left ∷ pcs) = suc (first_busy pcs)
first_busy (pc ∷ pcs) = 0

first_busy-Picks : Picks (λ n pcs. first_busy pcs)
first_busy-Picks n [] e = cc
first_busy-Picks n (left ∷ pcs) e = first_busy-Picks n pcs e
first_busy-Picks n (fetches ∷ pcs) e = (fetches, refl, refl)
first_busy-Picks n (sorts i ∷ pcs) e = (sorts i, refl, refl)

abbrev digit : Name → ℤ
digit [] = pos 0
digit (c ∷ cs) = pos (c - b'0')

-- A file of the first byte of its name and 2.
abbrev named_file : Name → Option Stream
named_file [] = none
named_file (c ∷ cs) = some (number (pos c) (number (pos 2) ended))

abbrev any_memory : ℕ → Bool
any_memory n = true

abbrev no_junk : ℕ → ℤ
no_junk i = pos 0

files_read :
    AreRead any_memory no_junk true 3 named_file
      ((b'd' ∷ []) ∷ (b'a' ∷ []) ∷ [])
      ((pos 100 ∷ pos 2 ∷ []) ∷ (pos 97 ∷ pos 2 ∷ []) ∷ [])
unfolding read_file
files_read = (refl, (refl, tt))

-- sort -c 2 d a
main-ascending_example :
    main any_memory no_junk true 3 named_file clock digit
      (λ n pcs. first_busy pcs)
      6
      ((b's' ∷ []) ∷ (b'-' ∷ b'c' ∷ []) ∷ (b'2' ∷ []) ∷ (b'd' ∷ []) ∷ (b'a' ∷ []) ∷ [])
    ≡ some (ascending (of_list (flat ((pos 100 ∷ pos 2 ∷ []) ∷ (pos 97 ∷ pos 2 ∷ []) ∷ []))))
main-ascending_example =
    main-ascending any_memory no_junk true 3 named_file clock digit (λ n pcs. first_busy pcs)
      first_busy-Picks
      ((b's' ∷ []) ∷ (b'-' ∷ b'c' ∷ []) ∷ (b'2' ∷ []) ∷ (b'd' ∷ []) ∷ (b'a' ∷ []) ∷ []) 1
      (b'd' ∷ []) ((b'a' ∷ []) ∷ []) (pos 100) (pos 2 ∷ []) ((pos 97 ∷ pos 2 ∷ []) ∷ []) 6
      (chosen (b's' ∷ []) (b'2' ∷ []) (b'd' ∷ []) ((b'a' ∷ []) ∷ []) 1 refl) files_read
      (omega arith)
