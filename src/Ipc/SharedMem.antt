-- ===== src/Ipc/SharedMem.antt =====
-- `write_to_shared_mem` and `read_from_shared_mem` of lecture_examples/7_ipc/3_mem_sort.c: two
-- processes hand bytes over through `mem_size` bytes of shared memory and two flags. A process is
-- the place that it has come to and its locals; a move is one access to the shared memory, and a
-- move that finds its flag down changes nothing. `sorter` writes one message behind the other, and
-- the parent reads one behind the other, where the bytes that it has read say how many come next.
pub mod Matched
pub mod Handover
use iu_sysprog.Prelude.{
  ℕ, ◌-◌, min, Bool, true, false, Option, none, some, List, [], ◌∷◌, ◌++◌, ◌==◌, if◌then◌else◌,
  length, take, drop,
}

-- The flags `mem[IS_READABLE]` and `mem[IS_WRITABLE]`, and the bytes behind them.
pub record Shared : Type 0 where
  pub is_readable : Bool
  pub is_writable : Bool
  pub mem : List ℕ

-- The wait for the flag, the `memcpy`, the two stores of the flags, and the return from the last call.
pub data Pc : Type 0 where
  waits : Pc
  copies : Pc
  lowers : Pc
  raises : Pc
  returned : Pc

-- The `size` bytes from `src` on, and the messages that `sorter` writes behind this one.
pub record Writer : Type 0 where
  pub src : List ℕ
  pub queue : List (List ℕ)

-- The `size` bytes that are missing, those from `dst` on, and the messages before.
pub record Reader : Type 0 where
  pub size : ℕ
  pub dst : List ℕ
  pub got : List (List ℕ)

pub record System : Type 0 where
  pub shared : Shared
  pub writes_at : Pc
  pub writer : Writer
  pub reads_at : Pc
  pub reader : Reader

-- `memcpy(mem, bytes, ...)`: what lies behind the bytes in the memory stays.
abbrev pub overwrite : List ℕ → List ℕ → List ℕ
overwrite bytes mem = bytes ++ drop (length bytes) mem

-- The end of a round: `if (size == 0) break`, and the call for the next message.
unfoldable pub write_next : List ℕ → List (List ℕ) → Pc × Writer
write_next (x ∷ src) queue = (waits, record { src = x ∷ src; queue = queue })
write_next [] (m ∷ queue) = (waits, record { src = m; queue = queue })
write_next [] [] = (returned, record { src = []; queue = [] })

-- `mem_size` is `MEM_SIZE - MEM_META_SIZE`; `asks` is the caller of `read_from_shared_mem`: the
-- number of bytes that it reads next, where it has the messages so far.
module _ (mem_size : ℕ) (asks : List (List ℕ) → Option ℕ) where
  unfoldable pub write_to_shared_mem : Pc → Writer → Shared → (Pc × Writer) × Shared
  unfolding write_next
  write_to_shared_mem waits w m = ((if m.is_writable then copies else waits, w), m)
  write_to_shared_mem copies w m =
      let to_copy = min mem_size (length w.src) in
      (
        (lowers, record w { src = drop to_copy w.src }),
        record m { mem = overwrite (take to_copy w.src) m.mem },
      )
  write_to_shared_mem lowers w m = ((raises, w), record m { is_writable = false })
  write_to_shared_mem raises w m = (write_next w.src w.queue, record m { is_readable = true })
  write_to_shared_mem returned w m = ((returned, w), m)

  abbrev pub read_begin : List (List ℕ) → Option ℕ → Pc × Reader
  read_begin got none = (returned, record { size = 0; dst = []; got = got })
  read_begin got (some n) = (waits, record { size = n; dst = []; got = got })

  unfoldable pub read_next : Reader → Pc × Reader
  read_next r =
      if r.size == 0
      then read_begin (r.got ++ r.dst ∷ []) (asks (r.got ++ r.dst ∷ []))
      else (waits, r)

  unfoldable pub read_from_shared_mem : Pc → Reader → Shared → (Pc × Reader) × Shared
  unfolding read_next
  read_from_shared_mem waits r m = ((if m.is_readable then copies else waits, r), m)
  read_from_shared_mem copies r m =
      let to_copy = min mem_size r.size in
      ((lowers, record r { size = r.size - to_copy; dst = r.dst ++ take to_copy m.mem }), m)
  read_from_shared_mem lowers r m = ((raises, r), record m { is_readable = false })
  read_from_shared_mem raises r m = (read_next r, record m { is_writable = true })
  read_from_shared_mem returned r m = ((returned, r), m)

  -- A move of the writer, for `true`, or of the reader.
  unfoldable pub move : Bool → System → System
  unfolding write_to_shared_mem read_from_shared_mem
  move true s =
      let ((at, w), m) = write_to_shared_mem s.writes_at s.writer s.shared in
      record s { writes_at = at; writer = w; shared = m }
  move false s =
      let ((at, r), m) = read_from_shared_mem s.reads_at s.reader s.shared in
      record s { reads_at = at; reader = r; shared = m }

  unfoldable pub run : List Bool → System → System
  unfolding move
  run [] s = s
  run (b ∷ bs) s = run bs (move b s)

  -- `main` clears the readable flag and sets the other one; the writer has a message at least.
  unfoldable pub start : List ℕ → List ℕ → List (List ℕ) → System
  start mem m queue =
      let (at, r) = read_begin [] (asks []) in
      record {
        shared = record { is_readable = false; is_writable = true; mem = mem };
        writes_at = waits;
        writer = record { src = m; queue = queue };
        reads_at = at;
        reader = r;
      }
