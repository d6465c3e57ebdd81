-- ===== src/Ipc/SharedMem/Handover.antt =====
-- Every interleaving of the two processes of lecture_examples/7_ipc/3_mem_sort.c hands the messages
-- over as they were written.
use mathlib.Core.Path.{subst}
use iu_sysprog.Prelude.{
  ℕ, ◌-◌, min, Bool, true, false, Option, List, [], ◌∷◌, ◌++◌, if◌then◌else◌, length, take, drop,
  ◌≡◌, ◌⊎◌, inl, inr, refl, sym, ap, ◌∙◌, arith, length-take, take-append,
}
use iu_sysprog.Ipc.SharedMem.{
  Pc, waits, copies, lowers, raises, returned, Shared, Writer, Reader, System, write_next,
  read_next, write_to_shared_mem, read_from_shared_mem, move, run, start,
}
use iu_sysprog.Ipc.SharedMem.Matched.{Asks, taken, Meets, Faces, round-Faces}

module _ (mem_size : ℕ) (asks : List (List ℕ) → Option ℕ) (messages : List (List ℕ)) where
  abbrev pub AreFaced : Pc × Writer → Pc × Reader → Type 0
  AreFaced = Faces mem_size asks messages

  abbrev pub Flags : Bool → Bool → Shared → Type 0
  Flags readable writable m = (m.is_readable ≡ readable) × (m.is_writable ≡ writable)

  -- The memory holds the bytes that the reader takes next, and what is to come is faced after that.
  pub record Carries (w : Pc × Writer) (r : Reader) (mem : List ℕ) : Type 0 where
    pub bytes : List ℕ
    pub behind : List ℕ
    pub holds : mem ≡ bytes ++ behind
    pub fits : length bytes ≡ min mem_size r.size
    pub faced : AreFaced w (read_next mem_size asks (taken bytes r))

  abbrev pub Inv : Pc → Pc → Shared → Writer → Reader → Type 0
  Inv waits waits m w r =
      (Flags false true m × Meets mem_size asks messages w r)
      ⊎ (Flags true false m × Carries (waits, w) r m.mem)
  Inv copies waits m w r = Flags false true m × Meets mem_size asks messages w r
  Inv lowers waits m w r = Flags false true m × Carries (write_next w.src w.queue) r m.mem
  Inv raises waits m w r = Flags false false m × Carries (write_next w.src w.queue) r m.mem
  Inv returned waits m w r = Flags true false m × Carries (returned, w) r m.mem
  Inv waits copies m w r = Flags true false m × Carries (waits, w) r m.mem
  Inv returned copies m w r = Flags true false m × Carries (returned, w) r m.mem
  Inv waits lowers m w r = Flags true false m × AreFaced (waits, w) (read_next mem_size asks r)
  Inv returned lowers m w r =
      Flags true false m × AreFaced (returned, w) (read_next mem_size asks r)
  Inv waits raises m w r = Flags false false m × AreFaced (waits, w) (read_next mem_size asks r)
  Inv returned raises m w r =
      Flags false false m × AreFaced (returned, w) (read_next mem_size asks r)
  Inv returned returned m w r = r.got ≡ messages
  Inv _ _ m w r = ⊥

  abbrev pub IsSound : System → Type 0
  IsSound s = Inv s.writes_at s.reads_at s.shared s.writer s.reader

  resumes :
      (w : Pc × Writer) (r : Reader) (m : Shared)
      → Flags true false m
      → Carries w r m.mem
      → Inv w.0 waits m w.1 r
  resumes (waits, w) r m f c = inr (f, c)
  resumes (returned, w) r m f c = (f, c)
  resumes (copies, w) r m f c = absurd c.faced
  resumes (lowers, w) r m f c = absurd c.faced
  resumes (raises, w) r m f c = absurd c.faced

  offers :
      (w : Writer) (r : Pc × Reader) (m : Shared)
      → Flags false true m
      → AreFaced (waits, w) r
      → Inv waits r.0 m w r.1
  offers w (waits, r) m f h = inl (f, h)
  offers w (returned, r) m f h = absurd h
  offers w (copies, r) m f h = absurd h
  offers w (lowers, r) m f h = absurd h
  offers w (raises, r) m f h = absurd h

  ends :
      (w : Writer) (r : Pc × Reader) (m : Shared)
      → AreFaced (returned, w) r
      → Inv returned r.0 m w r.1
  ends w (waits, r) m h = absurd h
  ends w (returned, r) m h = h
  ends w (copies, r) m h = absurd h
  ends w (lowers, r) m h = absurd h
  ends w (raises, r) m h = absurd h

  received :
      (w : Writer) (r : Reader) (m : Shared) (at : Pc)
      → Carries (at, w) r m.mem
      → AreFaced
          (at, w)
          (read_next mem_size asks (record r {
            size = r.size - min mem_size r.size;
            dst = r.dst ++ take (min mem_size r.size) m.mem;
          }))
  received w r m at c =
      let same : take (min mem_size r.size) m.mem ≡ c.bytes =
        ap (take (min mem_size r.size)) c.holds
        ∙ ap (λ n. take n (c.bytes ++ c.behind)) (sym c.fits)
        ∙ take-append c.bytes c.behind in
      let bytes =
        subst
          (λ n.
            AreFaced (at, w)
              (read_next mem_size asks (record r { size = r.size - n; dst = r.dst ++ c.bytes })))
          c.fits c.faced in
      subst
        (λ b.
          AreFaced (at, w)
            (read_next mem_size asks
              (record r { size = r.size - min mem_size r.size; dst = r.dst ++ b })))
        (sym same) bytes

  write-Inv :
      (wp rp : Pc) (m : Shared) (w : Writer) (r : Reader)
      → Inv wp rp m w r
      → let ((wp', w'), m') = write_to_shared_mem mem_size asks wp w m in Inv wp' rp m' w' r
  unfolding write_to_shared_mem
  write-Inv waits waits m w r (inl h) =
      subst (λ b. Inv (if b then copies else waits) waits m w r) (sym h.0.1) h
  write-Inv waits waits m w r (inr h) =
      subst (λ b. Inv (if b then copies else waits) waits m w r) (sym h.0.1) (inr h)
  write-Inv waits copies m w r h =
      subst (λ b. Inv (if b then copies else waits) copies m w r) (sym h.0.1) h
  write-Inv waits lowers m w r h =
      subst (λ b. Inv (if b then copies else waits) lowers m w r) (sym h.0.1) h
  write-Inv waits raises m w r h =
      subst (λ b. Inv (if b then copies else waits) raises m w r) (sym h.0.1) h
  write-Inv waits returned m w r h = absurd h
  write-Inv copies waits m w r h = (
    h.0,
    record {
      bytes = take (min mem_size (length w.src)) w.src;
      behind = drop (length (take (min mem_size (length w.src)) w.src)) m.mem;
      holds = refl;
      fits = omega (arith, h.1.same_size, length-take (min mem_size (length w.src)) w.src);
      faced = round-Faces mem_size asks messages w r h.1;
    },
  )
  write-Inv copies copies m w r h = absurd h
  write-Inv copies lowers m w r h = absurd h
  write-Inv copies raises m w r h = absurd h
  write-Inv copies returned m w r h = absurd h
  write-Inv lowers waits m w r h = ((h.0.0, refl), h.1)
  write-Inv lowers copies m w r h = absurd h
  write-Inv lowers lowers m w r h = absurd h
  write-Inv lowers raises m w r h = absurd h
  write-Inv lowers returned m w r h = absurd h
  write-Inv raises waits m w r h =
      resumes (write_next w.src w.queue) r (record m { is_readable = true }) (refl, h.0.1) h.1
  write-Inv raises copies m w r h = absurd h
  write-Inv raises lowers m w r h = absurd h
  write-Inv raises raises m w r h = absurd h
  write-Inv raises returned m w r h = absurd h
  write-Inv returned rp m w r h = h

  read-Inv :
      (wp rp : Pc) (m : Shared) (w : Writer) (r : Reader)
      → Inv wp rp m w r
      → let ((rp', r'), m') = read_from_shared_mem mem_size asks rp r m in Inv wp rp' m' w r'
  unfolding read_from_shared_mem
  read-Inv waits waits m w r (inl h) =
      subst (λ b. Inv waits (if b then copies else waits) m w r) (sym h.0.0) (inl h)
  read-Inv waits waits m w r (inr h) =
      subst (λ b. Inv waits (if b then copies else waits) m w r) (sym h.0.0) h
  read-Inv copies waits m w r h =
      subst (λ b. Inv copies (if b then copies else waits) m w r) (sym h.0.0) h
  read-Inv lowers waits m w r h =
      subst (λ b. Inv lowers (if b then copies else waits) m w r) (sym h.0.0) h
  read-Inv raises waits m w r h =
      subst (λ b. Inv raises (if b then copies else waits) m w r) (sym h.0.0) h
  read-Inv returned waits m w r h =
      subst (λ b. Inv returned (if b then copies else waits) m w r) (sym h.0.0) h
  read-Inv waits copies m w r h = (h.0, received w r m waits h.1)
  read-Inv returned copies m w r h = (h.0, received w r m returned h.1)
  read-Inv waits lowers m w r h = ((refl, h.0.1), h.1)
  read-Inv returned lowers m w r h = ((refl, h.0.1), h.1)
  read-Inv waits raises m w r h =
      offers w (read_next mem_size asks r) (record m { is_writable = true }) (h.0.0, refl) h.1
  read-Inv returned raises m w r h =
      ends w (read_next mem_size asks r) (record m { is_writable = true }) h.1
  read-Inv wp returned m w r h = h
  read-Inv copies copies m w r h = absurd h
  read-Inv copies lowers m w r h = absurd h
  read-Inv copies raises m w r h = absurd h
  read-Inv lowers copies m w r h = absurd h
  read-Inv lowers lowers m w r h = absurd h
  read-Inv lowers raises m w r h = absurd h
  read-Inv raises copies m w r h = absurd h
  read-Inv raises lowers m w r h = absurd h
  read-Inv raises raises m w r h = absurd h

  move-IsSound : (b : Bool) (s : System) → IsSound s → IsSound (move mem_size asks b s)
  unfolding move
  move-IsSound true s h = write-Inv s.writes_at s.reads_at s.shared s.writer s.reader h
  move-IsSound false s h = read-Inv s.writes_at s.reads_at s.shared s.writer s.reader h

  run-IsSound : (bs : List Bool) (s : System) → IsSound s → IsSound (run mem_size asks bs s)
  unfolding run
  run-IsSound [] s h = h
  run-IsSound (b ∷ bs) s h = run-IsSound bs (move mem_size asks b s) (move-IsSound b s h)

  -- A process that can move: its flag is up, or it does not wait.
  abbrev pub IsReady : Pc → Bool → Type 0
  IsReady waits flag = flag ≡ true
  IsReady returned flag = ⊥
  IsReady _ flag = Unit

  abbrev pub Goes : Pc → Pc → Shared → Reader → Type 0
  Goes wp rp m r =
      (IsReady wp m.is_writable ⊎ IsReady rp m.is_readable)
      ⊎ ((wp ≡ returned) × (rp ≡ returned) × (r.got ≡ messages))

  Inv-Goes : (wp rp : Pc) (m : Shared) (w : Writer) (r : Reader) → Inv wp rp m w r → Goes wp rp m r
  Inv-Goes waits waits m w r (inl h) = inl (inl h.0.1)
  Inv-Goes waits waits m w r (inr h) = inl (inr h.0.0)
  Inv-Goes waits copies m w r h = inl (inr tt)
  Inv-Goes waits lowers m w r h = inl (inr tt)
  Inv-Goes waits raises m w r h = inl (inr tt)
  Inv-Goes waits returned m w r h = absurd h
  Inv-Goes copies rp m w r h = inl (inl tt)
  Inv-Goes lowers rp m w r h = inl (inl tt)
  Inv-Goes raises rp m w r h = inl (inl tt)
  Inv-Goes returned waits m w r h = inl (inr h.0.0)
  Inv-Goes returned copies m w r h = inl (inr tt)
  Inv-Goes returned lowers m w r h = inl (inr tt)
  Inv-Goes returned raises m w r h = inl (inr tt)
  Inv-Goes returned returned m w r h = inr (refl, refl, h)

  Inv-got :
      (wp rp : Pc) (m : Shared) (w : Writer) (r : Reader)
      → Inv wp rp m w r
      → rp ≡ returned
      → r.got ≡ messages
  Inv-got wp waits m w r h e = cc
  Inv-got wp copies m w r h e = cc
  Inv-got wp lowers m w r h e = cc
  Inv-got wp raises m w r h e = cc
  Inv-got waits returned m w r h e = absurd h
  Inv-got copies returned m w r h e = absurd h
  Inv-got lowers returned m w r h e = absurd h
  Inv-got raises returned m w r h e = absurd h
  Inv-got returned returned m w r h e = h

start-IsSound :
    (mem_size : ℕ) (asks : List (List ℕ) → Option ℕ) (mem m : List ℕ) (queue : List (List ℕ))
    → Asks asks [] (m ∷ queue)
    → IsSound mem_size asks (m ∷ queue) (start mem_size asks mem m queue)
unfolding start
start-IsSound mem_size asks mem m queue a =
    rw (a.0) (inl ((refl, refl), record { same_size = refl; whole = refl; asked = a.1 }))

-- However the moves of the two processes are interleaved: where the reader asks for the lengths of
-- the messages and then for none, and has returned, it has read the messages that were written.
pub run-got :
    (mem_size : ℕ) (asks : List (List ℕ) → Option ℕ) (mem m : List ℕ) (queue : List (List ℕ))
    (bs : List Bool)
    → Asks asks [] (m ∷ queue)
    → (run mem_size asks bs (start mem_size asks mem m queue)).reads_at ≡ returned
    → (run mem_size asks bs (start mem_size asks mem m queue)).reader.got ≡ m ∷ queue
run-got mem_size asks mem m queue bs a e =
    let s = run mem_size asks bs (start mem_size asks mem m queue) in
    Inv-got mem_size asks (m ∷ queue) s.writes_at s.reads_at s.shared s.writer s.reader
      (run-IsSound mem_size asks (m ∷ queue) bs (start mem_size asks mem m queue)
        (start-IsSound mem_size asks mem m queue a))
      e

-- Nor do they block each other: after any moves, one of the two can move, or both have returned, and
-- the messages have been read.
pub run-Goes :
    (mem_size : ℕ) (asks : List (List ℕ) → Option ℕ) (mem m : List ℕ) (queue : List (List ℕ))
    (bs : List Bool)
    → Asks asks [] (m ∷ queue)
    → let s = run mem_size asks bs (start mem_size asks mem m queue) in
      Goes mem_size asks (m ∷ queue) s.writes_at s.reads_at s.shared s.reader
run-Goes mem_size asks mem m queue bs a =
    let s = run mem_size asks bs (start mem_size asks mem m queue) in
    Inv-Goes mem_size asks (m ∷ queue) s.writes_at s.reads_at s.shared s.writer s.reader (
      run-IsSound mem_size asks (m ∷ queue) bs (start mem_size asks mem m queue)
        (start-IsSound mem_size asks mem m queue a))
