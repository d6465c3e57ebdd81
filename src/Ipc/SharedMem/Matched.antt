-- ===== src/Ipc/SharedMem/Matched.antt =====
-- What the two processes of lecture_examples/7_ipc/3_mem_sort.c have before them agrees, round for
-- round, where the reader asks for what is written.
use mathlib.Core.Path.{subst}
use iu_sysprog.Prelude.{
  ℕ, ◌+◌, ◌-◌, min, true, false, Option, none, some, List, [], ◌∷◌, ◌++◌, ◌==◌, length, take, drop,
  ◌≡◌, refl, sym, ap, ◌∙◌, arith, take-drop, length-take, length-drop, append_assoc, append-nil,
}
use iu_sysprog.Ipc.SharedMem.{
  Pc, waits, returned, Writer, Reader, write_next, read_begin, read_next,
}

-- The reader asks for the lengths of the messages that are to come, and then for none.
abbrev pub Asks : (List (List ℕ) → Option ℕ) → List (List ℕ) → List (List ℕ) → Type 0
Asks asks before [] = asks before ≡ none
Asks asks before (m ∷ queue) = (asks before ≡ some (length m)) × Asks asks (before ++ m ∷ []) queue

abbrev pub taken : List ℕ → Reader → Reader
taken bytes r = record r { size = r.size - length bytes; dst = r.dst ++ bytes }

module _ (mem_size : ℕ) (asks : List (List ℕ) → Option ℕ) (messages : List (List ℕ)) where
  -- The reader waits for the bytes that the writer has left of a message.
  pub record Meets (w : Writer) (r : Reader) : Type 0 where
    pub same_size : r.size ≡ length w.src
    pub whole : r.got ++ (r.dst ++ w.src) ∷ w.queue ≡ messages
    pub asked : Asks asks (r.got ++ (r.dst ++ w.src) ∷ []) w.queue

  abbrev pub Faces : Pc × Writer → Pc × Reader → Type 0
  Faces (waits, w) (waits, r) = Meets w r
  Faces (returned, w) (returned, r) = r.got ≡ messages
  Faces _ _ = ⊥

  -- A round of both keeps them facing each other.
  begins :
      (got : List (List ℕ)) (m : List ℕ) (queue : List (List ℕ))
      → got ++ m ∷ queue ≡ messages
      → Asks asks (got ++ m ∷ []) queue
      → Faces
          (write_next [] queue)
          (read_begin mem_size asks (got ++ m ∷ []) (asks (got ++ m ∷ [])))
  unfolding write_next
  begins got m [] e a = rw a (e)
  begins got m (m' ∷ queue) e a =
      rw (a.0) (record {
        same_size = refl;
        whole = append_assoc got (m ∷ []) (m' ∷ queue) ∙ e;
        asked = a.1;
      })

  split-Faces :
      (c rest : List ℕ) (queue : List (List ℕ)) (r : Reader)
      → r.size ≡ length c + length rest
      → r.got ++ (r.dst ++ (c ++ rest)) ∷ queue ≡ messages
      → Asks asks (r.got ++ (r.dst ++ (c ++ rest)) ∷ []) queue
      → Faces (write_next rest queue) (read_next mem_size asks (taken c r))
  unfolding read_next write_next
  split-Faces c [] queue r n e a =
      let empty : (r.size - length c == 0) ≡ true = ground (arith, n) in
      rw empty (begins r.got (r.dst ++ c) queue (rw (append-nil) at e) (rw (append-nil) at a))
  split-Faces c (x ∷ rest) queue r n e a =
      let more : (r.size - length c == 0) ≡ false = ground (arith, n) in
      rw more (record {
        same_size = omega (arith, n);
        whole = ap (λ m. r.got ++ m ∷ queue) (append_assoc r.dst c (x ∷ rest)) ∙ e;
        asked =
            subst (λ m. Asks asks (r.got ++ m ∷ []) queue) (sym (append_assoc r.dst c (x ∷ rest)))
              a;
      })

  pub round-Faces :
      (w : Writer) (r : Reader)
      → Meets w r
      → Faces
          (write_next (drop (min mem_size (length w.src)) w.src) w.queue)
          (read_next mem_size asks (taken (take (min mem_size (length w.src)) w.src) r))
  round-Faces w r h =
      let n = min mem_size (length w.src) in
      let whole = sym (take-drop n w.src) in
      split-Faces (take n w.src) (drop n w.src) w.queue r
        (omega (arith, h.same_size, length-take n w.src, length-drop n w.src))
        (ap (λ src. r.got ++ (r.dst ++ src) ∷ w.queue) (take-drop n w.src) ∙ h.whole)
        (subst (λ src. Asks asks (r.got ++ (r.dst ++ src) ∷ []) w.queue) whole h.asked)
