-- ===== src/Net/Serving.antt =====
-- The loop over the clients of lecture_examples/9_aio, against a walk along the list.
use mathlib.Core.Path.{subst}
use iu_sysprog.Prelude.{
  ℕ, zero, suc, ◌+◌, ◌-◌, ◌<◌, Bool, true, false, Option, none, some, List, [], ◌∷◌, ◌++◌, ltb,
  length, take, drop, get_elem?, ◌≡◌, ◌⊎◌, refl, sym, ap, ◌∙◌, arith, append-nil, append_assoc,
  Bool-cases, inl, inr, length-append,
}
use iu_sysprog.Net.Clients.{Rc, error, disconnected, served, remove_client, serve}

module _ {ℓ} {A : Type ℓ} where
  get_elem?-middle : (l r : List A) (x : A) → get_elem? (l ++ x ∷ r) (length l) ≡ some x
  get_elem?-middle [] r x = refl
  get_elem?-middle (y ∷ l) r x = get_elem?-middle l r x

  get_elem?-beyond : (l : List A) (i : ℕ) → length l < i + 1 → get_elem? l i ≡ none
  get_elem?-beyond [] i h = refl
  get_elem?-beyond (y ∷ l) zero h = absurd (omega (arith, h))
  get_elem?-beyond (y ∷ l) (suc i) h = get_elem?-beyond l i (omega (arith, h))

  remove_at :
      (l r : List A) (x : A) (k : ℕ)
      → k ≡ suc (length l)
      → take (length l) (l ++ x ∷ r) ++ drop k (l ++ x ∷ r) ≡ l ++ r
  remove_at [] r x k e = rw e refl
  remove_at (y ∷ l) r x k e = rw e (ap (◌∷◌ y) (remove_at l r x (suc (length l)) refl))

  remove_client-middle : (l r : List A) (x : A) → remove_client (l ++ x ∷ r) (length l) ≡ l ++ r
  unfolding remove_client
  remove_client-middle l r x = remove_at l r x (length l + 1) (omega arith)

module _ {ℓ} {A : Type ℓ} (fd_of : A → ℕ) (is_ready : A → Bool) (talks : ℕ → Rc) where
  -- The clients that stay of the rest of the list, and the descriptors that are talked to, where
  -- `nfds` are left. The client behind one that is removed is passed over.
  unfoldable pub walk : ℕ → List A → List A × List ℕ
  walk zero cs = (cs, [])
  walk (suc n) [] = ([], [])
  walk (suc n) (c ∷ []) = elim (is_ready c) [
    | false ↦ (c ∷ [], [])
    | true ↦ elim (talks (fd_of c)) [
      | disconnected ↦ ([], fd_of c ∷ [])
      | _ ↦ (c ∷ [], fd_of c ∷ [])
    ]
  ]
  walk (suc n) (c ∷ d ∷ cs) = elim (is_ready c) [
    | false ↦ let w = walk (suc n) (d ∷ cs) in (c ∷ w.0, w.1)
    | true ↦ elim (talks (fd_of c)) [
      | error ↦ (c ∷ d ∷ cs, fd_of c ∷ [])
      | disconnected ↦ let w = walk n cs in (d ∷ w.0, fd_of c ∷ w.1)
      | served ↦ let w = walk n (d ∷ cs) in (c ∷ w.0, fd_of c ∷ w.1)
    ]
  ]

  Rc-cases : (r : Rc) → (r ≡ error) ⊎ ((r ≡ disconnected) ⊎ (r ≡ served))
  Rc-cases error = inl refl
  Rc-cases disconnected = inr (inl refl)
  Rc-cases served = inr (inr refl)

  -- One round of the loop at a client, by what it finds.
  module _ (fuel n i : ℕ) (l cs : List A) (c : A) (log : List ℕ) (at : i ≡ length l) where
    here : get_elem? (l ++ c ∷ cs) i ≡ some c
    here = ap (get_elem? (l ++ c ∷ cs)) at ∙ get_elem?-middle l cs c

    some_left : ltb 0 (suc n) ≡ true
    some_left = ground arith

    serve_idle :
        is_ready c ≡ false
        → serve fd_of is_ready talks (suc fuel) i (suc n) (l ++ c ∷ cs) log
          ≡ serve fd_of is_ready talks fuel (i + 1) (suc n) (l ++ c ∷ cs) log
    unfolding serve
    serve_idle r = rw (some_left, here, r) refl

    serve_error :
        is_ready c ≡ true
        → talks (fd_of c) ≡ error
        → serve fd_of is_ready talks (suc fuel) i (suc n) (l ++ c ∷ cs) log
          ≡ some (l ++ c ∷ cs, log ++ fd_of c ∷ [])
    unfolding serve
    serve_error r t = rw (some_left, here, r, t) refl

    serve_gone :
        is_ready c ≡ true
        → talks (fd_of c) ≡ disconnected
        → serve fd_of is_ready talks (suc fuel) i (suc n) (l ++ c ∷ cs) log
          ≡ serve fd_of is_ready talks fuel (i + 1) n (l ++ cs) (log ++ fd_of c ∷ [])
    unfolding serve
    serve_gone r t =
        let e : suc n - 1 ≡ n = omega arith in
        let gone : remove_client (l ++ c ∷ cs) i ≡ l ++ cs =
          ap (remove_client (l ++ c ∷ cs)) at ∙ remove_client-middle l cs c in
        rw (some_left, here, r, t, e, gone) refl

    serve_served :
        is_ready c ≡ true
        → talks (fd_of c) ≡ served
        → serve fd_of is_ready talks (suc fuel) i (suc n) (l ++ c ∷ cs) log
          ≡ serve fd_of is_ready talks fuel (i + 1) n (l ++ c ∷ cs) (log ++ fd_of c ∷ [])
    unfolding serve
    serve_served r t = let e : suc n - 1 ≡ n = omega arith in rw (some_left, here, r, t, e) refl

  -- The walk at a client, by what it finds.
  module _ (n : ℕ) (c : A) where
    last_idle : is_ready c ≡ false → walk (suc n) (c ∷ []) ≡ (c ∷ [], [])
    unfolding walk
    last_idle r = ground (arith, r)

    last_error :
        is_ready c ≡ true → talks (fd_of c) ≡ error → walk (suc n) (c ∷ []) ≡ (c ∷ [], fd_of c ∷ [])
    unfolding walk
    last_error r t = ground (arith, r, t)

    last_gone :
        is_ready c ≡ true
        → talks (fd_of c) ≡ disconnected
        → walk (suc n) (c ∷ []) ≡ ([], fd_of c ∷ [])
    unfolding walk
    last_gone r t = ground (arith, r, t)

    last_served :
        is_ready c ≡ true
        → talks (fd_of c) ≡ served
        → walk (suc n) (c ∷ []) ≡ (c ∷ [], fd_of c ∷ [])
    unfolding walk
    last_served r t = ground (arith, r, t)

    module _ (d : A) (cs : List A) where
      walk_idle :
          is_ready c ≡ false
          → walk (suc n) (c ∷ d ∷ cs) ≡ (c ∷ (walk (suc n) (d ∷ cs)).0, (walk (suc n) (d ∷ cs)).1)
      unfolding walk
      walk_idle r = ground (arith, r)

      pub walk_error :
          is_ready c ≡ true
          → talks (fd_of c) ≡ error
          → walk (suc n) (c ∷ d ∷ cs) ≡ (c ∷ d ∷ cs, fd_of c ∷ [])
      unfolding walk
      walk_error r t = ground (arith, r, t)

      pub walk_gone :
          is_ready c ≡ true
          → talks (fd_of c) ≡ disconnected
          → walk (suc n) (c ∷ d ∷ cs) ≡ (d ∷ (walk n cs).0, fd_of c ∷ (walk n cs).1)
      unfolding walk
      walk_gone r t = ground (arith, r, t)

      walk_served :
          is_ready c ≡ true
          → talks (fd_of c) ≡ served
          → walk (suc n) (c ∷ d ∷ cs) ≡ (c ∷ (walk n (d ∷ cs)).0, fd_of c ∷ (walk n (d ∷ cs)).1)
      unfolding walk
      walk_served r t = ground (arith, r, t)

  pub walk_stops :
      (n : ℕ) (c : A) (cs : List A)
      → is_ready c ≡ true
      → talks (fd_of c) ≡ error
      → walk (suc n) (c ∷ cs) ≡ (c ∷ cs, fd_of c ∷ [])
  walk_stops n c [] r t = last_error n c r t
  walk_stops n c (d ∷ cs) r t = walk_error n c d cs r t

  by_walk :
      (l : List A) (log : List ℕ) (w w' : List A × List ℕ) (o : Option (List A × List ℕ))
      → o ≡ some (l ++ w'.0, log ++ w'.1)
      → w ≡ w'
      → o ≡ some (l ++ w.0, log ++ w.1)
  by_walk l log w w' o h e = h ∙ ap (λ v. some (l ++ v.0, log ++ v.1)) (sym e)

  abbrev pub Walked : List A → List ℕ → List A × List ℕ → Option (List A × List ℕ) → Type ℓ
  Walked l log w o = o ≡ some (l ++ w.0, log ++ w.1)

  -- What a walk behind one more element of the front comes to.
  passed :
      (l cs : List A) (c : A) (log front : List ℕ) (w : List A × List ℕ)
      (o : List A → Option (List A × List ℕ))
      → Walked (l ++ c ∷ []) (log ++ front) w (o ((l ++ c ∷ []) ++ cs))
      → Walked l log (c ∷ w.0, front ++ w.1) (o (l ++ c ∷ cs))
  passed l cs c log front w o h =
      ap o (sym (append_assoc l (c ∷ []) cs))
      ∙ h
      ∙ ap (λ k. some (k, (log ++ front) ++ w.1)) (append_assoc l (c ∷ []) w.0)
      ∙ ap (λ k. some (l ++ c ∷ w.0, k)) (append_assoc log front w.1)

  serve_end :
      (fuel n i : ℕ) (l : List A) (log : List ℕ)
      → 0 < fuel
      → length l < i + 1
      → serve fd_of is_ready talks fuel i n l log ≡ some (l, log)
  unfolding serve
  serve_end zero n i l log p h = absurd (omega (arith, p))
  serve_end (suc fuel) n i l log p h = elim (Bool-cases (ltb 0 n)) [
    | inl e ↦ rw (e, get_elem?-beyond l i h) refl
    | inr e ↦ rw e refl
  ]

  serve_none :
      (fuel i : ℕ) (l : List A) (log : List ℕ)
      → serve fd_of is_ready talks (suc fuel) i 0 l log ≡ some (l, log)
  unfolding serve
  serve_none fuel i l log = refl

  serve-walk_from :
      (fuel n : ℕ) (l cs : List A) (log : List ℕ) (i : ℕ)
      → length cs < fuel
      → i ≡ length l
      → serve fd_of is_ready talks fuel i n (l ++ cs) log
        ≡ some (l ++ (walk n cs).0, log ++ (walk n cs).1)
  unfolding walk
  serve-walk_from zero n l cs log i f e = absurd (omega (arith, f))
  serve-walk_from (suc fuel) zero l cs log i f e =
      serve_none fuel i (l ++ cs) log ∙ ap (λ k. some (l ++ cs, k)) (sym (append-nil log))
  serve-walk_from (suc fuel) (suc n) l [] log i f e =
      serve_end (suc fuel) (suc n) i (l ++ []) log (omega arith)
        (omega (arith, e, ap length (append-nil l)))
      ∙ ap (λ k. some (l ++ [], k)) (sym (append-nil log))
  serve-walk_from (suc fuel) (suc n) l (c ∷ []) log i f e =
      let n' = length-append l (c ∷ []) in
      elim (Bool-cases (is_ready c)) [
        | inr r ↦
            by_walk l log (walk (suc n) (c ∷ [])) _ _
              (serve_idle fuel n i l [] c log e r
                ∙ serve_end fuel (suc n) (i + 1) (l ++ c ∷ []) log (omega (arith, f))
                    (omega (arith, n', e))
                ∙ ap (λ k. some (l ++ c ∷ [], k)) (sym (append-nil log)))
              (last_idle n c r)
        | inl r ↦ elim (Rc-cases (talks (fd_of c))) [
          | inl t ↦
              by_walk l log (walk (suc n) (c ∷ [])) _ _ (serve_error fuel n i l [] c log e r t)
                (last_error n c r t)
          | inr (inl t) ↦
              by_walk l log (walk (suc n) (c ∷ [])) _ _
                (serve_gone fuel n i l [] c log e r t
                  ∙ serve_end fuel n (i + 1) (l ++ []) (log ++ fd_of c ∷ []) (omega (arith, f))
                      (omega (arith, e, ap length (append-nil l))))
                (last_gone n c r t)
          | inr (inr t) ↦
              by_walk l log (walk (suc n) (c ∷ [])) _ _
                (serve_served fuel n i l [] c log e r t
                  ∙ serve_end fuel n (i + 1) (l ++ c ∷ []) (log ++ fd_of c ∷ []) (omega (arith, f))
                      (omega (arith, n', e)))
                (last_served n c r t)
        ]
      ]
  serve-walk_from (suc fuel) (suc n) l (c ∷ d ∷ cs) log i f e = elim (Bool-cases (is_ready c)) [
    | inr r ↦
        by_walk l log (walk (suc n) (c ∷ d ∷ cs)) _ _
          (serve_idle fuel n i l (d ∷ cs) c log e r
            ∙ ap (λ k. serve fd_of is_ready talks fuel (i + 1) (suc n) k log)
                (sym (append_assoc l (c ∷ []) (d ∷ cs)))
            ∙ serve-walk_from fuel (suc n) (l ++ c ∷ []) (d ∷ cs) log (i + 1) (omega (arith, f))
                (omega (arith, e, length-append l (c ∷ [])))
            ∙ ap (λ k. some (k, log ++ (walk (suc n) (d ∷ cs)).1))
                (append_assoc l (c ∷ []) ((walk (suc n) (d ∷ cs)).0)))
          (walk_idle n c d cs r)
    | inl r ↦ elim (Rc-cases (talks (fd_of c))) [
      | inl t ↦
          by_walk l log (walk (suc n) (c ∷ d ∷ cs)) _ _
            (serve_error fuel n i l (d ∷ cs) c log e r t) (walk_error n c d cs r t)
      | inr (inl t) ↦
          by_walk l log (walk (suc n) (c ∷ d ∷ cs)) _ _
            (serve_gone fuel n i l (d ∷ cs) c log e r t
              ∙ passed l cs d log (fd_of c ∷ []) (walk n cs)
                  (λ k. serve fd_of is_ready talks fuel (i + 1) n k (log ++ fd_of c ∷ []))
                  (serve-walk_from fuel n (l ++ d ∷ []) cs (log ++ fd_of c ∷ []) (i + 1)
                    (omega (arith, f)) (omega (arith, e, length-append l (d ∷ [])))))
            (walk_gone n c d cs r t)
      | inr (inr t) ↦
          by_walk l log (walk (suc n) (c ∷ d ∷ cs)) _ _
            (serve_served fuel n i l (d ∷ cs) c log e r t
              ∙ passed l (d ∷ cs) c log (fd_of c ∷ []) (walk n (d ∷ cs))
                  (λ k. serve fd_of is_ready talks fuel (i + 1) n k (log ++ fd_of c ∷ []))
                  (serve-walk_from fuel n (l ++ c ∷ []) (d ∷ cs) (log ++ fd_of c ∷ []) (i + 1)
                    (omega (arith, f)) (omega (arith, e, length-append l (c ∷ [])))))
            (walk_served n c d cs r t)
    ]
  ]

  -- The loop over the clients, which goes by index over an array that shrinks, ends with fuel for the
  -- clients, and does what a walk along the list does, in which the client behind one that is
  -- removed is passed over.
  pub serve-walk :
      (nfds : ℕ) (clients : List A)
      → serve fd_of is_ready talks (length clients + 1) 0 nfds clients [] ≡ some (walk nfds clients)
  serve-walk nfds clients =
      serve-walk_from (length clients + 1) nfds [] clients [] 0 (omega arith) refl

  -- How the clients of a list fare: those that are not talked to stay; those that are, were ready, and
  -- stay unless they had disconnected.
  pub data Fares : List A → List A → List ℕ → Type ℓ where
    none_left : Fares [] [] []
    waits :
        {cs kept : List A} {log : List ℕ} (c : A)
        → Fares cs kept log
        → Fares (c ∷ cs) (c ∷ kept) log
    stays :
        {cs kept : List A} {log : List ℕ} (c : A)
        → is_ready c ≡ true
        → (talks (fd_of c) ≡ error) ⊎ (talks (fd_of c) ≡ served)
        → Fares cs kept log
        → Fares (c ∷ cs) (c ∷ kept) (fd_of c ∷ log)
    goes :
        {cs kept : List A} {log : List ℕ} (c : A)
        → is_ready c ≡ true
        → talks (fd_of c) ≡ disconnected
        → Fares cs kept log
        → Fares (c ∷ cs) kept (fd_of c ∷ log)

  all_wait : (cs : List A) → Fares cs cs []
  all_wait [] = none_left
  all_wait (c ∷ cs) = waits c (all_wait cs)

  abbrev pub Fared : List A → ℕ → List A × List ℕ → Type ℓ
  Fared cs nfds w = Fares cs w.0 w.1 × (length w.1 < nfds + 1)

  walk-Fared : (n : ℕ) (cs : List A) → Fared cs n (walk n cs)
  unfolding walk
  walk-Fared zero cs = (all_wait cs, omega arith)
  walk-Fared (suc n) [] = (none_left, omega arith)
  walk-Fared (suc n) (c ∷ []) = elim (Bool-cases (is_ready c)) [
    | inr r ↦
        subst (Fared (c ∷ []) (suc n)) (sym (last_idle n c r)) (waits c none_left, omega arith)
    | inl r ↦ elim (Rc-cases (talks (fd_of c))) [
      | inl t ↦
          subst (Fared (c ∷ []) (suc n)) (sym (last_error n c r t))
            (stays c r (inl t) none_left, omega arith)
      | inr (inl t) ↦
          subst (Fared (c ∷ []) (suc n)) (sym (last_gone n c r t))
            (goes c r t none_left, omega arith)
      | inr (inr t) ↦
          subst (Fared (c ∷ []) (suc n)) (sym (last_served n c r t))
            (stays c r (inr t) none_left, omega arith)
    ]
  ]
  walk-Fared (suc n) (c ∷ d ∷ cs) = elim (Bool-cases (is_ready c)) [
    | inr r ↦
        let h = walk-Fared (suc n) (d ∷ cs) in
        subst (Fared (c ∷ d ∷ cs) (suc n)) (sym (walk_idle n c d cs r)) (waits c h.0, h.1)
    | inl r ↦ elim (Rc-cases (talks (fd_of c))) [
      | inl t ↦
          subst (Fared (c ∷ d ∷ cs) (suc n)) (sym (walk_error n c d cs r t))
            (stays c r (inl t) (all_wait (d ∷ cs)), omega arith)
      | inr (inl t) ↦
          let h = walk-Fared n cs in
          subst (Fared (c ∷ d ∷ cs) (suc n)) (sym (walk_gone n c d cs r t))
            (goes c r t (waits d h.0), omega (arith, h.1))
      | inr (inr t) ↦
          let h = walk-Fared n (d ∷ cs) in
          subst (Fared (c ∷ d ∷ cs) (suc n)) (sym (walk_served n c d cs r t))
            (stays c r (inr t) h.0, omega (arith, h.1))
    ]
  ]

  -- The loop ends with fuel for the clients; it talks to no more than `nfds` of them, in their order,
  -- each one ready and talked to once; those that had disconnected are removed, and no others.
  pub serve-Fares :
      (nfds : ℕ) (clients : List A)
      → (kept : List A) × (log : List ℕ) × (serve fd_of is_ready talks
            (length clients + 1)
            0
            nfds
            clients
            []
          ≡ some (kept, log))
        × Fares clients kept log
        × (length log < nfds + 1)
  serve-Fares nfds clients =
      let h = walk-Fared nfds clients in
      ((walk nfds clients).0, (walk nfds clients).1, serve-walk nfds clients, h.0, h.1)

  -- Where a client that is ready has disconnected, the client behind it is not talked to in this
  -- round, ready or not.
  pub serve_passes_over :
      (nfds : ℕ) (c d : A) (cs : List A)
      → is_ready c ≡ true
      → talks (fd_of c) ≡ disconnected
      → serve fd_of is_ready talks (length (c ∷ d ∷ cs) + 1) 0 (suc nfds) (c ∷ d ∷ cs) []
        ≡ some (d ∷ (walk nfds cs).0, fd_of c ∷ (walk nfds cs).1)
  serve_passes_over nfds c d cs r t =
      serve-walk (suc nfds) (c ∷ d ∷ cs) ∙ ap some (walk_gone nfds c d cs r t)
