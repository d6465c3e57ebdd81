-- ===== src/Net/Watched.antt =====
-- The clients of the servers of lecture_examples/9_aio/6_server_kqueue.c and 7_server_epoll.c: those that
-- are registered, and what becomes of them.
use mathlib.Core.List.{Perm}
use mathlib.Core.List.Perm
use mathlib.Core.Path.{subst}
use iu_sysprog.Prelude.{
  some-inj, arith, ℕ, zero, suc, ◌+◌, Bool, true, false, if◌then◌else◌, List, [], ◌∷◌, ◌++◌, some,
  take, drop, get_elem?, ◌≡◌, refl, sym, ap, ◌∙◌, append_assoc, append-nil,
}

-- The clients that are open, those that were accepted, those that were closed, and each talk with a
-- client, in their order, with what came of it.
pub record Watched (A : Type 0) : Type 0 where
  pub clients : List ℕ
  pub accepted : List ℕ
  pub closed : List ℕ
  pub talked : List (ℕ × A)

abbrev pub no_clients : {A : Type 0} → Watched A
no_clients = record { clients = []; accepted = []; closed = []; talked = [] }

abbrev pub accept_client : {A : Type 0} → ℕ → Watched A → Watched A
accept_client fd s = record s { clients = s.clients ++ fd ∷ []; accepted = s.accepted ++ fd ∷ [] }

abbrev pub talk : {A : Type 0} → ℕ → A → Watched A → Watched A
talk fd a s = record s { talked = s.talked ++ (fd, a) ∷ [] }

-- `close`, and the end of the watch.
abbrev pub drop_client : {A : Type 0} → ℕ → ℕ → Watched A → Watched A
drop_client i fd s = record s {
  clients = take i s.clients ++ drop (i + 1) s.clients;
  closed = s.closed ++ fd ∷ [];
}

-- The clients of the talks that had such an end.
abbrev pub gone : {A : Type 0} → (A → Bool) → List (ℕ × A) → List ℕ
gone ends [] = []
gone ends ((fd, a) ∷ talked) = let rest = gone ends talked in if ends a then fd ∷ rest else rest

gone-append :
    {A : Type 0} (ends : A → Bool) (talked : List (ℕ × A)) (fd : ℕ) (a : A)
    → gone ends (talked ++ (fd, a) ∷ []) ≡ gone ends talked ++ (if ends a then fd ∷ [] else [])
gone-append ends [] fd a = refl
gone-append ends ((fd', a') ∷ talked) fd a =
    shown (ends a') (gone ends talked) (gone ends (talked ++ (fd, a) ∷ []))
      (if ends a then fd ∷ [] else []) (gone-append ends talked fd a)
  where
    shown :
        (b : Bool) (old : List ℕ) (new more : List ℕ)
        → new ≡ old ++ more
        → (if b then fd' ∷ new else new) ≡ (if b then fd' ∷ old else old) ++ more
    shown true old new more e = ap (◌∷◌ fd') e
    shown false old new more e = e

-- Each accepted client is closed or open, and those that were closed are the ones whose talk had such an
-- end, in the order of the talks.
abbrev pub IsKept : {A : Type 0} → (A → Bool) → Watched A → Type 0
IsKept ends s = Perm s.accepted (s.closed ++ s.clients) × (s.closed ≡ gone ends s.talked)

taken_out :
    (xs : List ℕ) (i k x : ℕ)
    → k ≡ suc i
    → get_elem? xs i ≡ some x
    → Perm xs (x ∷ (take i xs ++ drop k xs))
taken_out [] i k x n e = cc
taken_out (y ∷ xs) zero k x n e =
    rw n (subst (λ z. Perm (y ∷ xs) (z ∷ xs)) (some-inj e) (Perm.refl (y ∷ xs)))
taken_out (y ∷ xs) (suc i) k x n e = rw n (
    Perm.trans (Perm.cons y (taken_out xs i (suc i) x refl e))
      (Perm.swap x y (take i xs ++ drop (suc i) xs)))

module _ {A : Type 0} (ends : A → Bool) where
  pub no_clients-IsKept : IsKept ends (no_clients {A = A})
  no_clients-IsKept = (Perm.nil, refl)

  pub accept_client-IsKept :
      (fd : ℕ) (s : Watched A) → IsKept ends s → IsKept ends (accept_client fd s)
  accept_client-IsKept fd s (h, e) = (
    subst (Perm (s.accepted ++ fd ∷ [])) (append_assoc s.closed s.clients (fd ∷ []))
        (Perm.append_right (fd ∷ []) h),
    e,
  )

  -- A talk that has no such end.
  pub talk-IsKept :
      (fd : ℕ) (a : A) (s : Watched A) → ends a ≡ false → IsKept ends s → IsKept ends (talk fd a s)
  talk-IsKept fd a s stays (h, e) = (
    h,
    e
        ∙ sym (append-nil (gone ends s.talked))
        ∙ ap (λ b. gone ends s.talked ++ (if b then fd ∷ [] else [])) (sym stays)
        ∙ sym (gone-append ends s.talked fd a),
  )

  -- A talk that has such an end, behind which the client is closed.
  pub drop_client-IsKept :
      (i fd : ℕ) (a : A) (s : Watched A)
      → get_elem? s.clients i ≡ some fd
      → ends a ≡ true
      → IsKept ends s
      → IsKept ends (drop_client i fd (talk fd a s))
  drop_client-IsKept i fd a s at leaves (h, e) =
      let rest = take i s.clients ++ drop (i + 1) s.clients in
      (
        subst (Perm s.accepted) (sym (append_assoc s.closed (fd ∷ []) rest)) (
            Perm.trans h
              (Perm.append_left s.closed (taken_out s.clients i (i + 1) fd (omega arith) at))),
        ap (λ l. l ++ fd ∷ []) e
            ∙ ap (λ b. gone ends s.talked ++ (if b then fd ∷ [] else [])) (sym leaves)
            ∙ sym (gone-append ends s.talked fd a),
      )
