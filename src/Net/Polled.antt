-- ===== src/Net/Polled.antt =====
-- What the rounds of lecture_examples/9_aio/5_server_poll.c do to the descriptor of the server, where
-- a read of a listening socket fails.
use mathlib.Core.Path.{subst}
use mathlib.Core.List.{map}
use iu_sysprog.Prelude.{
  ℕ, suc, ◌-◌, Bool, true, false, Option, none, some, List, [], ◌∷◌, ◌++◌, if◌then◌else◌, ◌≡◌, inl,
  inr, refl, sym, ap, ◌∙◌, arith, All, Bool-cases,
}
use iu_sysprog.Net.Clients.{Rc, error}
use iu_sysprog.Net.Serving.{
  walk_stops, serve-walk, Fares, none_left, waits, stays, goes, serve-Fares,
}
use iu_sysprog.Net.Poll.{
  Pollfd, Wake, Answer, timeout, failed, woke, Turn, goes_on, breaks, wild, polled, turn_of,
  serve_fds, accept_client, handle, poll_round, poll_loop, fds_of, closed, main,
}

chosen : (b : Bool) (t u : Turn) → b ≡ true → (if b then t else u) ≡ t
chosen b t u e = subst (λ c. (if c then t else u) ≡ t) (sym e) refl

other : (b : Bool) (t u : Turn) → b ≡ false → (if b then t else u) ≡ u
other b t u e = subst (λ c. (if c then t else u) ≡ u) (sym e) refl

serve_fds_starves :
    (w : Wake) (p : Pollfd) (fds : List Pollfd) (nfds : ℕ)
    → p.is_in ≡ true
    → w.talks p.fd ≡ error
    → serve_fds w (suc nfds) (p ∷ fds) ≡ goes_on (p ∷ fds) (p.fd ∷ [])
unfolding serve_fds
serve_fds_starves w p fds nfds r t = ap (turn_of (p ∷ fds)) (
    serve-walk (λ (q : Pollfd). q.fd) (λ (q : Pollfd). q.is_in) w.talks (suc nfds) (p ∷ fds)
    ∙ ap some (walk_stops (λ (q : Pollfd). q.fd) (λ (q : Pollfd). q.is_in) w.talks nfds p fds r t))

-- In a round with a new connection and something else to do, the server's own descriptor is the first
-- and only one that is talked to: no client is served, whichever are ready.
pub poll_round_starves :
    (w : Wake) (p : Pollfd) (fds : List Pollfd) (client_sock nfds : ℕ)
    → w.ready p.fd ≡ true
    → w.talks p.fd ≡ error
    → w.accepted ≡ some client_sock
    → w.nfds ≡ suc (suc nfds)
    → poll_round (woke w) (p ∷ fds)
      ≡ goes_on
          (map (polled w.ready) (p ∷ fds) ++ record { fd = client_sock; is_in = w.junk } ∷ [])
          (p.fd ∷ [])
unfolding poll_round handle
poll_round_starves w p fds client_sock nfds r t a n =
    let e : w.nfds - 1 ≡ suc nfds = omega (arith, n) in
    let all = map (polled w.ready) (p ∷ fds) in
    let more = all ++ record { fd = client_sock; is_in = w.junk } ∷ [] in
    chosen (w.ready p.fd) (accept_client w all w.accepted) (serve_fds w w.nfds all) r
    ∙ ap (accept_client w all) a
    ∙ ap (λ k. serve_fds w k more) e
    ∙ serve_fds_starves w (polled w.ready p)
        (map (polled w.ready) fds ++ record { fd = client_sock; is_in = w.junk } ∷ []) nfds r t

-- The server stays the first descriptor.
abbrev pub Heads : ℕ → List Pollfd → Type 0
Heads server [] = ⊥
Heads server (p ∷ fds) = p.fd ≡ server

abbrev pub Headed : ℕ → Turn → Type 0
Headed server (goes_on fds log) = Heads server fds
Headed server (breaks fds) = Heads server fds
Headed server wild = ⊥

Fares-Heads :
    (talks : ℕ → Rc) (server : ℕ) (fds kept : List Pollfd) (log : List ℕ)
    → talks server ≡ error
    → Heads server fds
    → Fares (λ (p : Pollfd). p.fd) (λ (p : Pollfd). p.is_in) talks fds kept log
    → Heads server kept
Fares-Heads talks server fds kept log t h none_left = h
Fares-Heads talks server fds kept log t h (waits c f) = h
Fares-Heads talks server fds kept log t h (stays c r o f) = h
Fares-Heads talks server fds kept log t h (goes c r d f) = cc

serve_fds-Headed :
    (w : Wake) (server nfds : ℕ) (fds : List Pollfd)
    → w.talks server ≡ error
    → Heads server fds
    → Headed server (serve_fds w nfds fds)
unfolding serve_fds
serve_fds-Headed w server nfds fds t h =
    let (kept, log, e, f, few) =
      serve-Fares (λ (p : Pollfd). p.fd) (λ (p : Pollfd). p.is_in) w.talks nfds fds in
    rw e (Fares-Heads w.talks server fds kept log t h f)

-- A listening socket cannot be read.
abbrev pub IsDeaf : ℕ → Answer → Type 0
IsDeaf server timeout = Unit
IsDeaf server failed = Unit
IsDeaf server (woke w) = w.talks server ≡ error

accept_client-Headed :
    (w : Wake) (server : ℕ) (p : Pollfd) (fds : List Pollfd) (o : Option ℕ)
    → w.talks server ≡ error
    → p.fd ≡ server
    → Headed server (accept_client w (p ∷ fds) o)
accept_client-Headed w server p fds none t h = h
accept_client-Headed w server p fds (some c) t h =
    serve_fds-Headed w server (w.nfds - 1) (p ∷ (fds ++ record { fd = c; is_in = w.junk } ∷ [])) t h

poll_round-Headed :
    (a : Answer) (server : ℕ) (fds : List Pollfd)
    → IsDeaf server a
    → Heads server fds
    → Headed server (poll_round a fds)
unfolding poll_round handle
poll_round-Headed timeout server fds t h = h
poll_round-Headed failed server fds t h = h
poll_round-Headed (woke w) server [] t h = absurd h
poll_round-Headed (woke w) server (p ∷ fds) t h =
    let all = map (polled w.ready) (p ∷ fds) in
    let accepts = accept_client w all w.accepted in
    let serves = serve_fds w w.nfds all in
    elim (Bool-cases (w.ready p.fd)) [
      | inl e ↦ subst (Headed server) (sym (chosen (w.ready p.fd) accepts serves e)) (
          accept_client-Headed w server (polled w.ready p) (map (polled w.ready) fds) w.accepted t
            h)
      | inr e ↦
          subst (Headed server) (sym (other (w.ready p.fd) accepts serves e))
            (serve_fds-Headed w server w.nfds all t h)
    ]

-- How the loop ends: with the server first, and no read outside the array.
abbrev pub Ends : ℕ → Option (List Pollfd) → Type 0
Ends server none = ⊥
Ends server (some fds) = Heads server fds

next-Ends :
    (server : ℕ) (t : Turn) (answers : List Answer)
    → Headed server t
    → ((fds : List Pollfd) → Heads server fds → Ends server (poll_loop answers fds))
    → Ends server (elim t [
      | goes_on kept talked ↦ poll_loop answers kept
      | breaks kept ↦ some kept
      | wild ↦ none
    ])
next-Ends server (goes_on kept talked) answers h ih = ih kept h
next-Ends server (breaks kept) answers h ih = h
next-Ends server wild answers h ih = absurd h

poll_loop-Ends :
    (server : ℕ) (answers : List Answer) (fds : List Pollfd)
    → All (IsDeaf server) answers
    → Heads server fds
    → Ends server (poll_loop answers fds)
unfolding poll_loop
poll_loop-Ends server [] fds d h = h
poll_loop-Ends server (a ∷ answers) fds d h =
    next-Ends server (poll_round a fds) answers (poll_round-Headed a server fds d.0 h)
      (λ kept k. poll_loop-Ends server answers kept d.1 k)

closed_at_end :
    (server : ℕ) (o : Option (List Pollfd))
    → Ends server o
    → (clients : List ℕ) × (closed server o ≡ some (server ∷ (clients ++ server ∷ [])))
closed_at_end server none h = absurd h
closed_at_end server (some []) h = absurd h
closed_at_end server (some (p ∷ fds)) h =
    (fds_of fds, ap (λ s. some (s ∷ (fds_of fds ++ server ∷ []))) h)

-- Whatever the script, where reads of the listening socket fail: no round reads outside the array, and
-- at its end main closes the server, then clients, and the server a second time.
pub main-closed :
    (server : ℕ) (answers : List Answer)
    → All (IsDeaf server) answers
    → (clients : List ℕ) × (main (some server) true true answers
        ≡ some (server ∷ (clients ++ server ∷ [])))
unfolding main
main-closed server answers d =
    closed_at_end server (poll_loop answers (record { fd = server; is_in = false } ∷ []))
      (poll_loop-Ends server answers (record { fd = server; is_in = false } ∷ []) d refl)
