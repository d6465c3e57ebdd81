-- ===== src/Net/Select.antt =====
-- The server of lecture_examples/9_aio/4_server_select.c. What the system answers is a script: one
-- entry for each `select`.
use iu_sysprog.Prelude.{
  ℕ, ◌+◌, ◌-◌, ◌≤◌, Bool, true, false, Option, none, some, List, [], ◌∷◌, ◌++◌, ltb, if◌then◌else◌,
  length, arith, All,
}
use iu_sysprog.Net.Clients.{Rc, serve}

-- What a `select` that found something leaves, and the answers of the round behind it.
pub record Wake : Type 0 where
  pub nfds : ℕ
  pub server_ready : Bool
  pub accepted : Option ℕ
  pub ready : ℕ → Bool
  pub talks : ℕ → Rc

pub data Answer : Type 0 where
  timeout : Answer
  failed : Answer
  woke : Wake → Answer

-- The descriptors of the set, and `max_fd`.
unfoldable pub max_of : ℕ → List ℕ → ℕ
max_of max_fd [] = max_fd
max_of max_fd (fd ∷ clients) = max_of (if ltb max_fd fd then fd else max_fd) clients

unfoldable pub fill_fdset : List ℕ → ℕ → List ℕ × ℕ
unfolding max_of
fill_fdset clients server = (server ∷ clients, max_of server clients)

-- A round goes on with clients and talks to descriptors, or leaves the loop with clients.
pub data Turn : Type 0 where
  goes_on : List ℕ → List ℕ → Turn
  breaks : List ℕ → Turn

abbrev pub turn_of : List ℕ → Option (List ℕ × List ℕ) → Turn
turn_of clients none = breaks clients
turn_of clients (some (kept, log)) = goes_on kept log

-- The `for` over the clients.
unfoldable pub serve_clients : Wake → ℕ → List ℕ → Turn
unfolding serve
serve_clients w nfds clients =
    turn_of clients (serve (λ fd. fd) w.ready w.talks (length clients + 1) 0 nfds clients [])

abbrev pub accept_client : Wake → List ℕ → Option ℕ → Turn
accept_client w clients none = breaks clients
accept_client w clients (some client_sock) =
    serve_clients w (w.nfds - 1) (clients ++ client_sock ∷ [])

unfoldable pub select_round : Answer → List ℕ → Turn
unfolding serve_clients
select_round timeout clients = goes_on clients []
select_round failed clients = breaks clients
select_round (woke w) clients =
    if w.server_ready then accept_client w clients w.accepted else serve_clients w w.nfds clients

-- The loop over a script: the clients behind it, and all the descriptors that were talked to.
unfoldable pub select_loop : List Answer → List ℕ → List ℕ → List ℕ × List ℕ
unfolding select_round
select_loop [] clients log = (clients, log)
select_loop (a ∷ answers) clients log = elim (select_round a clients) [
  | goes_on kept talked ↦ select_loop answers kept (log ++ talked)
  | breaks kept ↦ (kept, log)
]

-- The answers to `socket`, `bind` and `listen`, and what `main` returns and closes at its end.
unfoldable pub main : Option ℕ → Bool → Bool → List Answer → Option (List ℕ)
unfolding select_loop
main none bound listening answers = none
main (some server) false listening answers = none
main (some server) true false answers = none
main (some server) true true answers = some (server ∷ (select_loop answers [] []).0)

max_of-le :
    (max_fd : ℕ) (clients : List ℕ)
    → (max_fd ≤ max_of max_fd clients) × All (λ fd. fd ≤ max_of max_fd clients) clients
unfolding max_of
max_of-le max_fd [] = (omega arith, tt)
max_of-le max_fd (fd ∷ clients) =
    let h = max_of-le (if ltb max_fd fd then fd else max_fd) clients in
    (ground (arith, h.0), (ground (arith, h.0), h.1))

-- The bound that `select` is given covers the server and every client of the set.
pub fill_fdset-le :
    (clients : List ℕ) (server : ℕ)
    → All (λ fd. fd ≤ (fill_fdset clients server).1) ((fill_fdset clients server).0)
unfolding fill_fdset
fill_fdset-le clients server = let h = max_of-le server clients in (h.0, h.1)
