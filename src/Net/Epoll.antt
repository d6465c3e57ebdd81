-- ===== src/Net/Epoll.antt =====
-- The server of lecture_examples/9_aio/7_server_epoll.c. What the system answers is a script: one entry
-- for each `epoll_wait`, which reports one descriptor.
use iu_sysprog.Prelude.{
  ℕ, Bool, true, false, Option, none, some, List, [], ◌∷◌, get_elem?, ◌≡◌, refl, sym,
}
use iu_sysprog.Net.Clients.{Rc, error, disconnected, served}
use iu_sysprog.Net.Watched.{
  Watched, no_clients, accept_client, talk, drop_client, IsKept, no_clients-IsKept,
  accept_client-IsKept, talk-IsKept, drop_client-IsKept,
}

-- The server's descriptor is reported, with what `accept` and `epoll_ctl` answer; or that of the client
-- at this place among those that are registered, with what `interact` answers.
pub data Answer : Type 0 where
  timeout : Answer
  failed : Answer
  server_ready : Option ℕ → Bool → Answer
  client_ready : ℕ → Rc → Answer

abbrev pub Epoll : Type 0
Epoll = Watched Rc

-- A round goes on or leaves the loop.
pub data Turn : Type 0 where
  goes_on : Epoll → Turn
  breaks : Epoll → Turn

unfoldable pub epoll_round : Answer → Epoll → Turn
epoll_round timeout s = goes_on s
epoll_round failed s = breaks s
epoll_round (server_ready none added) s = breaks s
epoll_round (server_ready (some client_sock) true) s = goes_on (accept_client client_sock s)
epoll_round (server_ready (some client_sock) false) s = breaks (accept_client client_sock s)
epoll_round (client_ready i rc) s = elim (get_elem? s.clients i) [
  | none ↦ goes_on s
  | some fd ↦ elim rc [
    | error ↦ breaks (talk fd error s)
    | disconnected ↦ goes_on (drop_client i fd (talk fd disconnected s))
    | served ↦ goes_on (talk fd served s)
  ]
]

unfoldable pub epoll_loop : List Answer → Epoll → Epoll
unfolding epoll_round
epoll_loop [] s = s
epoll_loop (a ∷ answers) s = elim (epoll_round a s) [
  | goes_on s' ↦ epoll_loop answers s'
  | breaks s' ↦ s'
]

-- The answers to `socket`, `bind`, `listen`, `epoll_create` and the first `epoll_ctl`, and what `main`
-- closes besides its clients.
unfoldable pub main : Option ℕ → Bool → Bool → Option ℕ → Bool → List Answer → List ℕ × Epoll
unfolding epoll_loop
main none bound listening ep added answers = ([], no_clients)
main (some server) false listening ep added answers = ([], no_clients)
main (some server) true false ep added answers = ([], no_clients)
main (some server) true true none added answers = (server ∷ [], no_clients)
main (some server) true true (some ep) false answers = (server ∷ [], no_clients)
main (some server) true true (some ep) true answers =
    (ep ∷ server ∷ [], epoll_loop answers no_clients)

-- `interact` returned 0.
abbrev pub has_disconnected : Rc → Bool
has_disconnected disconnected = true
has_disconnected _ = false

abbrev Keeps : Turn → Type 0
Keeps (goes_on s) = IsKept has_disconnected s
Keeps (breaks s) = IsKept has_disconnected s

client_ready-Keeps :
    (i : ℕ) (rc : Rc) (s : Epoll) (o : Option ℕ)
    → o ≡ get_elem? s.clients i
    → IsKept has_disconnected s
    → Keeps (elim o [
      | none ↦ goes_on s
      | some fd ↦ elim rc [
        | error ↦ breaks (talk fd error s)
        | disconnected ↦ goes_on (drop_client i fd (talk fd disconnected s))
        | served ↦ goes_on (talk fd served s)
      ]
    ])
client_ready-Keeps i rc s none e h = h
client_ready-Keeps i error s (some fd) e h = talk-IsKept has_disconnected fd error s refl h
client_ready-Keeps i disconnected s (some fd) e h =
    drop_client-IsKept has_disconnected i fd disconnected s (sym e) refl h
client_ready-Keeps i served s (some fd) e h = talk-IsKept has_disconnected fd served s refl h

epoll_round-Keeps : (a : Answer) (s : Epoll) → IsKept has_disconnected s → Keeps (epoll_round a s)
unfolding epoll_round
epoll_round-Keeps timeout s h = h
epoll_round-Keeps failed s h = h
epoll_round-Keeps (server_ready none added) s h = h
epoll_round-Keeps (server_ready (some fd) true) s h = accept_client-IsKept has_disconnected fd s h
epoll_round-Keeps (server_ready (some fd) false) s h = accept_client-IsKept has_disconnected fd s h
epoll_round-Keeps (client_ready i rc) s h = client_ready-Keeps i rc s (get_elem? s.clients i) refl h

turn-IsKept :
    (answers : List Answer) (t : Turn)
    → Keeps t
    → ((s : Epoll) → IsKept has_disconnected s → IsKept has_disconnected (epoll_loop answers s))
    → IsKept has_disconnected (elim t [ goes_on s' ↦ epoll_loop answers s' | breaks s' ↦ s' ])
turn-IsKept answers (goes_on s) h ih = ih s h
turn-IsKept answers (breaks s) h ih = h

epoll_loop-IsKept :
    (answers : List Answer) (s : Epoll)
    → IsKept has_disconnected s
    → IsKept has_disconnected (epoll_loop answers s)
unfolding epoll_loop
epoll_loop-IsKept [] s h = h
epoll_loop-IsKept (a ∷ answers) s h =
    turn-IsKept answers (epoll_round a s) (epoll_round-Keeps a s h)
      (λ s' k. epoll_loop-IsKept answers s' k)

-- Whatever the script: the clients that were closed are those for which `interact` returned 0, in that
-- order; the accepted ones are, in some order, these and those that are open when main returns, and main
-- closes no other client.
pub main-IsKept :
    (server ep : ℕ) (answers : List Answer)
    → ((main (some server) true true (some ep) true answers).0 ≡ ep ∷ server ∷ [])
      × IsKept has_disconnected ((main (some server) true true (some ep) true answers).1)
unfolding main
main-IsKept server ep answers =
    (refl, epoll_loop-IsKept answers no_clients (no_clients-IsKept has_disconnected))
