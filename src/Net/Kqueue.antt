-- ===== src/Net/Kqueue.antt =====
-- The server of lecture_examples/9_aio/6_server_kqueue.c. What the system answers is a script: one
-- entry for each `kevent` of the loop, which reports one descriptor.
use iu_sysprog.Prelude.{
  ℕ, Bool, true, false, Option, none, some, List, [], ◌∷◌, get_elem?, ◌≡◌, refl, sym,
}
use iu_sysprog.Net.Clients.{Rc, error, disconnected, served}
use iu_sysprog.Net.Watched.{
  Watched, no_clients, accept_client, talk, drop_client, IsKept, no_clients-IsKept,
  accept_client-IsKept, talk-IsKept, drop_client-IsKept,
}

-- The server's descriptor is reported, with what `accept` and `kevent` answer; or that of the client
-- at this place among those that are registered, with what `interact` answers, and whether `EV_EOF` is
-- among the flags.
pub data Event : Type 0 where
  timeout : Event
  failed : Event
  server_ready : Option ℕ → Bool → Event
  client_ready : ℕ → Rc → Bool → Event

-- What `interact` returns, and whether the end of the client's numbers was reported.
abbrev pub Kqueue : Type 0
Kqueue = Watched (Rc × Bool)

-- A round goes on or leaves the loop.
pub data Turn : Type 0 where
  goes_on : Kqueue → Turn
  breaks : Kqueue → Turn

-- `close` takes the descriptor out of the kqueue as well.
unfoldable pub close_at_eof : Bool → ℕ → ℕ → Kqueue → Kqueue
close_at_eof true i fd s = drop_client i fd s
close_at_eof false i fd s = s

unfoldable pub kqueue_round : Event → Kqueue → Turn
unfolding close_at_eof
kqueue_round timeout s = goes_on s
kqueue_round failed s = breaks s
kqueue_round (server_ready none added) s = breaks s
kqueue_round (server_ready (some client_sock) true) s = goes_on (accept_client client_sock s)
kqueue_round (server_ready (some client_sock) false) s = breaks (accept_client client_sock s)
kqueue_round (client_ready i rc eof) s = elim (get_elem? s.clients i) [
  | none ↦ goes_on s
  | some fd ↦ elim rc [
    | error ↦ breaks (talk fd (error, eof) s)
    | disconnected ↦ goes_on (close_at_eof eof i fd (talk fd (disconnected, eof) s))
    | served ↦ goes_on (close_at_eof eof i fd (talk fd (served, eof) s))
  ]
]

unfoldable pub kqueue_loop : List Event → Kqueue → Kqueue
unfolding kqueue_round
kqueue_loop [] s = s
kqueue_loop (event ∷ events) s = elim (kqueue_round event s) [
  | goes_on s' ↦ kqueue_loop events s'
  | breaks s' ↦ s'
]

-- The answers to `socket`, `bind`, `listen`, `kqueue` and the first `kevent`, and what `main` closes
-- besides its clients.
unfoldable pub main : Option ℕ → Bool → Bool → Option ℕ → Bool → List Event → List ℕ × Kqueue
unfolding kqueue_loop
main none bound listening kq added events = ([], no_clients)
main (some server) false listening kq added events = ([], no_clients)
main (some server) true false kq added events = ([], no_clients)
main (some server) true true none added events = (server ∷ [], no_clients)
main (some server) true true (some kq) false events = (server ∷ [], no_clients)
main (some server) true true (some kq) true events =
    (kq ∷ server ∷ [], kqueue_loop events no_clients)

-- `interact` did not fail, and `EV_EOF` is set.
abbrev pub has_ended : Rc × Bool → Bool
has_ended (error, eof) = false
has_ended (disconnected, eof) = eof
has_ended (served, eof) = eof

abbrev Keeps : Turn → Type 0
Keeps (goes_on s) = IsKept has_ended s
Keeps (breaks s) = IsKept has_ended s

closed-IsKept :
    (eof : Bool) (i fd : ℕ) (a : Rc × Bool) (s : Kqueue)
    → get_elem? s.clients i ≡ some fd
    → has_ended a ≡ eof
    → IsKept has_ended s
    → IsKept has_ended (close_at_eof eof i fd (talk fd a s))
unfolding close_at_eof
closed-IsKept true i fd a s at e h = drop_client-IsKept has_ended i fd a s at e h
closed-IsKept false i fd a s at e h = talk-IsKept has_ended fd a s e h

client_ready-Keeps :
    (i : ℕ) (rc : Rc) (eof : Bool) (s : Kqueue) (o : Option ℕ)
    → o ≡ get_elem? s.clients i
    → IsKept has_ended s
    → Keeps (elim o [
      | none ↦ goes_on s
      | some fd ↦ elim rc [
        | error ↦ breaks (talk fd (error, eof) s)
        | disconnected ↦ goes_on (close_at_eof eof i fd (talk fd (disconnected, eof) s))
        | served ↦ goes_on (close_at_eof eof i fd (talk fd (served, eof) s))
      ]
    ])
client_ready-Keeps i rc eof s none e h = h
client_ready-Keeps i error eof s (some fd) e h = talk-IsKept has_ended fd (error, eof) s refl h
client_ready-Keeps i disconnected eof s (some fd) e h =
    closed-IsKept eof i fd (disconnected, eof) s (sym e) refl h
client_ready-Keeps i served eof s (some fd) e h =
    closed-IsKept eof i fd (served, eof) s (sym e) refl h

kqueue_round-Keeps : (x : Event) (s : Kqueue) → IsKept has_ended s → Keeps (kqueue_round x s)
unfolding kqueue_round
kqueue_round-Keeps timeout s h = h
kqueue_round-Keeps failed s h = h
kqueue_round-Keeps (server_ready none added) s h = h
kqueue_round-Keeps (server_ready (some fd) true) s h = accept_client-IsKept has_ended fd s h
kqueue_round-Keeps (server_ready (some fd) false) s h = accept_client-IsKept has_ended fd s h
kqueue_round-Keeps (client_ready i rc eof) s h =
    client_ready-Keeps i rc eof s (get_elem? s.clients i) refl h

turn-IsKept :
    (events : List Event) (t : Turn)
    → Keeps t
    → ((s : Kqueue) → IsKept has_ended s → IsKept has_ended (kqueue_loop events s))
    → IsKept has_ended (elim t [ goes_on s' ↦ kqueue_loop events s' | breaks s' ↦ s' ])
turn-IsKept events (goes_on s) h ih = ih s h
turn-IsKept events (breaks s) h ih = h

kqueue_loop-IsKept :
    (events : List Event) (s : Kqueue)
    → IsKept has_ended s
    → IsKept has_ended (kqueue_loop events s)
unfolding kqueue_loop
kqueue_loop-IsKept [] s h = h
kqueue_loop-IsKept (x ∷ events) s h =
    turn-IsKept events (kqueue_round x s) (kqueue_round-Keeps x s h)
      (λ s' k. kqueue_loop-IsKept events s' k)

-- Whatever the script: the clients that were closed are those of the talks in which `interact` did not
-- fail and `EV_EOF` was set, in that order; the accepted ones are, in some order, these and those that
-- are open when main returns, and main closes no other client.
pub main-closed_at_eof :
    (server kq : ℕ) (events : List Event)
    → ((main (some server) true true (some kq) true events).0 ≡ kq ∷ server ∷ [])
      × IsKept has_ended ((main (some server) true true (some kq) true events).1)
unfolding main
main-closed_at_eof server kq events =
    (refl, kqueue_loop-IsKept events no_clients (no_clients-IsKept has_ended))
