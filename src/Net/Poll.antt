-- ===== src/Net/Poll.antt =====
-- The server of lecture_examples/9_aio/5_server_poll.c. What the system answers is a script: one
-- entry for each `poll`.
use iu_sysprog.Prelude.{
  ℕ, ◌+◌, ◌-◌, Bool, true, false, Option, none, some, List, [], ◌∷◌, ◌++◌, if◌then◌else◌, length,
}
use mathlib.Core.List.{map}
use iu_sysprog.Net.Clients.{Rc, serve}

-- `struct pollfd`; the flag is `POLLIN` of `revents`.
pub record Pollfd : Type 0 where
  pub fd : ℕ
  pub is_in : Bool

-- A `poll` that found something, and the answers of the round behind it. `junk` is the flag that the
-- memory of a new client holds, which nothing has written.
pub record Wake : Type 0 where
  pub nfds : ℕ
  pub ready : ℕ → Bool
  pub accepted : Option ℕ
  pub junk : Bool
  pub talks : ℕ → Rc

pub data Answer : Type 0 where
  timeout : Answer
  failed : Answer
  woke : Wake → Answer

-- A round goes on with descriptors and talks to some, or leaves the loop. `wild` is a read outside
-- the array.
pub data Turn : Type 0 where
  goes_on : List Pollfd → List ℕ → Turn
  breaks : List Pollfd → Turn
  wild : Turn

abbrev pub polled : (ℕ → Bool) → Pollfd → Pollfd
polled ready p = record p { is_in = ready p.fd }

abbrev pub turn_of : List Pollfd → Option (List Pollfd × List ℕ) → Turn
turn_of fds none = breaks fds
turn_of fds (some (kept, log)) = goes_on kept log

-- The `for` over all descriptors, that of the server included.
unfoldable pub serve_fds : Wake → ℕ → List Pollfd → Turn
unfolding serve
serve_fds w nfds fds =
    turn_of fds (
      serve (λ (p : Pollfd). p.fd) (λ (p : Pollfd). p.is_in) w.talks (length fds + 1) 0 nfds fds [])

abbrev pub accept_client : Wake → List Pollfd → Option ℕ → Turn
accept_client w fds none = breaks fds
accept_client w fds (some client_sock) =
    serve_fds w (w.nfds - 1) (fds ++ record { fd = client_sock; is_in = w.junk } ∷ [])

-- The test of `fds[0].revents`, and what follows.
unfoldable pub handle : Wake → List Pollfd → Turn
unfolding serve_fds
handle w [] = wild
handle w (p ∷ fds) =
    if p.is_in then accept_client w (p ∷ fds) w.accepted else serve_fds w w.nfds (p ∷ fds)

unfoldable pub poll_round : Answer → List Pollfd → Turn
unfolding handle
poll_round timeout fds = goes_on fds []
poll_round failed fds = breaks fds
poll_round (woke w) fds = handle w (map (polled w.ready) fds)

-- The loop over a script; `none` is a read outside the array.
unfoldable pub poll_loop : List Answer → List Pollfd → Option (List Pollfd)
unfolding poll_round
poll_loop [] fds = some fds
poll_loop (a ∷ answers) fds = elim (poll_round a fds) [
  | goes_on kept talked ↦ poll_loop answers kept
  | breaks kept ↦ some kept
  | wild ↦ none
]

abbrev pub fds_of : List Pollfd → List ℕ
fds_of = map (λ p. p.fd)

abbrev pub closed : ℕ → Option (List Pollfd) → Option (List ℕ)
closed server none = none
closed server (some fds) = some (fds_of fds ++ server ∷ [])

-- The answers to `socket`, `bind` and `listen`, and what `main` closes, in this order.
unfoldable pub main : Option ℕ → Bool → Bool → List Answer → Option (List ℕ)
unfolding poll_loop
main none bound listening answers = some []
main (some server) false listening answers = some []
main (some server) true false answers = some []
main (some server) true true answers =
    closed server (poll_loop answers (record { fd = server; is_in = false } ∷ []))
