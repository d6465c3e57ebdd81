-- ===== src/Tests/Net.antt =====
-- The servers of lecture_examples/9_aio at concrete clients and scripts.
use iu_sysprog.Prelude.{
  ℕ, if◌then◌else◌, Bool, true, false, some, List, [], ◌∷◌, ◌+◌, ◌<◌, ◌==◌, ◌≡◌, length,
}
use iu_sysprog.Net.Clients.{Rc, error, disconnected, served, serve}
use iu_sysprog.Net.Serving.{Fares, serve-Fares}
use iu_sysprog.Net.Poll.{Pollfd, Wake}
use iu_sysprog.Net.Epoll
use iu_sysprog.Net.Watched.{IsKept}
use iu_sysprog.Net.Kqueue

abbrev always : ℕ → Bool
always fd = true

-- The clients 4 and 6 have gone.
abbrev talking : ℕ → Rc
talking fd = if fd == 4 then disconnected else if fd == 6 then disconnected else served

serve-Fares_example :
    (kept : List ℕ) × (log : List ℕ) × (serve
        (λ fd. fd)
        always
        talking
        (length {A = ℕ} (4 ∷ 5 ∷ 6 ∷ 7 ∷ []) + 1)
        0
        3
        (4 ∷ 5 ∷ 6 ∷ 7 ∷ [])
        []
      ≡ some (kept, log))
    × Fares (λ fd. fd) always talking (4 ∷ 5 ∷ 6 ∷ 7 ∷ []) kept log
    × (length log < 3 + 1)
serve-Fares_example = serve-Fares (λ fd. fd) always talking 3 (4 ∷ 5 ∷ 6 ∷ 7 ∷ [])

-- The server is 3, and cannot be read.
abbrev answers_of : ℕ → Rc
answers_of fd = if fd == 3 then error else served

abbrev wake : Wake
wake = record { nfds = 3; ready = always; accepted = some 6; junk = false; talks = answers_of }

abbrev open_fd : ℕ → Pollfd
open_fd n = record { fd = n; is_in = false }

-- Two clients come, the first one is served, and goes.
abbrev visits : List Epoll.Answer
visits =
    Epoll.server_ready (some 5) true
    ∷ Epoll.server_ready (some 6) true
    ∷ Epoll.client_ready 0 served
    ∷ Epoll.client_ready 0 disconnected
    ∷ Epoll.timeout
    ∷ []

main-IsKept_example :
    ((Epoll.main (some 3) true true (some 4) true visits).0 ≡ 4 ∷ 3 ∷ [])
    × IsKept Epoll.has_disconnected ((Epoll.main (some 3) true true (some 4) true visits).1)
main-IsKept_example = Epoll.main-IsKept 3 4 visits

abbrev kqueue_visits : List Kqueue.Event
kqueue_visits =
    Kqueue.server_ready (some 5) true
    ∷ Kqueue.server_ready (some 6) true
    ∷ Kqueue.client_ready 1 served false
    ∷ Kqueue.client_ready 0 disconnected true
    ∷ Kqueue.timeout
    ∷ []

main-closed_at_eof_example :
    ((Kqueue.main (some 3) true true (some 4) true kqueue_visits).0 ≡ 4 ∷ 3 ∷ [])
    × IsKept Kqueue.has_ended ((Kqueue.main (some 3) true true (some 4) true kqueue_visits).1)
main-closed_at_eof_example = Kqueue.main-closed_at_eof 3 4 kqueue_visits
