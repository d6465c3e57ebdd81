-- ===== src/Net/Daemon.antt =====
-- lecture_examples/10_users/9_daemon.c: the server of lecture_examples/9_aio/5_server_poll.c in a
-- process of its own, whose output goes to a file. The answers of the system are parameters.
use iu_sysprog.Prelude.{ℕ, Bool, true, false, Option, none, some, List, [], ◌∷◌, ◌++◌, ◌>>=◌}
use iu_sysprog.Net.Poll.{Answer}
use iu_sysprog.Net.Poll

-- What the parent and the child of `fork` come to: the parent exits with 0; the child returns -1, or
-- the session of `setsid`.
pub data Daemonized : Type 0 where
  parent_exits : Daemonized
  fails : Daemonized
  session : ℕ → Daemonized

-- What `fork` answers: the parent, the child, or a failure in the parent, which the source takes for
-- the child.
pub data Fork : Type 0 where
  parent : Fork
  child : Fork
  refused : Fork

-- Behind `fork`: the answers of `open`, `dup2` and `setsid`, and the descriptors that are closed.
unfoldable pub detach : Option ℕ → Bool → Option ℕ → Daemonized × List ℕ
detach none duplicated sid = (fails, [])
detach (some fd) false sid = (fails, fd ∷ [])
detach (some fd) true none = (fails, fd ∷ 0 ∷ 2 ∷ [])
detach (some fd) true (some sid) = (session sid, fd ∷ 0 ∷ 2 ∷ [])

unfoldable pub daemonize : Fork → Option ℕ → Bool → Option ℕ → Daemonized × List ℕ
unfolding detach
daemonize parent opened duplicated sid = (parent_exits, [])
daemonize child opened duplicated sid = detach opened duplicated sid
daemonize refused opened duplicated sid = detach opened duplicated sid

-- `main`: the answers to `socket`, `bind` and `listen` behind those of `daemonize`, and the
-- descriptors that it closes, in order; `none` is a read outside the array of descriptors.
unfoldable pub main : Daemonized × List ℕ → Option ℕ → Bool → Bool → List Answer → Option (List ℕ)
unfolding Poll.main
main (parent_exits, closed) server bound listening answers = some closed
main (fails, closed) server bound listening answers = some closed
main (session sid, closed) server bound listening answers =
    Poll.main server bound listening answers >>= λ rest. some (closed ++ rest)
