-- ===== src/Net/Clients.antt =====
-- What the servers of lecture_examples/9_aio do with a client: `interact`, `remove_client`, and the
-- loop over the clients that are ready. The answers of the sockets are parameters.
use iu_sysprog.Prelude.{
  ℕ, zero, suc, ◌+◌, ◌-◌, ◌%◌, ◌^◌, Bool, true, false, Option, none, some, List, [], ◌∷◌, ◌++◌, ltb,
  if◌then◌else◌, take, drop, get_elem?,
}

-- What `read` and `write` give: -1, 0 bytes, or the 32 bits of an `int`.
pub data Answer : Type 0 where
  failed : Answer
  nothing : Answer
  number : ℕ → Answer

-- What `interact` returns: -1, 0, or more.
pub data Rc : Type 0 where
  error : Rc
  disconnected : Rc
  served : Rc

-- The result, and the number that was sent. The second argument is what `write` answers.
unfoldable pub interact : Answer → Answer → Rc × Option ℕ
interact failed written = (error, none)
interact nothing written = (disconnected, none)
interact (number n) failed = (error, none)
interact (number n) nothing = (disconnected, none)
interact (number n) (number m) = (served, some ((n + 1) % 2 ^ 32))

-- The array without its element `i`: the two `memcpy`s round it.
unfoldable pub remove_client {ℓ} : {A : Type ℓ} → List A → ℕ → List A
remove_client clients i = take i clients ++ drop (i + 1) clients

-- `fd_of` and `is_ready` read a client; `talks` is what `interact` returns for its descriptor.
module _ {ℓ} {A : Type ℓ} (fd_of : A → ℕ) (is_ready : A → Bool) (talks : ℕ → Rc) where
  -- The clients and the descriptors that were talked to, on fuel; `none` is fuel that ran out.
  unfoldable pub serve : ℕ → ℕ → ℕ → List A → List ℕ → Option (List A × List ℕ)
  unfolding remove_client
  serve zero i nfds clients log = none
  serve (suc fuel) i nfds clients log =
      let more : Option (List A × List ℕ) = elim (get_elem? clients i) [
        | none ↦ some (clients, log)
        | some c ↦ elim (is_ready c) [
          | true ↦ elim (talks (fd_of c)) [
            | error ↦ some (clients, log ++ fd_of c ∷ [])
            | disconnected ↦
                serve fuel (i + 1) (nfds - 1) (remove_client clients i) (log ++ fd_of c ∷ [])
            | served ↦ serve fuel (i + 1) (nfds - 1) clients (log ++ fd_of c ∷ [])
          ]
          | false ↦ serve fuel (i + 1) nfds clients log
        ]
      ] in
      if ltb 0 nfds then more else some (clients, log)
