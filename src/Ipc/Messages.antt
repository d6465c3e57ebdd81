-- ===== src/Ipc/Messages.antt =====
-- The messages of lecture_examples/7_ipc/9_sem_event_source.c and 9_sem_event_cons.c, with the `long`
-- of 8 bytes and the `int` of 4, the lowest byte first.
use Prim.Native.Nat.{◌/◌}
use iu_sysprog.Prelude.{
  ℕ, ◌+◌, ◌*◌, ◌%◌, ◌^◌, ◌<◌, ◌≤◌, false, Option, none, some, List, ◌++◌, ltb, length,
  if◌then◌else◌, drop, ◌≡◌, ap, ◌∙◌, arith,
}
use iu_sysprog.Ipc.Bytes.{bytes_of, int_of, int_of-bytes_of}

unfoldable pub bytes_of_long : ℕ → List ℕ
unfolding bytes_of
bytes_of_long n = bytes_of (n % 2 ^ 32) ++ bytes_of (n / 2 ^ 32)

unfoldable pub long_of : List ℕ → ℕ
unfolding int_of
long_of bytes = int_of bytes + 2 ^ 32 * int_of (drop 4 bytes)

-- What `pack_msg` writes to `msg`, from its start; its length is the result.
unfoldable pub pack_msg : ℕ → List ℕ → List ℕ
unfolding bytes_of_long
pack_msg type text = bytes_of_long type ++ bytes_of (length text) ++ text

-- `send_msg`, with its buffer of 512 bytes: what it packs, or `none` for a write outside the buffer.
unfoldable pub send_msg : ℕ → List ℕ → Option (List ℕ)
unfolding pack_msg
send_msg myid text =
    if ltb 512 (length (pack_msg myid text)) then none else some (pack_msg myid text)

-- `*type`, `*data_size`, and the bytes from `*data` on.
unfoldable pub unpack_msg : List ℕ → ℕ × ℕ × List ℕ
unfolding long_of
unpack_msg msg = (long_of msg, int_of (drop 8 msg), drop 12 msg)

int_of-front : (n : ℕ) (rest : List ℕ) → n < 2 ^ 32 → int_of (bytes_of n ++ rest) ≡ n
unfolding int_of bytes_of
int_of-front n rest h = int_of-bytes_of n h

long_of-front : (n : ℕ) (rest : List ℕ) → n < 2 ^ 64 → long_of (bytes_of_long n ++ rest) ≡ n
unfolding long_of bytes_of_long bytes_of
long_of-front n rest h =
    let low = int_of-front (n % 2 ^ 32) (bytes_of (n / 2 ^ 32) ++ rest) (omega arith) in
    let high = int_of-front (n / 2 ^ 32) rest (omega (arith, h)) in
    ap (λ k. k + 2 ^ 32 * int_of (bytes_of (n / 2 ^ 32) ++ rest)) low
    ∙ ap (λ k. n % 2 ^ 32 + 2 ^ 32 * k) high
    ∙ omega arith

-- A message of at most 500 bytes is packed inside the buffer, and unpack_msg takes from it, whatever
-- stands behind it, the type, the number of the bytes, and memory that begins with the bytes.
pub send_msg-unpack_msg :
    (type : ℕ) (text behind : List ℕ)
    → type < 2 ^ 64
    → length text ≤ 500
    → (msg : List ℕ) × (send_msg type text ≡ some msg)
      × (unpack_msg (msg ++ behind) ≡ (type, length text, text ++ behind))
unfolding send_msg unpack_msg pack_msg bytes_of_long bytes_of
send_msg-unpack_msg type text behind t n =
    let fits : ltb 512 (length (pack_msg type text)) ≡ false = ground (arith, n) in
    let size = int_of-front (length text) (text ++ behind) (omega (arith, n)) in
    let long = long_of-front type (bytes_of (length text) ++ text ++ behind) t in
    (
      pack_msg type text,
      ap (λ b. if b then none else some (pack_msg type text)) fits,
      ap (λ k. (k, int_of (bytes_of (length text) ++ text ++ behind), text ++ behind)) long
          ∙ ap (λ k. (type, k, text ++ behind)) size,
    )
