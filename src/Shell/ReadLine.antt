-- ===== src/Shell/ReadLine.antt =====
-- `read_line` of 2/solution/parser.c. The bytes of stdin that are left are a list, behind which
-- `getc` gives EOF; the source keeps its answer in a `char`, which is taken to be signed, so that
-- EOF is the byte 255. `none` stands for a write behind the allocated buffer.
pub mod Joined
use iu_sysprog.Prelude.{
  ℕ, zero, suc, ◌+◌, Bool, true, false, not, ◌&&◌, ◌||◌, Option, none, some, List, [], ◌∷◌, ◌++◌,
  ◌==◌, if◌then◌else◌, ◌>>=◌, ltb, leb,
}

abbrev pub eof : ℕ
eof = 255

unfoldable pub is_eof : ℕ → Bool
is_eof next = if next == eof then true else if next == 4 then true else false

unfoldable pub is_eol : ℕ → ℕ → Bool
is_eol next prev = if next == b'\n' && not (prev == b'\\') then true else false

-- The local variables: `raw_line` holds the bytes that were written, at 0 to `index`, in a
-- buffer of `size` bytes.
pub record Reader : Type 0 where
  pub raw_line : List ℕ
  pub index : ℕ
  pub size : ℕ
  pub prev : ℕ
  pub double_quote : Bool

-- `raw_line[index++] = c`
unfoldable pub write_byte : Reader → ℕ → Option Reader
write_byte s c =
    if ltb s.index s.size
    then some (record s { raw_line = s.raw_line ++ c ∷ []; index = s.index + 1 })
    else none

-- The end of a round: the buffer grows, where `index - 1 <= size`, and takes the byte.
unfoldable pub store : Reader → ℕ → Option Reader
unfolding write_byte
store s next =
    let grown = if leb s.index (s.size + 1) then record s { size = s.size + 2 } else s in
    write_byte grown next >>= λ s'. some (record s' { prev = next })

pub data Round : Type 0 where
  leave : Round
  go : Reader → Round
  overflow : Round

abbrev pub stored : Option Reader → Round
stored none = overflow
stored (some s) = go s

-- One round of the loop.
unfoldable pub read_step : Reader → ℕ → Round
unfolding is_eof is_eol store
read_step s next =
    if s.double_quote && next == b'"'
    then stored (store (record s { double_quote = false }) next)
    else if not s.double_quote && next == b'"'
    then stored (store (record s { double_quote = true }) next)
    else if not s.double_quote && s.prev == b'\\' && next == b'\n'
    then go (record s { prev = b's' })
    else if is_eof next
    then leave
    else if is_eol next s.prev && not s.double_quote
    then leave
    else stored (store s next)

-- The loop, and the bytes that stay unread. At the end of the input the loop sees EOF; a round
-- that went on from there would see it again, for ever.
unfoldable pub read_loop : List ℕ → Reader → Option (Reader × List ℕ)
read_loop [] s = elim (read_step s eof) [ leave ↦ some (s, []) | _ ↦ none ]
read_loop (c ∷ input) s = elim (read_step s c) [
  | leave ↦ some (s, input)
  | go s' ↦ read_loop input s'
  | overflow ↦ none
]

abbrev pub reader : Reader
reader = record { raw_line = []; index = 0; size = 128; prev = b's'; double_quote = false }

-- The buffer, with its NUL, and the input that is left.
unfoldable pub read_line : List ℕ → Option (List ℕ × List ℕ)
unfolding read_loop read_step write_byte
read_line input =
    read_loop input reader >>= λ (s, rest). write_byte s 0 >>= λ s'. some (s'.raw_line, rest)
