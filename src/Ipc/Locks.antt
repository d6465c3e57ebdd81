-- ===== src/Ipc/Locks.antt =====
-- The loop of lecture_examples/9_aio/3_fcntl_lock.c, which writes to a file and locks parts of it. What
-- the kernel answers is a parameter; a string is its bytes before the NUL. `none` is undefined: a
-- variable is read that `sscanf` has not set, or a line is empty.
pub mod Spelled
use iu_sysprog.Prelude.{
  ℕ, zero, suc, ◌+◌, ◌-◌, ◌*◌, Bool, true, false, ◌&&◌, ◌||◌, Option, none, some, List, [], ◌∷◌,
  ◌++◌, ◌>>=◌, ◌==◌, leb, bytes_eq, if◌then◌else◌,
}
use iu_sysprog.Prelude.Int.{ℤ, pos, negsuc}
use iu_sysprog.Ipc.Sems.{trimmed}

pub data Whence : Type 0 where
  seek_set : Whence
  seek_end : Whence
  seek_cur : Whence

pub data LockType : Type 0 where
  rdlck : LockType
  wrlck : LockType
  unlck : LockType

-- `struct flock`, as it is filled in.
pub record Flock : Type 0 where
  pub l_type : LockType
  pub l_whence : Whence
  pub l_start : ℤ
  pub l_len : ℤ

-- A `write` of one byte, `fcntl` with `F_SETLKW` or `F_SETLK`, and with `F_GETLK`.
pub data Call : Type 0 where
  write : ℕ → Call
  setlk : Bool → Flock → Call
  getlk : Flock → Call

unfoldable pub char_to_whence : ℕ → Whence
char_to_whence whence =
    if whence == b's' then seek_set else if whence == b'e' then seek_end else seek_cur

unfoldable pub char_to_type : ℕ → LockType
char_to_type type = if type == b'r' then rdlck else if type == b'w' then wrlck else unlck

abbrev pub is_space : ℕ → Bool
is_space c = c == b' ' || leb 9 c && leb c 13

abbrev pub is_digit : ℕ → Bool
is_digit c = leb b'0' c && leb c b'9'

-- The conversions of `sscanf`, with the text behind them: a space of the format, `%c`, and `%d`.
unfoldable pub skip_space : List ℕ → List ℕ
skip_space [] = []
skip_space (c ∷ text) = let rest = skip_space text in if is_space c then rest else c ∷ text

unfoldable pub scan_char : List ℕ → Option (ℕ × List ℕ)
scan_char [] = none
scan_char (c ∷ text) = some (c, text)

unfoldable pub scan_digits : ℕ → List ℕ → ℕ × List ℕ
scan_digits n [] = (n, [])
scan_digits n (c ∷ text) =
    let more = scan_digits (n * 10 + (c - b'0')) text in if is_digit c then more else (n, c ∷ text)

unfoldable pub scan_number : List ℕ → Option (ℕ × List ℕ)
unfolding scan_digits
scan_number [] = none
scan_number (c ∷ text) = if is_digit c then some (scan_digits 0 (c ∷ text)) else none

abbrev pub negated : ℕ → ℤ
negated zero = pos 0
negated (suc n) = negsuc n

abbrev pub with_sign : (ℕ → ℤ) → Option (ℕ × List ℕ) → Option (ℤ × List ℕ)
with_sign sign none = none
with_sign sign (some (n, rest)) = some (sign n, rest)

unfoldable pub scan_signed : List ℕ → Option (ℤ × List ℕ)
unfolding scan_number
scan_signed [] = none
scan_signed (c ∷ text) =
    if c == b'-'
    then with_sign negated (scan_number text)
    else if c == b'+'
    then with_sign pos (scan_number text)
    else with_sign pos (scan_number (c ∷ text))

unfoldable pub scan_int : List ℕ → Option (ℤ × List ℕ)
unfolding scan_signed skip_space
scan_int text = scan_signed (skip_space text)

-- `sscanf(cmd, "%d %c", &n, &c)` and `sscanf(cmd, "%c %c %d %d", &type, &whence, &start, &len)`, of a
-- `cmd` that is NULL where the line has no arguments.
unfoldable pub scan_symbols : Option (List ℕ) → Option (ℤ × ℕ)
unfolding scan_int scan_char skip_space
scan_symbols none = none
scan_symbols (some cmd) = do
  (n, text) ← scan_int cmd
  (c, rest) ← scan_char (skip_space text)
  some (n, c)

unfoldable pub scan_flock : Option (List ℕ) → Option Flock
unfolding scan_int scan_char skip_space char_to_type char_to_whence
scan_flock none = none
scan_flock (some cmd) = do
  (type, text) ← scan_char cmd
  (whence, text') ← scan_char (skip_space text)
  (start, text'') ← scan_int text'
  (len, rest) ← scan_int text''
  some (record {
    l_type = char_to_type type;
    l_whence = char_to_whence whence;
    l_start = start;
    l_len = len;
  })

-- `strsep(&line, " \n")`: the token, and the line behind it or NULL.
unfoldable pub strsep : List ℕ → List ℕ × Option (List ℕ)
strsep [] = ([], none)
strsep (c ∷ line) =
    let (token, rest) = strsep line in
    if c == b' ' || c == 10 then ([], some line) else (c ∷ token, rest)

-- What `main` prints for a line.
pub data Said : Type 0 where
  ok : Said
  error : Said
  unknown_command : Said

abbrev pub rounds : ℤ → ℕ
rounds (pos n) = n
rounds (negsuc n) = 0

abbrev pub report : Bool → Said
report true = ok
report false = error

-- `kernel` says, after the calls before, whether a call succeeds; the last argument of each function
-- and the last result are the calls.
module _ (kernel : List Call → Call → Bool) where
  unfoldable pub write_loop : ℕ → ℕ → List Call → Bool × List Call
  write_loop zero c calls = (true, calls)
  write_loop (suc n) c calls =
      let rest = write_loop n c (calls ++ write c ∷ []) in
      if kernel calls (write c) then rest else (false, calls ++ write c ∷ [])

  unfoldable pub write_symbols : Option (List ℕ) → List Call → Option (Bool × List Call)
  unfolding scan_symbols write_loop
  write_symbols cmd calls = scan_symbols cmd >>= λ (n, c). some (write_loop (rounds n) c calls)

  unfoldable pub do_lock : Bool → Option (List ℕ) → List Call → Option (Bool × List Call)
  unfolding scan_flock
  do_lock block cmd calls =
      scan_flock cmd >>= λ fl. some (kernel calls (setlk block fl), calls ++ setlk block fl ∷ [])

  unfoldable pub get_lock : Option (List ℕ) → List Call → Option (Bool × List Call)
  unfolding scan_flock
  get_lock cmd calls =
      scan_flock cmd >>= λ fl. some (kernel calls (getlk fl), calls ++ getlk fl ∷ [])

  abbrev pub told : Bool × List Call → Option (Said × List Call)
  told (rc, calls) = some (report rc, calls)

  -- The command and its arguments.
  unfoldable pub dispatch : List ℕ → Option (List ℕ) → List Call → Option (Said × List Call)
  unfolding write_symbols do_lock get_lock
  dispatch cmd line calls =
      if bytes_eq cmd (b'w' ∷ b'r' ∷ b'i' ∷ b't' ∷ b'e' ∷ [])
      then write_symbols line calls >>= told
      else if bytes_eq cmd (b'l' ∷ b'o' ∷ b'c' ∷ b'k' ∷ [])
      then do_lock false line calls >>= told
      else if bytes_eq cmd (b'l' ∷ b'o' ∷ b'c' ∷ b'k' ∷ b'b' ∷ [])
      then do_lock true line calls >>= told
      else if bytes_eq cmd (b'g' ∷ b'e' ∷ b't' ∷ b'l' ∷ b'o' ∷ b'c' ∷ b'k' ∷ [])
      then get_lock line calls >>= told
      else some (unknown_command, calls)

  -- A round with the line that `getline` has read.
  unfoldable pub lock_round : List ℕ → List Call → Option (Said × List Call)
  unfolding strsep dispatch trimmed
  lock_round [] calls = none
  lock_round (c ∷ line) calls = let (cmd, rest) = strsep (trimmed c line) in dispatch cmd rest calls

  unfoldable pub main : List (List ℕ) → List Call → Option (List Said × List Call)
  unfolding lock_round
  main [] calls = some ([], calls)
  main (line ∷ lines) calls = lock_round line calls >>= λ (said, calls').
      main lines calls' >>= λ (rest, calls''). some (said ∷ rest, calls'')
