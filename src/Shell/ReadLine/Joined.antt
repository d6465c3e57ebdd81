-- ===== src/Shell/ReadLine/Joined.antt =====
-- What `read_line` makes of its input.
use iu_sysprog.Prelude.{
  ℕ, ◌+◌, ◌≤◌, ◌≡◌, ◌≢◌, inl, inr, refl, ◌∙◌, Bool, true, false, not, ◌&&◌, ◌||◌, some, List, [],
  ◌∷◌, ◌++◌, ◌==◌, if◌then◌else◌, arith, Bool-cases, length, length-append, append-nil,
  append_assoc, sym,
}
use iu_sysprog.Shell.ReadLine.{
  eof, Reader, store, Round, leave, go, overflow, stored, read_step, read_loop, reader, read_line,
}

-- The buffer has room for every byte written so far, and for a NUL.
pub record HasRoom (raw_line : List ℕ) (index size : ℕ) : Type 0 where
  pub counted : index ≡ length raw_line
  pub room : index + 128 ≤ size

abbrev pub Fits : Reader → Type 0
Fits s = HasRoom s.raw_line s.index s.size

-- What a round that stores a byte makes of the state.
abbrev pub stored_byte : Reader → ℕ → Reader
stored_byte s c = record s {
  raw_line = s.raw_line ++ c ∷ [];
  index = s.index + 1;
  size = s.size + 2;
  prev = c;
}

store-stored_byte : (s : Reader) (c : ℕ) → Fits s → store s c ≡ some (stored_byte s c)
unfolding store
store-stored_byte s c f = ground arith

stored_byte-Fits : (s : Reader) (c : ℕ) → Fits s → Fits (stored_byte s c)
stored_byte-Fits s c f = record {
  counted = omega (arith, length-append s.raw_line (c ∷ []), f.counted);
  room = omega (arith, f.room);
}

abbrev Fitting : Round → Type 0
Fitting leave = Unit
Fitting (go s) = Fits s
Fitting overflow = ⊥

stored-Fitting : (s : Reader) (c : ℕ) → Fits s → Fitting (stored (store s c))
stored-Fitting s c f = rw (store-stored_byte s c f) (stored_byte-Fits s c f)

read_step-Fitting : (s : Reader) (c : ℕ) → Fits s → Fitting (read_step s c)
unfolding read_step
read_step-Fitting s c f = ground (
  arith,
  stored-Fitting s c f,
  stored-Fitting (record s { double_quote = false }) c f,
  stored-Fitting (record s { double_quote = true }) c f,
)

read_step-eof : (s : Reader) → read_step s eof ≡ leave
unfolding read_step
read_step-eof s = ground arith

read_loop-end : (s : Reader) → read_loop [] s ≡ some (s, [])
unfolding read_loop
read_loop-end s = rw (read_step-eof s, read_loop)

read_loop-leave :
    (s : Reader) (c : ℕ) (input : List ℕ)
    → read_step s c ≡ leave
    → read_loop (c ∷ input) s ≡ some (s, input)
unfolding read_loop
read_loop-leave s c input e = rw (e, read_loop)

read_loop-go :
    (s : Reader) (c : ℕ) (input : List ℕ) {t : Reader}
    → read_step s c ≡ go t
    → read_loop (c ∷ input) s ≡ read_loop input t
unfolding read_loop
read_loop-go s c input e = rw (e, read_loop)

read_loop-Fits :
    (input : List ℕ) (s : Reader)
    → Fits s
    → (r : Reader × List ℕ) × (read_loop input s ≡ some r) × Fits r.0
read_loop-Fits [] s f = ((s, []), read_loop-end s, f)
read_loop-Fits (c ∷ input) s f =
    next (read_step s c) refl (read_step-Fitting s c f) (read_loop-Fits input)
  where
    next :
        (round : Round)
        → read_step s c ≡ round
        → Fitting round
        → ((t : Reader) → Fits t → (r : Reader × List ℕ) × (read_loop input t ≡ some r) × Fits r.0)
        → (r : Reader × List ℕ) × (read_loop (c ∷ input) s ≡ some r) × Fits r.0
    next leave e h ih = ((s, input), read_loop-leave s c input e, f)
    next (go t) e h ih = let (r, e', k) = ih t h in (r, read_loop-go s c input e ∙ e', k)
    next overflow e h ih = absurd h

reader-Fits : Fits reader
reader-Fits = record { counted = refl; room = omega arith }

-- `read_line` ends on every input, and writes no byte outside its buffer.
pub read_line-total : (input : List ℕ) → (r : List ℕ × List ℕ) × (read_line input ≡ some r)
unfolding read_line
read_line-total input =
    let ((s, rest), e, f) = read_loop-Fits input reader reader-Fits in
    ((s.raw_line ++ 0 ∷ [], rest), rw e (ground (arith, f.room)))

-- An input from a state in which the last byte was `prev`, inside double quotes or not, that goes
-- on up to a newline which ends it.
abbrev pub IsLine : Bool → ℕ → List ℕ → Type 0
IsLine quoted prev [] = (quoted ≡ false) × (prev ≢ b'\\')
IsLine quoted prev (c ∷ line) =
    (c ≢ eof)
    × (c ≢ 4)
    × (c ≡ b'\n' → (quoted || prev == b'\\') ≡ true)
    × IsLine (if c == b'"' then not quoted else quoted)
        (if not quoted && prev == b'\\' && c == b'\n' then b's' else c) line

-- Its bytes, but for each newline behind a backslash outside double quotes.
abbrev pub joined : Bool → ℕ → List ℕ → List ℕ
joined quoted prev [] = []
joined quoted prev (c ∷ line) =
    let rest =
      joined (if c == b'"' then not quoted else quoted)
        (if not quoted && prev == b'\\' && c == b'\n' then b's' else c) line in
    if not quoted && prev == b'\\' && c == b'\n' then rest else c ∷ rest

-- The state behind a byte of such a line.
abbrev behind : Reader → ℕ → Reader
behind s c =
    if not s.double_quote && s.prev == b'\\' && c == b'\n'
    then record s { prev = b's' }
    else stored_byte
        (record s { double_quote = if c == b'"' then not s.double_quote else s.double_quote }) c

read_step-behind :
    (s : Reader) (c : ℕ)
    → Fits s
    → c ≢ eof
    → c ≢ 4
    → (c ≡ b'\n' → (s.double_quote || s.prev == b'\\') ≡ true)
    → read_step s c ≡ go (behind s c)
unfolding read_step
read_step-behind s c f ne ne' h = ground (
  arith,
  store-stored_byte s c f,
  store-stored_byte (record s { double_quote = false }) c f,
  store-stored_byte (record s { double_quote = true }) c f,
)

read_step-newline :
    (s : Reader) → s.double_quote ≡ false → s.prev ≢ b'\\' → read_step s b'\n' ≡ leave
unfolding read_step
read_step-newline s e ne = ground arith

read_loop-joined :
    (line rest : List ℕ) (s : Reader)
    → Fits s
    → IsLine s.double_quote s.prev line
    → (t : Reader) × (read_loop (line ++ b'\n' ∷ rest) s ≡ some (t, rest))
      × (t.raw_line ≡ s.raw_line ++ joined s.double_quote s.prev line)
      × Fits t
read_loop-joined [] rest s f h =
    (s, read_loop-leave s b'\n' rest (read_step-newline s h.0 h.1), sym (append-nil s.raw_line), f)
read_loop-joined (c ∷ line) rest s f h =
    let go_on = read_loop-go s c (line ++ b'\n' ∷ rest) (read_step-behind s c f h.0 h.1 h.2) in
    elim (Bool-cases (not s.double_quote && s.prev == b'\\' && c == b'\n')) [
      | inl skip ↦
          let plain : (c == b'"') ≡ false = ground arith in
          let (t, e, raw, room) =
            read_loop-joined line rest (record s { prev = b's' }) f (rw (skip, plain) at (h.3)) in
          (t, go_on ∙ rw skip e, rw (skip, plain) raw, room)
      | inr keep ↦
          let s' =
            stored_byte
              (record s { double_quote = if c == b'"' then not s.double_quote else s.double_quote })
              c in
          let (t, e, raw, room) =
            read_loop-joined line rest s' (stored_byte-Fits s c f) (rw keep at (h.3)) in
          (t, go_on ∙ rw keep e, rw keep (raw ∙ append_assoc s.raw_line (c ∷ []) _), room)
    ]

-- `read_line` returns the line up to its newline, without the newlines that a backslash hides and
-- with a NUL, and leaves the rest of the input unread.
pub read_line-joined :
    (line rest : List ℕ)
    → IsLine false b's' line
    → read_line (line ++ b'\n' ∷ rest) ≡ some (joined false b's' line ++ 0 ∷ [], rest)
unfolding read_line
read_line-joined line rest h =
    let (t, e, raw, f) = read_loop-joined line rest reader reader-Fits h in
    rw e (ground (arith, f.room))
