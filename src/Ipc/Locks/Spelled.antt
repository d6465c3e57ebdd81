-- ===== src/Ipc/Locks/Spelled.antt =====
-- What the loop of lecture_examples/9_aio/3_fcntl_lock.c asks the kernel for on lines that spell a
-- command.
use iu_sysprog.Prelude.{
  ℕ, zero, suc, ◌+◌, ◌-◌, ◌*◌, ◌<◌, Bool, true, false, List, [], ◌∷◌, ◌++◌, ◌≡◌, ◌⊎◌, All,
}
use iu_sysprog.Prelude.Int.{pos}
use iu_sysprog.Ipc.Locks.{
  Flock, Call, write, setlk, getlk, char_to_whence, char_to_type, is_space, is_digit, Said, ok,
  error, report,
}

-- The digits of a number, the first apart.
abbrev pub Digits : Type 0
Digits = ℕ × List ℕ

abbrev pub text_of : Digits → List ℕ
text_of (d, ds) = d ∷ ds

abbrev pub value_from : ℕ → List ℕ → ℕ
value_from n [] = n
value_from n (d ∷ ds) = value_from (n * 10 + (d - b'0')) ds

abbrev pub value : Digits → ℕ
value ds = value_from 0 (text_of ds)

abbrev pub AreDigits : Digits → Type 0
AreDigits ds = All (λ d. is_digit d ≡ true) (text_of ds)

-- What the digits end at: the end of the text, or a byte that is no digit.
abbrev pub Ends : List ℕ → Type 0
Ends [] = Unit
Ends (c ∷ text) = is_digit c ≡ false

pub data Command : Type 0 where
  writes : Digits → ℕ → Command
  locks : Bool → ℕ → ℕ → Digits → Digits → Command
  asks : ℕ → ℕ → Digits → Digits → Command

abbrev pub symbols_text : Digits → ℕ → List ℕ
symbols_text n c = text_of n ++ b' ' ∷ c ∷ []

abbrev pub flock_text : ℕ → ℕ → Digits → Digits → List ℕ
flock_text type whence start len =
    type ∷ b' ' ∷ whence ∷ b' ' ∷ (text_of start ++ b' ' ∷ text_of len)

abbrev pub line_of : Command → List ℕ
line_of (writes n c) = b'w' ∷ b'r' ∷ b'i' ∷ b't' ∷ b'e' ∷ b' ' ∷ (symbols_text n c ++ 10 ∷ [])
line_of (locks false type whence start len) =
    b'l' ∷ b'o' ∷ b'c' ∷ b'k' ∷ b' ' ∷ (flock_text type whence start len ++ 10 ∷ [])
line_of (locks true type whence start len) =
    b'l' ∷ b'o' ∷ b'c' ∷ b'k' ∷ b'b' ∷ b' ' ∷ (flock_text type whence start len ++ 10 ∷ [])
line_of (asks type whence start len) =
    b'g'
    ∷ b'e'
    ∷ b't'
    ∷ b'l'
    ∷ b'o'
    ∷ b'c'
    ∷ b'k'
    ∷ b' '
    ∷ (flock_text type whence start len ++ 10 ∷ [])

-- Numbers are digits, and the byte behind a space is none.
abbrev pub IsSpelled : Command → Type 0
IsSpelled (writes n c) = AreDigits n × (is_space c ≡ false)
IsSpelled (locks block type whence start len) =
    (is_space whence ≡ false) × AreDigits start × AreDigits len
IsSpelled (asks type whence start len) = (is_space whence ≡ false) × AreDigits start × AreDigits len

abbrev pub flock_of : ℕ → ℕ → Digits → Digits → Flock
flock_of type whence start len = record {
  l_type = char_to_type type;
  l_whence = char_to_whence whence;
  l_start = pos (value start);
  l_len = pos (value len);
}

abbrev copies : ℕ → Call → List Call
copies zero call = []
copies (suc n) call = call ∷ copies n call

module _ (kernel : List Call → Call → Bool) where
  -- Behind so many writes of the byte the kernel takes another.
  abbrev pub Takes : ℕ → List Call → ℕ → Type 0
  Takes c calls j = kernel (calls ++ copies j (write c)) (write c) ≡ true

  -- Either all writes were taken, or those before the last one, and it failed.
  abbrev pub Wrote : ℕ → ℕ → List Call → Said → List Call → Type 0
  Wrote c n calls said calls' =
      ((said ≡ ok) × (calls' ≡ calls ++ copies n (write c)) × ((j : ℕ) → j < n → Takes c calls j))
      ⊎ ((said ≡ error)
          × ((k : ℕ) × (k < n)
              × (calls' ≡ calls ++ copies (suc k) (write c))
              × (kernel (calls ++ copies k (write c)) (write c) ≡ false)
              × ((j : ℕ) → j < k → Takes c calls j)))

  -- The calls that a command makes, and what is printed.
  abbrev pub Does : Command → List Call → Said → List Call → Type 0
  Does (writes n c) calls said calls' = Wrote c (value n) calls said calls'
  Does (locks block type whence start len) calls said calls' =
      let call = setlk block (flock_of type whence start len) in
      (said ≡ report (kernel calls call)) × (calls' ≡ calls ++ call ∷ [])
  Does (asks type whence start len) calls said calls' =
      let call = getlk (flock_of type whence start len) in
      (said ≡ report (kernel calls call)) × (calls' ≡ calls ++ call ∷ [])

  abbrev pub DoesAll : List Command → List Call → List Said → List Call → Type 0
  DoesAll [] calls saids calls' = (saids ≡ []) × (calls' ≡ calls)
  DoesAll (command ∷ commands) calls saids calls' =
      (said : Said) × (rest : List Said) × (middle : List Call) × (saids ≡ said ∷ rest)
      × Does command calls said middle
      × DoesAll commands middle rest calls'
