-- ===== src/Shell/Lexer/Words.antt =====
-- Ways to write a token on the command line, and what the loop does with each. Every word is
-- followed by one space.
use mathlib.Core.List.{reverse, reverse_aux, reverse-cons, reverse-reverse}
use iu_sysprog.Prelude.{
  ℕ, ◌+◌, ◌≡◌, ◌≢◌, refl, true, false, ◌||◌, some, List, [], ◌∷◌, ◌++◌, inl, inr, arith, ◌==◌,
  if◌then◌else◌, ◌>>=◌, Bool-cases, All,
}
use iu_sysprog.Shell.CharStack.{CharStack, cs_push, cs_isempty, cs_peek, cs_pop}
use iu_sysprog.Shell.Lexer.{
  Lexer, is_blank, is_operator, is_skipped, save_token, operator_token, single_quoted,
  double_quoted, word_loop, word_token, lex_step, lexer,
}
use iu_sysprog.Shell.Lexer.Total.{save_token-saved}
use iu_sysprog.Shell.Lexer.Runs.{Lexes, step}

pub data Word : Type 0 where
  bare : ℕ → List ℕ → Word
  single : List ℕ → Word
  double : List ℕ → Word
  operator : ℕ → Word
  doubled : ℕ → Word

-- The bytes that the word stands for.
abbrev pub content : Word → List ℕ
content (bare c t) = c ∷ t
content (single t) = t
content (double t) = t
content (operator c) = c ∷ []
content (doubled c) = c ∷ c ∷ []

-- Between double quotes, a backslash stands before each backslash and double quote.
abbrev pub escape : List ℕ → List ℕ → List ℕ
escape [] rest = rest
escape (c ∷ t) rest =
    if c == b'\\' || c == b'"' then b'\\' ∷ c ∷ escape t rest else c ∷ escape t rest

abbrev pub render : Word → List ℕ → List ℕ
render (bare c t) rest = c ∷ (t ++ b' ' ∷ rest)
render (single t) rest = b'\'' ∷ (t ++ b'\'' ∷ b' ' ∷ rest)
render (double t) rest = b'"' ∷ escape t (b'"' ∷ b' ' ∷ rest)
render (operator c) rest = c ∷ b' ' ∷ rest
render (doubled c) rest = c ∷ c ∷ b' ' ∷ rest

-- A byte that stands for itself in an unquoted word, and one that may begin such a word.
abbrev pub IsPlain : ℕ → Type 0
IsPlain c = (is_blank c ≡ false) × (is_skipped c ≡ false)

abbrev pub IsFirst : ℕ → Type 0
IsFirst c = IsPlain c × (is_operator c ≡ false) × (c ≢ b'#')

abbrev pub IsWritable : Word → Type 0
IsWritable (bare c t) = IsFirst c × All IsPlain t
IsWritable (single t) = All (λ c. c ≢ b'\'') t
IsWritable (double t) = Unit
IsWritable (operator c) = is_operator c ≡ true
IsWritable (doubled c) = is_operator c ≡ true

abbrev pub token_of : Word → List ℕ
token_of w = content w ++ 0 ∷ []

-- Between two words.
abbrev pub ready : List (List ℕ) → ℕ → Lexer
ready args argc = record lexer { args = args; argc = argc }

word_loop-plain :
    (t rest : List ℕ) (w : CharStack)
    → All IsPlain t
    → word_loop false (t ++ b' ' ∷ rest) w ≡ (record { top = reverse_aux t w.top }, rest)
unfolding word_loop cs_push
word_loop-plain [] rest w h = refl
word_loop-plain (c ∷ t) rest w h =
    ground (arith, word_loop-plain t rest (record { top = c ∷ w.top }) h.1)

module _ (args : List (List ℕ)) (argc : ℕ) where
  -- The state between two words, with one more token.
  abbrev after : List ℕ → Lexer
  after t = ready (args ++ (t ++ 0 ∷ []) ∷ []) (argc + 1)

  abbrev in_single : List ℕ → Lexer
  in_single w = record (ready args argc) { single_quote = true; wstack = record { top = w } }

  abbrev in_double : List ℕ → Lexer
  in_double w = record (ready args argc) { double_quote = true; wstack = record { top = w } }

  save_token-after :
      (w rest : List ℕ)
      → ◌>>=◌ {B = Lexer × List ℕ}
          (save_token (record (ready args argc) { wstack = record { top = w } }))
          (λ s'. some (s', rest))
        ≡ some (after (reverse w), rest)
  save_token-after w rest = rw (save_token-saved, reverse-cons 0 w)

  lex_step-bare :
      (c : ℕ) (t rest : List ℕ)
      → IsFirst c
      → All IsPlain t
      → lex_step (ready args argc) c (t ++ b' ' ∷ rest) ≡ some (after (c ∷ t), rest)
  unfolding lex_step word_token
  lex_step-bare c t rest f h =
      let loop = word_loop-plain (c ∷ t) rest (record { top = [] }) (f.0, h) in
      let stored = rw (reverse-reverse (c ∷ t)) at (save_token-after (reverse (c ∷ t)) rest) in
      ground (arith, loop, stored)

  Lexes-blank :
      (rest : List ℕ) {u : Lexer}
      → Lexes (ready args argc) rest u
      → Lexes (ready args argc) (b' ' ∷ rest) u
  unfolding lex_step
  Lexes-blank rest r = step refl r

  Lexes-single :
      (t w rest : List ℕ) {u : Lexer}
      → All (λ c. c ≢ b'\'') t
      → Lexes (after (reverse_aux w t)) rest u
      → Lexes (in_single w) (t ++ b'\'' ∷ rest) u
  unfolding lex_step single_quoted cs_push
  Lexes-single [] w rest h r = step (save_token-after w rest) r
  Lexes-single (c ∷ t) w rest h r = step (ground arith) (Lexes-single t (c ∷ w) rest h.1 r)

  -- One byte between double quotes, as `escape` writes it.
  Lexes-escape_plain :
      (c : ℕ) (w rest : List ℕ) {u : Lexer}
      → (c == b'\\' || c == b'"') ≡ false
      → Lexes (in_double (c ∷ w)) rest u
      → Lexes (in_double w) (c ∷ rest) u
  unfolding lex_step double_quoted cs_isempty cs_push
  Lexes-escape_plain c w rest h r = step (ground arith) r

  Lexes-escape_special :
      (c : ℕ) (w rest : List ℕ) {u : Lexer}
      → (c == b'\\' || c == b'"') ≡ true
      → Lexes (in_double (c ∷ w)) rest u
      → Lexes (in_double w) (b'\\' ∷ c ∷ rest) u
  unfolding lex_step double_quoted cs_isempty cs_push cs_peek cs_pop
  Lexes-escape_special c w rest h r =
      step {s' = record (in_double w) { stack = record { top = b'\\' ∷ [] } }} refl
        (step (ground arith) r)

  Lexes-double :
      (t w rest : List ℕ) {u : Lexer}
      → Lexes (after (reverse_aux w t)) rest u
      → Lexes (in_double w) (escape t (b'"' ∷ rest)) u
  unfolding lex_step double_quoted cs_isempty
  Lexes-double [] w rest r = step (save_token-after w rest) r
  Lexes-double (c ∷ t) w rest r =
      let ih = Lexes-double t (c ∷ w) rest r in
      elim (Bool-cases (c == b'\\' || c == b'"')) [
        | inl e ↦ rw e (Lexes-escape_special c w (escape t (b'"' ∷ rest)) e ih)
        | inr e ↦ rw e (Lexes-escape_plain c w (escape t (b'"' ∷ rest)) e ih)
      ]

  lex_step-operator :
      (c : ℕ) (rest : List ℕ)
      → is_operator c ≡ true
      → lex_step (ready args argc) c (b' ' ∷ rest) ≡ some (after (c ∷ []), b' ' ∷ rest)
  unfolding lex_step operator_token cs_push
  lex_step-operator c rest h = ground (arith, save_token-after (c ∷ []) (b' ' ∷ rest))

  lex_step-doubled :
      (c : ℕ) (rest : List ℕ)
      → is_operator c ≡ true
      → lex_step (ready args argc) c (c ∷ rest) ≡ some (after (c ∷ c ∷ []), rest)
  unfolding lex_step operator_token cs_push
  lex_step-doubled c rest h = ground (arith, save_token-after (c ∷ c ∷ []) rest)

-- A writable word adds its token, whatever follows it on the line.
pub Lexes-render :
    (word : Word) (rest : List ℕ) (args : List (List ℕ)) (argc : ℕ) {u : Lexer}
    → IsWritable word
    → Lexes (ready (args ++ token_of word ∷ []) (argc + 1)) rest u
    → Lexes (ready args argc) (render word rest) u
unfolding lex_step
Lexes-render (bare c t) rest args argc h r = step (lex_step-bare args argc c t rest h.0 h.1) r
Lexes-render (single t) rest args argc h r =
    step refl (Lexes-single args argc t [] (b' ' ∷ rest) h (Lexes-blank _ _ rest r))
Lexes-render (double t) rest args argc h r =
    step refl (Lexes-double args argc t [] (b' ' ∷ rest) (Lexes-blank _ _ rest r))
Lexes-render (operator c) rest args argc h r =
    step (lex_step-operator args argc c rest h) (Lexes-blank _ _ rest r)
Lexes-render (doubled c) rest args argc h r =
    step (lex_step-doubled args argc c (b' ' ∷ rest) h) (Lexes-blank _ _ rest r)
