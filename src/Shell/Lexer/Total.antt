-- ===== src/Shell/Lexer/Total.antt =====
-- The loops of `parse_line` end, and read through no NULL pointer.
use mathlib.Core.List.{reverse}
use iu_sysprog.Prelude.{
  ℕ, zero, suc, ◌+◌, ◌≤◌, ◌<◌, ◌≡◌, refl, Bool, true, false, none, some, List, [], ◌∷◌, ◌++◌, inl,
  inr, arith, ◌==◌, if◌then◌else◌, ◌>>=◌, length, Bool-cases,
}
use iu_sysprog.Shell.CharStack.{CharStack, cs_push, cs_isempty, cs_peek, cs_pop, cs_reverse}
use iu_sysprog.Shell.CharStack.Laws.{cs_splice-top, cs_reverse-top, cs_free-top}
use iu_sysprog.Shell.CString.{c_string}
use iu_sysprog.Shell.Lexer.{
  Lexer, Outcome, is_blank, pushed, save_token, is_skipped, operator_token, single_quoted,
  escaped_char, double_quoted, word_loop, word_token, lex_step, lex_loop, lexer, parse_line,
}

-- The state after a token is saved: the word stack from the bottom up, with a NUL behind it.
abbrev pub saved : Lexer → Lexer
saved s = record s {
  wstack = record { top = [] };
  args = s.args ++ reverse (0 ∷ s.wstack.top) ∷ [];
  argc = s.argc + 1;
}

pub save_token-saved : (s : Lexer) → save_token s ≡ some (saved s)
unfolding save_token cs_push
save_token-saved s = rw (
  cs_splice-top (cs_reverse (pushed s.wstack 0)),
  cs_reverse-top (pushed s.wstack 0),
  cs_free-top (pushed s.wstack 0),
)

-- A step gives a state, and leaves no more bytes than `n`.
abbrev pub Advances : Outcome → ℕ → Type 0
Advances none n = ⊥
Advances (some r) n = length r.1 ≤ n

pub Advances-some :
    (o : Outcome) (n : ℕ) → Advances o n → (r : Lexer × List ℕ) × (o ≡ some r) × (length r.1 ≤ n)
Advances-some none n h = absurd h
Advances-some (some r) n h = (r, refl, h)

operator_token-Advances :
    (s : Lexer) (c : ℕ) (rest : List ℕ) → Advances (operator_token s c rest) (length rest)
unfolding operator_token
operator_token-Advances s c [] = rw save_token-saved (omega arith)
operator_token-Advances s c (d ∷ rest) = elim (Bool-cases (d == c)) [
  | inl e ↦ rw (e, save_token-saved) (omega arith)
  | inr e ↦ rw (e, save_token-saved) (omega arith)
]

single_quoted-Advances :
    (s : Lexer) (c : ℕ) (rest : List ℕ) → Advances (single_quoted s c rest) (length rest)
unfolding single_quoted
single_quoted-Advances s c rest = elim (Bool-cases (c == b'\'')) [
  | inl e ↦ rw (e, save_token-saved) (omega arith)
  | inr e ↦ rw e (omega arith)
]

-- On a byte that no other test takes, the escape stack is not empty.
unescape-Advances :
    (s : Lexer) (c : ℕ) (rest : List ℕ)
    → cs_isempty (some s.stack) ≡ false
    → Advances
        (cs_peek s.stack >>= λ p.
          cs_pop s.stack >>= λ popped. some (escaped_char s popped p c, rest))
        (length rest)
unfolding cs_peek cs_pop cs_isempty
unescape-Advances s c rest h = from s.stack.top h
  where
    from :
        (l : List ℕ)
        → cs_isempty (some (record { top = l })) ≡ false
        → Advances
            (cs_peek (record { top = l }) >>= λ p.
              cs_pop (record { top = l }) >>= λ popped. some (escaped_char s popped p c, rest))
            (length rest)
    from [] h = cc
    from (p ∷ l) h = omega arith

double_quoted-Advances :
    (s : Lexer) (c : ℕ) (rest : List ℕ) → Advances (double_quoted s c rest) (length rest)
unfolding double_quoted
double_quoted-Advances s c rest = elim (Bool-cases (cs_isempty (some s.stack))) [
  | inl e ↦ ground (arith, save_token-saved (record s { double_quote = false }))
  | inr e ↦ rw e (ground (arith, unescape-Advances s c rest e))
]

pub word_loop-length :
    (escaped : Bool) (bytes : List ℕ) (w : CharStack)
    → length (word_loop escaped bytes w).1 ≤ length bytes
unfolding word_loop
word_loop-length _ [] w = omega arith
word_loop-length true (c ∷ []) w = ground arith
word_loop-length true (c ∷ d ∷ rest) w =
    ground (arith, word_loop-length false (d ∷ rest) (if c == b'\n' then w else pushed w c))
word_loop-length false (c ∷ rest) w =
    let ih = word_loop-length (c == b'\\') rest (if is_skipped c then w else pushed w c) in
    elim (Bool-cases (is_blank c)) [ inl e ↦ rw e (omega arith) | inr e ↦ rw e (omega arith) ]

-- A word that does not begin with a blank takes its first byte.
word_token-Advances :
    (s : Lexer) (c : ℕ) (rest : List ℕ)
    → is_blank c ≡ false
    → Advances (word_token s (c ∷ rest)) (length rest)
unfolding word_token word_loop
word_token-Advances s c rest e =
    let ih =
      word_loop-length (c == b'\\') rest (if is_skipped c then s.wstack else pushed s.wstack c) in
    rw (e, save_token-saved) ih

pub lex_step-Advances :
    (s : Lexer) (c : ℕ) (rest : List ℕ) → Advances (lex_step s c rest) (length rest)
unfolding lex_step
lex_step-Advances s c rest = ground (
  arith,
  operator_token-Advances s c rest,
  single_quoted-Advances s c rest,
  double_quoted-Advances s c rest,
  word_token-Advances s c rest,
)

pub lex_loop-total :
    (fuel : ℕ) (s : Lexer) (bytes : List ℕ)
    → length bytes < fuel
    → (t : Lexer) × (lex_loop fuel s bytes ≡ some t)
unfolding lex_loop
lex_loop-total zero s bytes h = absurd (omega arith)
lex_loop-total (suc fuel) s [] h = (s, refl)
lex_loop-total (suc fuel) s (c ∷ rest) h =
    let ((s', rest'), e, le) = Advances-some _ _ (lex_step-Advances s c rest) in
    let (t, e') = lex_loop-total fuel s' rest' (omega arith) in (t, rw e e')

-- `parse_line` ends on every line, balanced or not, and reads through no NULL pointer.
pub parse_line-total : (rs : List ℕ) → (r : List (List ℕ) × ℕ) × (parse_line rs ≡ some r)
unfolding parse_line
parse_line-total rs =
    let line = c_string rs in
    let (s, e) = lex_loop-total (length line + 1) lexer line (omega arith) in
    ((s.args, s.argc), rw e)
