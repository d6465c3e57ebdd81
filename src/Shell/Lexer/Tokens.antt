-- ===== src/Shell/Lexer/Tokens.antt =====
-- What `parse_line` returns: as many tokens as it says, each with a NUL at its end.
use mathlib.Core.Path.{subst}
use mathlib.Core.List.{reverse, reverse-cons}
use iu_sysprog.Prelude.{
  ℕ, zero, suc, ◌+◌, ◌≡◌, refl, false, Option, none, some, List, [], ◌∷◌, ◌++◌, inl, inr, arith,
  ◌==◌, ◌>>=◌, length, Bool-cases, All, All-append, length-append, >>=-eq-some, some-inj,
}
use iu_sysprog.Shell.CharStack.{CharStack, cs_peek, cs_pop}
use iu_sysprog.Shell.CString.{c_string}
use iu_sysprog.Shell.Lexer.{
  Lexer, Outcome, pushed, save_token, operator_token, single_quoted, escaped_char, double_quoted,
  word_loop, word_token, lex_step, lex_loop, lexer, parse_line,
}
use iu_sysprog.Shell.Lexer.Total.{saved, save_token-saved}

-- A buffer that a C string function may read: it ends in a NUL.
abbrev pub IsTerminated : List ℕ → Type 0
IsTerminated token = (bytes : List ℕ) × (token ≡ bytes ++ 0 ∷ [])

abbrev pub AreTokens : List (List ℕ) → ℕ → Type 0
AreTokens args argc = All IsTerminated args × (argc ≡ length args)

abbrev Keeps : Outcome → Type 0
Keeps none = Unit
Keeps (some r) = AreTokens r.0.args r.0.argc

AreTokens-saved : (s : Lexer) → AreTokens s.args s.argc → AreTokens (saved s).args (saved s).argc
AreTokens-saved s h = (
  All-append IsTerminated s.args (reverse (0 ∷ s.wstack.top) ∷ []) h.0
      ((reverse s.wstack.top, reverse-cons 0 s.wstack.top), tt),
  omega (arith, length-append s.args (reverse (0 ∷ s.wstack.top) ∷ [])),
)

save_token-Keeps :
    (s : Lexer) (rest : List ℕ)
    → AreTokens s.args s.argc
    → Keeps (save_token s >>= λ s'. some (s', rest))
save_token-Keeps s rest h = rw save_token-saved (AreTokens-saved s h)

operator_token-Keeps :
    (s : Lexer) (c : ℕ) (rest : List ℕ) → AreTokens s.args s.argc → Keeps (operator_token s c rest)
unfolding operator_token
operator_token-Keeps s c [] h = save_token-Keeps (record s { wstack = pushed s.wstack c }) [] h
operator_token-Keeps s c (d ∷ rest) h = elim (Bool-cases (d == c)) [
  | inl e ↦ rw e (save_token-Keeps (record s { wstack = pushed (pushed s.wstack c) d }) rest h)
  | inr e ↦ rw e (save_token-Keeps (record s { wstack = pushed s.wstack c }) (d ∷ rest) h)
]

single_quoted-Keeps :
    (s : Lexer) (c : ℕ) (rest : List ℕ) → AreTokens s.args s.argc → Keeps (single_quoted s c rest)
unfolding single_quoted
single_quoted-Keeps s c rest h = elim (Bool-cases (c == b'\'')) [
  | inl e ↦ rw e (save_token-Keeps (record s { single_quote = false }) rest h)
  | inr e ↦ rw e h
]

escaped_char_args :
    (s : Lexer) (popped : CharStack) (p c : ℕ)
    → ((escaped_char s popped p c).args ≡ s.args) × ((escaped_char s popped p c).argc ≡ s.argc)
unfolding escaped_char
escaped_char_args s popped p c = ground arith

unescape-Keeps :
    (s : Lexer) (c : ℕ) (rest : List ℕ) (peeked : Option ℕ) (popped : Option CharStack)
    → AreTokens s.args s.argc
    → Keeps (peeked >>= λ p. popped >>= λ t. some (escaped_char s t p c, rest))
unescape-Keeps s c rest none _ h = tt
unescape-Keeps s c rest (some p) none h = tt
unescape-Keeps s c rest (some p) (some t) h =
    let (e, e') = escaped_char_args s t p c in rw (e, e') h

double_quoted-Keeps :
    (s : Lexer) (c : ℕ) (rest : List ℕ) → AreTokens s.args s.argc → Keeps (double_quoted s c rest)
unfolding double_quoted
double_quoted-Keeps s c rest h = ground (
  arith,
  save_token-Keeps (record s { double_quote = false }) rest h,
  unescape-Keeps s c rest (cs_peek s.stack) (cs_pop s.stack) h,
)

word_token-Keeps :
    (s : Lexer) (bytes : List ℕ) → AreTokens s.args s.argc → Keeps (word_token s bytes)
unfolding word_token
word_token-Keeps s bytes h =
    save_token-Keeps (record s { wstack = (word_loop false bytes s.wstack).0 }) _ h

lex_step-Keeps :
    (s : Lexer) (c : ℕ) (rest : List ℕ) → AreTokens s.args s.argc → Keeps (lex_step s c rest)
unfolding lex_step
lex_step-Keeps s c rest h = ground (
  arith,
  operator_token-Keeps s c rest h,
  single_quoted-Keeps s c rest h,
  double_quoted-Keeps s c rest h,
  word_token-Keeps s (c ∷ rest) h,
)

lex_loop-AreTokens :
    (fuel : ℕ) (s : Lexer) (bytes : List ℕ) {t : Lexer}
    → AreTokens s.args s.argc
    → lex_loop fuel s bytes ≡ some t
    → AreTokens t.args t.argc
unfolding lex_loop
lex_loop-AreTokens zero s bytes h e = cc
lex_loop-AreTokens (suc fuel) s [] h e = subst (λ t. AreTokens t.args t.argc) (some-inj e) h
lex_loop-AreTokens (suc fuel) s (c ∷ rest) h e =
    let ((s', rest'), e', e'') =
      >>=-eq-some (lex_step s c rest) (λ (s', rest'). lex_loop fuel s' rest') e in
    lex_loop-AreTokens fuel s' rest' (rw e' at (lex_step-Keeps s c rest h)) e''

-- Whatever the line, the tokens that `parse_line` returns end in a NUL, and their number is the
-- length of the array.
pub parse_line-AreTokens :
    (rs : List ℕ) {args : List (List ℕ)} {argc : ℕ}
    → parse_line rs ≡ some (args, argc)
    → AreTokens args argc
unfolding parse_line
parse_line-AreTokens rs e =
    let line = c_string rs in
    let (s, e', e'') =
      >>=-eq-some (lex_loop (length line + 1) lexer line) (λ s. some (s.args, s.argc)) e in
    let kept = lex_loop-AreTokens (length line + 1) lexer line (tt, refl) e' in
    subst (λ r. AreTokens r.0 r.1) (some-inj e'') kept
