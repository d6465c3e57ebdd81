-- ===== src/Shell/Lexer.antt =====
-- `parse_line` of 2/solution/parser.c: the line is cut into tokens. The index that only moves
-- forward through `rs` is the list of the bytes from it on, and `rs[len]` is the NUL behind them.
-- A token is the buffer that `cs_splice` allocates, its NUL included. `none` is a read through NULL.
pub mod Total
pub mod Tokens
pub mod Runs
pub mod Words
pub mod RoundTrip
pub mod Escapes
use iu_sysprog.Prelude.{
  ℕ, zero, suc, ◌+◌, Bool, true, false, not, ◌&&◌, ◌||◌, Option, none, some, List, [], ◌∷◌, ◌++◌,
  ◌==◌, if◌then◌else◌, ◌>>=◌, length,
}
use iu_sysprog.Shell.CString.{c_string}
use iu_sysprog.Shell.CharStack.{
  CharStack, cs_push, cs_isempty, cs_peek, cs_pop, cs_splice, cs_reverse, cs_free,
}

-- The local variables of `parse_line`.
pub record Lexer : Type 0 where
  pub stack : CharStack
  pub wstack : CharStack
  pub args : List (List ℕ)
  pub argc : ℕ
  pub single_quote : Bool
  pub double_quote : Bool

abbrev pub Outcome : Type 0
Outcome = Option (Lexer × List ℕ)

abbrev pub is_blank : ℕ → Bool
is_blank c = c == b' ' || c == b'\t'

abbrev pub is_operator : ℕ → Bool
is_operator c = c == b'|' || c == b'>' || c == b'&'

abbrev pub pushed : CharStack → ℕ → CharStack
pushed stack c = (cs_push stack c).0

-- The block that ends each token: put the NUL, save the token, clear the word stack.
unfoldable pub save_token : Lexer → Option Lexer
save_token s = cs_splice (cs_reverse (pushed s.wstack 0)) >>= λ token.
    cs_free (pushed s.wstack 0) >>= λ cleared.
    some (record s { wstack = cleared; args = s.args ++ token ∷ []; argc = s.argc + 1 })

-- One of `| > &` outside quotes, doubled or not.
unfoldable pub operator_token : Lexer → ℕ → List ℕ → Outcome
operator_token s c [] = save_token (record s { wstack = pushed s.wstack c }) >>= λ s'. some (s', [])
operator_token s c (d ∷ rest) =
    if d == c
    then (save_token (record s { wstack = pushed (pushed s.wstack c) d }) >>= λ s'. some (s', rest))
    else (save_token (record s { wstack = pushed s.wstack c }) >>= λ s'. some (s', d ∷ rest))

-- A byte between single quotes.
unfoldable pub single_quoted : Lexer → ℕ → List ℕ → Outcome
single_quoted s c rest =
    if not (c == b'\'')
    then some (record s { wstack = pushed s.wstack c }, rest)
    else (save_token (record s { single_quote = false }) >>= λ s'. some (s', rest))

-- A byte between double quotes with the backslash `p` on the escape stack.
unfoldable pub escaped_char : Lexer → CharStack → ℕ → ℕ → Lexer
escaped_char s popped p c =
    if c == b'\n' && p == b'\\'
    then record s { stack = popped }
    else if c == b'\\' && p == b'\\'
    then record s { stack = popped; wstack = pushed s.wstack b'\\' }
    else if c == b'"' && p == b'\\'
    then record s { stack = popped; wstack = pushed s.wstack b'"' }
    else if c == b'n' && p == b'\\'
    then record s { stack = popped; wstack = pushed s.wstack b'\n' }
    else if c == b't' && p == b'\\'
    then record s { stack = popped; wstack = pushed s.wstack b'\t' }
    else if c == b'r' && p == b'\\'
    then record s { stack = popped; wstack = pushed s.wstack b'\r' }
    else record s { stack = popped; wstack = pushed (pushed s.wstack p) c }

-- A byte between double quotes.
unfoldable pub double_quoted : Lexer → ℕ → List ℕ → Outcome
unfolding escaped_char
double_quoted s c rest =
    if c == b'"' && cs_isempty (some s.stack)
    then (save_token (record s { double_quote = false }) >>= λ s'. some (s', rest))
    else if c == b'\\' && cs_isempty (some s.stack)
    then some (record s { stack = pushed s.stack b'\\' }, rest)
    else if not (c == b'\\') && cs_isempty (some s.stack)
    then some (record s { wstack = pushed s.wstack c }, rest)
    else (cs_peek s.stack >>= λ p.
        cs_pop s.stack >>= λ popped. some (escaped_char s popped p c, rest))

-- The word stack and the place after the two bytes that follow a backslash in an empty word: the
-- source has moved past the operator `c`, and pushes the byte that it finds there.
unfoldable pub past_operator : ℕ → List ℕ → CharStack → CharStack × List ℕ
past_operator c [] w = (pushed w 0, [])
past_operator c (d ∷ rest) w = (if d == c then pushed (pushed w d) d else pushed w d, rest)

-- A backslash and the operator `c` in a word: a word in progress ends before the operator.
unfoldable pub escaped_operator : ℕ → List ℕ → CharStack → CharStack × List ℕ
unfolding past_operator
escaped_operator c rest w =
    if not (cs_isempty (some w)) then (w, c ∷ rest) else past_operator c rest w

-- A quote or a backslash is no part of an unquoted word.
abbrev pub is_skipped : ℕ → Bool
is_skipped c = c == b'\\' || c == b'"' || c == b'\''

-- The loop over an unquoted word; the flag says that the last byte was a backslash. It gives the
-- word stack and the bytes from the index where the outer loop goes on.
unfoldable pub word_loop : Bool → List ℕ → CharStack → CharStack × List ℕ
unfolding escaped_operator
word_loop escaped [] w = (w, [])
word_loop true (c ∷ rest) w =
    let more = word_loop false rest (if c == b'\n' then w else pushed w c) in
    if is_operator c then escaped_operator c rest w else more
word_loop false (c ∷ rest) w =
    let more = word_loop (c == b'\\') rest (if is_skipped c then w else pushed w c) in
    if is_blank c then (w, rest) else more

unfoldable pub word_token : Lexer → List ℕ → Outcome
unfolding word_loop
word_token s bytes =
    let (w, rest) = word_loop false bytes s.wstack in
    save_token (record s { wstack = w }) >>= λ s'. some (s', rest)

-- One round of the outer loop: the tests in the order of the source. A comment ends the line.
unfoldable pub lex_step : Lexer → ℕ → List ℕ → Outcome
unfolding operator_token single_quoted double_quoted word_token
lex_step s c rest =
    let unquoted = not s.single_quote && not s.double_quote in
    if unquoted && is_blank c
    then some (s, rest)
    else if unquoted && c == b'#'
    then some (s, [])
    else if unquoted && is_operator c
    then operator_token s c rest
    else if unquoted && c == b'\''
    then some (record s { single_quote = true }, rest)
    else if s.single_quote && not s.double_quote
    then single_quoted s c rest
    else if unquoted && c == b'"'
    then some (record s { double_quote = true }, rest)
    else if not s.single_quote && s.double_quote
    then double_quoted s c rest
    else if unquoted
    then word_token s (c ∷ rest)
    else some (s, rest)

-- The outer loop on fuel: `none` also stands for fuel that ran out.
unfoldable pub lex_loop : ℕ → Lexer → List ℕ → Option Lexer
lex_loop zero s bytes = none
lex_loop (suc fuel) s [] = some s
lex_loop (suc fuel) s (c ∷ rest) = lex_step s c rest >>= λ (s', rest'). lex_loop fuel s' rest'

abbrev pub lexer : Lexer
lexer = record {
  stack = record { top = [] };
  wstack = record { top = [] };
  args = [];
  argc = 0;
  single_quote = false;
  double_quote = false;
}

-- The tokens and their number, which the source returns as a pair of pointers.
unfoldable pub parse_line : List ℕ → Option (List (List ℕ) × ℕ)
unfolding lex_loop lex_step save_token cs_push cs_peek cs_pop cs_splice cs_reverse cs_free
    cs_isempty
parse_line rs =
    let line = c_string rs in lex_loop (length line + 1) lexer line >>= λ s. some (s.args, s.argc)
