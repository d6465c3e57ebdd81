-- ===== src/Shell/Lexer/RoundTrip.antt =====
-- `parse_line` recovers the tokens of a line that was written from them, and drops a comment.
use iu_sysprog.Prelude.{
  ℕ, ◌+◌, ◌≡◌, refl, some, List, [], ◌∷◌, ◌++◌, arith, length, All, All-append, append-nil,
  append_assoc,
}
use mathlib.Core.List.{map}
use iu_sysprog.Shell.CString.{c_string_self, IsText}
use iu_sysprog.Shell.Lexer.{Lexer, lex_step, lexer, parse_line}
use iu_sysprog.Shell.Lexer.Runs.{Lexes, stop, step, lex_loop-Lexes}
use iu_sysprog.Shell.Lexer.Words.{
  Word, bare, single, double, operator, doubled, content, escape, render, IsWritable, token_of,
  ready, Lexes-render,
}

abbrev pub render_line : List Word → List ℕ → List ℕ
render_line [] rest = rest
render_line (word ∷ words) rest = render word (render_line words rest)

-- The words can be written, and hold no NUL.
abbrev pub AreWritable : List Word → Type 0
AreWritable = All (λ word. IsWritable word × IsText (content word))

IsText-escape : (t rest : List ℕ) → IsText t → IsText rest → IsText (escape t rest)
IsText-escape [] rest h k = k
IsText-escape (c ∷ t) rest h k = ground (arith, IsText-escape t rest h.1 k)

IsText-render :
    (word : Word) (rest : List ℕ) → IsText (content word) → IsText rest → IsText (render word rest)
IsText-render (bare c t) rest h k = (h.0, All-append _ t (b' ' ∷ rest) h.1 (omega arith, k))
IsText-render (single t) rest h k =
    (omega arith, All-append _ t (b'\'' ∷ b' ' ∷ rest) h (omega arith, (omega arith, k)))
IsText-render (double t) rest h k =
    (omega arith, IsText-escape t (b'"' ∷ b' ' ∷ rest) h (omega arith, (omega arith, k)))
IsText-render (operator c) rest h k = (h.0, (omega arith, k))
IsText-render (doubled c) rest h k = (h.0, (h.0, (omega arith, k)))

pub IsText-render_line :
    (words : List Word) (rest : List ℕ)
    → AreWritable words
    → IsText rest
    → IsText (render_line words rest)
IsText-render_line [] rest h k = k
IsText-render_line (word ∷ words) rest h k =
    IsText-render word (render_line words rest) h.0.1 (IsText-render_line words rest h.1 k)

-- The words are read one after the other, whatever stands behind them.
pub Lexes-render_line :
    (words : List Word) (rest : List ℕ) (args : List (List ℕ)) (argc total : ℕ) {u : Lexer}
    → total ≡ argc + length words
    → AreWritable words
    → Lexes (ready (args ++ map token_of words) total) rest u
    → Lexes (ready args argc) (render_line words rest) u
Lexes-render_line [] rest args argc total {u} e h r =
    let e' : total ≡ argc = omega arith in rw (append-nil, e') at r
Lexes-render_line (word ∷ words) rest args argc total e h r =
    Lexes-render word (render_line words rest) args argc h.0.0 (
      Lexes-render_line words rest (args ++ token_of word ∷ []) (argc + 1) total (omega arith) h.1
        (rw append_assoc r))

pub parse_line-Lexes :
    (line : List ℕ) {u : Lexer}
    → IsText line
    → Lexes lexer line u
    → parse_line line ≡ some (u.args, u.argc)
unfolding parse_line
parse_line-Lexes line h r =
    rw (c_string_self line h) (rw (lex_loop-Lexes (length line + 1) (omega arith) r))

-- A line written from words, each bare, quoted in either way or an operator, is cut into the
-- tokens of these words, in their order.
pub parse_line-render_line :
    (words : List Word)
    → AreWritable words
    → parse_line (render_line words []) ≡ some (map token_of words, length words)
parse_line-render_line words h = parse_line-Lexes _ (IsText-render_line words [] h tt) (
    Lexes-render_line words [] [] 0 (length words) (omega arith) h
      (stop {s = ready (map token_of words) (length words)}))

-- The rest of a line from a `#` at the beginning of a word adds nothing.
pub parse_line-comment :
    (words : List Word) (comment : List ℕ)
    → AreWritable words
    → IsText comment
    → parse_line (render_line words (b'#' ∷ comment)) ≡ some (map token_of words, length words)
unfolding lex_step
parse_line-comment words comment h k =
    parse_line-Lexes _ (IsText-render_line words (b'#' ∷ comment) h (omega arith, k)) (
      Lexes-render_line words (b'#' ∷ comment) [] 0 (length words) (omega arith) h
        (step {s = ready (map token_of words) (length words)} refl stop))
