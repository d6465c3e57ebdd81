-- ===== src/Shell/Lexer/Escapes.antt =====
-- A backslash before an operator, at the beginning of a word.
use iu_sysprog.Prelude.{ℕ, ◌+◌, ◌≡◌, ◌≢◌, true, some, List, [], ◌∷◌, ◌++◌, arith, length}
use mathlib.Core.List.{map}
use iu_sysprog.Shell.CharStack.{cs_push, cs_isempty}
use iu_sysprog.Shell.Lexer.{is_operator, word_token, lex_step, parse_line}
use iu_sysprog.Shell.Lexer.Total.{save_token-saved}
use iu_sysprog.Shell.Lexer.Runs.{stop, step}
use iu_sysprog.Shell.Lexer.Words.{Word, token_of, ready}
use iu_sysprog.Shell.Lexer.RoundTrip.{
  render_line, AreWritable, IsText-render_line, Lexes-render_line, parse_line-Lexes,
}

lex_step-escaped :
    (args : List (List ℕ)) (argc c d : ℕ)
    → is_operator c ≡ true
    → d ≢ c
    → lex_step (ready args argc) b'\\' (c ∷ d ∷ [])
      ≡ some (ready (args ++ (d ∷ 0 ∷ []) ∷ []) (argc + 1), [])
unfolding lex_step word_token cs_push cs_isempty
lex_step-escaped args argc c d h ne =
    ground (arith, save_token-saved (record (ready args argc) { wstack = record { top = d ∷ [] } }))

-- After any words, a backslash and an operator at the end of which a different byte stands: the
-- token is that byte, and the operator is lost.
pub parse_line-escaped_operator :
    (words : List Word) (c d : ℕ)
    → AreWritable words
    → is_operator c ≡ true
    → d ≢ c
    → d ≢ 0
    → parse_line (render_line words (b'\\' ∷ c ∷ d ∷ []))
      ≡ some (map token_of words ++ (d ∷ 0 ∷ []) ∷ [], length words + 1)
parse_line-escaped_operator words c d h op ne text =
    parse_line-Lexes _
      (IsText-render_line words (b'\\' ∷ c ∷ d ∷ []) h (omega arith, (ground arith, (text, tt))))
      (Lexes-render_line words _ [] 0 (length words) (omega arith) h (
        step {s = ready (map token_of words) (length words)}
          (lex_step-escaped (map token_of words) (length words) c d op ne) stop))
