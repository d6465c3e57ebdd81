-- ===== src/Shell/Lexer/Runs.antt =====
-- Runs of the outer loop as a relation, so that lemmas on pieces of a line join.
use iu_sysprog.Prelude.{ℕ, zero, suc, ◌<◌, ◌≡◌, refl, some, List, [], ◌∷◌, arith, length}
use iu_sysprog.Shell.Lexer.{Lexer, lex_step, lex_loop}
use iu_sysprog.Shell.Lexer.Total.{Advances, lex_step-Advances}

-- From state `s`, the bytes lead the loop to state `t` at the end of the line.
pub data Lexes : Lexer → List ℕ → Lexer → Type 0 where
  stop : {s : Lexer} → Lexes s [] s
  step :
      {s s' t : Lexer} {c : ℕ} {rest rest' : List ℕ}
      → lex_step s c rest ≡ some (s', rest')
      → Lexes s' rest' t
      → Lexes s (c ∷ rest) t

-- Such a run is what the loop computes, with any fuel above the length of the line.
pub lex_loop-Lexes :
    (fuel : ℕ) {s t : Lexer} {bytes : List ℕ}
    → length bytes < fuel
    → Lexes s bytes t
    → lex_loop fuel s bytes ≡ some t
unfolding lex_loop
lex_loop-Lexes zero h r = absurd (omega arith)
lex_loop-Lexes (suc fuel) h stop = refl
lex_loop-Lexes (suc fuel) h (step {s} {s'} {c} {rest} {rest'} e r) =
    let le : Advances (some (s', rest')) (length rest) = rw e at (lex_step-Advances s c rest) in
    rw e (lex_loop-Lexes fuel (omega arith) r)
