-- ===== src/Shell/Loop/Rounds.antt =====
-- What a round of the shell does with its input, and where the loop does not end.
use mathlib.Core.List.{map}
use iu_sysprog.Prelude.{
  ℕ, zero, suc, ◌^◌, ◌<◌, ◌≡◌, refl, List, [], ◌∷◌, ◌++◌, none, some, All, ◌∙◌, ap, sym, length,
  length-map,
}
use iu_sysprog.Shell.Pair.{fst_pair}
use iu_sysprog.Shell.CString.{c_string_text, c_string_self, IsText}
use iu_sysprog.Shell.ReadLine.{read_line}
use iu_sysprog.Shell.ReadLine.Joined.{read_line-total}
use iu_sysprog.Shell.Lexer.{parse_line}
use iu_sysprog.Shell.Lexer.Total.{parse_line-total}
use iu_sysprog.Shell.Lexer.Tokens.{parse_line-AreTokens}
use iu_sysprog.Shell.Lexer.Words.{Word, token_of}
use iu_sysprog.Shell.Lexer.RoundTrip.{
  render_line, AreWritable, IsText-render_line, parse_line-render_line,
}
use iu_sysprog.Shell.Command.{Parsed, null, commands, parse_cmds}
use iu_sysprog.Shell.Command.Tokens.{parse_cmds-Grouped}
use iu_sysprog.Shell.Command.Grammar.{
  Link, line_tokens, line_cmds, IsArgument, IsLink, parse_cmds-line_cmds,
}
use iu_sysprog.Shell.Exec.{Os, Action, Status, returned, exec_cmds}
use iu_sysprog.Shell.Loop.{Session, pair_of, commands_array, shell_round, shell_loop}
use iu_sysprog.Shell.Loop.Lines.{AreTyped, read_line-render_line}

parse_cmds-total :
    (args : List (List ℕ)) (argc : ℕ)
    → argc ≡ length args
    → (p : Parsed) × (parse_cmds args argc ≡ some p)
parse_cmds-total [] argc e = (null, rw e (unfold parse_cmds in refl))
parse_cmds-total (token ∷ rest) argc e =
    let (cmds, count, h, _) = parse_cmds-Grouped token rest in (commands cmds count, rw e h)

parse_line-terminated :
    (line : List ℕ) → IsText line → parse_line (line ++ 0 ∷ []) ≡ parse_line line
unfolding parse_line
parse_line-terminated line h = rw (c_string_text line [] h, c_string_self line h)

module _ (os : Os) where
  -- Whatever is typed, where fewer than 2^29 bytes are to be read, for which the `int`s of the buffer are
  -- large enough, a round comes to its end: reading, cutting and grouping the line read through no NULL
  -- pointer and write inside their buffers.
  pub shell_round-total :
      (s : Session)
      → length s.input < 2 ^ 29
      → (status : Status) × (t : Session) × (shell_round os s ≡ some (status, t))
  unfolding shell_round
  shell_round-total s few =
      let ((raw, rest), e) = read_line-total s.input in
      let ((args, argc), e') = parse_line-total raw in
      let (p, e'') = parse_cmds-total args argc (parse_line-AreTokens raw e').1 in
      let run = exec_cmds os (commands_array (fst_pair (pair_of p))) s.trace in
      (run.0, record { input = rest; trace = run.1 }, rw e (rw e' (rw e'' refl)))

  -- A typed command line is run as its commands, and the round leaves the next lines unread.
  pub shell_round-line_cmds :
      (words : List Word) (name : List ℕ) (args : List (List ℕ)) (links : List Link) (rest : List ℕ)
      (trace : List Action)
      → AreTyped words
      → AreWritable words
      → map token_of words ≡ line_tokens name args links
      → All IsArgument args
      → All IsLink links
      → shell_round os (record { input = render_line words [] ++ b'\n' ∷ rest; trace = trace })
        ≡ some (
          (exec_cmds os (line_cmds name args links) trace).0,
          record { input = rest; trace = (exec_cmds os (line_cmds name args links) trace).1 },
        )
  unfolding shell_round
  shell_round-line_cmds words name args links rest trace typed writable tokens ha hl =
      let text = IsText-render_line words [] writable tt in
      let cut =
        parse_line-terminated (render_line words []) text ∙ parse_line-render_line words writable in
      let count : length words ≡ length (line_tokens name args links) =
        sym (length-map words token_of) ∙ ap length tokens in
      rw (
        read_line-render_line words rest typed,
        cut,
        tokens,
        count,
        parse_cmds-line_cmds name args links ha hl,
      )

  shell_round-eof :
      (trace : List Action)
      → shell_round os (record { input = []; trace = trace })
        ≡ some (returned 0, record { input = []; trace = trace })
  unfolding shell_round read_line parse_line parse_cmds exec_cmds
  shell_round-eof trace = refl

  shell_loop-running :
      (fuel : ℕ) (trace : List Action)
      → shell_loop os fuel (record { input = []; trace = trace }) ≡ none
  unfolding shell_loop
  shell_loop-running zero trace = refl
  shell_loop-running (suc fuel) trace = rw (shell_round-eof trace) (shell_loop-running fuel trace)

  -- At the end of its input a round of the shell ends in order, runs nothing and leaves the session as
  -- it is, so that the next round does the same; and no number of rounds ends the loop.
  pub shell_loop-eof :
      (fuel : ℕ) (trace : List Action)
      → (shell_round os (record { input = []; trace = trace })
          ≡ some (returned 0, record { input = []; trace = trace }))
        × (shell_loop os fuel (record { input = []; trace = trace }) ≡ none)
  shell_loop-eof fuel trace = (shell_round-eof trace, shell_loop-running fuel trace)
