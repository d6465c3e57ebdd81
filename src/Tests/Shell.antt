-- ===== src/Tests/Shell.antt =====
-- The shell at concrete command lines.
use Prim.Native.Char.{code}
use Prim.Native.String.{String}
use mathlib.Core.List.{map}
use iu_sysprog.Prelude.{
  ◌≢◌, ◌≤◌, ℕ, ◌+◌, List, [], ◌∷◌, ◌++◌, ◌≡◌, refl, some, none, true, false, arith, length,
}
use iu_sysprog.Shell.CharStack
use iu_sysprog.Shell.CharStack.Nodes
use iu_sysprog.Shell.CharStack.Nodes.{load}
use iu_sysprog.Shell.CharStack.Nodes.Runs.{Op, push, pop, on_list, on_nodes, on_nodes-refines}
use iu_sysprog.Shell.Lexer.{parse_line}
use iu_sysprog.Shell.Lexer.Words.{Word, bare, single, double, operator, doubled, token_of}
use iu_sysprog.Shell.Lexer.RoundTrip.{render_line, AreWritable, parse_line-render_line}
use iu_sysprog.Shell.ReadLine.{read_line}
use iu_sysprog.Shell.ReadLine.Joined.{joined, read_line-joined}
use iu_sysprog.Shell.Command.{Cmd, commands, parse_cmds, cmd_init}
use iu_sysprog.Shell.Command.Tokens.{Grouped, parse_cmds-Grouped}
use iu_sysprog.Shell.Command.Grammar.{
  Link, separate, redirect, pipe, truncate, line_tokens, line_cmds, parse_cmds-line_cmds,
}
use iu_sysprog.Shell.Exec.{returned, Os, Status, exec_cmds, cd_name}
use iu_sysprog.Shell.Loop.{Session, shell_round, shell_loop}
use iu_sysprog.Shell.Loop.Rounds.{shell_round-total, shell_round-line_cmds, shell_loop-eof}

abbrev codes : String → List ℕ
codes String.[] = []
codes (String.◌∷◌ c s) = code c ∷ codes s

abbrev token : String → List ℕ
token s = codes s ++ 0 ∷ []

lex_words :
    parse_line (codes "ls -la|wc  'a b' \"x\\\"y\\q\" # no")
    ≡ some (token "ls" ∷ token "-la|wc" ∷ token "a b" ∷ token "x\"y\\q" ∷ [], 4)
unfolding parse_line
lex_words = refl

lex_pipe :
    parse_line (codes "echo 123\\ '4'a\\| >>f")
    ≡ some (token "echo" ∷ token "123 4a" ∷ token "|" ∷ token ">>" ∷ token "f" ∷ [], 5)
unfolding parse_line
lex_pipe = refl

-- echo 'a b' | wc > f
abbrev typed_words : List Word
typed_words =
    bare b'e' (codes "cho")
    ∷ single (codes "a b")
    ∷ operator b'|'
    ∷ bare b'w' (codes "c")
    ∷ operator b'>'
    ∷ bare b'f' []
    ∷ []

abbrev typed_links : List Link
typed_links = separate pipe (token "wc") [] ∷ redirect truncate (token "f" ∷ []) ∷ []

abbrev quoted_words : List Word
quoted_words = double (codes "a\"\\b") ∷ doubled b'&' ∷ []

abbrev quiet : Os
quiet = record { chdir_ok = λ trace dir. true; fork_ok = λ trace. true }

typed_words-AreWritable : AreWritable typed_words
typed_words-AreWritable = ground arith

quoted_words-AreWritable : AreWritable quoted_words
quoted_words-AreWritable = ground arith

shell_round-line_cmds_example :
    shell_round quiet
      (record { input = render_line typed_words [] ++ b'\n' ∷ codes "exit"; trace = [] })
    ≡ some (
      (exec_cmds quiet (line_cmds (token "echo") (token "a b" ∷ []) typed_links) []).0,
      record {
        input = codes "exit";
        trace = (exec_cmds quiet (line_cmds (token "echo") (token "a b" ∷ []) typed_links) []).1;
      },
    )
shell_round-line_cmds_example =
    shell_round-line_cmds quiet typed_words (token "echo") (token "a b" ∷ []) typed_links
      (codes "exit") [] (ground arith) typed_words-AreWritable refl (ground arith) (ground arith)

parse_line-render_line_example :
    parse_line (render_line quoted_words []) ≡ some (map token_of quoted_words, length quoted_words)
parse_line-render_line_example = parse_line-render_line quoted_words quoted_words-AreWritable

read_line-joined_example :
    read_line (codes "a\\\nb \"c\nd\"" ++ b'\n' ∷ codes "e")
    ≡ some (joined false b's' (codes "a\\\nb \"c\nd\"") ++ 0 ∷ [], codes "e")
read_line-joined_example = read_line-joined (codes "a\\\nb \"c\nd\"") (codes "e") (ground arith)

parse_cmds-Grouped_example :
    (cmds : List Cmd) × (count : ℕ) × (parse_cmds
        (token "a" ∷ token "|" ∷ token "|" ∷ [])
        (length (token "a" ∷ token "|" ∷ token "|" ∷ []))
      ≡ some (commands cmds count))
    × Grouped (token "a" ∷ token "|" ∷ token "|" ∷ []) cmds count
parse_cmds-Grouped_example = parse_cmds-Grouped (token "a") (token "|" ∷ token "|" ∷ [])

parse_cmds-line_cmds_example :
    parse_cmds
      (line_tokens (token "echo") (token "a b" ∷ []) typed_links)
      (length (line_tokens (token "echo") (token "a b" ∷ []) typed_links))
    ≡ some (
        commands
          (line_cmds (token "echo") (token "a b" ∷ []) typed_links)
          (length (line_cmds (token "echo") (token "a b" ∷ []) typed_links)))
parse_cmds-line_cmds_example =
    parse_cmds-line_cmds (token "echo") (token "a b" ∷ []) typed_links (ground arith) (ground arith)

shell_round-total_example :
    (status : Status) × (t : Session) × (shell_round quiet
        (record { input = codes "'"; trace = [] })
      ≡ some (status, t))
shell_round-total_example =
    shell_round-total quiet (record { input = codes "'"; trace = [] }) (omega arith)

shell_loop-eof_example :
    (shell_round quiet (record { input = []; trace = [] })
      ≡ some (returned 0, record { input = []; trace = [] }))
    × (shell_loop quiet 1000 (record { input = []; trace = [] }) ≡ none)
shell_loop-eof_example = shell_loop-eof quiet 1000 []

abbrev listing : List Cmd
listing = cmd_init (token "ls") ∷ []

abbrev bare_cd : Cmd
bare_cd = cmd_init cd_name

-- A pipe sign on a command line.
abbrev bar_cmd : Cmd
bar_cmd = record (cmd_init (token "|")) { special = true }

-- An allocator whose address is above all that are in use.
abbrev next_address : Nodes.Heap → ℕ
next_address [] = 0
next_address ((a, node) ∷ heap) = a + 1 + next_address heap

next_address_unused : (heap : Nodes.Heap) (a : ℕ) → next_address heap ≤ a → load a heap ≡ none
unfolding load
next_address_unused [] a le = refl
next_address_unused ((b, node) ∷ heap) a le =
    let ih = next_address_unused heap a (omega (arith, le)) in ground (arith, ih, le)

abbrev other_node : Nodes.Heap
other_node = (0, Nodes.char_node 7 none) ∷ []

abbrev stack_ops : List Op
stack_ops = push 97 ∷ push 98 ∷ pop ∷ push 99 ∷ []

abbrev two_chars : CharStack.CharStack
two_chars = record { top = 99 ∷ 97 ∷ [] }

stack_ops_end : on_list stack_ops CharStack.cs_init ≡ some two_chars
unfolding on_list CharStack.cs_init CharStack.cs_push CharStack.cs_pop
stack_ops_end = refl

on_nodes-refines_example :
    (s : Nodes.Store) × (on_nodes next_address stack_ops (Nodes.cs_init next_address other_node)
      ≡ some s)
    × (Nodes.cs_splice 2 s ≡ CharStack.cs_splice two_chars)
    × ((r : Nodes.Store) × (Nodes.cs_reverse next_address 2 s ≡ some r)
        × (Nodes.cs_splice 2 r ≡ CharStack.cs_splice (CharStack.cs_reverse two_chars))
        × (Nodes.cs_splice 2 (record { heap = r.heap; top = s.top })
            ≡ CharStack.cs_splice two_chars))
    × ((f : Nodes.Store) × (Nodes.cs_free 2 s ≡ some f)
        × (f.top ≡ none)
        × (load (next_address other_node) f.heap ≡ some Nodes.char_stack)
        × ((b : ℕ) → b ≢ next_address other_node → load b f.heap ≡ load b other_node))
on_nodes-refines_example =
    on_nodes-refines next_address
      (λ heap. next_address_unused heap (next_address heap) (omega arith)) other_node stack_ops
      two_chars 2 stack_ops_end (omega arith)
