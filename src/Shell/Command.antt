-- ===== src/Shell/Command.antt =====
-- 2/solution/command.c: the tokens of a line are grouped into commands. The array `cmds` is the
-- list of its slots that were written, beside its allocated `size`; `none` is a write behind it.
pub mod Tokens
pub mod Grammar
use iu_sysprog.Prelude.{
  ℕ, ◌+◌, ◌-◌, Bool, true, false, ◌||◌, Option, none, some, List, [], ◌∷◌, ◌++◌, if◌then◌else◌,
  ◌>>=◌, ltb, take,
}
use iu_sysprog.Shell.CString.{str_equal, strdup}

pub record Cmd : Type 0 where
  pub name : List ℕ
  pub argv : List (List ℕ)
  pub argc : ℕ
  pub special : Bool

abbrev pub cmd_init : List ℕ → Cmd
cmd_init name = record { name = name; argv = []; argc = 0; special = false }

-- The local variables of `parse_cmds`.
pub record Builder : Type 0 where
  pub cmds : List Cmd
  pub size : ℕ
  pub index : ℕ
  pub temp : Cmd

abbrev pub is_redirection : List ℕ → Bool
is_redirection token = str_equal token (b'>' ∷ []) || str_equal token (b'>' ∷ b'>' ∷ [])

abbrev pub is_separator : List ℕ → Bool
is_separator token =
    str_equal token (b'|' ∷ b'|' ∷ [])
    || str_equal token (b'&' ∷ b'&' ∷ [])
    || str_equal token (b'|' ∷ [])
    || str_equal token (b'&' ∷ [])

-- `cmds[index] = temp`
unfoldable pub put_cmd : Builder → Option Builder
put_cmd b =
    if ltb b.index b.size
    then some (record b { cmds = take b.index b.cmds ++ b.temp ∷ [] })
    else none

-- `cmds[index++] = temp`
unfoldable pub save_cmd : Builder → Option Builder
unfolding put_cmd
save_cmd b = put_cmd b >>= λ b'. some (record b' { index = b'.index + 1 })

abbrev pub special_cmd : List ℕ → Cmd
special_cmd token = record (cmd_init (strdup token)) { special = true }

unfoldable pub redirection : Builder → List ℕ → Option Builder
unfolding save_cmd
redirection b token = save_cmd (record b { size = b.size + 1 }) >>= λ b'.
    some (record b' { temp = special_cmd token })

unfoldable pub separator : Builder → List ℕ → Option Builder
unfolding save_cmd
separator b token = save_cmd (record b { size = b.size + 2 }) >>= λ b'.
    save_cmd (record b' { temp = special_cmd token })

abbrev pub add_argument : Builder → List ℕ → Builder
add_argument b token = record b {
  temp = record (b.temp) { argv = b.temp.argv ++ strdup token ∷ []; argc = b.temp.argc + 1 };
}

-- The loop over the tokens from the second on. A separator takes the next token for the name of
-- the next command; where there is none, the separator itself is the last command.
unfoldable pub cmds_loop : Builder → List (List ℕ) → Option Builder
unfolding redirection separator
cmds_loop b [] = some b
cmds_loop b (token ∷ []) =
    if is_redirection token
    then redirection b token
    else if is_separator token
    then (separator b token >>= λ b'. some (record b' { index = b'.index - 1 }))
    else some (add_argument b token)
cmds_loop b (token ∷ next ∷ rest) =
    if is_redirection token
    then (redirection b token >>= λ b'. cmds_loop b' (next ∷ rest))
    else if is_separator token
    then (separator b token >>= λ b'. cmds_loop (record b' { temp = cmd_init (strdup next) }) rest)
    else (some (add_argument b token) >>= λ b'. cmds_loop b' (next ∷ rest))

-- What `parse_cmds` returns: NULL, or the array and its length.
pub data Parsed : Type 0 where
  null : Parsed
  commands : List Cmd → ℕ → Parsed

abbrev pub first_cmd : List ℕ → Builder
first_cmd token = record { cmds = []; size = 1; index = 0; temp = cmd_init (strdup token) }

parse_tokens : List (List ℕ) → Option Parsed
parse_tokens [] = some null
parse_tokens (token ∷ rest) =
    cmds_loop (first_cmd token) rest >>= put_cmd >>= λ b. some (commands b.cmds (b.index + 1))

unfoldable pub parse_cmds : List (List ℕ) → ℕ → Option Parsed
unfolding parse_tokens cmds_loop put_cmd
parse_cmds argv argc = parse_tokens (take argc argv)
