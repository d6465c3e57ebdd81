-- ===== src/Shell/Command/Grammar.antt =====
-- The command lines that `parse_cmds` is meant for, and the commands that it makes of them.
use mathlib.Core.Path.{subst}
use mathlib.Core.List.{map}
use iu_sysprog.Prelude.{
  ℕ, suc, ◌+◌, ◌<◌, ◌≡◌, refl, ap, sym, ◌∙◌, false, Option, none, some, List, [], ◌∷◌, ◌++◌, ◌>>=◌,
  take, length, length-append, append_assoc, append-nil, arith, All,
}
use iu_sysprog.Shell.CString.{strdup}
use iu_sysprog.Shell.Command.{
  Cmd, cmd_init, Builder, is_redirection, is_separator, put_cmd, special_cmd, redirection,
  separator, add_argument, cmds_loop, commands, first_cmd, parse_cmds,
}
use iu_sysprog.Shell.Command.Tokens.{
  slots, saved_cmd, put_cmd-slots, save_cmd-saved, take_snoc, take_all,
}

pub data Redirection : Type 0 where
  truncate append : Redirection

pub data Separator : Type 0 where
  pipe or_else and_then background : Separator

abbrev pub redirection_name : Redirection → List ℕ
redirection_name truncate = b'>' ∷ []
redirection_name append = b'>' ∷ b'>' ∷ []

abbrev pub separator_name : Separator → List ℕ
separator_name pipe = b'|' ∷ []
separator_name or_else = b'|' ∷ b'|' ∷ []
separator_name and_then = b'&' ∷ b'&' ∷ []
separator_name background = b'&' ∷ []

-- What follows a command: a redirection with its arguments, or a separator with the name and the
-- arguments of the next command.
pub data Link : Type 0 where
  redirect : Redirection → List (List ℕ) → Link
  separate : Separator → List ℕ → List (List ℕ) → Link

abbrev pub link_tokens : List Link → List (List ℕ)
link_tokens [] = []
link_tokens (redirect op args ∷ links) =
    (redirection_name op ++ 0 ∷ []) ∷ (args ++ link_tokens links)
link_tokens (separate op name args ∷ links) =
    (separator_name op ++ 0 ∷ []) ∷ name ∷ (args ++ link_tokens links)

abbrev pub with_args : Cmd → List (List ℕ) → Cmd
with_args c args = record c { argv = c.argv ++ map strdup args; argc = c.argc + length args }

abbrev pub simple : List ℕ → List (List ℕ) → Cmd
simple name args = with_args (cmd_init (strdup name)) args

abbrev pub linked : List Link → List Cmd
linked [] = []
linked (redirect op args ∷ links) =
    with_args (special_cmd (redirection_name op)) args ∷ linked links
linked (separate op name args ∷ links) =
    special_cmd (separator_name op) ∷ simple name args ∷ linked links

-- An argument is any token but an operator.
abbrev pub IsArgument : List ℕ → Type 0
IsArgument token = (is_redirection token ≡ false) × (is_separator token ≡ false)

abbrev pub IsLink : Link → Type 0
IsLink (redirect op args) = All IsArgument args
IsLink (separate op name args) = All IsArgument args

cmds_loop-argument :
    (b : Builder) (token : List ℕ) (rest : List (List ℕ))
    → IsArgument token
    → cmds_loop b (token ∷ rest) ≡ cmds_loop (add_argument b token) rest
unfolding cmds_loop
cmds_loop-argument b token [] h = rw (h.0, h.1)
cmds_loop-argument b token (next ∷ rest) h = rw (h.0, h.1)

cmds_loop-arguments :
    (args rest : List (List ℕ)) (b : Builder)
    → All IsArgument args
    → cmds_loop b (args ++ rest) ≡ cmds_loop (record b { temp = with_args (b.temp) args }) rest
cmds_loop-arguments [] rest b h =
    let e : b.temp.argc + 0 ≡ b.temp.argc = omega arith in rw (append-nil, e)
cmds_loop-arguments (token ∷ args) rest b h =
    let e : b.temp.argc + 1 + length args ≡ b.temp.argc + suc (length args) = omega arith in
    let ih = cmds_loop-arguments args rest (add_argument b token) h.1 in
    cmds_loop-argument b token (args ++ rest) h.0 ∙ rw (append_assoc, e) at ih

abbrev redirected : Builder → Redirection → Builder
redirected b op = record (saved_cmd b) {
  size = b.size + 1;
  temp = special_cmd (redirection_name op);
}

cmds_loop-redirection :
    (b : Builder) (op : Redirection) (rest : List (List ℕ))
    → b.index < b.size
    → cmds_loop b ((redirection_name op ++ 0 ∷ []) ∷ rest) ≡ cmds_loop (redirected b op) rest
unfolding cmds_loop redirection
cmds_loop-redirection b truncate [] h =
    rw (save_cmd-saved (record b { size = b.size + 1 }) (omega arith))
cmds_loop-redirection b truncate (next ∷ rest) h =
    rw (save_cmd-saved (record b { size = b.size + 1 }) (omega arith))
cmds_loop-redirection b append [] h =
    rw (save_cmd-saved (record b { size = b.size + 1 }) (omega arith))
cmds_loop-redirection b append (next ∷ rest) h =
    rw (save_cmd-saved (record b { size = b.size + 1 }) (omega arith))

abbrev parted : Builder → Separator → Builder
parted b op = record (saved_cmd b) { size = b.size + 2; temp = special_cmd (separator_name op) }

separator-parted :
    (b : Builder) (op : Separator)
    → b.index < b.size
    → separator b (separator_name op ++ 0 ∷ [])
      ≡ some (saved_cmd (record (parted b op) { temp = special_cmd (separator_name op ++ 0 ∷ []) }))
unfolding separator
separator-parted b op h = rw (save_cmd-saved (record b { size = b.size + 2 }) (omega arith)) (
    save_cmd-saved (record (parted b op) { temp = special_cmd (separator_name op ++ 0 ∷ []) })
      (omega arith))

cmds_loop-separator :
    (b : Builder) (op : Separator) (name : List ℕ) (rest : List (List ℕ))
    → b.index < b.size
    → cmds_loop b ((separator_name op ++ 0 ∷ []) ∷ name ∷ rest)
      ≡ cmds_loop (record (saved_cmd (parted b op)) { temp = cmd_init (strdup name) }) rest
unfolding cmds_loop
cmds_loop-separator b pipe name rest h = rw (separator-parted b pipe h)
cmds_loop-separator b or_else name rest h = rw (separator-parted b or_else h)
cmds_loop-separator b and_then name rest h = rw (separator-parted b and_then h)
cmds_loop-separator b background name rest h = rw (separator-parted b background h)

record Room (b : Builder) : Type 0 where
  room : b.index < b.size
  settled : length (take b.index b.cmds) ≡ b.index

abbrev Ends : Option Builder → List Cmd → Type 0
Ends none cs = ⊥
Ends (some b) cs = Room b × (slots b ≡ cs)

-- A command behind the saved ones.
behind-Room :
    (b : Builder) (c : Cmd) (size : ℕ)
    → Room b
    → b.index + 1 < size
    → Room (record (saved_cmd b) { size = size; temp = c })
      × (slots (record (saved_cmd b) { size = size; temp = c }) ≡ slots b ++ c ∷ [])
behind-Room b c size h room =
    let whole = take_snoc (take b.index b.cmds) b.temp b.index h.settled in
    (
      record {
        room = room;
        settled =
            rw whole (omega (arith, length-append (take b.index b.cmds) (b.temp ∷ []), h.settled));
      },
      ap (λ l. l ++ c ∷ []) whole,
    )

cmds_loop-links :
    (links : List Link) (b : Builder)
    → All IsLink links
    → Room b
    → Ends (cmds_loop b (link_tokens links)) (slots b ++ linked links)
cmds_loop-links [] b h room = unfold cmds_loop in (room, sym (append-nil (slots b)))
cmds_loop-links (redirect op args ∷ links) b h room =
    let c = with_args (special_cmd (redirection_name op)) args in
    let (room', e) = behind-Room b c (b.size + 1) room (omega (arith, room.room)) in
    rw
      (
        cmds_loop-redirection b op (args ++ link_tokens links) room.room,
        cmds_loop-arguments args (link_tokens links) (redirected b op) h.0,
      )
      (subst (Ends _)
        (ap (λ l. l ++ linked links) e ∙ append_assoc (slots b) (c ∷ []) (linked links))
        (cmds_loop-links links (record (saved_cmd b) { size = b.size + 1; temp = c }) h.1 room'))
cmds_loop-links (separate op name args ∷ links) b h room =
    let c = special_cmd (separator_name op) in
    let d = simple name args in
    let (room', e) = behind-Room b c (b.size + 2) room (omega (arith, room.room)) in
    let (room'', e') = behind-Room (parted b op) d (b.size + 2) room' (omega (arith, room.room)) in
    let both = e' ∙ ap (λ l. l ++ d ∷ []) e ∙ append_assoc (slots b) (c ∷ []) (d ∷ []) in
    rw
      (
        cmds_loop-separator b op name (args ++ link_tokens links) room.room,
        cmds_loop-arguments args (link_tokens links)
            (record (saved_cmd (parted b op)) { temp = cmd_init (strdup name) }) h.0,
      )
      (subst (Ends _)
        (ap (λ l. l ++ linked links) both ∙ append_assoc (slots b) (c ∷ d ∷ []) (linked links))
        (cmds_loop-links links (record (saved_cmd (parted b op)) { size = b.size + 2; temp = d })
          h.1 room''))

-- A command line: a command and what follows it.
abbrev pub line_tokens : List ℕ → List (List ℕ) → List Link → List (List ℕ)
line_tokens name args links = name ∷ (args ++ link_tokens links)

abbrev pub line_cmds : List ℕ → List (List ℕ) → List Link → List Cmd
line_cmds name args links = simple name args ∷ linked links

finish-Ends :
    (o : Option Builder) (cs : List Cmd)
    → Ends o cs
    → (o >>= put_cmd >>= λ b. some (commands b.cmds (b.index + 1))) ≡ some (commands cs (length cs))
finish-Ends none cs h = absurd h
finish-Ends (some b) cs (room, e) =
    let count : b.index + 1 ≡ length (slots b) =
      omega (arith, length-append (take b.index b.cmds) (b.temp ∷ []), room.settled) in
    rw (← e, put_cmd-slots b room.room, count)

first_cmd-Room :
    (name : List ℕ) (args : List (List ℕ))
    → Room (record (first_cmd name) { temp = simple name args })
first_cmd-Room name args = record { room = omega arith; settled = refl }

-- On the tokens of a command line, `parse_cmds` returns its commands: an operator is special, a
-- redirection has the tokens behind it as arguments, and a separator has none.
pub parse_cmds-line_cmds :
    (name : List ℕ) (args : List (List ℕ)) (links : List Link)
    → All IsArgument args
    → All IsLink links
    → parse_cmds (line_tokens name args links) (length (line_tokens name args links))
      ≡ some (commands (line_cmds name args links) (length (line_cmds name args links)))
unfolding parse_cmds
parse_cmds-line_cmds name args links ha hl = rw (take_all (args ++ link_tokens links)) (
    finish-Ends (cmds_loop (first_cmd name) (args ++ link_tokens links)) (line_cmds name args links)
      (rw (cmds_loop-arguments args (link_tokens links) (first_cmd name) ha) (
        cmds_loop-links links (record (first_cmd name) { temp = simple name args }) hl
          (first_cmd-Room name args))))
