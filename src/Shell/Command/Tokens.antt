-- ===== src/Shell/Command/Tokens.antt =====
-- `parse_cmds` keeps every token, in order, and writes inside its array.
use mathlib.Core.List.{map}
use iu_sysprog.Prelude.{
  ℕ, suc, ◌+◌, ◌-◌, ◌<◌, ◌≡◌, inl, inr, refl, ap, sym, ◌∙◌, true, ◌||◌, Option, none, some, List,
  [], ◌∷◌, ◌++◌, ◌>>=◌, take, take-append, length, length-append, append_assoc, append-nil, arith,
  All, All-append, Bool-cases,
}
use iu_sysprog.Shell.CString.{strdup}
use iu_sysprog.Shell.Command.{
  Cmd, cmd_init, Builder, is_redirection, is_separator, put_cmd, save_cmd, special_cmd, redirection,
  separator, add_argument, cmds_loop, commands, first_cmd, parse_cmds,
}

-- The names and arguments of the commands, one behind the other.
abbrev pub flat : List Cmd → List (List ℕ)
flat [] = []
flat (c ∷ cs) = c.name ∷ (c.argv ++ flat cs)

flat-append : (cs ds : List Cmd) → flat (cs ++ ds) ≡ flat cs ++ flat ds
flat-append [] ds = refl
flat-append (c ∷ cs) ds = simp (flat-append cs ds, append_assoc)

-- The count of a command is right, and a special command is named after an operator.
abbrev pub IsCmd : Cmd → Type 0
IsCmd c =
    (c.argc ≡ length c.argv)
    × (c.special ≡ true
        → (token : List ℕ) × (c.name ≡ strdup token)
          × ((is_redirection token || is_separator token) ≡ true))

-- The commands so far, with the one in progress.
abbrev pub slots : Builder → List Cmd
slots b = take b.index b.cmds ++ b.temp ∷ []

record Holds (b : Builder) (seen : List (List ℕ)) : Type 0 where
  room : b.index < b.size
  settled : length (take b.index b.cmds) ≡ b.index
  tokens : flat (take b.index b.cmds) ++ b.temp.name ∷ b.temp.argv ≡ seen
  sound : All IsCmd (take b.index b.cmds)
  current : IsCmd b.temp

flat-slots : (b : Builder) {seen : List (List ℕ)} → Holds b seen → flat (slots b) ≡ seen
flat-slots b h = flat-append (take b.index b.cmds) (b.temp ∷ []) ∙ rw append-nil h.tokens

slots-IsCmd : (b : Builder) {seen : List (List ℕ)} → Holds b seen → All IsCmd (slots b)
slots-IsCmd b h = All-append IsCmd (take b.index b.cmds) (b.temp ∷ []) h.sound (h.current, tt)

abbrev pub saved_cmd : Builder → Builder
saved_cmd b = record b { cmds = slots b; index = b.index + 1 }

pub put_cmd-slots :
    (b : Builder) → b.index < b.size → put_cmd b ≡ some (record b { cmds = slots b })
unfolding put_cmd
put_cmd-slots b h = ground arith

pub save_cmd-saved : (b : Builder) → b.index < b.size → save_cmd b ≡ some (saved_cmd b)
unfolding save_cmd
save_cmd-saved b h = rw (put_cmd-slots b h)

pub take_prefix {ℓ} : {A : Type ℓ} (xs ys : List A) (i : ℕ) → length xs ≡ i → take i (xs ++ ys) ≡ xs
take_prefix xs ys i e = rw (← e) (take-append xs ys)

pub take_snoc {ℓ} :
    {A : Type ℓ} (xs : List A) (x : A) (i : ℕ)
    → length xs ≡ i
    → take (i + 1) (xs ++ x ∷ []) ≡ xs ++ x ∷ []
take_snoc [] x i e = let e' : i + 1 ≡ 1 = omega arith in rw e'
take_snoc (y ∷ xs) x i e =
    let e' : i + 1 ≡ suc (length xs + 1) = omega arith in
    rw e' (ap (◌∷◌ y) (take_snoc xs x (length xs) refl))

-- A new command behind the saved ones.
Holds-next :
    (b : Builder) (c : Cmd) (size : ℕ) (seen : List (List ℕ))
    → Holds b seen
    → b.index + 1 < size
    → IsCmd c
    → Holds (record (saved_cmd b) { size = size; temp = c }) (seen ++ c.name ∷ c.argv)
Holds-next b c size seen h room good =
    let whole = take_snoc (take b.index b.cmds) b.temp b.index h.settled in
    record {
      room = room;
      settled =
          rw whole (omega (arith, length-append (take b.index b.cmds) (b.temp ∷ []), h.settled));
      tokens = rw whole (ap (λ l. l ++ c.name ∷ c.argv) (flat-slots b h));
      sound = rw whole (slots-IsCmd b h);
      current = good;
    }

IsCmd-special :
    (token : List ℕ)
    → (is_redirection token || is_separator token) ≡ true
    → IsCmd (special_cmd token)
IsCmd-special token h = (refl, λ e. (token, refl, h))

IsCmd-init : (name : List ℕ) → IsCmd (cmd_init name)
IsCmd-init name = (refl, λ e. cc)

abbrev Builds : Option Builder → List (List ℕ) → Type 0
Builds none seen = ⊥
Builds (some b) seen = Holds b seen

Builds-bind :
    (o : Option Builder) (f : Builder → Option Builder) (seen seen' : List (List ℕ))
    → Builds o seen
    → ((b : Builder) → Holds b seen → Builds (f b) seen')
    → Builds (o >>= f) seen'
Builds-bind none f seen seen' h k = absurd h
Builds-bind (some b) f seen seen' h k = k b h

module _ (b : Builder) (token : List ℕ) {seen : List (List ℕ)} (h : Holds b seen) where
  redirection-Builds :
      is_redirection token ≡ true → Builds (redirection b token) (seen ++ strdup token ∷ [])
  unfolding redirection
  redirection-Builds e =
      let e' : (is_redirection token || is_separator token) ≡ true = rw e in
      rw (save_cmd-saved (record b { size = b.size + 1 }) (omega (arith, h.room))) (
        Holds-next b (special_cmd token) (b.size + 1) seen h (omega (arith, h.room))
          (IsCmd-special token e'))

  -- The state between the two commands that a separator saves.
  abbrev halfway : Builder
  halfway = record (saved_cmd b) { size = b.size + 2; temp = special_cmd token }

  halfway-Holds : is_separator token ≡ true → Holds halfway (seen ++ strdup token ∷ [])
  halfway-Holds e =
      let e' : (is_redirection token || is_separator token) ≡ true = ground arith in
      Holds-next b (special_cmd token) (b.size + 2) seen h (omega (arith, h.room))
        (IsCmd-special token e')

  separator-saved : separator b token ≡ some (saved_cmd halfway)
  unfolding separator
  separator-saved =
      rw (save_cmd-saved (record b { size = b.size + 2 }) (omega (arith, h.room)))
        (save_cmd-saved halfway (omega (arith, h.room)))

  separator-Holds :
      (next : List ℕ)
      → is_separator token ≡ true
      → Holds
          (record (saved_cmd halfway) { temp = cmd_init (strdup next) })
          (seen ++ strdup token ∷ strdup next ∷ [])
  separator-Holds next e = rw (← append_assoc seen (strdup token ∷ []) (strdup next ∷ [])) (
      Holds-next halfway (cmd_init (strdup next)) (b.size + 2) (seen ++ strdup token ∷ [])
        (halfway-Holds e) (omega (arith, h.room)) (IsCmd-init (strdup next)))

  last_separator-Builds :
      is_separator token ≡ true
      → Builds
          (separator b token >>= λ b'. some (record b' { index = b'.index - 1 }))
          (seen ++ strdup token ∷ [])
  last_separator-Builds e =
      let m = halfway-Holds e in
      let back : halfway.index + 1 - 1 ≡ halfway.index = omega arith in
      let same =
        take_prefix (take halfway.index halfway.cmds) (halfway.temp ∷ []) halfway.index m.settled in
      rw (separator-saved, back)
        (record {
          room = m.room;
          settled = rw same m.settled;
          tokens = rw same m.tokens;
          sound = rw same m.sound;
          current = m.current;
        })

  add_argument-Holds : Holds (add_argument b token) (seen ++ strdup token ∷ [])
  add_argument-Holds = record {
    room = h.room;
    settled = h.settled;
    tokens =
        sym (
          append_assoc (flat (take b.index b.cmds)) (b.temp.name ∷ b.temp.argv) (strdup token ∷ []))
        ∙ ap (λ l. l ++ strdup token ∷ []) h.tokens;
    sound = h.sound;
    current =
        (omega (arith, length-append b.temp.argv (strdup token ∷ []), h.current.0), h.current.1);
  }

cmds_loop-Builds :
    (rest : List (List ℕ)) (b : Builder) (seen : List (List ℕ))
    → Holds b seen
    → Builds (cmds_loop b rest) (seen ++ map strdup rest)
unfolding cmds_loop
cmds_loop-Builds [] b seen h = rw append-nil h
cmds_loop-Builds (token ∷ []) b seen h = elim (Bool-cases (is_redirection token)) [
  | inl e ↦ rw e (redirection-Builds b token h e)
  | inr e ↦ elim (Bool-cases (is_separator token)) [
    | inl e' ↦ rw (e, e') (last_separator-Builds b token h e')
    | inr e' ↦ rw (e, e') (add_argument-Holds b token h)
  ]
]
cmds_loop-Builds (token ∷ next ∷ rest) b seen h =
    let left = append_assoc seen (strdup token ∷ []) (strdup next ∷ map strdup rest) in
    let both = append_assoc seen (strdup token ∷ strdup next ∷ []) (map strdup rest) in
    elim (Bool-cases (is_redirection token)) [
      | inl e ↦
          rw (e, ← left)
            (Builds-bind (redirection b token) (λ b'. cmds_loop b' (next ∷ rest))
              (seen ++ strdup token ∷ []) ((seen ++ strdup token ∷ []) ++ map strdup (next ∷ rest))
              (redirection-Builds b token h e)
              (λ b' h'. cmds_loop-Builds (next ∷ rest) b' (seen ++ strdup token ∷ []) h'))
      | inr e ↦ elim (Bool-cases (is_separator token)) [
        | inl e' ↦
            rw (e, e', separator-saved b token h, ← both)
              (cmds_loop-Builds rest _ (seen ++ strdup token ∷ strdup next ∷ [])
                (separator-Holds b token h next e'))
        | inr e' ↦
            rw (e, e', ← left)
              (cmds_loop-Builds (next ∷ rest) (add_argument b token) (seen ++ strdup token ∷ [])
                (add_argument-Holds b token h))
      ]
    ]

-- What `parse_cmds` returns for tokens: commands whose names and arguments, one behind the other,
-- are copies of the tokens in their order, with their number.
pub record Grouped (tokens : List (List ℕ)) (cmds : List Cmd) (count : ℕ) : Type 0 where
  pub in_order : flat cmds ≡ map strdup tokens
  pub counted : count ≡ length cmds
  pub sound : All IsCmd cmds

first_cmd-Holds : (token : List ℕ) → Holds (first_cmd token) (strdup token ∷ [])
first_cmd-Holds token = record {
  room = omega arith;
  settled = refl;
  tokens = refl;
  sound = tt;
  current = IsCmd-init (strdup token);
}

pub take_all {ℓ} : {A : Type ℓ} (xs : List A) → take (length xs) xs ≡ xs
take_all [] = refl
take_all (x ∷ xs) = ap (◌∷◌ x) (take_all xs)

finish-Grouped :
    (o : Option Builder) (tokens : List (List ℕ))
    → Builds o (map strdup tokens)
    → (cmds : List Cmd) × (count : ℕ) × ((o >>= put_cmd >>= λ b.
          some (commands b.cmds (b.index + 1)))
        ≡ some (commands cmds count))
      × Grouped tokens cmds count
finish-Grouped none tokens h = absurd h
finish-Grouped (some b) tokens h = (
  slots b,
  b.index + 1,
  rw (put_cmd-slots b h.room),
  record {
    in_order = flat-slots b h;
    counted = omega (arith, length-append (take b.index b.cmds) (b.temp ∷ []), h.settled);
    sound = slots-IsCmd b h;
  },
)

-- For a line with a token, `parse_cmds` writes nowhere outside its array, and groups the tokens.
pub parse_cmds-Grouped :
    (token : List ℕ) (rest : List (List ℕ))
    → (cmds : List Cmd) × (count : ℕ) × (parse_cmds (token ∷ rest) (length (token ∷ rest))
        ≡ some (commands cmds count))
      × Grouped (token ∷ rest) cmds count
unfolding parse_cmds
parse_cmds-Grouped token rest = rw (take_all rest) (
    finish-Grouped (cmds_loop (first_cmd token) rest) (token ∷ rest)
      (cmds_loop-Builds rest (first_cmd token) (strdup token ∷ []) (first_cmd-Holds token)))
