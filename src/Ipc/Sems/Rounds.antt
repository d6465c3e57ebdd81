-- ===== src/Ipc/Sems/Rounds.antt =====
-- What a transaction of lecture_examples/7_ipc/8_sem.c hands to the kernel, and how its loop fares at
-- the end of the input.
use mathlib.Core.Path.{subst}
use mathlib.Core.List.{map}
use iu_sysprog.Prelude.{
  ◌⊎◌, ℕ, zero, suc, ◌+◌, ◌-◌, ◌%◌, ◌^◌, ◌<◌, ◌≤◌, Bool, true, false, Option, some, List, [], ◌∷◌,
  ◌++◌, ◌==◌, ltb, if◌then◌else◌, length, length-append, ◌≡◌, refl, sym, ap, ◌∙◌, arith, All,
  Bool-cases, inl, inr, append_assoc, append-nil,
}
use iu_sysprog.Ipc.Sems.{
  Sembuf, Sems, Outcome, goes, returned, outside, Command, begin, commit, rollback, delete, quit,
  show, operation, command_of, trimmed, commit_ops, put_op, read_op, perform, sem_round, feed,
  at_end, kept,
}

pub trimmed-line : (c : ℕ) (text : List ℕ) (last : ℕ) → trimmed c (text ++ last ∷ []) ≡ c ∷ text
unfolding trimmed
trimmed-line c [] last = refl
trimmed-line c (d ∷ text) last = ap (◌∷◌ c) (trimmed-line d text last)

length-trimmed : (c : ℕ) (line : List ℕ) → length (trimmed c line) ≡ length line
unfolding trimmed
length-trimmed c [] = refl
length-trimmed c (d ∷ line) = ap suc (length-trimmed d line)

abbrev last_of : ℕ → List ℕ → ℕ
last_of c [] = c
last_of c (d ∷ line) = last_of d line

trimmed-last : (c : ℕ) (line : List ℕ) → trimmed c line ++ last_of c line ∷ [] ≡ c ∷ line
unfolding trimmed
trimmed-last c [] = refl
trimmed-last c (d ∷ line) = ap (◌∷◌ c) (trimmed-last d line)

-- What a command with which the loop goes on makes of so many operations.
abbrev pub Counts : Command → ℕ → ℕ → Type 0
Counts begin m k = k ≡ m
Counts commit m k = (k ≡ m) ⊎ (k ≡ 0)
Counts rollback m k = k ≡ 0
Counts delete m k = ⊥
Counts quit m k = ⊥
Counts show m k = k ≡ m
Counts operation m k = (k ≡ m) ⊎ (k ≡ suc m)

-- How the loop ends on a line that no `getline` replaces, from so many operations on.
pub data Ends : ℕ → List ℕ → Outcome → Type 0 where
  ran_out : {m : ℕ} → Ends m [] outside
  quits :
      {m : ℕ} (text : List ℕ) (last : ℕ)
      → (command_of text ≡ quit) ⊎ (command_of text ≡ delete)
      → Ends m (text ++ last ∷ []) returned
  full :
      {m : ℕ} (text : List ℕ) (last : ℕ)
      → command_of text ≡ operation
      → 100 ≤ m
      → Ends m (text ++ last ∷ []) outside
  cuts :
      {m k : ℕ} {o : Outcome} (text : List ℕ) (last : ℕ)
      → Counts (command_of text) m k
      → Ends k text o
      → Ends m (text ++ last ∷ []) o

abbrev Lined : ℕ → List ℕ → Outcome → Type 0
Lined m line (goes s) = (s.line ≡ line) × Counts operation m (length s.ops)
Lined m line returned = ⊥
Lined m line outside = 100 ≤ m

module _ (scan : List ℕ → Option ℕ × Option ℕ)
    (accepts : List (List Sembuf) → List Sembuf → Bool) where
  commit-line : (s : Sems) → (commit_ops scan accepts s).line ≡ s.line
  unfolding commit_ops
  commit-line s = elim (Bool-cases (accepts s.calls s.ops)) [
    | inl e ↦ rw e refl
    | inr e ↦ rw e refl
  ]

  commit-count : (s : Sems) → Counts commit (length s.ops) (length (commit_ops scan accepts s).ops)
  unfolding commit_ops
  commit-count s = elim (Bool-cases (accepts s.calls s.ops)) [
    | inl e ↦ rw e (inr refl)
    | inr e ↦ rw e (inl refl)
  ]

  put-line : (b : Bool) (s : Sems) → Lined (length s.ops) s.line (put_op scan accepts b s)
  unfolding put_op
  put-line b s = elim (Bool-cases (ltb (length s.ops) 100)) [
    | inl e ↦ elim (Bool-cases s.is_inside_txn) [
      | inl i ↦ rw (e, i) (refl, inr (omega (arith, length-append s.ops (_ ∷ []))))
      | inr i ↦ rw (e, i) (refl, inl refl)
    ]
    | inr e ↦ rw e (ground (arith, e))
  ]

  read-line : (s : Sems) → Lined (length s.ops) s.line (read_op scan accepts s)
  unfolding read_op
  read-line s = elim (Bool-cases (s.cmd == b'-')) [
    | inl e ↦ rw e (put-line false s)
    | inr e ↦ elim (Bool-cases (s.cmd == b'+')) [
      | inl p ↦ rw (e, p) (put-line true s)
      | inr p ↦ rw (e, p) (refl, inl refl)
    ]
  ]

  -- The rounds behind the outcome of a round.
  abbrev later : ℕ → Outcome → Outcome
  later n o = elim o [
    | goes s' ↦ at_end scan accepts true n s'
    | returned ↦ returned
    | outside ↦ outside
  ]

  operated :
      (n m : ℕ) (text : List ℕ) (last : ℕ) (o : Outcome)
      → command_of text ≡ operation
      → Lined m text o
      → ((s : Sems) → s.line ≡ text → Ends (length s.ops) text (at_end scan accepts true n s))
      → Ends m (text ++ last ∷ []) (later n o)
  operated n m text last (goes s) c (e, h) ih = cuts text last (rw c h) (ih s e)
  operated n m text last returned c h ih = absurd h
  operated n m text last outside c h ih = full text last c h

  performed :
      (n : ℕ) (c : Command) (text : List ℕ) (last : ℕ) (s : Sems)
      → command_of text ≡ c
      → s.line ≡ text
      → ((s' : Sems) → s'.line ≡ text → Ends (length s'.ops) text (at_end scan accepts true n s'))
      → Ends (length s.ops) (text ++ last ∷ []) (later n (perform scan accepts c s))
  unfolding perform
  performed n begin text last s c e ih = cuts text last (rw c refl) (ih _ e)
  performed n commit text last s c e ih =
      cuts text last (rw c (commit-count s)) (ih (commit_ops scan accepts s) (commit-line s ∙ e))
  performed n rollback text last s c e ih = cuts text last (rw c refl) (ih _ e)
  performed n delete text last s c e ih = quits text last (inr c)
  performed n quit text last s c e ih = quits text last (inl c)
  performed n show text last s c e ih = cuts text last (rw c refl) (ih _ e)
  performed n operation text last s c e ih =
      let s' = record s {
        sem_num = kept s.sem_num ((scan s.line).0);
        cmd = kept s.cmd ((scan s.line).1);
      } in
      operated n (length s.ops) text last (read_op scan accepts s') c
        (subst (λ line. Lined (length s.ops) line (read_op scan accepts s')) e (read-line s')) ih

  line-Ends :
      (n : ℕ) (line : List ℕ) (s : Sems)
      → s.line ≡ line
      → length line < n
      → Ends (length s.ops) line (at_end scan accepts true n s)
  unfolding at_end sem_round
  line-Ends zero line s e f = absurd (omega (arith, f))
  line-Ends (suc n) [] s e f = rw e ran_out
  line-Ends (suc n) (c ∷ line) s e f =
      let text = trimmed c line in
      let ih = λ (s' : Sems) (e' : s'.line ≡ text).
        line-Ends n text s' e' (omega (arith, f, length-trimmed c line)) in
      let ends =
        performed n (command_of text) text (last_of c line) (record s { line = text }) refl refl
          ih in
      rw e (
        subst (λ l. Ends (length s.ops) l (later n (sem_round scan accepts (c ∷ line) s)))
          (trimmed-last c line) ends)

  unread_null : (n : ℕ) (s : Sems) → at_end scan accepts false n s ≡ goes s
  unfolding at_end
  unread_null zero s = refl
  unread_null (suc n) s = unread_null n s

  -- At the end of the input, where a line is in the buffer: each round cuts a byte off it, until what is
  -- left is quit or delete and the loop returns, or no byte is left to cut off, or an operation comes
  -- behind 100 others that were not forgotten, and the loop writes outside; there is fuel for one round more than there are bytes.
  -- Where `line` is NULL no number of rounds ends the loop.
  pub at_end-Ends :
      (s : Sems)
      → Ends (length s.ops) s.line (at_end scan accepts true (length s.line + 1) s)
        × ((n : ℕ) → at_end scan accepts false n s ≡ goes s)
  at_end-Ends s = (line-Ends (length s.line + 1) s.line s refl (omega arith), λ n. unread_null n s)

abbrev pub begin_line : List ℕ
begin_line = b'b' ∷ b'e' ∷ b'g' ∷ b'i' ∷ b'n' ∷ b'\n' ∷ []

abbrev pub commit_line : List ℕ
commit_line = b'c' ∷ b'o' ∷ b'm' ∷ b'm' ∷ b'i' ∷ b't' ∷ b'\n' ∷ []

abbrev pub rollback_line : List ℕ
rollback_line = b'r' ∷ b'o' ∷ b'l' ∷ b'l' ∷ b'b' ∷ b'a' ∷ b'c' ∷ b'k' ∷ b'\n' ∷ []

-- An operation as it is typed: the number of a semaphore, from 1, and the sign.
pub record Typed : Type 0 where
  pub number : ℕ
  pub is_up : Bool

abbrev pub sembuf_of : Typed → Sembuf
sembuf_of t = record { sem_num = (t.number + 2 ^ 16 - 1) % 2 ^ 16; is_up = t.is_up }

abbrev pub sign_of : Bool → ℕ
sign_of true = b'+'
sign_of false = b'-'

abbrev pub lines_of : (Typed → List ℕ) → List Typed → List (List ℕ)
lines_of text ts = map (λ t. text t ++ b'\n' ∷ []) ts

module _ (scan : List ℕ → Option ℕ × Option ℕ)
    (accepts : List (List Sembuf) → List Sembuf → Bool) where
  -- A text that is no command, and that `sscanf` reads as this operation.
  abbrev pub Scans : List ℕ → Typed → Type 0
  Scans text t =
      (command_of text ≡ operation) × (scan text ≡ (some t.number, some (sign_of t.is_up)))

  -- Inside a transaction, these operations were put behind the others, and nothing was called.
  pub record Queues (ops : List Sembuf) (calls : List (List Sembuf)) (o : Outcome) : Type 0 where
    pub next : Sems
    pub went : o ≡ goes next
    pub queued : next.ops ≡ ops
    pub same_calls : next.calls ≡ calls
    pub inside : next.is_inside_txn ≡ true

  where_true :
      (ops : List Sembuf) (calls : List (List Sembuf)) (b : Bool) (x y : Outcome)
      → b ≡ true
      → Queues ops calls x
      → Queues ops calls (if b then x else y)
  where_true ops calls b x y e =
      subst (λ c. Queues ops calls x → Queues ops calls (if c then x else y)) (sym e) (λ q. q)

  where_false :
      (ops : List Sembuf) (calls : List (List Sembuf)) (b : Bool) (x y : Outcome)
      → b ≡ false
      → Queues ops calls y
      → Queues ops calls (if b then x else y)
  where_false ops calls b x y e =
      subst (λ c. Queues ops calls y → Queues ops calls (if c then x else y)) (sym e) (λ q. q)

  put-Queues :
      (b : Bool) (s : Sems)
      → s.is_inside_txn ≡ true
      → length s.ops < 100
      → Queues
          (s.ops ++ sembuf_of (record { number = s.sem_num; is_up = b }) ∷ [])
          s.calls
          (put_op scan accepts b s)
  unfolding put_op
  put-Queues b s i f =
      let op = sembuf_of (record { number = s.sem_num; is_up = b }) in
      let ops = s.ops ++ op ∷ [] in
      let room : ltb (length s.ops) 100 ≡ true = ground (arith, f) in
      where_true ops s.calls _ _ _ room (
        where_true ops s.calls _ _ _ i (record {
          next = record s { ops = s.ops ++ op ∷ [] };
          went = refl;
          queued = refl;
          same_calls = refl;
          inside = i;
        }))

  read-Queues :
      (b : Bool) (s : Sems)
      → s.cmd ≡ sign_of b
      → s.is_inside_txn ≡ true
      → length s.ops < 100
      → Queues
          (s.ops ++ sembuf_of (record { number = s.sem_num; is_up = b }) ∷ [])
          s.calls
          (read_op scan accepts s)
  unfolding read_op
  read-Queues true s e i f =
      let ops = s.ops ++ sembuf_of (record { number = s.sem_num; is_up = true }) ∷ [] in
      let other : (s.cmd == b'-') ≡ false = ground (arith, e) in
      let plus : (s.cmd == b'+') ≡ true = ground (arith, e) in
      where_false ops s.calls _ _ _ other
        (where_true ops s.calls _ _ _ plus (put-Queues true s i f))
  read-Queues false s e i f =
      let ops = s.ops ++ sembuf_of (record { number = s.sem_num; is_up = false }) ∷ [] in
      let minus : (s.cmd == b'-') ≡ true = ground (arith, e) in
      where_true ops s.calls _ _ _ minus (put-Queues false s i f)

  round-Queues :
      (text : List ℕ) (t : Typed) (s : Sems)
      → Scans text t
      → 0 < length text
      → s.is_inside_txn ≡ true
      → length s.ops < 100
      → Queues (s.ops ++ sembuf_of t ∷ []) s.calls (sem_round scan accepts (text ++ b'\n' ∷ []) s)
  unfolding sem_round perform
  round-Queues [] t s h l i f = absurd (omega (arith, l))
  round-Queues (c ∷ text) t s h l i f =
      let ops = s.ops ++ sembuf_of t ∷ [] in
      subst (λ l. Queues ops s.calls (perform scan accepts (command_of l) (record s { line = l })))
        (sym (trimmed-line c text b'\n'))
        (subst (λ k. Queues ops s.calls (perform scan accepts k (record s { line = c ∷ text })))
          (sym h.0)
          (subst
            (λ p. Queues ops s.calls (
              read_op scan accepts
                (record s { line = c ∷ text; sem_num = kept s.sem_num p.0; cmd = kept s.cmd p.1 })))
            (sym h.1)
            (read-Queues t.is_up
              (record s { line = c ∷ text; sem_num = t.number; cmd = sign_of t.is_up }) refl i f)))

  fed :
      (lines : List (List ℕ)) (o o' : Outcome)
      → o ≡ o'
      → elim o [ goes s' ↦ feed scan accepts lines s' | returned ↦ returned | outside ↦ outside ]
        ≡ elim o' [ goes s' ↦ feed scan accepts lines s' | returned ↦ returned | outside ↦ outside ]
  fed lines o o' e =
      ap
        (λ r. elim r [
          | goes s' ↦ feed scan accepts lines s'
          | returned ↦ returned
          | outside ↦ outside
        ])
        e

  -- The lines of operations inside a transaction, before any other lines.
  feed-Queues :
      (text : Typed → List ℕ) (ts : List Typed) (rest : List (List ℕ)) (s : Sems)
      → All (λ t. Scans (text t) t × (0 < length (text t))) ts
      → s.is_inside_txn ≡ true
      → length s.ops + length ts ≤ 100
      → (s' : Sems) × (feed scan accepts (lines_of text ts ++ rest) s ≡ feed scan accepts rest s')
        × (s'.ops ≡ s.ops ++ map sembuf_of ts)
        × (s'.calls ≡ s.calls)
        × (s'.is_inside_txn ≡ true)
  unfolding feed
  feed-Queues text [] rest s h i f = (s, refl, sym (append-nil s.ops), refl, i)
  feed-Queues text (t ∷ ts) rest s h i f =
      let q = round-Queues (text t) t s (h.0.0) (h.0.1) i (omega (arith, f)) in
      let n = ap length q.queued ∙ length-append s.ops (sembuf_of t ∷ []) in
      let (s', fed', ops, calls, inside) =
        feed-Queues text ts rest q.next h.1 q.inside (omega (arith, f, n)) in
      (
        s',
        fed (lines_of text ts ++ rest) (sem_round scan accepts (text t ++ b'\n' ∷ []) s)
              (goes q.next) q.went
            ∙ fed',
        ops
            ∙ ap (λ o. o ++ map sembuf_of ts) q.queued
            ∙ append_assoc s.ops (sembuf_of t ∷ []) (map sembuf_of ts),
        calls ∙ q.same_calls,
        inside,
      )

  commit_ops-calls :
      (s : Sems)
      → ((commit_ops scan accepts s).calls ≡ s.calls ++ s.ops ∷ [])
        × ((commit_ops scan accepts s).ops ≡ (if accepts s.calls s.ops then [] else s.ops))
  unfolding commit_ops
  commit_ops-calls s = elim (Bool-cases (accepts s.calls s.ops)) [
    | inl e ↦ rw e (refl, refl)
    | inr e ↦ rw e (refl, refl)
  ]

  -- A transaction of at most 100 operations, where none was waiting before, makes one call with all of
  -- them, in their order; if the kernel refuses it, the operations are kept.
  pub feed-commit :
      (text : Typed → List ℕ) (ts : List Typed) (rest : List (List ℕ)) (s : Sems)
      → All (λ t. Scans (text t) t × (0 < length (text t))) ts
      → length ts ≤ 100
      → s.ops ≡ []
      → (s' : Sems) × (feed scan accepts (begin_line ∷ lines_of text ts ++ commit_line ∷ rest) s
          ≡ feed scan accepts rest s')
        × (s'.calls ≡ s.calls ++ map sembuf_of ts ∷ [])
        × (s'.ops ≡ (if accepts s.calls (map sembuf_of ts) then [] else map sembuf_of ts))
  unfolding feed sem_round command_of trimmed perform
  feed-commit text ts rest s h f e =
      let begun = record s { line = b'b' ∷ b'e' ∷ b'g' ∷ b'i' ∷ b'n' ∷ []; is_inside_txn = true } in
      let (s', fed', ops, calls, inside) =
        feed-Queues text ts (commit_line ∷ rest) begun h refl (omega (arith, f, ap length e)) in
      let last = record s' { line = b'c' ∷ b'o' ∷ b'm' ∷ b'm' ∷ b'i' ∷ b't' ∷ [] } in
      let all : s'.ops ≡ map sembuf_of ts = ops ∙ ap (λ o. o ++ map sembuf_of ts) e in
      let (called, left) = commit_ops-calls last in
      (
        commit_ops scan accepts last,
        fed',
        called ∙ ap (λ c. c ++ s'.ops ∷ []) calls ∙ ap (λ o. s.calls ++ o ∷ []) all,
        left
            ∙ ap (λ c. if accepts c s'.ops then [] else s'.ops) calls
            ∙ ap (λ o. if accepts s.calls o then [] else o) all,
      )

  -- A transaction of at most 100 operations that is rolled back makes no call, and leaves nothing behind.
  pub feed-rollback :
      (text : Typed → List ℕ) (ts : List Typed) (rest : List (List ℕ)) (s : Sems)
      → All (λ t. Scans (text t) t × (0 < length (text t))) ts
      → length s.ops + length ts ≤ 100
      → (s' : Sems) × (feed scan accepts (begin_line ∷ lines_of text ts ++ rollback_line ∷ rest) s
          ≡ feed scan accepts rest s')
        × (s'.calls ≡ s.calls)
        × (s'.ops ≡ [])
        × (s'.is_inside_txn ≡ false)
  unfolding feed sem_round command_of trimmed perform
  feed-rollback text ts rest s h f =
      let begun = record s { line = b'b' ∷ b'e' ∷ b'g' ∷ b'i' ∷ b'n' ∷ []; is_inside_txn = true } in
      let (s', fed', ops, calls, inside) =
        feed-Queues text ts (rollback_line ∷ rest) begun h refl f in
      (
        record s' {
          line = b'r' ∷ b'o' ∷ b'l' ∷ b'l' ∷ b'b' ∷ b'a' ∷ b'c' ∷ b'k' ∷ [];
          is_inside_txn = false;
          ops = [];
        },
        fed',
        calls,
        refl,
        refl,
      )
