-- ===== src/Threads/Detach/Once.antt =====
-- A thread of lecture_examples/6_threads/12_cthread_detach.c is destroyed once.
use iu_sysprog.Prelude.{
  bit, ℕ, ◌+◌, ◌≤◌, Bool, true, false, List, [], ◌∷◌, if◌then◌else◌, ◌≡◌, refl, sym, ap, ◌∙◌, arith,
  All,
}
use iu_sysprog.Threads.Interleave.{sum, interleave, Keeps, Kept, IsSound, interleave-IsSound}
use iu_sysprog.Threads.Detach.{
  Role, runner, detacher, Place, locks, tests, destroys, sets, unlocks, returned, Cthread,
  spin_lock, cthread_runner, cthread_detach, act, cthread_create,
}

-- Destroyed is owed once both flags are up.
abbrev pub both : Bool → Bool → ℕ
both true b = bit b
both false b = 0

abbrev pub holds : Role × Place → ℕ
holds (r, locks) = 0
holds (r, returned) = 0
holds (r, _) = 1

-- What stands in the way of a destruction: each role has its flag to set.
pub data Flag : Type 0 where
  finished : Flag
  detached : Flag

abbrev pub to_set : Place → ℕ
to_set unlocks = 0
to_set returned = 0
to_set _ = 1

abbrev pub left : Flag → Role × Place → ℕ
left finished (runner, at) = to_set at
left finished (detacher, at) = 0
left detached (runner, at) = 0
left detached (detacher, at) = to_set at

abbrev pub is_set : Flag → Cthread → ℕ
is_set finished m = bit m.is_finished
is_set detached m = bit m.is_detached

abbrev pub IsEven : Cthread → Type 0
IsEven m = m.destroyed ≡ both m.is_finished m.is_detached

abbrev pub Knows : Role × Place → Cthread → Type 0
Knows (r, tests) m = IsEven m
Knows (runner, destroys) m = (m.destroyed ≡ 0) × (m.is_detached ≡ true)
Knows (detacher, destroys) m = (m.destroyed ≡ 0) × (m.is_finished ≡ true)
Knows (runner, sets) m = m.destroyed ≡ bit m.is_detached
Knows (detacher, sets) m = m.destroyed ≡ bit m.is_finished
Knows (r, unlocks) m = IsEven m
Knows _ m = Unit

unaware : (q : Role × Place) (m : Cthread) → holds q ≤ 0 → Knows q m
unaware (runner, locks) m l = tt
unaware (detacher, locks) m l = tt
unaware (runner, returned) m l = tt
unaware (detacher, returned) m l = tt
unaware (r, tests) m l = absurd (omega (arith, l))
unaware (runner, destroys) m l = absurd (omega (arith, l))
unaware (detacher, destroys) m l = absurd (omega (arith, l))
unaware (runner, sets) m l = absurd (omega (arith, l))
unaware (detacher, sets) m l = absurd (omega (arith, l))
unaware (r, unlocks) m l = absurd (omega (arith, l))

abbrev Keeping : ℕ → Role × Place → Cthread → Role × Place → Cthread → Type 0
Keeping x pc m pc' m' =
    Kept act holds (λ m. bit m.lock) Knows IsEven left is_set (λ f. 1) x pc m pc' m'

-- Nothing that a role has to set is set or lost.
abbrev Same : Role × Place → Cthread → Role × Place → Cthread → Flag → Type 0
Same pc m pc' m' f = is_set f m' + left f pc' ≡ is_set f m + left f pc

each_flag :
    (pc : Role × Place) (m : Cthread) (pc' : Role × Place) (m' : Cthread)
    → Same pc m pc' m' finished
    → Same pc m pc' m' detached
    → (f : Flag) → Same pc m pc' m' f
each_flag pc m pc' m' h k finished = h
each_flag pc m pc' m' h k detached = k

-- A move that changes nothing of the thread.
stays :
    (pc pc' : Role × Place) (x : ℕ) (m : Cthread)
    → holds pc' ≡ holds pc
    → ((f : Flag) → left f pc' ≡ left f pc)
    → Knows pc' m
    → holds pc + x ≡ bit m.lock
    → bit m.lock ≤ 1
    → (bit m.lock ≡ 0 → IsEven m)
    → Keeping x pc m pc' m
stays pc pc' x m same rest knows h o i = record {
  held = omega (arith, same, h);
  once = o;
  knows = knows;
  idle = i;
  amount = λ k. omega (arith, rest k);
  spares = λ q l k. k;
}

-- A move under the lock, which is kept.
changes :
    (pc pc' : Role × Place) (x : ℕ) (m m' : Cthread)
    → holds pc ≡ 1
    → holds pc' ≡ 1
    → m'.lock ≡ m.lock
    → ((f : Flag) → is_set f m' + left f pc' ≡ is_set f m + left f pc)
    → Knows pc' m'
    → holds pc + x ≡ bit m.lock
    → bit m.lock ≤ 1
    → Keeping x pc m pc' m'
changes pc pc' x m m' mine still same rest knows h o = record {
  held = omega (arith, mine, still, h, ap bit same);
  once = omega (arith, o, ap bit same);
  knows = knows;
  idle = λ u. absurd (omega (arith, u, mine, h, ap bit same));
  amount = rest;
  spares = λ q l k. unaware q m' (omega (arith, l, mine, h, o));
}

-- The lock is let go.
lets_go :
    (r : Role) (x : ℕ) (m : Cthread)
    → IsEven m
    → 1 + x ≡ bit m.lock
    → bit m.lock ≤ 1
    → Keeping x (r, unlocks) m (r, returned) (record m { lock = false })
lets_go runner x m even h o = record {
  held = omega (arith, h, o);
  once = omega arith;
  knows = tt;
  idle = λ u. even;
  amount = each_flag (runner, unlocks) m (runner, returned) (record m { lock = false }) refl refl;
  spares = λ q l k. unaware q (record m { lock = false }) (omega (arith, l, h, o));
}
lets_go detacher x m even h o = record {
  held = omega (arith, h, o);
  once = omega arith;
  knows = tt;
  idle = λ u. even;
  amount =
      each_flag (detacher, unlocks) m (detacher, returned) (record m { lock = false }) refl refl;
  spares = λ q l k. unaware q (record m { lock = false }) (omega (arith, l, h, o));
}

acquired :
    (r : Role) (m : Cthread) (f : Flag) → Same (r, locks) m (r, tests) (record m { lock = true }) f
acquired runner m finished = refl
acquired runner m detached = refl
acquired detacher m finished = refl
acquired detacher m detached = refl

both-true : (b : Bool) → both b true ≡ bit b
both-true true = refl
both-true false = refl

both-unset : (b c : Bool) → bit b ≡ 0 → both b c ≡ 0
both-unset true c h = absurd (omega (arith, h))
both-unset false c h = refl

both-unset_other : (b c : Bool) → bit c ≡ 0 → both b c ≡ 0
both-unset_other true c h = h
both-unset_other false c h = refl

left-same :
    (r : Role) (at at' : Place)
    → to_set at' ≡ to_set at
    → (f : Flag) → left f (r, at') ≡ left f (r, at)
left-same runner at at' h finished = h
left-same runner at at' h detached = refl
left-same detacher at at' h finished = refl
left-same detacher at at' h detached = h

-- The test of the other role's flag, where one's own flag is not set.
runner_tested :
    (b : Bool) (x : ℕ) (m : Cthread)
    → b ≡ m.is_detached
    → bit m.is_finished ≡ 0
    → IsEven m
    → 1 + x ≡ bit m.lock
    → bit m.lock ≤ 1
    → (bit m.lock ≡ 0 → IsEven m)
    → Keeping x (runner, tests) m (runner, if b then destroys else sets) m
runner_tested true x m e f even h o i =
    stays (runner, tests) (runner, destroys) x m refl (left-same runner tests destroys refl)
      (even ∙ both-unset m.is_finished m.is_detached f, sym e) h o i
runner_tested false x m e f even h o i =
    stays (runner, tests) (runner, sets) x m refl (left-same runner tests sets refl)
      (even ∙ both-unset m.is_finished m.is_detached f ∙ ap bit e) h o i

detacher_tested :
    (b : Bool) (x : ℕ) (m : Cthread)
    → b ≡ m.is_finished
    → bit m.is_detached ≡ 0
    → IsEven m
    → 1 + x ≡ bit m.lock
    → bit m.lock ≤ 1
    → (bit m.lock ≡ 0 → IsEven m)
    → Keeping x (detacher, tests) m (detacher, if b then destroys else sets) m
detacher_tested true x m e f even h o i =
    stays (detacher, tests) (detacher, destroys) x m refl (left-same detacher tests destroys refl)
      (even ∙ both-unset_other m.is_finished m.is_detached f, sym e) h o i
detacher_tested false x m e f even h o i =
    stays (detacher, tests) (detacher, sets) x m refl (left-same detacher tests sets refl)
      (even ∙ both-unset_other m.is_finished m.is_detached f ∙ ap bit e) h o i

waits_for :
    (b : Bool) (r : Role) (x : ℕ) (m : Cthread)
    → b ≡ m.lock
    → x ≡ bit m.lock
    → bit m.lock ≤ 1
    → (bit m.lock ≡ 0 → IsEven m)
    → Keeping x (r, locks) m (r, (spin_lock b m).0) ((spin_lock b m).1)
unfolding spin_lock
waits_for true r x m e h o i =
    stays (r, locks) (r, locks) x m refl (λ f. refl) tt (omega (arith, h)) o i
waits_for false r x m e h o i =
    let free : bit m.lock ≡ 0 = sym (ap bit e) in
    record {
      held = omega (arith, h, free);
      once = omega arith;
      knows = i free;
      idle = λ u. absurd (omega (arith, u));
      amount = acquired r m;
      spares = λ q l k. unaware q (record m { lock = true }) (omega (arith, l, h, free));
    }

act-Kept : Keeps act holds (λ m. bit m.lock) Knows IsEven left is_set (λ f. 1)
unfolding act cthread_runner cthread_detach
act-Kept (runner, locks) m x h o n i a = waits_for (m.lock) runner x m refl (omega (arith, h)) o i
act-Kept (runner, tests) m x h o n i a =
    runner_tested (m.is_detached) x m refl (omega (arith, a finished)) n h o i
act-Kept (runner, destroys) m x h o n i a =
    changes (runner, destroys) (runner, sets) x m (record m { destroyed = m.destroyed + 1 }) refl
      refl refl
      (each_flag (runner, destroys) m (runner, sets) (record m { destroyed = m.destroyed + 1 }) refl
        refl)
      (omega (arith, n.0, ap bit n.1)) h o
act-Kept (runner, sets) m x h o n i a =
    changes (runner, sets) (runner, unlocks) x m (record m { is_finished = true }) refl refl refl
      (each_flag (runner, sets) m (runner, unlocks) (record m { is_finished = true })
        (omega (arith, a finished)) refl)
      n h o
act-Kept (runner, unlocks) m x h o n i a = lets_go runner x m n h o
act-Kept (runner, returned) m x h o n i a =
    stays (runner, returned) (runner, returned) x m refl (λ f. refl) tt h o i
act-Kept (detacher, locks) m x h o n i a =
    waits_for (m.lock) detacher x m refl (omega (arith, h)) o i
act-Kept (detacher, tests) m x h o n i a =
    detacher_tested (m.is_finished) x m refl (omega (arith, a detached)) n h o i
act-Kept (detacher, destroys) m x h o n i a =
    changes (detacher, destroys) (detacher, sets) x m (record m { destroyed = m.destroyed + 1 })
      refl refl refl
      (each_flag (detacher, destroys) m (detacher, sets) (record m { destroyed = m.destroyed + 1 })
        refl refl)
      (omega (arith, n.0, ap bit n.1)) h o
act-Kept (detacher, sets) m x h o n i a =
    changes (detacher, sets) (detacher, unlocks) x m (record m { is_detached = true }) refl refl
      refl
      (each_flag (detacher, sets) m (detacher, unlocks) (record m { is_detached = true }) refl
        (omega (arith, a detached)))
      (n ∙ sym (both-true m.is_finished)) h o
act-Kept (detacher, unlocks) m x h o n i a = lets_go detacher x m n h o
act-Kept (detacher, returned) m x h o n i a =
    stays (detacher, returned) (detacher, returned) x m refl (λ f. refl) tt h o i

abbrev pub pair : List (Role × Place)
pair = (runner, locks) ∷ (detacher, locks) ∷ []

two_left : (f : Flag) → is_set f cthread_create + sum (left f) pair + 0 ≡ 1
two_left finished = omega arith
two_left detached = omega arith

pair-IsSound :
    (is : List ℕ)
    → IsSound act holds
        (λ m. bit m.lock)
        Knows
        IsEven
        left
        is_set
        (λ f. 1)
        0
        (λ f. 0)
        ((interleave act is pair cthread_create).0)
        ((interleave act is pair cthread_create).1)
pair-IsSound is =
    interleave-IsSound act holds (λ m. bit m.lock) Knows IsEven left is_set (λ f. 1) act-Kept is
      pair cthread_create 0 (λ f. 0)
      (record {
        held = omega arith;
        once = omega arith;
        knows = (tt, (tt, tt));
        idle = λ u. refl;
        amount = two_left;
      })

-- Behind the last unlock.
abbrev pub IsBehind : Role × Place → Type 0
IsBehind pc = pc.1 ≡ returned

behind-left :
    (r : Role) (at : Place) (f : Flag) → at ≡ returned → (holds (r, at) ≡ 0) × (left f (r, at) ≡ 0)
behind-left runner at finished e = rw e (refl, refl)
behind-left runner at detached e = rw e (refl, refl)
behind-left detacher at finished e = rw e (refl, refl)
behind-left detacher at detached e = rw e (refl, refl)

sums-behind :
    (pcs : List (Role × Place))
    → All IsBehind pcs
    → (sum holds pcs ≡ 0) × ((f : Flag) → sum (left f) pcs ≡ 0)
sums-behind [] h = (refl, λ f. refl)
sums-behind ((r, at) ∷ pcs) h =
    let (held, rest) = sums-behind pcs h.1 in
    (
      omega (arith, held, (behind-left r at finished h.0).0),
      λ f. omega (arith, rest f, (behind-left r at f h.0).1),
    )

bit-one : (b : Bool) → bit b ≡ 1 → b ≡ true
bit-one true h = refl
bit-one false h = absurd (omega (arith, h))

bit-zero : (b : Bool) → bit b ≡ 0 → b ≡ false
bit-zero true h = absurd (omega (arith, h))
bit-zero false h = refl

-- However the moves of the thread and of the one that detaches it are ordered: when both have
-- returned, the thread is destroyed, and it was destroyed once.
pub interleave-destroyed :
    (is : List ℕ)
    → All IsBehind ((interleave act is pair cthread_create).0)
    → ((interleave act is pair cthread_create).1.destroyed ≡ 1)
      × ((interleave act is pair cthread_create).1.lock ≡ false)
interleave-destroyed is h =
    let m = (interleave act is pair cthread_create).1 in
    let s = pair-IsSound is in
    let (none, unset) = sums-behind ((interleave act is pair cthread_create).0) h in
    let free : bit m.lock ≡ 0 = omega (arith, s.held, none) in
    let f = bit-one (m.is_finished) (omega (arith, s.amount finished, unset finished)) in
    let d = bit-one (m.is_detached) (omega (arith, s.amount detached, unset detached)) in
    (s.idle free ∙ ap (λ b. both b m.is_detached) f ∙ ap bit d, bit-zero (m.lock) free)
