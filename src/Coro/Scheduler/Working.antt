-- ===== src/Coro/Scheduler/Working.antt =====
-- In 1/solution/libcoro.c the coroutine that runs is on the list and works, and the scheduler waits for
-- it, so that the function of a coroutine always has a place to return to.
use mathlib.Core.Path.{subst}
use iu_sysprog.Prelude.{
  ℕ, zero, suc, ◌<◌, ◌≤◌, Bool, true, false, Option, none, some, List, [], ◌∷◌, ◌++◌, ◌==◌, ◌≡◌,
  refl, sym, ap, ◌∙◌, arith, length, length-append, All, Bool-cases, inl, inr, append_assoc,
  if◌then◌else◌,
}
use iu_sysprog.Prelude.Int.{ℤ}
use iu_sysprog.Coro.Store.{
  Heap, Store, coro_new, coro_list_add, set_next, set_prev, yields_to, count_switch, finish, Wait,
  fresh,
}
use iu_sysprog.Coro.Chain.{head_of, Lists, eq_refl}
use iu_sysprog.Coro.Rounds.{
  IsWorking, Waits, waits_over, waits_returns, waits_resumes, coro_sched_wait-fuel, yields_to-Lists,
  Chain-links, everywhere, finish-links, coro_new-Lists,
}
use iu_sysprog.Coro.Scheduler.{
  Machine, Outcome, goes, critical, stuck, Event, waiting, yielding, returning, creating,
  coro_sched_init, coro_yield_to, wakes_up, coro_yield, after_round, coro_body, happens, IsAllowed,
  Reaches, begins, goes_on,
}

-- Who runs: the scheduler, which does not wait, or a coroutine of the list, while it waits and all
-- coroutines of the list work.
abbrev pub Runs : Option ℕ → Bool → Heap → List ℕ → Type 0
Runs none w heap xs = w ≡ false
Runs (some c) w heap xs =
    (w ≡ true) × All (IsWorking heap) xs × ((l : List ℕ) × (r : List ℕ) × (xs ≡ l ++ c ∷ r))

-- `n` bounds the coroutines of the list.
pub record IsSound (n : ℕ) (s : Machine) : Type 0 where
  pub xs : List ℕ
  pub lists : Lists s.store xs
  pub few : length xs ≤ n
  pub runs : Runs s.this s.is_sched_waiting s.store.heap xs

-- Counting a switch changes no link and finishes nobody.
counted :
    (from : ℕ) (s : Store) (x : ℕ)
    → (((count_switch from s).heap x).prev ≡ (s.heap x).prev)
      × (((count_switch from s).heap x).next ≡ (s.heap x).next)
      × (((count_switch from s).heap x).is_finished ≡ (s.heap x).is_finished)
unfolding count_switch
counted from s x = elim (Bool-cases (x == from)) [
  | inl e ↦ rw e (refl, refl, refl)
  | inr e ↦ rw e (refl, refl, refl)
]

count_switch-Lists :
    (from : ℕ) (s : Store) (xs : List ℕ) → Lists s xs → Lists (count_switch from s) xs
unfolding count_switch
count_switch-Lists from s xs k = record {
  first = k.first;
  links =
      Chain-links s.heap ((count_switch from s).heap) none xs
        (everywhere (λ x. ((counted from s x).0, (counted from s x).1)) xs) k.links;
  distinct = k.distinct;
}

finish-Lists : (c : ℕ) (ret : ℤ) (s : Store) (xs : List ℕ) → Lists s xs → Lists (finish c ret s) xs
unfolding finish
finish-Lists c ret s xs k = record {
  first = k.first;
  links =
      Chain-links s.heap ((finish c ret s).heap) none xs (everywhere (finish-links c ret s) xs)
        k.links;
  distinct = k.distinct;
}

same-IsWorking :
    (h h' : Heap) (xs : List ℕ)
    → All (λ x. (h' x).is_finished ≡ (h x).is_finished) xs
    → All (IsWorking h) xs
    → All (IsWorking h') xs
same-IsWorking h h' [] e w = tt
same-IsWorking h h' (x ∷ xs) e w = (e.0 ∙ w.0, same-IsWorking h h' xs e.1 w.1)

set_next-finished :
    (h : Heap) (to v : Option ℕ) (x : ℕ) → (set_next h to v x).is_finished ≡ (h x).is_finished
unfolding set_next
set_next-finished h none v x = refl
set_next-finished h (some y) v x = elim (Bool-cases (x == y)) [
  | inl e ↦ rw e refl
  | inr e ↦ rw e refl
]

set_prev-finished :
    (h : Heap) (to v : Option ℕ) (x : ℕ) → (set_prev h to v x).is_finished ≡ (h x).is_finished
unfolding set_prev
set_prev-finished h none v x = refl
set_prev-finished h (some y) v x = elim (Bool-cases (x == y)) [
  | inl e ↦ rw e refl
  | inr e ↦ rw e refl
]

coro_new-finished :
    (c : ℕ) (s : Store) (x : ℕ)
    → ((coro_new c s).heap x).is_finished ≡ (if x == c then fresh else s.heap x).is_finished
unfolding coro_new coro_list_add
coro_new-finished c s x =
    let h : Heap = λ d. if d == c then fresh else s.heap d in
    let h1 = set_next h (some c) s.coro_list in
    let h2 = set_prev h1 (some c) none in
    set_prev-finished h2 s.coro_list (some c) x
    ∙ set_prev-finished h1 (some c) none x
    ∙ set_next-finished h (some c) s.coro_list x

coro_new-IsWorking :
    (c : ℕ) (s : Store) (xs : List ℕ)
    → All (IsWorking s.heap) xs
    → All (IsWorking ((coro_new c s).heap)) xs
coro_new-IsWorking c s [] w = tt
coro_new-IsWorking c s (x ∷ xs) w = (
  elim (Bool-cases (x == c)) [
    | inl e ↦ coro_new-finished c s x ∙ rw e refl
    | inr e ↦ coro_new-finished c s x ∙ rw e (w.0)
  ],
  coro_new-IsWorking c s xs w.1,
)

coro_new-new : (c : ℕ) (s : Store) → IsWorking ((coro_new c s).heap) c
coro_new-new c s = coro_new-finished c s c ∙ rw (eq_refl c) refl

-- What an event leads to, where it is allowed: never the critical error, and never the end of the fuel.
pub record Goes (n : ℕ) (o : Outcome) : Type 0 where
  pub next : Machine
  pub went : o ≡ goes next
  pub sound : IsSound (suc n) next

idle :
    (this : Option ℕ) (w : Bool) (heap : Heap) (xs : List ℕ)
    → this ≡ none
    → w ≡ false
    → Runs this w heap xs
idle this w heap xs t i = subst (λ o. Runs o w heap xs) (sym t) i

after-Goes :
    (n : ℕ) (s : Machine) (xs : List ℕ) (w : Wait)
    → Lists s.store xs
    → length xs ≤ n
    → s.this ≡ none
    → s.is_sched_waiting ≡ false
    → Waits s.store xs w
    → Goes n (after_round s (some w))
unfolding after_round coro_yield_to
after-Goes n s xs w k f t i waits_over = record {
  next = s;
  went = refl;
  sound = record {
    xs = [];
    lists = k;
    few = omega arith;
    runs = idle s.this s.is_sched_waiting s.store.heap [] t i;
  };
}
after-Goes n s xs w k f t i (waits_returns l r c s' a e k') = record {
  next = record s { store = s' };
  went = refl;
  sound = record {
    xs = l ++ r;
    lists = k';
    few = omega (arith, f, length-append l (c ∷ r), length-append l r);
    runs = idle s.this s.is_sched_waiting s'.heap (l ++ r) t i;
  };
}
after-Goes n s xs w k f t i (waits_resumes x ys a) = record {
  next = coro_yield_to none (some x) (record s { is_sched_waiting = true });
  went = refl;
  sound = record {
    xs = x ∷ ys;
    lists = k;
    few = omega (arith, f);
    runs = (refl, a, ([], ys, refl));
  };
}

yield-IsSound :
    (n c : ℕ) (s : Machine) (l r : List ℕ)
    → Lists s.store (l ++ c ∷ r)
    → length (l ++ c ∷ r) ≤ n
    → s.is_sched_waiting ≡ true
    → All (IsWorking s.store.heap) (l ++ c ∷ r)
    → IsSound (suc n) (coro_yield c (head_of r) s)
unfolding coro_yield coro_yield_to
yield-IsSound n c s l [] k f w a = record {
  xs = l ++ c ∷ [];
  lists = count_switch-Lists c s.store (l ++ c ∷ []) k;
  few = omega (arith, f);
  runs = refl;
}
yield-IsSound n c s l (y ∷ r) k f w a = record {
  xs = l ++ c ∷ y ∷ r;
  lists = count_switch-Lists c s.store (l ++ c ∷ y ∷ r) k;
  few = omega (arith, f);
  runs = (
    w,
    same-IsWorking s.store.heap ((count_switch c s.store).heap) (l ++ c ∷ y ∷ r)
        (everywhere (λ x. (counted c s.store x).2) (l ++ c ∷ y ∷ r)) a,
    (l ++ c ∷ [], r, sym (append_assoc l (c ∷ []) (y ∷ r))),
  );
}

body-Goes :
    (n c : ℕ) (ret : ℤ) (s : Machine) (xs : List ℕ)
    → Lists s.store xs
    → length xs ≤ n
    → s.is_sched_waiting ≡ true
    → Goes n (coro_body c ret s)
unfolding coro_body
body-Goes n c ret s xs k f w = record {
  next = wakes_up (record s { store = finish c ret s.store });
  went =
      ap (λ b. if b then goes (wakes_up (record s { store = finish c ret s.store })) else critical)
        w;
  sound = record {
    xs = xs;
    lists = finish-Lists c ret s.store xs k;
    few = omega (arith, f);
    runs = refl;
  };
}

creating-Runs :
    (c : ℕ) (runs : Option ℕ) (w : Bool) (s : Store) (xs : List ℕ)
    → Runs runs w s.heap xs
    → Runs runs w ((coro_new c s).heap) (c ∷ xs)
creating-Runs c none w s xs h = h
creating-Runs c (some d) w s xs (t, a, (l, r, e)) =
    (t, (coro_new-new c s, coro_new-IsWorking c s xs a), (c ∷ l, r, ap (◌∷◌ c) e))

later : (n : ℕ) (s : Machine) → IsSound n s → IsSound (suc n) s
later n s h = record { xs = h.xs; lists = h.lists; few = omega (arith, h.few); runs = h.runs }

-- From a sound machine, with fuel for its coroutines, an event that is allowed goes well.
happens-Goes :
    (fuel n : ℕ) (e : Event) (runs : Option ℕ) (s : Machine)
    → n < fuel
    → runs ≡ s.this
    → (h : IsSound n s) → Runs runs s.is_sched_waiting s.store.heap h.xs
    → IsAllowed e s
    → Goes n (happens fuel e runs s)
unfolding happens
happens-Goes fuel n waiting none s f t h r a =
    let (w, same, waits) =
      coro_sched_wait-fuel fuel s.store h.xs (omega (arith, f, h.few)) h.lists in
    subst (λ o. Goes n (after_round s o)) (sym same)
      (after-Goes n s h.xs w h.lists h.few (sym t) r waits)
happens-Goes fuel n waiting (some c) s f t h r a = record {
  next = s;
  went = refl;
  sound = later n s h;
}
happens-Goes fuel n yielding none s f t h r a = record {
  next = s;
  went = refl;
  sound = later n s h;
}
happens-Goes fuel n yielding (some c) s f t h (w, working, (l, r, e)) a =
    let lists = subst (Lists s.store) e h.lists in
    record {
      next = coro_yield c (yields_to c s.store) s;
      went = refl;
      sound =
          subst (λ to. IsSound (suc n) (coro_yield c to s))
            (sym (yields_to-Lists c s.store l r lists))
            (yield-IsSound n c s l r lists (omega (arith, h.few, ap length e)) w
              (subst (λ xs. All (IsWorking s.store.heap) xs) e working));
    }
happens-Goes fuel n (returning ret) none s f t h r a = record {
  next = s;
  went = refl;
  sound = later n s h;
}
happens-Goes fuel n (returning ret) (some c) s f t h r a =
    body-Goes n c ret s h.xs h.lists h.few r.0
happens-Goes fuel n (creating c) runs s f t h r a = record {
  next = record s { store = coro_new c s.store };
  went = refl;
  sound = record {
    xs = c ∷ h.xs;
    lists = coro_new-Lists c s.store h.xs h.lists (a h.xs h.lists);
    few = omega (arith, h.few);
    runs = creating-Runs c s.this s.is_sched_waiting s.store h.xs h.runs;
  };
}

abbrev machine_of : Machine → Outcome → Machine
machine_of s (goes s') = s'
machine_of s critical = s
machine_of s stuck = s

next-IsSound : (n : ℕ) (s : Machine) (o : Outcome) → Goes n o → o ≡ goes s → IsSound (suc n) s
next-IsSound n s o g e = subst (IsSound (suc n)) (ap (machine_of s) (sym g.went ∙ e)) g.sound

Reaches-IsSound : (fuel n : ℕ) (s : Machine) → Reaches fuel n s → n ≤ fuel → IsSound n s
unfolding coro_sched_init
Reaches-IsSound fuel zero s (begins heap) f = record {
  xs = [];
  lists = record { first = refl; links = tt; distinct = tt };
  few = omega arith;
  runs = refl;
}
Reaches-IsSound fuel (suc n) s (goes_on {s = before} e r a went) f =
    let h = Reaches-IsSound fuel n before r (omega (arith, f)) in
    next-IsSound n s (happens fuel e before.this before)
      (happens-Goes fuel n e before.this before (omega (arith, f)) refl h h.runs a) went

-- Whatever the scheduler and the coroutines have done before, in fewer events than the fuel: what they
-- do next, with `malloc` giving memory that no coroutine of the list has, never leads to the critical
-- error, and never runs out of fuel. The scheduler then runs and does not wait, or it waits, and a
-- coroutine runs that is on the list, where no coroutine has finished.
pub Reaches-Goes :
    (fuel n : ℕ) (s : Machine) (e : Event)
    → Reaches fuel n s
    → n < fuel
    → IsAllowed e s
    → Goes n (happens fuel e s.this s)
Reaches-Goes fuel n s e r f a =
    let h = Reaches-IsSound fuel n s r (omega (arith, f)) in
    happens-Goes fuel n e s.this s f refl h h.runs a
