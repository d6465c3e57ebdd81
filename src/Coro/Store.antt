-- ===== src/Coro/Store.antt =====
-- The coroutines of 1/solution/libcoro.c and their list. A pointer is a number, `none` is NULL, and
-- the heap gives the coroutine that a pointer leads to. The contexts of `sigsetjmp`, which only the
-- system reads, are left out: what is modelled is which coroutine goes on.
use iu_sysprog.Prelude.{
  ℕ, zero, suc, ◌+◌, ◌%◌, ◌^◌, Bool, true, false, Option, none, some, if◌then◌else◌, ◌==◌, ◌>>=◌,
}
use iu_sysprog.Prelude.Int.{ℤ, pos}

-- `struct coro`, without its stack, its context, and the function with its argument.
pub record Coro : Type 0 where
  pub ret : ℤ
  pub is_finished : Bool
  pub switch_count : ℕ
  pub next : Option ℕ
  pub prev : Option ℕ

abbrev pub Heap : Type 0
Heap = ℕ → Coro

pub record Store : Type 0 where
  pub heap : Heap
  pub coro_list : Option ℕ

-- `to->next = v` and `to->prev = v`, where `to` is not NULL.
unfoldable pub set_next : Heap → Option ℕ → Option ℕ → Heap
set_next heap none v c = heap c
set_next heap (some to) v c = if c == to then record (heap c) { next = v } else heap c

unfoldable pub set_prev : Heap → Option ℕ → Option ℕ → Heap
set_prev heap none v c = heap c
set_prev heap (some to) v c = if c == to then record (heap c) { prev = v } else heap c

unfoldable pub coro_list_add : ℕ → Store → Store
coro_list_add c s =
    let heap = set_prev (set_next s.heap (some c) s.coro_list) (some c) none in
    record { heap = set_prev heap s.coro_list (some c); coro_list = some c }

unfoldable pub coro_list_delete : ℕ → Store → Store
coro_list_delete c s =
    let before = (s.heap c).prev in
    let behind = (s.heap c).next in
    record {
      heap = set_prev (set_next s.heap before behind) behind before;
      coro_list = elim before [ none ↦ behind | some p ↦ s.coro_list ];
    }

-- What `malloc` leaves in the links is overwritten before it is read.
abbrev pub fresh : Coro
fresh = record { ret = pos 0; is_finished = false; switch_count = 0; next = none; prev = none }

-- The part of `coro_new` that the scheduler sees: a fresh coroutine, which is put on the list.
unfoldable pub coro_new : ℕ → Store → Store
unfolding coro_list_add
coro_new c s = coro_list_add c (record s { heap = λ d. if d == c then fresh else s.heap d })

-- The coroutine that `coro_yield` gives way to; `none` is the scheduler.
unfoldable pub yields_to : ℕ → Store → Option ℕ
yields_to from s = (s.heap from).next

-- `++from->switch_count`, in 64 bits.
unfoldable pub count_switch : ℕ → Store → Store
count_switch from s = record s {
  heap = λ c.
      if c == from
      then record (s.heap c) { switch_count = ((s.heap c).switch_count + 1) % 2 ^ 64 }
      else s.heap c;
}

-- `c->ret = ret; c->is_finished = true`, where the function of the coroutine has returned.
unfoldable pub finish : ℕ → ℤ → Store → Store
finish c ret s = record s {
  heap = λ d. if d == c then record (s.heap d) { ret = ret; is_finished = true } else s.heap d;
}

-- The `for` of `coro_sched_wait`, on fuel: the outer `none` is fuel that ran out.
unfoldable pub find_finished : ℕ → Heap → Option ℕ → Option (Option ℕ)
find_finished zero heap c = none
find_finished (suc fuel) heap none = some none
find_finished (suc fuel) heap (some c) =
    let rest = find_finished fuel heap ((heap c).next) in
    if (heap c).is_finished then some (some c) else rest

-- What a round of the loop in `coro_sched_wait` comes to: NULL is returned, a coroutine is returned,
-- or the scheduler gives way to a coroutine.
pub data Wait : Type 0 where
  over : Wait
  returns : ℕ → Store → Wait
  resumes : ℕ → Wait

abbrev pub waits : Store → Option ℕ → ℕ → Wait
waits s none first = resumes first
waits s (some c) first = returns c (coro_list_delete c s)

-- The round where `first` is the value of `coro_list`.
unfoldable pub wait_round : ℕ → Store → Option ℕ → Option Wait
unfolding coro_list_delete find_finished
wait_round fuel s none = some over
wait_round fuel s (some first) =
    find_finished fuel s.heap (some first) >>= λ c. some (waits s c first)

-- One round, on the fuel of its `for`: the outer `none` is fuel that ran out.
unfoldable pub coro_sched_wait : ℕ → Store → Option Wait
unfolding wait_round
coro_sched_wait fuel s = wait_round fuel s s.coro_list
