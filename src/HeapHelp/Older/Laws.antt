-- ===== src/HeapHelp/Older/Laws.antt =====
-- The counts of 2/solution/heap_help/heap_help.c and of utils/heap_help/heap_help.c.
use iu_sysprog.Prelude.{
  ℕ, ◌+◌, ◌^◌, ◌<◌, Option, none, some, List, [], ◌∷◌, ◌≡◌, refl, arith, length, Option-cases, inl,
  inr,
}
use iu_sysprog.HeapHelp.Counter
use iu_sysprog.HeapHelp.Counter.{
  Call, call_getline, call_strdup, call_malloc, call_calloc, call_realloc, call_free, call, run,
  alloc_count_inc, alloc_count_sub,
}
use iu_sysprog.HeapHelp.Older.{free, older_call, older_run}

free-Counter : (ptr : Option ℕ) (n : ℕ) → n < 2 ^ 63 → free ptr n ≡ Counter.free ptr n
unfolding free Counter.free alloc_count_sub
free-Counter none n h = refl
free-Counter (some p) n h = ground arith

older_call-call : (c : Call) (n : ℕ) → n < 2 ^ 63 → older_call c n ≡ call c n
unfolding older_call call
older_call-call (call_free ptr) n h = free-Counter ptr n h
older_call-call (call_getline old new) n h = refl
older_call-call (call_strdup res) n h = refl
older_call-call (call_malloc res) n h = refl
older_call-call (call_calloc res) n h = refl
older_call-call (call_realloc ptr res) n h = refl

call-small : (c : Call) (n m : ℕ) → n + 1 < 2 ^ 63 → call c n ≡ some m → m < n + 2
unfolding call Counter.free Counter.getline Counter.strdup Counter.malloc Counter.calloc
    Counter.realloc alloc_count_inc alloc_count_sub
call-small (call_free none) n m h e = ground (arith, e)
call-small (call_free (some p)) n m h e = ground (arith, e)
call-small (call_getline none none) n m h e = ground (arith, e)
call-small (call_getline none (some p)) n m h e = ground (arith, e)
call-small (call_getline (some q) p) n m h e = ground (arith, e)
call-small (call_strdup none) n m h e = ground (arith, e)
call-small (call_strdup (some p)) n m h e = ground (arith, e)
call-small (call_malloc none) n m h e = ground (arith, e)
call-small (call_malloc (some p)) n m h e = ground (arith, e)
call-small (call_calloc none) n m h e = ground (arith, e)
call-small (call_calloc (some p)) n m h e = ground (arith, e)
call-small (call_realloc none none) n m h e = ground (arith, e)
call-small (call_realloc none (some p)) n m h e = ground (arith, e)
call-small (call_realloc (some q) p) n m h e = ground (arith, e)

-- The two checkers stop the same programs, at the same call, and keep the same count, whatever the
-- calls are, as long as the count and the number of calls together are below 2^63.
pub older_run-run :
    (calls : List Call) (n : ℕ) → n + length calls < 2 ^ 63 → older_run calls n ≡ run calls n
unfolding older_run run
older_run-run [] n h = refl
older_run-run (c ∷ calls) n h = elim (Option-cases (call c n)) [
  | inl e ↦ rw (older_call-call c n (omega arith), e) refl
  | inr (m, e) ↦
      let small = call-small c n m (omega arith) e in
      rw (older_call-call c n (omega arith), e) (older_run-run calls m (omega (arith, small)))
]
