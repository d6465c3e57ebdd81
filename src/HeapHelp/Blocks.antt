-- ===== src/HeapHelp/Blocks.antt =====
-- The count of utils/heap_help/heap_help.c against the blocks that are live.
use iu_sysprog.Prelude.{
  ℕ, zero, suc, ◌+◌, ◌^◌, ◌<◌, false, Option, none, some, List, [], ◌∷◌, ◌++◌, ◌>>=◌, ◌≡◌, ap, sym,
  ◌∙◌, refl, arith, length, Option-cases, inl, inr,
}
use iu_sysprog.HeapHelp.Counter.{
  Call, call_getline, call_strdup, call_malloc, call_calloc, call_realloc, call_free, call, run,
  free, alloc_count_inc, alloc_count_sub, heaph_atexit,
}

-- What the allocator does to the blocks that are live, as its manual says, where the caller frees
-- and resizes only what is live. The number is 1 for a block that is resized to 0 bytes, which frees it,
-- and answers NULL.
pub data Does : List ℕ → Call → ℕ → List ℕ → Type 0 where
  failed_malloc : {live : List ℕ} → Does live (call_malloc none) 0 live
  failed_calloc : {live : List ℕ} → Does live (call_calloc none) 0 live
  failed_strdup : {live : List ℕ} → Does live (call_strdup none) 0 live
  failed_realloc : {live : List ℕ} (ptr : Option ℕ) → Does live (call_realloc ptr none) 0 live
  got_malloc : {live : List ℕ} (p : ℕ) → Does live (call_malloc (some p)) 0 (p ∷ live)
  got_calloc : {live : List ℕ} (p : ℕ) → Does live (call_calloc (some p)) 0 (p ∷ live)
  got_strdup : {live : List ℕ} (p : ℕ) → Does live (call_strdup (some p)) 0 (p ∷ live)
  got_realloc : {live : List ℕ} (p : ℕ) → Does live (call_realloc none (some p)) 0 (p ∷ live)
  got_line : {live : List ℕ} (p : ℕ) → Does live (call_getline none (some p)) 0 (p ∷ live)
  no_line : {live : List ℕ} → Does live (call_getline none none) 0 live
  moved :
      (l r : List ℕ) (p q : ℕ) → Does (l ++ p ∷ r) (call_realloc (some p) (some q)) 0 (l ++ q ∷ r)
  moved_line :
      (l r : List ℕ) (p q : ℕ) → Does (l ++ p ∷ r) (call_getline (some p) (some q)) 0 (l ++ q ∷ r)
  freed : (l r : List ℕ) (p : ℕ) → Does (l ++ p ∷ r) (call_free (some p)) 0 (l ++ r)
  freed_null : {live : List ℕ} → Does live (call_free none) 0 live
  resized_to_0 : (l r : List ℕ) (p : ℕ) → Does (l ++ p ∷ r) (call_realloc (some p) none) 1 (l ++ r)

-- A run of calls, with how many of them resized a block to 0 bytes.
pub data Runs : List ℕ → List Call → ℕ → List ℕ → Type 0 where
  done : {live : List ℕ} → Runs live [] 0 live
  then :
      {a b d : List ℕ} {c : Call} {calls : List Call} {j k : ℕ}
      → Does a c j b
      → Runs b calls k d
      → Runs a (c ∷ calls) (j + k) d

length-middle : (l r : List ℕ) (p : ℕ) → length (l ++ p ∷ r) ≡ suc (length (l ++ r))
length-middle [] r p = omega arith
length-middle (x ∷ l) r p = omega (arith, length-middle l r p)

inc-small : (n : ℕ) → n + 1 < 2 ^ 63 → alloc_count_inc n ≡ n + 1
unfolding alloc_count_inc
inc-small n h = omega arith

sub-small : (n : ℕ) → n + 1 < 2 ^ 63 → alloc_count_sub (suc n) ≡ some n
unfolding alloc_count_sub
sub-small n h = ground arith

sub-zero : alloc_count_sub 0 ≡ none
unfolding alloc_count_sub
sub-zero = refl

-- The count of a call that allocates a block, with `e` more than there are live blocks.
one_more :
    (p : ℕ) (live : List ℕ) (e : ℕ)
    → length live + e + 1 < 2 ^ 63
    → some (alloc_count_inc (length live + e)) ≡ some (length (p ∷ live) + 0 + e)
one_more p live e h = ap some (inc-small (length live + e) h ∙ omega arith)

length-moved : (l r : List ℕ) (p q : ℕ) → length (l ++ p ∷ r) ≡ length (l ++ q ∷ r)
length-moved l r p q = length-middle l r p ∙ sym (length-middle l r q)

-- A call frees and allocates one block at most.
Does-length : {a b : List ℕ} {c : Call} {j : ℕ} → Does a c j b → length b + j < length a + 2
Does-length failed_malloc = omega arith
Does-length failed_calloc = omega arith
Does-length failed_strdup = omega arith
Does-length (failed_realloc ptr) = omega arith
Does-length (got_malloc p) = omega arith
Does-length (got_calloc p) = omega arith
Does-length (got_strdup p) = omega arith
Does-length (got_realloc p) = omega arith
Does-length (got_line p) = omega arith
Does-length no_line = omega arith
Does-length (moved l r p q) = omega (arith, length-moved l r p q)
Does-length (moved_line l r p q) = omega (arith, length-moved l r p q)
Does-length (freed l r p) = omega (arith, length-middle l r p)
Does-length freed_null = omega arith
Does-length (resized_to_0 l r p) = omega (arith, length-middle l r p)

call-Does :
    {a b : List ℕ} {j : ℕ} (c : Call) (e : ℕ)
    → Does a c j b
    → length a + e + 1 < 2 ^ 63
    → call c (length a + e) ≡ some (length b + j + e)
unfolding call
call-Does c e failed_malloc h = ap some (omega arith)
call-Does c e failed_calloc h = ap some (omega arith)
call-Does c e failed_strdup h = ap some (omega arith)
call-Does c e (failed_realloc none) h = ap some (omega arith)
call-Does c e (failed_realloc (some p)) h = ap some (omega arith)
call-Does c e (got_malloc p) h = one_more p _ e h
call-Does c e (got_calloc p) h = one_more p _ e h
call-Does c e (got_strdup p) h = one_more p _ e h
call-Does c e (got_realloc p) h = one_more p _ e h
call-Does c e (got_line p) h = one_more p _ e h
call-Does c e no_line h = ap some (omega arith)
call-Does c e (moved l r p q) h = ap some (omega (arith, length-moved l r p q))
call-Does c e (moved_line l r p q) h = ap some (omega (arith, length-moved l r p q))
call-Does c e (freed l r p) h =
    let n : length (l ++ p ∷ r) + e ≡ suc (length (l ++ r) + e) =
      omega (arith, length-middle l r p) in
    rw n (sub-small (length (l ++ r) + e) (omega (arith, n, h)) ∙ ap some (omega arith))
call-Does c e freed_null h = ap some (omega arith)
call-Does c e (resized_to_0 l r p) h = ap some (omega (arith, length-middle l r p))

run-Runs-from :
    {a b : List ℕ} {calls : List Call} {k : ℕ} (e : ℕ)
    → Runs a calls k b
    → length a + e + length calls < 2 ^ 63
    → run calls (length a + e) ≡ some (length b + k + e)
unfolding run
run-Runs-from e done h = ap some (omega arith)
run-Runs-from e (then {b = b} {d = d} {c = c} {calls = calls} {j = j} {k = k} does rest) h =
    let next : length b + j + e ≡ length b + (j + e) = omega arith in
    let later = run-Runs-from (j + e) rest (omega (arith, h, Does-length does)) in
    rw (call-Does c e does (omega (arith, h)), next) (later ∙ ap some (omega arith))

-- The calls from an empty heap on.
run-Runs-empty :
    {live : List ℕ} {calls : List Call} {k : ℕ}
    → Runs [] calls k live
    → length calls < 2 ^ 63
    → run calls 0 ≡ some (length live + k)
run-Runs-empty r h = run-Runs-from 0 r (omega (arith, h)) ∙ ap some (omega arith)

-- What is printed where the handler runs twice.
abbrev pub report : ℕ → Option ℕ × Option ℕ
report n =
    let (first, is_done) = heaph_atexit n false in
    let (second, is_done') = heaph_atexit n is_done in (first, second)

abbrev pub leaks : ℕ → Option ℕ
leaks zero = none
leaks (suc n) = some (suc n)

report-leaks : (n : ℕ) → report n ≡ (leaks n, none)
unfolding heaph_atexit
report-leaks zero = refl
report-leaks (suc n) = ground arith

run-append : (xs ys : List Call) (n : ℕ) → run (xs ++ ys) n ≡ (run xs n >>= run ys)
unfolding run
run-append [] ys n = refl
run-append (x ∷ xs) ys n = elim (Option-cases (call x n)) [
  | inl e ↦ rw e refl
  | inr (m, e) ↦ rw e (run-append xs ys m)
]

-- After fewer than 2^63 calls that free and resize only what is live, from an empty heap and with an
-- allocator that does what its manual says, the program has not been stopped, the count is the number of
-- blocks that are live and of those that were freed by a resize to 0 bytes, and the handler, however
-- often it runs, reports that number once, and nothing where it is 0.
pub run-Runs :
    (calls : List Call) (k : ℕ) (live : List ℕ)
    → Runs [] calls k live
    → length calls < 2 ^ 63
    → (run calls 0 ≡ some (length live + k))
      × (report (length live + k) ≡ (leaks (length live + k), none))
run-Runs calls k live r h = (run-Runs-empty r h, report-leaks (length live + k))

-- What a free of any pointer gives: the count alone decides.
abbrev pub unchecked : ℕ → Option ℕ
unchecked zero = none
unchecked (suc n) = some n

unchecked-free : (n : ℕ) → n < 2 ^ 63 → alloc_count_sub n ≡ unchecked n
unchecked-free zero h = sub-zero
unchecked-free (suc n) h = sub-small n (omega (arith, h))

Runs-length :
    {a b : List ℕ} {calls : List Call} {k : ℕ}
    → Runs a calls k b
    → length b + k < length a + length calls + 1
Runs-length done = omega arith
Runs-length (then d rest) = omega (arith, Does-length d, Runs-length rest)

bind-some : (o : Option ℕ) → (o >>= λ n. some n) ≡ o
bind-some none = refl
bind-some (some n) = refl

-- After fewer than 2^63 such calls a free of any pointer at all, freed before or never allocated,
-- stops the program only where the count is 0; else it takes one from it.
pub run-free :
    (calls : List Call) (k : ℕ) (live : List ℕ) (p : ℕ)
    → Runs [] calls k live
    → length calls < 2 ^ 63
    → run (calls ++ call_free (some p) ∷ []) 0 ≡ unchecked (length live + k)
unfolding run call free
run-free calls k live p r h =
    rw
      (
        run-append calls (call_free (some p) ∷ []) 0,
        run-Runs-empty r h,
        unchecked-free (length live + k) (omega (arith, h, Runs-length r)),
      )
      (bind-some (unchecked (length live + k)))
