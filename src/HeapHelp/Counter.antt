-- ===== src/HeapHelp/Counter.antt =====
-- The wrappers of utils/heap_help/heap_help.c. The allocator behind them is not modelled: a call
-- carries the pointer that the wrapped function gave, `none` for NULL. `alloc_count` is the 64 bits
-- of the `int64_t`. `heaph_touch`, which each wrapper starts with, is in HeapHelp/Touch.antt.
use iu_sysprog.Prelude.{
  ℕ, ◌+◌, ◌-◌, ◌%◌, ◌^◌, Bool, true, false, not, ◌&&◌, Option, none, some, List, [], ◌∷◌,
  if◌then◌else◌, ◌>>=◌, ◌==◌, ltb,
}

abbrev pub is_null_ptr : Option ℕ → Bool
is_null_ptr none = true
is_null_ptr (some ptr) = false

unfoldable pub alloc_count_inc : ℕ → ℕ
alloc_count_inc alloc_count = (alloc_count + 1) % 2 ^ 64

-- `none` is `exit(1)`. `old >= 0` of the `int64_t` is the top bit.
unfoldable pub alloc_count_sub : ℕ → Option ℕ
alloc_count_sub alloc_count =
    let old = (alloc_count + (2 ^ 64 - 1)) % 2 ^ 64 in if ltb old (2 ^ 63) then some old else none

-- `line_old` and `*linep` behind the call.
unfoldable pub getline : Option ℕ → Option ℕ → ℕ → ℕ
unfolding alloc_count_inc
getline line_old linep alloc_count =
    if is_null_ptr line_old && not (is_null_ptr linep)
    then alloc_count_inc alloc_count
    else alloc_count

unfoldable pub strdup : Option ℕ → ℕ → ℕ
unfolding alloc_count_inc
strdup res alloc_count = if not (is_null_ptr res) then alloc_count_inc alloc_count else alloc_count

unfoldable pub malloc : Option ℕ → ℕ → ℕ
unfolding alloc_count_inc
malloc res alloc_count = if not (is_null_ptr res) then alloc_count_inc alloc_count else alloc_count

unfoldable pub calloc : Option ℕ → ℕ → ℕ
unfolding alloc_count_inc
calloc res alloc_count = if not (is_null_ptr res) then alloc_count_inc alloc_count else alloc_count

unfoldable pub realloc : Option ℕ → Option ℕ → ℕ → ℕ
unfolding alloc_count_inc
realloc ptr res alloc_count =
    if is_null_ptr ptr && not (is_null_ptr res) then alloc_count_inc alloc_count else alloc_count

unfoldable pub free : Option ℕ → ℕ → Option ℕ
unfolding alloc_count_sub
free ptr alloc_count = if is_null_ptr ptr then some alloc_count else alloc_count_sub alloc_count

-- A call of a wrapper, with the pointer that goes in and the one that comes out.
pub data Call : Type 0 where
  call_getline : Option ℕ → Option ℕ → Call
  call_strdup : Option ℕ → Call
  call_malloc : Option ℕ → Call
  call_calloc : Option ℕ → Call
  call_realloc : Option ℕ → Option ℕ → Call
  call_free : Option ℕ → Call

unfoldable pub call : Call → ℕ → Option ℕ
unfolding getline strdup malloc calloc realloc free
call (call_getline line_old linep) n = some (getline line_old linep n)
call (call_strdup res) n = some (strdup res n)
call (call_malloc res) n = some (malloc res n)
call (call_calloc res) n = some (calloc res n)
call (call_realloc ptr res) n = some (realloc ptr res n)
call (call_free ptr) n = free ptr n

-- The calls of a program, one behind the other.
unfoldable pub run : List Call → ℕ → Option ℕ
unfolding call
run [] n = some n
run (c ∷ calls) n = call c n >>= run calls

-- The number that is printed, if there is one, and `is_done` behind it. The handler may run twice.
unfoldable pub heaph_atexit : ℕ → Bool → Option ℕ × Bool
heaph_atexit alloc_count true = (none, true)
heaph_atexit alloc_count false = (if alloc_count == 0 then none else some alloc_count, true)
