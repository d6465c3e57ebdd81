-- ===== src/Threads/Detach/Stacks.antt =====
-- The list of stacks of lecture_examples/6_threads/12_cthread_detach.c, and the wait of its `main`.
use iu_sysprog.Prelude.{
  ℕ, zero, suc, ◌+◌, ◌<◌, ◌≤◌, Bool, true, false, some, List, [], ◌∷◌, ◌++◌, ◌==◌, ltb, ◌≡◌, refl,
  ap, arith, All, Bool-cases, inl, inr,
}
use iu_sysprog.Threads.Detach.{cthread_destroy, await_finished}

-- The stacks that are freed, and those that stay behind the new one.
pub record Reclaims (stack : ℕ) (list : List ℕ) (after : List ℕ × List ℕ) : Type 0 where
  pub behind : List ℕ
  pub kept : after.0 ≡ stack ∷ behind
  pub all : after.1 ++ behind ≡ list
  pub exited : All (λ tid. tid ≡ 0) after.1

-- cthread_destroy puts the stack of its thread before those that it keeps; what it frees and what it
-- keeps are together the list that there was, and it frees no stack but of threads that have exited.
pub cthread_destroy-Reclaims :
    (stack : ℕ) (list : List ℕ) → Reclaims stack list (cthread_destroy stack list)
unfolding cthread_destroy
cthread_destroy-Reclaims stack [] = record { behind = []; kept = refl; all = refl; exited = tt }
cthread_destroy-Reclaims stack (tid ∷ list) = elim (Bool-cases (tid == 0)) [
  | inl e ↦
      let ih = cthread_destroy-Reclaims stack list in
      rw e (record {
        behind = ih.behind;
        kept = ih.kept;
        all = ap (◌∷◌ tid) ih.all;
        exited = (ground (arith, e), ih.exited);
      })
  | inr e ↦ rw e (record { behind = tid ∷ list; kept = refl; all = refl; exited = tt })
]

await-seen :
    (is_finished : ℕ → ℕ → Bool) (count more time i : ℕ)
    → i + more ≡ count
    → ((j : ℕ) → i ≤ j → j < count → is_finished time j ≡ true)
    → await_finished is_finished count (suc more) time i ≡ some time
unfolding await_finished
await-seen is_finished count zero time i e h =
    let out : ltb i count ≡ false = ground (arith, e) in rw out refl
await-seen is_finished count (suc more) time i e h =
    let inside : ltb i count ≡ true = ground (arith, e) in
    rw (inside, h i (omega arith) (omega (arith, e)))
      (await-seen is_finished count more time (i + 1) (omega (arith, e))
        (λ j l. h j (omega (arith, l))))

-- Where the first thread has not finished when main looks at it, and the others have at its next look,
-- main ends its wait then, with fuel for its threads, and looks at the first thread no more: it may
-- still be running.
pub await_finished-first :
    (is_finished : ℕ → ℕ → Bool) (count : ℕ)
    → is_finished 0 0 ≡ false
    → ((j : ℕ) → 1 ≤ j → j < suc count → is_finished 1 j ≡ true)
    → await_finished is_finished (suc count) (suc (suc count)) 0 0 ≡ some 1
unfolding await_finished
await_finished-first is_finished count first others =
    let inside : ltb 0 (suc count) ≡ true = ground arith in
    rw (inside, first) (await-seen is_finished (suc count) count 1 1 (omega arith) others)
