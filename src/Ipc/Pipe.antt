-- ===== src/Ipc/Pipe.antt =====
-- `read_from_pipe` of lecture_examples/7_ipc/2_parallel_sort.c. A pipe is what arrives in it, piece
-- by piece; `read` gives at most one piece, and nothing at the end.
use iu_sysprog.Prelude.{
  ℕ, zero, suc, ◌+◌, ◌-◌, ◌<◌, true, ◌&&◌, Option, none, some, List, [], ◌∷◌, ◌++◌, ltb,
  if◌then◌else◌, length, take, drop, All, ◌≡◌, refl, ap, sym, ◌∙◌, arith, append-nil, append_assoc,
}

abbrev pub Pieces : Type 0
Pieces = List (List ℕ)

abbrev pub put_back : List ℕ → Pieces → Pieces
put_back [] pieces = pieces
put_back (x ∷ piece) pieces = (x ∷ piece) ∷ pieces

unfoldable pub read : ℕ → Pieces → List ℕ × Pieces
read size [] = ([], [])
read size (piece ∷ pieces) = (take size piece, put_back (drop size piece) pieces)

-- The loop on fuel: `rc` bytes were read last, and `got` before them. `none` is fuel that ran out.
unfoldable pub pipe_loop : ℕ → ℕ → List ℕ → List ℕ → Pieces → Option (List ℕ × Pieces)
unfolding read
pipe_loop zero size rc got pipe = none
pipe_loop (suc fuel) size rc got pipe =
    let more : Option (List ℕ × Pieces) =
      (let left = size - length rc in
        let (next, pipe') = read left pipe in pipe_loop fuel left next (got ++ rc) pipe') in
    if ltb 0 (length rc) && ltb 0 size then more else some (got, pipe)

-- The bytes that stand from `in` on afterwards, and the pipe.
unfoldable pub read_from_pipe : ℕ → Pieces → Option (List ℕ × Pieces)
unfolding pipe_loop
read_from_pipe size pipe = let (rc, pipe') = read size pipe in pipe_loop (size + 1) size rc [] pipe'

abbrev pub flat : Pieces → List ℕ
flat [] = []
flat (piece ∷ pieces) = piece ++ flat pieces

-- No piece is empty.
abbrev pub AreFull : Pieces → Type 0
AreFull = All (λ piece. 0 < length piece)

take-nil : (n : ℕ) → take {A = ℕ} n [] ≡ []
take-nil zero = refl
take-nil (suc n) = refl

drop-nil : (n : ℕ) → drop {A = ℕ} n [] ≡ []
drop-nil zero = refl
drop-nil (suc n) = refl

take-flat :
    (n : ℕ) (piece rest : List ℕ)
    → take n (piece ++ rest)
      ≡ take n piece ++ take (n - length (take n piece)) (drop n piece ++ rest)
take-flat zero piece rest = refl
take-flat (suc n) [] rest = let e : suc n ≡ suc n - 0 = omega arith in ap (λ k. take k rest) e
take-flat (suc n) (x ∷ piece) rest =
    let e : n - length (take n piece) ≡ suc n - suc (length (take n piece)) = omega arith in
    ap (◌∷◌ x) (take-flat n piece rest ∙ ap (λ k. take n piece ++ take k (drop n piece ++ rest)) e)

drop-flat :
    (n : ℕ) (piece rest : List ℕ)
    → drop n (piece ++ rest) ≡ drop (n - length (take n piece)) (drop n piece ++ rest)
drop-flat zero piece rest = refl
drop-flat (suc n) [] rest = let e : suc n ≡ suc n - 0 = omega arith in ap (λ k. drop k rest) e
drop-flat (suc n) (x ∷ piece) rest =
    let e : n - length (take n piece) ≡ suc n - suc (length (take n piece)) = omega arith in
    drop-flat n piece rest ∙ ap (λ k. drop k (drop n piece ++ rest)) e

flat-put_back :
    (piece : List ℕ) (pieces : Pieces) → flat (put_back piece pieces) ≡ piece ++ flat pieces
flat-put_back [] pieces = refl
flat-put_back (x ∷ piece) pieces = refl

put_back-AreFull :
    (piece : List ℕ) (pieces : Pieces) → AreFull pieces → AreFull (put_back piece pieces)
put_back-AreFull [] pieces h = h
put_back-AreFull (x ∷ piece) pieces h = (omega arith, h)

pub record Reads (size : ℕ) (pipe : Pieces) (got : List ℕ) (o : Option (List ℕ × Pieces))
    : Type 0 where
  pub rest : Pieces
  pub out : o ≡ some (got ++ take size (flat pipe), rest)
  pub left : flat rest ≡ drop size (flat pipe)

pipe_loop-Reads :
    (fuel size : ℕ) (got : List ℕ) (pipe : Pieces)
    → size < fuel
    → AreFull pipe
    → Reads size pipe got (pipe_loop fuel size (read size pipe).0 got (read size pipe).1)
unfolding pipe_loop
pipe_loop-Reads zero size got pipe f h = absurd (omega (arith, f))
pipe_loop-Reads (suc fuel) size got [] f h = record {
  rest = [];
  out = ap (λ g. some (g, [])) (sym (append-nil got) ∙ ap (λ b. got ++ b) (sym (take-nil size)));
  left = sym (drop-nil size);
}
pipe_loop-Reads (suc fuel) zero got (piece ∷ pipe) f h = record {
  rest = put_back piece pipe;
  out = ap (λ g. some (g, put_back piece pipe)) (sym (append-nil got));
  left = flat-put_back piece pipe;
}
pipe_loop-Reads (suc fuel) (suc size) got ([] ∷ pipe) f h = absurd (omega (arith, h.0))
pipe_loop-Reads (suc fuel) (suc size) got ((x ∷ piece) ∷ pipe) f h =
    let t = x ∷ take size piece in
    let d = drop size piece in
    let k = suc size - length t in
    let ih =
      pipe_loop-Reads fuel k (got ++ t) (put_back d pipe) (omega (arith, f))
        (put_back-AreFull d pipe h.1) in
    let same =
      append_assoc got t (take k (flat (put_back d pipe)))
      ∙ ap (λ b. got ++ (t ++ take k b)) (flat-put_back d pipe)
      ∙ ap (λ b. got ++ b) (sym (take-flat (suc size) (x ∷ piece) (flat pipe))) in
    let some_read : ltb 0 (length t) ≡ true = ground arith in
    let some_left : ltb 0 (suc size) ≡ true = ground arith in
    rw (some_read, some_left)
      (record {
        rest = ih.rest;
        out = ih.out ∙ ap (λ g. some (g, ih.rest)) same;
        left =
            ih.left
            ∙ ap (drop k) (flat-put_back d pipe)
            ∙ sym (drop-flat (suc size) (x ∷ piece) (flat pipe));
      })

-- With a pipe of pieces that are not empty, the loop ends with its fuel; the first `size` bytes that
-- arrive are read, or all of them where fewer arrive, and the others stay in the pipe.
pub read_from_pipe-Reads :
    (size : ℕ) (pipe : Pieces) → AreFull pipe → Reads size pipe [] (read_from_pipe size pipe)
unfolding read_from_pipe
read_from_pipe-Reads size pipe h = pipe_loop-Reads (size + 1) size [] pipe (omega arith) h
