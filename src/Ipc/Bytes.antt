-- ===== src/Ipc/Bytes.antt =====
-- The bytes of `int`s in memory: four each, the lowest first.
use Prim.Native.Nat.{◌/◌}
use iu_sysprog.Prelude.{
  ℕ, ◌+◌, ◌*◌, ◌%◌, ◌^◌, ◌<◌, List, [], ◌∷◌, ◌++◌, length, All, ◌≡◌, refl, arith,
}

unfoldable pub bytes_of : ℕ → List ℕ
bytes_of n = (n % 256) ∷ (n / 256 % 256) ∷ (n / 65536 % 256) ∷ (n / 16777216 % 256) ∷ []

unfoldable pub bytes_of_array : List ℕ → List ℕ
unfolding bytes_of
bytes_of_array [] = []
bytes_of_array (n ∷ ns) = bytes_of n ++ bytes_of_array ns

-- What reads as an `int`: the first four bytes.
unfoldable pub int_of : List ℕ → ℕ
int_of (a ∷ b ∷ c ∷ d ∷ rest) = a + 256 * b + 65536 * c + 16777216 * d
int_of _ = 0

unfoldable pub array_of : List ℕ → List ℕ
array_of (a ∷ b ∷ c ∷ d ∷ rest) = (a + 256 * b + 65536 * c + 16777216 * d) ∷ array_of rest
array_of _ = []

pub int_of-bytes_of : (n : ℕ) → n < 2 ^ 32 → int_of (bytes_of n) ≡ n
unfolding int_of bytes_of
int_of-bytes_of n h = omega arith

pub array_of-bytes_of_array :
    (ns : List ℕ) → All (λ n. n < 2 ^ 32) ns → array_of (bytes_of_array ns) ≡ ns
unfolding array_of bytes_of_array int_of
array_of-bytes_of_array [] h = refl
array_of-bytes_of_array (n ∷ ns) h = cc (int_of-bytes_of n h.0, array_of-bytes_of_array ns h.1)

pub length-bytes_of_array : (ns : List ℕ) → length (bytes_of_array ns) ≡ 4 * length ns
unfolding bytes_of_array
length-bytes_of_array [] = omega arith
length-bytes_of_array (n ∷ ns) = omega (arith, length-bytes_of_array ns)
