-- ===== src/Ipc/Order.antt =====
-- `cmp` of lecture_examples/7_ipc/1_simple_sort.c, the order that `qsort` is given.
use iu_sysprog.Prelude.{ℕ, ◌+◌, ◌-◌, ◌%◌, ◌^◌, ◌<◌, ◌≤◌, if◌then◌else◌, ltb, ◌≡◌, arith}
use iu_sysprog.Prelude.Int.{ℤ, pos, negsuc, pos_part, neg_part, ltb_ℤ}

-- The value of an `int` from 32 bits.
abbrev pub signed : ℕ → ℤ
signed u = if ltb u (2 ^ 31) then pos u else negsuc (2 ^ 32 - 1 - u)

-- `a - b`, wrapped to 32 bits where it overflows.
unfoldable pub cmp : ℤ → ℤ → ℤ
cmp a b =
    let plus = pos_part a + neg_part b in
    let minus = pos_part b + neg_part a in signed ((plus + 2 ^ 32 - minus) % 2 ^ 32)

-- The values of an `int`.
abbrev pub IsInt : ℤ → Type 0
IsInt a = (pos_part a < 2 ^ 31) × (neg_part a ≤ 2 ^ 31)

-- How far apart two numbers are.
abbrev pub gap : ℤ → ℤ → ℕ
gap a b =
    let plus = pos_part a + neg_part b in
    let minus = pos_part b + neg_part a in (plus - minus) + (minus - plus)

-- Where two values of an `int` are fewer than 2^31 apart, cmp is negative exactly if the first is
-- the smaller one; where they are more than 2^31 apart, exactly if it is the greater one.
pub cmp-ltb_ℤ :
    (a b : ℤ)
    → IsInt a
    → IsInt b
    → (gap a b < 2 ^ 31 → ltb_ℤ (cmp a b) (pos 0) ≡ ltb_ℤ a b)
      × (2 ^ 31 < gap a b → ltb_ℤ (cmp a b) (pos 0) ≡ ltb_ℤ b a)
unfolding cmp
cmp-ltb_ℤ (pos a) (pos b) ha hb =
    ((λ g. ground (arith, ha, hb, g)), (λ g. ground (arith, ha, hb, g)))
cmp-ltb_ℤ (pos a) (negsuc b) ha hb =
    ((λ g. ground (arith, ha, hb, g)), (λ g. ground (arith, ha, hb, g)))
cmp-ltb_ℤ (negsuc a) (pos b) ha hb =
    ((λ g. ground (arith, ha, hb, g)), (λ g. ground (arith, ha, hb, g)))
cmp-ltb_ℤ (negsuc a) (negsuc b) ha hb =
    ((λ g. ground (arith, ha, hb, g)), (λ g. ground (arith, ha, hb, g)))
