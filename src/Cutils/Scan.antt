-- ===== src/Cutils/Scan.antt =====
-- What `clz32`, `clz64` and `ctz32` count.
use mquickjs_port.Base.{
  ℕ, zero, suc, ◌+◌, ◌-◌, ◌*◌, ◌/◌, ◌%◌, ◌^◌, ◌≤◌, ◌<◌, ◌≡◌, ap, arith, true, false, ◌==◌,
  Bool-cases, inl, inr,
}
use Prim.Native.Nat.{max}
use mquickjs_port.Cutils.{bit_length, clz32, clz64, low_zeros, ctz32}
use native.Mathlib.Nat.{pow-suc}

pub bit_length_lem :
    (fuel n : ℕ)
    → n < 2 ^ fuel
    → (n < 2 ^ bit_length fuel n)
      × (2 ^ bit_length fuel n ≤ max 1 (2 * n))
      × (bit_length fuel n ≤ fuel)
unfolding bit_length
bit_length_lem zero n h = ground arith
bit_length_lem (suc fuel) n h =
    ground (arith, pow-suc 2 fuel, bit_length_lem fuel (n / 2), pow-suc 2 (bit_length fuel (n / 2)))

-- A word of `b` bits has `w - b` zeros above its highest set bit.
top_bit :
    (w b a : ℕ)
    → 0 < a
    → (a < 2 ^ b) × (2 ^ b ≤ max 1 (2 * a)) × (b ≤ w)
    → (2 ^ (w - 1 - (w - b)) ≤ a) × (a < 2 ^ (w - (w - b))) × (w - b ≤ w - 1)
top_bit w zero a p h = absurd (omega arith)
top_bit w (suc b) a p h = rw (top, same) (omega (arith, pow-suc 2 b))
  where
    top : w - 1 - (w - suc b) ≡ b
    top = omega arith

    same : w - (w - suc b) ≡ suc b
    same = omega arith

-- The highest set bit of a word that is not 0 stands `clz32` places below the top.
pub clz32_lem :
    (a : ℕ)
    → 0 < a
    → a < 2 ^ 32
    → (2 ^ (31 - clz32 a) ≤ a) × (a < 2 ^ (32 - clz32 a)) × (clz32 a ≤ 31)
unfolding clz32
clz32_lem a p h = top_bit 32 _ a p (bit_length_lem 32 a h)

pub clz64_lem :
    (a : ℕ)
    → 0 < a
    → a < 2 ^ 64
    → (2 ^ (63 - clz64 a) ≤ a) × (a < 2 ^ (64 - clz64 a)) × (clz64 a ≤ 63)
unfolding clz64
clz64_lem a p h = top_bit 64 _ a p (bit_length_lem 64 a h)

even_half : (n : ℕ) → 0 < n → (n % 2 == 0) ≡ true → (0 < n / 2) × (n ≡ n / 2 * 2)
even_half n p h = ground arith

odd_half : (n : ℕ) → (n % 2 == 0) ≡ false → n ≡ (2 * (n / 2) + 1) * 1
odd_half n h = ground arith

half_lt : (fuel n : ℕ) → n < 2 ^ suc fuel → n / 2 < 2 ^ fuel
half_lt fuel n h = omega (arith, pow-suc 2 fuel)

double_odd : (n v z : ℕ) → n ≡ n / 2 * 2 → n / 2 ≡ v * 2 ^ z → n ≡ v * 2 ^ suc z
double_odd n v z e f = omega (arith, ap (λ (t : ℕ). v * t) (pow-suc 2 z))

-- The bits above the zeros are odd.
low_zeros_lem :
    (fuel n : ℕ)
    → 0 < n
    → n < 2 ^ fuel
    → (u : ℕ) × (n ≡ (2 * u + 1) * 2 ^ low_zeros fuel n) × (low_zeros fuel n < fuel)
unfolding low_zeros
low_zeros_lem zero n p h = absurd (omega arith)
low_zeros_lem (suc fuel) n p h = elim (Bool-cases (n % 2 == 0)) [
  | inl even ↦
      let halves = even_half n p even in
      let (u, e, b) = low_zeros_lem fuel (n / 2) halves.0 (half_lt fuel n h) in
      rw even (u, double_odd n (2 * u + 1) (low_zeros fuel (n / 2)) halves.1 e, omega (arith, b))
  | inr odd ↦ rw odd (n / 2, odd_half n odd, omega arith)
]

-- A word that is not 0 is an odd number followed by `ctz32` zeros.
pub ctz32_lem :
    (a : ℕ) → 0 < a → a < 2 ^ 32 → (u : ℕ) × (a ≡ (2 * u + 1) * 2 ^ ctz32 a) × (ctz32 a < 32)
unfolding ctz32
ctz32_lem a p h = low_zeros_lem 32 a p h
