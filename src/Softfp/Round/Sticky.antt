-- ===== src/Softfp/Round/Sticky.antt =====
-- The right shift of softfp_template.h as a division.
use mquickjs_port.Base.{
  ℕ, ◌+◌, ◌*◌, ◌/◌, ◌%◌, ◌^◌, ◌≤◌, ◌<◌, ◌≡◌, refl, arith, bit_or, ◌==◌, ==_iff, leb, Bool-cases,
  inl, inr, if◌then◌else◌, true,
}
use mquickjs_port.Base.Bits.{bit_and_mask, bit_or-one, bit_or-zero}
use mquickjs_port.Scale.Sticky.{sticky_div}
use mquickjs_port.Softfp.Format.{float64}
use mquickjs_port.Softfp.Round.{rshift_rnd}
use native.Mathlib.Nat.{mod-eq_of_lt, div-one, mod-one, pow-le-pow_right, div-eq_of_lt}

-- A number below the divisor.
sticky_small : (a n : ℕ) → a < n → (if a == 0 then 0 else 1) ≡ sticky_div a n
unfolding sticky_div
sticky_small a n h = rw (mod-eq_of_lt h, div-eq_of_lt h) (ground arith)

-- The lowest bit takes what was lost.
pub sticky_or :
    (q r : ℕ) → bit_or q (if r == 0 then 0 else 1) ≡ (if r == 0 then q else q / 2 * 2 + 1)
sticky_or q r = ground (arith, bit_or-one q, bit_or-zero q)

wide_exponent : (d : ℕ) → leb 64 d ≡ true → 64 ≤ d
wide_exponent d h = ground arith

-- A right shift that keeps the lost bits in the lowest one is the division with a sticky bit.
pub rshift_rnd-sticky_div : (a d : ℕ) → a < 2 ^ 64 → rshift_rnd float64 a d ≡ sticky_div a (2 ^ d)
unfolding rshift_rnd sticky_div
rshift_rnd-sticky_div a d h = elim (Bool-cases (d == 0)) [
  | inl e ↦ rw ((==_iff d 0).0 e, mod-one a, div-one a) refl
  | inr e ↦ elim (Bool-cases (leb 64 d)) [
    | inl big ↦
        let wide : 2 ^ 64 ≤ 2 ^ d = pow-le-pow_right (omega arith) (wide_exponent d big) in
        rw (e, big) (sticky_small a (2 ^ d) (omega arith))
    | inr less ↦ rw (e, less, bit_and_mask d a) (sticky_or (a / 2 ^ d) (a % 2 ^ d))
  ]
]
