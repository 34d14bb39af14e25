-- ===== src/Mp/Reciprocal.antt =====
-- `udiv1norm_init` and `udiv1norm`: division by a normalised limb through its reciprocal.
use mquickjs_port.Base.{
  ℕ, ◌+◌, ◌-◌, ◌*◌, ◌/◌, ◌%◌, ◌^◌, ◌≤◌, ◌<◌, u32, u64, ◌>>>◌, low_mask, ◌≡◌, ap, ◌∙◌, arith,
}
use mquickjs_port.Base.Bits.{bit_or_fields, ones-bit_and, zero-bit_and}
use mquickjs_port.Base.Pow.{div_unique, mod_unique}
use mquickjs_port.Limbs.{IsLimb}
use mquickjs_port.Mp.{udiv1norm_init, udiv1norm, quotient_estimate, correct_quotient}
use native.Mathlib.Decide.{dec_lt}
use native.Mathlib.Nat.{
  div-add-mod, mod-lt, mul_comm, mul-le-mul_right, mul-le-mul_left, div-lt_iff_lt-mul,
  lt_of_mul-lt-mul_right, mod-eq_of_lt,
}

-- `d` has its top bit set.
abbrev pub IsNormal : ℕ → Type 0
IsNormal d = (2 ^ 31 ≤ d) × IsLimb d

-- The quotient that the reciprocal is: of `2 ^ 64 - 1`, less `2 ^ 32`.
abbrev IsReciprocal : ℕ → ℕ → Type 0
IsReciprocal d v = (v * d + 2 ^ 32 * d + 1 ≤ 2 ^ 64) × (2 ^ 64 ≤ v * d + 2 ^ 32 * d + d) × IsLimb v

init_eq : (d : ℕ) → IsNormal d → udiv1norm_init d ≡ (2 ^ 64 - 1 - 2 ^ 32 * d) / d
unfolding udiv1norm_init
init_eq d h =
    rw (top, bit_or_fields 32 (2 ^ 32 - 1 - d) (2 ^ 32 - 1) (omega arith), joined)
      (mod-eq_of_lt ((div-lt_iff_lt-mul (omega arith)).1 (omega arith)))
  where
    top : u32 (2 ^ 32 - d + 2 ^ 32 - 1) ≡ 2 ^ 32 - 1 - d
    top = omega arith

    joined : (2 ^ 32 - 1 - d) * 2 ^ 32 + (2 ^ 32 - 1) ≡ 2 ^ 64 - 1 - 2 ^ 32 * d
    joined = omega arith

pub init-IsReciprocal : (d : ℕ) → IsNormal d → IsReciprocal d (udiv1norm_init d)
init-IsReciprocal d h = rw (init_eq d h) (
    omega (
      arith,
      div-add-mod (2 ^ 64 - 1 - 2 ^ 32 * d) d,
      mul_comm d ((2 ^ 64 - 1 - 2 ^ 32 * d) / d),
      mod-lt (2 ^ 64 - 1 - 2 ^ 32 * d) {m = d} (omega arith),
      below,
    ))
  where
    below : (2 ^ 64 - 1 - 2 ^ 32 * d) / d < 2 ^ 32
    below = (div-lt_iff_lt-mul (omega arith)).1 (omega arith)

-- The estimate of the quotient is at most 1 too small. `p` is the high limb of the product.
module _ (d v a1 a0 p : ℕ) (norm : IsNormal d) (inv : IsReciprocal d v) (small : a1 < d)
    (limb : IsLimb a0) where
  -- The distance from `d` to the limb base.
  abbrev gap : ℕ
  gap = 2 ^ 32 - d

  gap_lem : d + gap ≡ 2 ^ 32
  gap_lem = omega arith

  square : d * d + d * gap ≡ d * 2 ^ 32
  square = omega (arith, ap (λ (t : ℕ). d * t) gap_lem)

  le_of_bits : a0 < 2 ^ 31 → a0 ≤ d
  le_of_bits h = omega arith

  gap_le : 2 ^ 31 ≤ a0 → gap ≤ a0
  gap_le h = omega arith

  le_of_limb : a0 + 1 ≤ 2 ^ 32
  le_of_limb = omega arith

  estimate_low_le : a0 < 2 ^ 31 → 2 ^ 32 * p ≤ v * a1 + a0 → (p + a1) * d ≤ a1 * 2 ^ 32 + a0
  estimate_low_le h e = omega (
    arith,
    mul-le-mul_right d e,
    mul-le-mul_right a1 inv.0,
    mul-le-mul_left {m = d} {n = 2 ^ 32 - 1} a0 (omega arith),
  )

  estimate_low_lt :
      a0 < 2 ^ 31 → v * a1 + a0 + 1 ≤ 2 ^ 32 * p + 2 ^ 32 → a1 * 2 ^ 32 + a0 < (p + a1) * d + 2 * d
  estimate_low_lt h e = omega (
    arith,
    mul-le-mul_right d e,
    mul-le-mul_right a1 inv.1,
    mul-le-mul_right d small,
    square,
    mul-le-mul_right gap (le_of_bits h),
    ap (λ (t : ℕ). a0 * t) gap_lem,
  )

  estimate_high_le :
      2 ^ 31 ≤ a0 → 2 ^ 32 * p + 2 ^ 32 ≤ v * (a1 + 1) + a0 + d → (p + a1) * d ≤ a1 * 2 ^ 32 + a0
  estimate_high_le h e = omega (
    arith,
    mul-le-mul_right d e,
    mul-le-mul_right (a1 + 1) inv.0,
    square,
    ap (λ (t : ℕ). gap * t) gap_lem,
    mul-le-mul_left gap (gap_le h),
    ap (λ (t : ℕ). a0 * t) gap_lem,
  )

  estimate_high_lt :
      2 ^ 31 ≤ a0
      → v * (a1 + 1) + a0 + d + 1 ≤ 2 ^ 32 * p + 2 ^ 32 + 2 ^ 32
      → a1 * 2 ^ 32 + a0 < (p + a1) * d + 2 * d
  estimate_high_lt h e = omega (
    arith,
    mul-le-mul_right d e,
    mul-le-mul_right (a1 + 1) inv.1,
    mul-le-mul_left d small,
    square,
    ap (λ (t : ℕ). a0 * t) gap_lem,
    mul-le-mul_left gap (le_of_limb),
  )

  -- The product of the reciprocal fits a double word.
  product_fits : v * (a1 + 1) + 2 ^ 32 ≤ 2 ^ 64
  product_fits = omega (arith, mul-le-mul_right (a1 + 1) inv.2)

-- `q` is the quotient or one less.
abbrev IsEstimate : ℕ → ℕ → ℕ → Type 0
IsEstimate n d q = (q * d ≤ n) × (n < q * d + 2 * d)

module _ (d v a1 a0 : ℕ) (norm : IsNormal d) (inv : IsReciprocal d v) (small : a1 < d)
    (limb : IsLimb a0) where
  estimate_fits : (q : ℕ) → q * d ≤ a1 * 2 ^ 32 + a0 → q < 2 ^ 32
  estimate_fits q h = lt_of_mul-lt-mul_right d (omega (arith, mul-le-mul_right (2 ^ 32) small))

  quotient_estimate_low :
      a0 < 2 ^ 31 → quotient_estimate a1 a0 d v ≡ u32 ((v * a1 + a0) / 2 ^ 32 + a1)
  unfolding quotient_estimate
  quotient_estimate_low h =
      ground (arith, zero-bit_and d, product_fits d v a1 a0 0 norm inv small limb)

  quotient_estimate_high :
      2 ^ 31 ≤ a0
      → quotient_estimate a1 a0 d v ≡ u32 ((v * (a1 + 1) + (a0 + d - 2 ^ 32)) / 2 ^ 32 + a1)
  unfolding quotient_estimate
  quotient_estimate_high h =
      ground (arith, ones-bit_and 32 d norm.1, product_fits d v a1 a0 0 norm inv small limb)

  -- The first quotient is right or one too small, and fits a limb.
  quotient_estimate-IsEstimate : IsEstimate (a1 * 2 ^ 32 + a0) d (quotient_estimate a1 a0 d v)
  quotient_estimate-IsEstimate = elim (dec_lt a0 (2 ^ 31)) [
    | yes h ↦
        let p = (v * a1 + a0) / 2 ^ 32 in
        let le = estimate_low_le d v a1 a0 p norm inv small limb h (omega arith) in
        rw (quotient_estimate_low h, mod-eq_of_lt (estimate_fits (p + a1) le))
          (le, estimate_low_lt d v a1 a0 p norm inv small limb h (omega arith))
    | no h ↦
        let p = (v * (a1 + 1) + (a0 + d - 2 ^ 32)) / 2 ^ 32 in
        let le = estimate_high_le d v a1 a0 p norm inv small limb (omega arith) (omega arith) in
        rw (quotient_estimate_high (omega arith), mod-eq_of_lt (estimate_fits (p + a1) le))
          (le, estimate_high_lt d v a1 a0 p norm inv small limb (omega arith) (omega arith))
  ]

module _ (d a1 a0 q : ℕ) (norm : IsNormal d) (small : a1 < d) (limb : IsLimb a0)
    (est : IsEstimate (a1 * 2 ^ 32 + a0) d q) where
  q_fits : q < 2 ^ 32
  q_fits = lt_of_mul-lt-mul_right d (omega (arith, mul-le-mul_right (2 ^ 32) small))

  -- The remainder for `q + 1`, as a double word.
  abbrev difference : ℕ
  difference = u64 (a1 * 2 ^ 32 + a0 + 2 ^ 64 - u64 (q * d) + 2 ^ 64 - d)

  all_ones :
      a1 * 2 ^ 32 + a0 < q * d + d
      → (difference ≡ 2 ^ 64 + (a1 * 2 ^ 32 + a0 - q * d) - d)
        × (u32 (difference >>> 32) ≡ low_mask 32)
  all_ones h = omega arith

  all_zeros :
      q * d + d ≤ a1 * 2 ^ 32 + a0
      → (difference ≡ a1 * 2 ^ 32 + a0 - q * d - d) × (u32 (difference >>> 32) ≡ 0)
  all_zeros h = omega arith

  -- What the test of the remainder for `q + 1` gives, when `q` was right.
  correct_quotient_kept :
      a1 * 2 ^ 32 + a0 < q * d + d → correct_quotient a1 a0 d q ≡ (q, a1 * 2 ^ 32 + a0 - q * d)
  unfolding correct_quotient
  correct_quotient_kept h =
      ground (arith, bit_or_fields 32 a1 a0 limb, all_ones h, q_fits, ones-bit_and 32 d norm.1)

  correct_quotient_raised :
      q * d + d ≤ a1 * 2 ^ 32 + a0
      → correct_quotient a1 a0 d q ≡ (q + 1, a1 * 2 ^ 32 + a0 - q * d - d)
  unfolding correct_quotient
  correct_quotient_raised h =
      ground (arith, bit_or_fields 32 a1 a0 limb, all_zeros h, q_fits, zero-bit_and d)

-- For a normal limb `d`, a high limb below `d` and a low limb, `udiv1norm` with the reciprocal of
-- `d` returns the quotient and the remainder of the two limbs by `d`.
pub udiv1norm_lem :
    (a1 a0 d : ℕ)
    → IsNormal d
    → a1 < d
    → IsLimb a0
    → udiv1norm a1 a0 d (udiv1norm_init d) ≡ ((a1 * 2 ^ 32 + a0) / d, (a1 * 2 ^ 32 + a0) % d)
unfolding udiv1norm
udiv1norm_lem a1 a0 d norm small limb =
    let inv = init-IsReciprocal d norm in
    let n : ℕ = a1 * 2 ^ 32 + a0 in
    let q = quotient_estimate a1 a0 d (udiv1norm_init d) in
    let est = quotient_estimate-IsEstimate d _ a1 a0 norm inv small limb in
    elim (dec_lt n (q * d + d)) [
      | yes h ↦
          correct_quotient_kept d a1 a0 q norm small limb est h
          ∙ pair_eq
              (div_unique n d q (n - q * d) (omega (arith, est, mul_comm d q)) (omega (arith, est)))
              (mod_unique n d q (n - q * d) (omega (arith, est, mul_comm d q)) (omega (arith, est)))
      | no h ↦
          correct_quotient_raised d a1 a0 q norm small limb est (omega arith)
          ∙ pair_eq
              (div_unique n d (q + 1) (n - q * d - d) (omega (arith, est, mul_comm d q))
                (omega (arith, est)))
              (mod_unique n d (q + 1) (n - q * d - d) (omega (arith, est, mul_comm d q))
                (omega (arith, est)))
    ]
  where
    pair_eq : {x y u v : ℕ} → x ≡ y → u ≡ v → ◌≡◌ {A = ℕ × ℕ} (y, v) (x, u)
    pair_eq e f = cc
