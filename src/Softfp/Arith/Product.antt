-- ===== src/Softfp/Arith/Product.antt =====
-- mul_sf of softfp_template.h against the exact product.
use mquickjs_port.Base.{
  ℕ, ◌+◌, ◌-◌, ◌*◌, ◌/◌, ◌%◌, ◌^◌, ◌≤◌, ◌<◌, ◌≡◌, refl, ap, ◌∙◌, arith, bit_or, ◌==◌, ltb,
  if◌then◌else◌, Bool-cases, inl, inr,
}
use mquickjs_port.Base.Int.{pos, ◌+ℤ◌, ◌-ℤ◌, +ℤ_parts, -ℤ_parts, eq_of_parts}
use mquickjs_port.Base.Pow.{pow-pos}
use mquickjs_port.Rounding.{Rounding, round_div}
use mquickjs_port.Scale.Sticky.{sticky_div, round_div_scale}
use mquickjs_port.Softfp.Arith.{mul_sf, mul_finite, sign_xor}
use mquickjs_port.Softfp.Arith.Operand.{exp_of_sf, mant_of_sf, IsNormal, operand_lem, normal_tests}
use mquickjs_port.Softfp.Format.{float64, sign}
use mquickjs_port.Softfp.Round.{normalize_sf}
use mquickjs_port.Softfp.Round.Nearest.{mode_of}
use mquickjs_port.Softfp.Round.Normal.{normalize-sticky_div}
use mquickjs_port.Softfp.Round.Sticky.{sticky_or}
use mquickjs_port.Softfp.Wide.{mul_u}
use native.Mathlib.Nat.{mod-eq_of_lt, mul-le-mul}

-- The two words of the product of the shifted mantissas, with what was lost in the lowest bit.
high_word :
    (x y : ℕ)
    → x < 2 ^ 53
    → y < 2 ^ 53
    → bit_or
        (mul_u float64 (x * 2 ^ 10 % 2 ^ 64) (y * 2 ^ 11 % 2 ^ 64)).1
        (if (mul_u float64 (x * 2 ^ 10 % 2 ^ 64) (y * 2 ^ 11 % 2 ^ 64)).0 == 0 then 0 else 1)
      ≡ sticky_div (x * y * 2 ^ 21) (2 ^ 64)
unfolding mul_u sticky_div
high_word x y hx hy =
    rw (mod-eq_of_lt fx, mod-eq_of_lt fy, product)
      (sticky_or (x * y * 2 ^ 21 / 2 ^ 64) (x * y * 2 ^ 21 % 2 ^ 64))
  where
    fx : x * 2 ^ 10 < 2 ^ 64
    fx = omega arith

    fy : y * 2 ^ 11 < 2 ^ 64
    fy = omega arith

    product : x * 2 ^ 10 * (y * 2 ^ 11) ≡ x * y * 2 ^ 21
    product = omega arith

-- The number of bits that the product is wider than a mantissa.
abbrev pub product_shift : ℕ → ℕ → ℕ
product_shift a b = if ltb (mant_of_sf a * mant_of_sf b) (2 ^ 105) then 52 else 53

-- The exponent before the normalisation.
exponent : (x y e : ℕ) → e + 1022 ≡ x + y → pos x +ℤ pos y -ℤ pos 1024 +ℤ pos 2 ≡ pos e
exponent x y e h = eq_of_parts (pos x +ℤ pos y -ℤ pos 1024 +ℤ pos 2) (pos e) (
    omega (
      arith,
      h,
      +ℤ_parts (pos x +ℤ pos y -ℤ pos 1024) (pos 2),
      -ℤ_parts (pos x +ℤ pos y) (pos 1024),
      +ℤ_parts (pos x) (pos y),
    ))

-- A product of two mantissas, normalised by `j` places and rounded.
rounded_product :
    (r : Rounding) (s e j p : ℕ)
    → s < 2
    → 1 ≤ e
    → e ≤ 2046
    → j < 2
    → 2 ^ (62 - j) * 2 ^ 64 ≤ p * 2 ^ 21
    → p * 2 ^ 21 < 2 ^ (63 - j) * 2 ^ 64
    → 2 ^ 64 * 2 ^ (10 - j) ≡ 2 ^ (53 - j) * 2 ^ 21
    → normalize_sf float64 s (pos (e + j)) (sticky_div (p * 2 ^ 21) (2 ^ 64)) (mode_of r)
      ≡ s * 2 ^ 63 + (e - 1) * 2 ^ 52 + round_div r p (2 ^ (53 - j))
rounded_product r s e j p hs he he' hj low high scale =
    normalize-sticky_div r s e j (p * 2 ^ 21) (2 ^ 64) hs he he' (omega (arith, hj)) (omega arith)
      low high
    ∙ ap (λ (t : ℕ). s * 2 ^ 63 + (e - 1) * 2 ^ 52 + t)
        (ap (round_div r (p * 2 ^ 21)) scale
          ∙ round_div_scale r p (2 ^ (53 - j)) (2 ^ 21) (pow-pos 2 (53 - j) (omega arith))
              (omega arith))

-- For two normal doubles, a mode to nearest or towards zero and an exponent `e` from 1 to 2046 that
-- the exponents and the width of the product give, `mul_sf` returns the exact product of the
-- mantissas rounded once to 53 bits, with that exponent and the sign of the product; a carry of the
-- rounding goes into the exponent, and from 2046 to infinity.
pub mul_sf-round_div :
    (r : Rounding) (a b e : ℕ)
    → a < 2 ^ 64
    → b < 2 ^ 64
    → IsNormal a
    → IsNormal b
    → 1 ≤ e
    → e ≤ 2046
    → e + 1075 ≡ exp_of_sf a + exp_of_sf b + product_shift a b
    → mul_sf float64 a b (mode_of r)
      ≡ sign_xor (sign float64 a) (sign float64 b) * 2 ^ 63
        + (e - 1) * 2 ^ 52
        + round_div r (mant_of_sf a * mant_of_sf b) (2 ^ product_shift a b)
unfolding mul_sf mul_finite
mul_sf-round_div r a b e ha hb na nb he he' he'' =
    rw
      (
        (normal_tests a na).0,
        (normal_tests a na).1,
        (normal_tests b nb).0,
        (normal_tests b nb).1,
        operand_lem a na,
        operand_lem b nb,
        high_word (mant_of_sf a) (mant_of_sf b) (omega arith) (omega arith),
      )
      (elim (Bool-cases (ltb (mant_of_sf a * mant_of_sf b) (2 ^ 105))) [
        | inl narrow ↦
            let shifted : e + 1 + 1022 ≡ exp_of_sf a + exp_of_sf b = ground arith in
            let low : 2 ^ 61 * 2 ^ 64 ≤ mant_of_sf a * mant_of_sf b * 2 ^ 21 =
              ground (arith, bounds) in
            let high : mant_of_sf a * mant_of_sf b * 2 ^ 21 < 2 ^ 62 * 2 ^ 64 =
              ground (arith, bounds) in
            rw (narrow, exponent (exp_of_sf a) (exp_of_sf b) (e + 1) shifted)
              (rounded_product r (sign_xor (sign float64 a) (sign float64 b)) e 1
                (mant_of_sf a * mant_of_sf b) sign_small he he' (omega arith) low high refl)
        | inr wide ↦
            let shifted : e + 0 + 1022 ≡ exp_of_sf a + exp_of_sf b = ground arith in
            let low : 2 ^ 62 * 2 ^ 64 ≤ mant_of_sf a * mant_of_sf b * 2 ^ 21 =
              ground (arith, bounds) in
            let high : mant_of_sf a * mant_of_sf b * 2 ^ 21 < 2 ^ 63 * 2 ^ 64 =
              ground (arith, bounds) in
            rw (wide, exponent (exp_of_sf a) (exp_of_sf b) (e + 0) shifted)
              (rounded_product r (sign_xor (sign float64 a) (sign float64 b)) e 0
                (mant_of_sf a * mant_of_sf b) sign_small he he' (omega arith) low high refl)
      ])
  where
    sign_small : sign_xor (sign float64 a) (sign float64 b) < 2
    sign_small = ground arith

    bounds : (2 ^ 104 ≤ mant_of_sf a * mant_of_sf b) × (mant_of_sf a * mant_of_sf b < 2 ^ 106)
    bounds = (
      mul-le-mul {n₁ = 2 ^ 52} {m₁ = 2 ^ 52} (omega arith) (omega arith),
      omega (
        arith,
        mul-le-mul {n₁ = mant_of_sf a} {m₁ = mant_of_sf b} {n₂ = 2 ^ 53 - 1} {m₂ = 2 ^ 53 - 1}
            (omega arith) (omega arith),
      ),
    )
