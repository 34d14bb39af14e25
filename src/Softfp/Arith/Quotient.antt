-- ===== src/Softfp/Arith/Quotient.antt =====
-- div_sf of softfp_template.h against the exact quotient.
use mquickjs_port.Base.{
  ℕ, ◌+◌, ◌-◌, ◌*◌, ◌/◌, ◌%◌, ◌^◌, ◌≤◌, ◌<◌, ◌≡◌, refl, ap, sym, ◌∙◌, arith, bit_or, ◌==◌, ltb,
  if◌then◌else◌, Bool-cases, inl, inr,
}
use mquickjs_port.Base.Bits.{bit_or-one, bit_or-zero}
use mquickjs_port.Base.Int.{pos, ◌+ℤ◌, ◌-ℤ◌, +ℤ_parts, -ℤ_parts, eq_of_parts}
use mquickjs_port.Base.Pow.{pow-pos}
use mquickjs_port.Rounding.{Rounding, round_div}
use mquickjs_port.Scale.Sticky.{sticky_div, round_div_scale}
use mquickjs_port.Softfp.Arith.{div_sf, div_finite, sign_xor}
use mquickjs_port.Softfp.Arith.Operand.{exp_of_sf, mant_of_sf, IsNormal, operand_lem, normal_tests}
use mquickjs_port.Softfp.Format.{float64, sign}
use mquickjs_port.Softfp.Round.{normalize_sf}
use mquickjs_port.Softfp.Round.Nearest.{mode_of}
use mquickjs_port.Softfp.Round.Normal.{normalize-sticky_div}
use mquickjs_port.Softfp.Wide.{divrem_u}
use native.Mathlib.Nat.{mod-eq_of_lt, mul_assoc, div-lt_iff_lt-mul}
use mathlib.Core.Path.{ap₂}

-- The division of the mantissas, with the remainder in the lowest bit.
division :
    (x y : ℕ)
    → 2 ^ 52 ≤ x
    → x < 2 ^ 53
    → 2 ^ 52 ≤ y
    → y < 2 ^ 53
    → (if (divrem_u float64 x 0 (y * 2 ^ 2 % 2 ^ 64)).1 == 0
        then (divrem_u float64 x 0 (y * 2 ^ 2 % 2 ^ 64)).0
        else bit_or (divrem_u float64 x 0 (y * 2 ^ 2 % 2 ^ 64)).0 1)
      ≡ sticky_div (x * 2 ^ 64) (y * 2 ^ 2)
unfolding divrem_u sticky_div
division x y hx hx' hy hy' =
    rw
      (
        mod-eq_of_lt fits,
        bit_or-zero (x * 2 ^ 64),
        mod-eq_of_lt one_word,
        bit_or-one (x * 2 ^ 64 / (y * 2 ^ 2)),
      )
      refl
  where
    fits : y * 2 ^ 2 < 2 ^ 64
    fits = omega arith

    one_word : x * 2 ^ 64 / (y * 2 ^ 2) < 2 ^ 64
    one_word = (div-lt_iff_lt-mul (omega arith)).1 (omega arith)

-- The exponent before the normalisation.
exponent : (x y e : ℕ) → e + y ≡ x + 1023 → pos x -ℤ pos y +ℤ pos 1024 -ℤ pos 1 ≡ pos e
exponent x y e h = eq_of_parts (pos x -ℤ pos y +ℤ pos 1024 -ℤ pos 1) (pos e) (
    omega (
      arith,
      h,
      -ℤ_parts (pos x -ℤ pos y +ℤ pos 1024) (pos 1),
      +ℤ_parts (pos x -ℤ pos y) (pos 1024),
      -ℤ_parts (pos x) (pos y),
    ))

-- A quotient of two mantissas, normalised by `j` places and rounded.
rounded_quotient :
    (r : Rounding) (s e j x y : ℕ)
    → s < 2
    → 1 ≤ e
    → e ≤ 2046
    → j < 2
    → 0 < y
    → 2 ^ (62 - j) * (y * 2 ^ 2) ≤ x * 2 ^ 64
    → x * 2 ^ 64 < 2 ^ (63 - j) * (y * 2 ^ 2)
    → 2 ^ 64 ≡ 2 ^ (52 + j) * (2 ^ 2 * 2 ^ (10 - j))
    → normalize_sf float64 s (pos (e + j)) (sticky_div (x * 2 ^ 64) (y * 2 ^ 2)) (mode_of r)
      ≡ s * 2 ^ 63 + (e - 1) * 2 ^ 52 + round_div r (x * 2 ^ (52 + j)) y
rounded_quotient r s e j x y hs he he' hj hy low high scale =
    normalize-sticky_div r s e j (x * 2 ^ 64) (y * 2 ^ 2) hs he he' (omega (arith, hj))
      (omega arith) low high
    ∙ ap (λ (t : ℕ). s * 2 ^ 63 + (e - 1) * 2 ^ 52 + t)
        (ap₂ (round_div r)
            (ap (λ (t : ℕ). x * t) scale ∙ sym (mul_assoc x (2 ^ (52 + j)) (2 ^ 2 * 2 ^ (10 - j))))
            (mul_assoc y (2 ^ 2) (2 ^ (10 - j)))
          ∙ round_div_scale r (x * 2 ^ (52 + j)) y (2 ^ 2 * 2 ^ (10 - j)) hy
              (omega (arith, pow-pos 2 (10 - j) (omega arith))))

-- The number of places by which the first mantissa is shifted for a quotient of 53 bits.
abbrev pub quotient_shift : ℕ → ℕ → ℕ
quotient_shift a b = if ltb (mant_of_sf a) (mant_of_sf b) then 53 else 52

-- For two normal doubles, a mode to nearest or towards zero and an exponent `e` from 1 to 2046 that
-- the exponents and the order of the mantissas give, `div_sf` returns the exact quotient of the
-- mantissas, scaled to 53 bits and rounded once, with that exponent and the sign of the quotient.
pub div_sf-round_div :
    (r : Rounding) (a b e : ℕ)
    → a < 2 ^ 64
    → b < 2 ^ 64
    → IsNormal a
    → IsNormal b
    → 1 ≤ e
    → e ≤ 2046
    → e + exp_of_sf b + quotient_shift a b ≡ exp_of_sf a + 1075
    → div_sf float64 a b (mode_of r)
      ≡ sign_xor (sign float64 a) (sign float64 b) * 2 ^ 63
        + (e - 1) * 2 ^ 52
        + round_div r (mant_of_sf a * 2 ^ quotient_shift a b) (mant_of_sf b)
unfolding div_sf div_finite
div_sf-round_div r a b e ha hb na nb he he' he'' =
    rw
      (
        (normal_tests a na).0,
        (normal_tests a na).1,
        (normal_tests b nb).0,
        (normal_tests b nb).1,
        operand_lem a na,
        operand_lem b nb,
        division (mant_of_sf a) (mant_of_sf b) (omega arith) (omega arith) (omega arith)
            (omega arith),
      )
      (elim (Bool-cases (ltb (mant_of_sf a) (mant_of_sf b))) [
        | inl less ↦
            let shifted : e + 1 + exp_of_sf b ≡ exp_of_sf a + 1023 = ground arith in
            rw (less, exponent (exp_of_sf a) (exp_of_sf b) (e + 1) shifted)
              (rounded_quotient r (sign_xor (sign float64 a) (sign float64 b)) e 1 (mant_of_sf a)
                (mant_of_sf b) sign_small he he' (omega arith) (omega arith) (ground arith)
                (ground arith) refl)
        | inr more ↦
            let shifted : e + 0 + exp_of_sf b ≡ exp_of_sf a + 1023 = ground arith in
            rw (more, exponent (exp_of_sf a) (exp_of_sf b) (e + 0) shifted)
              (rounded_quotient r (sign_xor (sign float64 a) (sign float64 b)) e 0 (mant_of_sf a)
                (mant_of_sf b) sign_small he he' (omega arith) (omega arith) (ground arith)
                (ground arith) refl)
      ])
  where
    sign_small : sign_xor (sign float64 a) (sign float64 b) < 2
    sign_small = ground arith
