-- ===== src/Softfp/Arith/Sum.antt =====
-- add_sf of softfp_template.h against the exact sum of two numbers of the same sign.
use mquickjs_port.Base.{
  ℕ, ◌+◌, ◌-◌, ◌*◌, ◌/◌, ◌%◌, ◌^◌, ◌≤◌, ◌<◌, ◌≡◌, refl, ap, sym, ◌∙◌, arith, ◌==◌, ltb,
  if◌then◌else◌, true, false, Bool-cases, inl, inr,
}
use mquickjs_port.Base.Bits.{bit_and_mask, bit_or_comm, bit_or_fields}
use mquickjs_port.Base.Int.{pos}
use mquickjs_port.Base.Pow.{pow-pos, div_unique, mod_unique}
use mquickjs_port.Rounding.{Rounding, round_div}
use mquickjs_port.Scale.Sticky.{sticky_div, round_div_scale}
use mquickjs_port.Softfp.Arith.{magnitude, add_exp, add_mant, add_finite, add_ordered, add_sf}
use mquickjs_port.Softfp.Arith.Operand.{exp_of_sf, mant_of_sf, IsNormal}
use mquickjs_port.Softfp.Format.{float64, sign, biased_exp, mant}
use mquickjs_port.Softfp.Round.{normalize_sf, rshift_rnd}
use mquickjs_port.Softfp.Round.Nearest.{mode_of, sticky_div-lt}
use mquickjs_port.Softfp.Round.Normal.{normalize-sticky_div}
use mquickjs_port.Softfp.Round.Sticky.{rshift_rnd-sticky_div}
use native.Mathlib.Nat.{
  mod-eq_of_lt, mul_assoc, mul_comm, div-add-mod, mod-lt, mul-pos, mul-le-mul_right,
}

-- An even number may be added in front of the sticky bit.
add-sticky_div : (x y d : ℕ) → 0 < d → x * 2 + sticky_div y d ≡ sticky_div (x * 2 * d + y) d
unfolding sticky_div
add-sticky_div x y d hd = rw (quotient, rest) (ground arith)
  where
    split : x * 2 * d + y ≡ d * (x * 2 + y / d) + y % d
    split = omega (arith, div-add-mod y d, mul_comm (x * 2) d)

    quotient : (x * 2 * d + y) / d ≡ x * 2 + y / d
    quotient = div_unique _ d _ _ split (mod-lt y hd)

    rest : (x * 2 * d + y) % d ≡ y % d
    rest = mod_unique _ d _ _ split (mod-lt y hd)

-- The mantissa of a normal number, shifted up by 3 bits.
add_operand :
    (a : ℕ)
    → IsNormal a
    → (biased_exp float64 a ≡ exp_of_sf a)
      × (add_exp float64 (biased_exp float64 a) ≡ exp_of_sf a)
      × (add_mant float64 (biased_exp float64 a) (mant float64 a) ≡ mant_of_sf a * 8)
add_operand a h =
    let normal : (exp_of_sf a == 0) ≡ false = ground (arith, h) in
    let fits : a % 2 ^ 52 * 2 ^ 3 < 2 ^ 64 = omega arith in
    (
      bit_and_mask 11 (a / 2 ^ 52),
      rw (bit_and_mask 11 (a / 2 ^ 52), normal) refl,
      rw
          (
            bit_and_mask 11 (a / 2 ^ 52),
            bit_and_mask 52 a,
            normal,
            mod-eq_of_lt fits,
            bit_or_comm (a % 2 ^ 52 * 2 ^ 3) (2 ^ 55),
            bit_or_fields 55 1 (a % 2 ^ 52 * 2 ^ 3) (omega arith),
          )
          (omega arith),
    )

-- The sum of the mantissas, in units of the smaller exponent, and whether it has 54 bits.
abbrev pub mant_sum : ℕ → ℕ → ℕ
mant_sum a b = mant_of_sf a * 2 ^ (exp_of_sf a - exp_of_sf b) + mant_of_sf b

abbrev pub sum_carry : ℕ → ℕ → ℕ
sum_carry a b = if ltb (mant_sum a b) (2 ^ 53 * 2 ^ (exp_of_sf a - exp_of_sf b)) then 0 else 1

-- A sum of mantissas with its sticky bit, normalised and rounded.
rounded_sum :
    (r : Rounding) (s e d c x : ℕ)
    → s < 2
    → 1 ≤ e
    → e ≤ 2046
    → c < 2
    → 2 ^ (62 - (7 - c)) * 2 ^ d ≤ x * 2 ^ 3
    → x * 2 ^ 3 < 2 ^ (63 - (7 - c)) * 2 ^ d
    → 2 ^ (10 - (7 - c)) ≡ 2 ^ c * 2 ^ 3
    → normalize_sf float64 s (pos (e + (7 - c))) (sticky_div (x * 2 ^ 3) (2 ^ d)) (mode_of r)
      ≡ s * 2 ^ 63 + (e - 1) * 2 ^ 52 + round_div r x (2 ^ d * 2 ^ c)
rounded_sum r s e d c x hs he he' hc low high scale =
    normalize-sticky_div r s e (7 - c) (x * 2 ^ 3) (2 ^ d) hs he he' (omega arith) power low high
    ∙ ap (λ (t : ℕ). s * 2 ^ 63 + (e - 1) * 2 ^ 52 + t)
        (ap (round_div r (x * 2 ^ 3))
            (ap (λ (t : ℕ). 2 ^ d * t) scale ∙ sym (mul_assoc (2 ^ d) (2 ^ c) (2 ^ 3)))
          ∙ round_div_scale r x (2 ^ d * 2 ^ c) (2 ^ 3) (mul-pos power (pow-pos 2 c (omega arith)))
              (omega arith))
  where
    power : 0 < 2 ^ d
    power = pow-pos 2 d (omega arith)

-- The aligned mantissas, added.
aligned :
    (x y d : ℕ)
    → x < 2 ^ 53
    → y < 2 ^ 53
    → (x * 8 + rshift_rnd float64 (y * 8) d) % 2 ^ 64 ≡ sticky_div ((x * 2 ^ d + y) * 2 ^ 3) (2 ^ d)
aligned x y d hx hy = rw (rshift_rnd-sticky_div (y * 8) d (omega arith)) (
    mod-eq_of_lt fits
    ∙ ap (λ (t : ℕ). t + sticky_div (y * 8) (2 ^ d)) even
    ∙ add-sticky_div (x * 4) (y * 8) (2 ^ d) power
    ∙ ap (λ (t : ℕ). sticky_div t (2 ^ d)) (omega arith))
  where
    power : 0 < 2 ^ d
    power = pow-pos 2 d (omega arith)

    even : x * 8 ≡ x * 4 * 2
    even = omega arith

    fits : x * 8 + sticky_div (y * 8) (2 ^ d) < 2 ^ 64
    fits = omega (arith, sticky_div-lt (y * 8) (2 ^ d) power (omega arith))

-- For two normal doubles of the same sign, the first with the larger magnitude, whose sum has an
-- exponent up to 2046, and a mode to nearest or towards zero, `add_sf` returns the exact sum of the
-- mantissas, aligned, rounded once to 53 bits, with the sign and the exponent of the first, raised
-- by one where the sum has a bit more.
pub add_sf-round_div :
    (r : Rounding) (a b : ℕ)
    → a < 2 ^ 64
    → b < 2 ^ 64
    → IsNormal a
    → IsNormal b
    → sign float64 a ≡ sign float64 b
    → b % 2 ^ 63 ≤ a % 2 ^ 63
    → exp_of_sf a + sum_carry a b ≤ 2046
    → add_sf float64 a b (mode_of r)
      ≡ sign float64 a * 2 ^ 63
        + (exp_of_sf a + sum_carry a b - 1) * 2 ^ 52
        + round_div r (mant_sum a b) (2 ^ (exp_of_sf a - exp_of_sf b) * 2 ^ sum_carry a b)
unfolding add_sf add_ordered add_finite
add_sf-round_div r a b ha hb na nb same order he =
    rw
      (
        swap,
        finite,
        same_test,
        (add_operand a na).1,
        (add_operand b nb).1,
        (add_operand a na).2,
        (add_operand b nb).2,
        aligned (mant_of_sf a) (mant_of_sf b) (exp_of_sf a - exp_of_sf b) (omega arith)
            (omega arith),
      )
      (elim (Bool-cases (ltb (mant_sum a b) (2 ^ 53 * 2 ^ d))) [
        | inl narrow ↦
            let shifted : exp_of_sf a + 7 ≡ exp_of_sf a + 0 + (7 - 0) = omega arith in
            let low : 2 ^ (62 - (7 - 0)) * 2 ^ d ≤ mant_sum a b * 2 ^ 3 = ground (arith, bounds) in
            let high : mant_sum a b * 2 ^ 3 < 2 ^ (63 - (7 - 0)) * 2 ^ d = ground (arith, bounds) in
            let top : exp_of_sf a + 0 ≤ 2046 = ground arith in
            rw (narrow, shifted)
              (rounded_sum r (sign float64 a) (exp_of_sf a + 0) d 0 (mant_sum a b) (omega arith)
                (omega arith) top (omega arith) low high refl)
        | inr wide ↦
            let shifted : exp_of_sf a + 7 ≡ exp_of_sf a + 1 + (7 - 1) = omega arith in
            let low : 2 ^ (62 - (7 - 1)) * 2 ^ d ≤ mant_sum a b * 2 ^ 3 = ground (arith, bounds) in
            let high : mant_sum a b * 2 ^ 3 < 2 ^ (63 - (7 - 1)) * 2 ^ d = ground (arith, bounds) in
            let top : exp_of_sf a + 1 ≤ 2046 = ground arith in
            rw (wide, shifted)
              (rounded_sum r (sign float64 a) (exp_of_sf a + 1) d 1 (mant_sum a b) (omega arith)
                (omega arith) top (omega arith) low high refl)
      ])
  where
    d : ℕ
    d = exp_of_sf a - exp_of_sf b

    bounds : (2 ^ 52 * 2 ^ d ≤ mant_sum a b) × (mant_sum a b < 2 ^ 54 * 2 ^ d)
    bounds = (
      omega (arith, mul-le-mul_right {m = 2 ^ 52} {n = mant_of_sf a} (2 ^ d) (omega arith)),
      omega (
        arith,
        mul-le-mul_right {m = mant_of_sf a} {n = 2 ^ 53 - 1} (2 ^ d) (omega arith),
        mul-le-mul_right {m = 1} {n = 2 ^ d} (2 ^ 53) (pow-pos 2 d (omega arith)),
      ),
    )

    swap : ltb (magnitude float64 a) (magnitude float64 b) ≡ false
    swap = rw (bit_and_mask 63 a, bit_and_mask 63 b) (ground arith)

    finite : (biased_exp float64 a == 2047) ≡ false
    finite = rw (add_operand a na).0 (ground (arith, na))

    same_test : (sign float64 a == sign float64 b) ≡ true
    same_test = ground (arith, same)
