-- ===== src/Softfp/Round/Normal.antt =====
-- Normalisation before the rounding, in softfp_template.h.
use mquickjs_port.Base.{ℕ, suc, ◌+◌, ◌-◌, ◌*◌, ◌/◌, ◌^◌, ◌≤◌, ◌<◌, ◌≡◌, ap, sym, ◌∙◌, arith}
use mquickjs_port.Base.Int.{pos, ◌-ℤ◌, -ℤ_parts, eq_of_parts}
use mquickjs_port.Base.Pow.{pow-pos, pow-add}
use mquickjs_port.Cutils.{clz64}
use mquickjs_port.Cutils.Scan.{clz64_lem}
use mquickjs_port.Rounding.{Rounding, round_div}
use mquickjs_port.Scale.Sticky.{sticky_div, round_div_scale, round_div-sticky_div}
use mquickjs_port.Softfp.Format.{float64, clz}
use mquickjs_port.Softfp.Round.{normalize_sf}
use mquickjs_port.Softfp.Round.Nearest.{mode_of, round_pack_sf_lem}
use native.Mathlib.Decide.{dec_lt}
use native.Mathlib.Nat.{
  mod-eq_of_lt, pow-le-pow_right, pow-suc, mul-lt-mul_of_pos_right, mul-le-mul_right,
  le-div_iff_mul-le, div-lt_iff_lt-mul,
}

-- The number of bits is determined.
log_unique : (a k l : ℕ) → 2 ^ k ≤ a → a < 2 ^ suc l → k ≤ l
log_unique a k l h h' = elim (dec_lt l k) [
  | yes more ↦
      let apart : 2 ^ suc l ≤ 2 ^ k = pow-le-pow_right (omega arith) more in absurd (omega arith)
  | no fine ↦ omega arith
]

pub clz_lem : (a k : ℕ) → k ≤ 63 → 2 ^ k ≤ a → a < 2 ^ suc k → clz float64 a ≡ 63 - k
unfolding clz clz64
clz_lem a k hk low high =
    let fits : suc k ≤ 64 = omega arith in
    let width : 2 ^ suc k ≤ 2 ^ 64 = pow-le-pow_right (omega arith) fits in
    let (least, most, c) = clz64_lem a (omega (arith, pow-pos 2 k (omega arith))) (omega arith) in
    let top : suc (63 - clz64 a) ≡ 64 - clz64 a = omega (arith, c) in
    let below : k ≤ 63 - clz64 a = log_unique a k (63 - clz64 a) low (rw top most) in
    omega (arith, below, log_unique a (63 - clz64 a) k least high, c)

pub pow_split : (i j k : ℕ) → i + j ≡ k → 2 ^ i * 2 ^ j ≡ 2 ^ k
pow_split i j k h = sym (pow-add 2 i j) ∙ ap (λ (t : ℕ). 2 ^ t) h

-- A mantissa with `j` zeros above it is shifted up and rounded.
pub normalize_sf_lem :
    (r : Rounding) (s e j m : ℕ)
    → s < 2
    → 1 ≤ e
    → e ≤ 2046
    → j ≤ 62
    → 2 ^ (62 - j) ≤ m
    → m < 2 ^ (63 - j)
    → normalize_sf float64 s (pos (e + j)) m (mode_of r)
      ≡ s * 2 ^ 63 + (e - 1) * 2 ^ 52 + round_div r (m * 2 ^ j) (2 ^ 10)
unfolding normalize_sf
normalize_sf_lem r s e j m hs he he' hj low high =
    rw (zeros, mod-eq_of_lt fits, exponent)
      (round_pack_sf_lem r s e (m * 2 ^ j) hs he he' least most)
  where
    above : 63 - j ≡ suc (62 - j)
    above = omega arith

    zeros : clz float64 m - 1 ≡ j
    zeros = omega (arith, clz_lem m (62 - j) (omega arith) low (rw (sym above) high))

    least : 2 ^ 62 ≤ m * 2 ^ j
    least = omega (
      arith,
      pow_split (62 - j) j 62 (omega arith),
      mul-le-mul_right {m = 2 ^ (62 - j)} {n = m} (2 ^ j) low,
    )

    most : m * 2 ^ j < 2 ^ 63
    most = omega (
      arith,
      pow_split (63 - j) j 63 (omega arith),
      mul-lt-mul_of_pos_right {m = m} {n = 2 ^ (63 - j)} high (pow-pos 2 j (omega arith)),
    )

    fits : m * 2 ^ j < 2 ^ 64
    fits = omega (arith, most)

    exponent : pos (e + j) -ℤ pos j ≡ pos e
    exponent =
        eq_of_parts (pos (e + j) -ℤ pos j) (pos e) (omega (arith, -ℤ_parts (pos (e + j)) (pos j)))

-- A sticky bit does not move a number across a power of two.
sticky_div-bounds :
    (n d l : ℕ)
    → 0 < d
    → 2 ^ l * d ≤ n
    → n < 2 ^ suc l * d
    → (2 ^ l ≤ sticky_div n d) × (sticky_div n d < 2 ^ suc l)
unfolding sticky_div
sticky_div-bounds n d l hd low high =
    let least : 2 ^ l ≤ n / d = (le-div_iff_mul-le hd).1 low in
    let most : n / d < 2 ^ suc l = (div-lt_iff_lt-mul hd).1 high in
    (ground arith, ground (arith, pow-suc 2 l))

-- A quotient with its sticky bit in the lowest place is normalised and rounded as the exact
-- quotient.
pub normalize-sticky_div :
    (r : Rounding) (s e j n d : ℕ)
    → s < 2
    → 1 ≤ e
    → e ≤ 2046
    → j ≤ 8
    → 0 < d
    → 2 ^ (62 - j) * d ≤ n
    → n < 2 ^ (63 - j) * d
    → normalize_sf float64 s (pos (e + j)) (sticky_div n d) (mode_of r)
      ≡ s * 2 ^ 63 + (e - 1) * 2 ^ 52 + round_div r n (d * 2 ^ (10 - j))
normalize-sticky_div r s e j n d hs he he' hj hd low high =
    let above : 63 - j ≡ suc (62 - j) = omega arith in
    let bounds = sticky_div-bounds n d (62 - j) hd low (rw (sym above) high) in
    normalize_sf_lem r s e j (sticky_div n d) hs he he' (omega arith) bounds.0 (rw above bounds.1)
    ∙ ap (λ (t : ℕ). s * 2 ^ 63 + (e - 1) * 2 ^ 52 + t) exact
  where
    ten : 2 ^ (10 - j) * 2 ^ j ≡ 2 ^ 10
    ten = pow_split (10 - j) j 10 (omega arith)

    two : 10 - j ≡ suc (suc (8 - j))
    two = omega arith

    exact : round_div r (sticky_div n d * 2 ^ j) (2 ^ 10) ≡ round_div r n (d * 2 ^ (10 - j))
    exact =
        ap (round_div r (sticky_div n d * 2 ^ j)) (sym ten)
        ∙ round_div_scale r (sticky_div n d) (2 ^ (10 - j)) (2 ^ j)
            (pow-pos 2 (10 - j) (omega arith)) (pow-pos 2 j (omega arith))
        ∙ rw two (round_div-sticky_div r n d (8 - j) hd)
