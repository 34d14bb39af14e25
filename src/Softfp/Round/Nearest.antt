-- ===== src/Softfp/Round/Nearest.antt =====
-- What round_pack_sf and normalize_sf of softfp_template.h round to.
use mquickjs_port.Base.{
  ℕ, suc, ◌+◌, ◌-◌, ◌*◌, ◌/◌, ◌%◌, ◌^◌, ◌≤◌, ◌<◌, ◌≡◌, refl, ◌∙◌, arith, bit_and, ◌==◌, leb,
  Bool-cases, inl, inr, ◌⊎◌, true, false,
}
use mquickjs_port.Base.Bits.{bit_and_mask, bit_and_step, bit_or_fields}
use mquickjs_port.Base.Int.{pos, ◌+ℤ◌, ◌-ℤ◌, +ℤ_parts, -ℤ_parts, eq_of_parts, leb_ℤ, pos_part}
use mquickjs_port.Rounding.{Rounding, rndn, rndna, rndz, round_div, round_up}
use mquickjs_port.Scale.Sticky.{sticky_div, round_div-sticky_div}
use mquickjs_port.Softfp.Format.{float64, pack_sf}
use mquickjs_port.Softfp.Round.{Mode, rne, rtz, rmm, addend, rounded, in_range, round_pack_sf}
use mquickjs_port.Base.Pow.{pow-pos}
use mquickjs_port.Softfp.Round.Sticky.{rshift_rnd-sticky_div}
use native.Mathlib.Nat.{mod-eq_of_lt, div-le_self}

-- The modes to nearest and towards zero.
abbrev pub mode_of : Rounding → Mode
mode_of rndn = rne
mode_of rndna = rmm
mode_of rndz = rtz

-- The fields side by side.
pub pack_sf_lem :
    (s e m : ℕ) → s < 2 → e < 2 ^ 11 → pack_sf float64 s e m ≡ s * 2 ^ 63 + e * 2 ^ 52 + m % 2 ^ 52
unfolding pack_sf
pack_sf_lem s e m hs he =
    let high : s * 2 ^ 63 < 2 ^ 64 = omega arith in
    let middle : e * 2 ^ 52 < 2 ^ 64 = omega arith in
    let fields : s * 2 ^ 63 + e * 2 ^ 52 ≡ (s * 2 ^ 11 + e) * 2 ^ 52 = omega arith in
    rw
      (
        mod-eq_of_lt high,
        mod-eq_of_lt middle,
        bit_and_mask 52 m,
        bit_or_fields 63 s (e * 2 ^ 52) (omega arith),
        fields,
      )
      (bit_or_fields 52 (s * 2 ^ 11 + e) (m % 2 ^ 52) (omega arith))

-- `& ~1`.
clear_lowest : (m : ℕ) → m < 2 ^ 64 → bit_and m (2 ^ 64 - 2) ≡ m / 2 * 2
clear_lowest m h = omega (arith, bit_and_step m (2 ^ 64 - 2), bit_and_mask 63 (m / 2))

-- The addition and the shift round as `round_div` does.
rounded_lem :
    (r : Rounding) (s m : ℕ)
    → m < 2 ^ 63
    → rounded float64 m (addend float64 s (mode_of r)) (mode_of r) ≡ round_div r m (2 ^ 10)
unfolding rounded addend round_div round_up
rounded_lem rndn s m h = elim (Bool-cases (m % 2 ^ 10 == 512)) [
  | inl tie ↦
      rw (bit_and_mask 10 m, tie, clear_lowest ((m + 512) % 2 ^ 64 / 2 ^ 10) (omega arith))
        (ground arith)
  | inr no_tie ↦ rw (bit_and_mask 10 m, no_tie) (ground arith)
]
rounded_lem rndna s m h = ground arith
rounded_lem rndz s m h = ground arith

-- A rounded mantissa has at most 53 bits, or is 2 ^ 53 after a carry, which the mode towards zero
-- does not have.
rounded_mantissa :
    (r : Rounding) (s m : ℕ)
    → m < 2 ^ 63
    → (round_div r m (2 ^ 10) ≤ 2 ^ 53)
      × (m / 2 ^ 10 ≤ round_div r m (2 ^ 10))
      × (round_div r m (2 ^ 10) ≡ 2 ^ 53 → (addend float64 s (mode_of r) == 0) ≡ false)
unfolding addend round_div round_up
rounded_mantissa rndn s m h = (ground arith, ground arith, λ e. refl)
rounded_mantissa rndna s m h = (ground arith, ground arith, λ e. refl)
rounded_mantissa rndz s m h = (ground arith, ground arith, λ e. ground arith)

pos-sum : (a b : ℕ) → pos a +ℤ pos b ≡ pos (a + b)
pos-sum a b = ground (arith, eq_of_parts (pos a +ℤ pos b) (pos (a + b)), +ℤ_parts (pos a) (pos b))

-- The fields behind the rounding make up the number of the exponent and the rounded mantissa.
packed :
    (s e m add : ℕ)
    → s < 2
    → 1 ≤ e
    → e ≤ 2046
    → m ≤ 2 ^ 53
    → (2 ^ 52 ≤ m) ⊎ (e ≡ 1)
    → (m ≡ 2 ^ 53 → (add == 0) ≡ false)
    → pack_sf float64 s (in_range float64 (pos e) m add).0 (in_range float64 (pos e) m add).1
      ≡ s * 2 ^ 63 + (e - 1) * 2 ^ 52 + m
unfolding in_range
packed s e m add hs he he' hm normal carry = elim (Bool-cases (leb m (2 ^ 52 - 1))) [
  | inl low ↦ rw low (pack_sf_lem s 0 m hs (omega arith) ∙ ground (arith, normal))
  | inr high ↦ elim (Bool-cases (leb_ℤ (pos 2047) (pos (e + m / 2 ^ 53)))) [
    | inl over ↦
        rw (pos-sum e (m / 2 ^ 53), high, over, carry (ground arith))
          (pack_sf_lem s 2047 0 hs (omega arith) ∙ ground arith)
    | inr under ↦
        rw (pos-sum e (m / 2 ^ 53), high, under)
          (pack_sf_lem s (e + m / 2 ^ 53) m hs (ground arith) ∙ ground arith)
  ]
]

-- For a sign bit, an exponent from 1 to 2046, a mantissa from 2 ^ 62 to 2 ^ 63 - 1 and a mode to
-- nearest or towards zero, `round_pack_sf` puts the mantissa rounded to 53 bits behind the sign and
-- the exponent, so that a carry raises the exponent, and the exponent 2046 to infinity.
pub round_pack_sf_lem :
    (r : Rounding) (s e m : ℕ)
    → s < 2
    → 1 ≤ e
    → e ≤ 2046
    → 2 ^ 62 ≤ m
    → m < 2 ^ 63
    → round_pack_sf float64 s (pos e) m (mode_of r)
      ≡ s * 2 ^ 63 + (e - 1) * 2 ^ 52 + round_div r m (2 ^ 10)
unfolding round_pack_sf
round_pack_sf_lem r s e m hs he he' hm hm' =
    let positive : leb (e + 0) 0 ≡ false = ground arith in
    let (most, least, carry) = rounded_mantissa r s m hm' in
    rw (positive, rounded_lem r s m hm')
      (packed s e (round_div r m (2 ^ 10)) (addend float64 s (mode_of r)) hs he he' most
        (inl (omega (arith, least))) carry)

pub sticky_div-lt : (m d : ℕ) → 0 < d → m < 2 ^ 63 → sticky_div m d < 2 ^ 63
unfolding sticky_div
sticky_div-lt m d hd h = ground (arith, div-le_self m d)

-- For a sign bit, the exponent `-d`, a mantissa below 2 ^ 63 and a mode to nearest or towards zero,
-- `round_pack_sf` returns a denormal number, or the smallest normal one: the mantissa divided by `2
-- ^ (d + 1) * 2 ^ 10` and rounded once.
pub round_pack_sf_low :
    (r : Rounding) (s d m : ℕ)
    → s < 2
    → m < 2 ^ 63
    → round_pack_sf float64 s (pos 1 -ℤ pos (suc d)) m (mode_of r)
      ≡ s * 2 ^ 63 + round_div r m (2 ^ suc d * 2 ^ 10)
unfolding round_pack_sf
round_pack_sf_low r s d m hs hm =
    let e : pos_part (pos 1 -ℤ (pos 1 -ℤ pos (suc d))) ≡ suc d =
      ground (arith, -ℤ_parts (pos 1) (pos (suc d)), -ℤ_parts (pos 1) (pos 1 -ℤ pos (suc d))) in
    let low : leb_ℤ (pos 1 -ℤ pos (suc d)) (pos 0) ≡ true =
      ground (arith, -ℤ_parts (pos 1) (pos (suc d))) in
    let m' = sticky_div m (2 ^ suc d) in
    let small : m' < 2 ^ 63 = sticky_div-lt m (2 ^ suc d) (pow-pos 2 (suc d) (omega arith)) hm in
    let (most, least, carry) = rounded_mantissa r s m' small in
    let exact : round_div r m' (2 ^ 10) ≡ round_div r m (2 ^ suc d * 2 ^ 10) =
      round_div-sticky_div r m (2 ^ suc d) 8 (pow-pos 2 (suc d) (omega arith)) in
    rw (low, e, rshift_rnd-sticky_div m (suc d) (omega arith), rounded_lem r s m' small)
      (packed s 1 (round_div r m' (2 ^ 10)) (addend float64 s (mode_of r)) hs (omega arith)
          (omega arith) most (inr refl) carry
        ∙ omega (arith, exact))
