-- ===== src/Softfp/Compare/Order.antt =====
-- The comparisons and the order of the numbers' values.
use mquickjs_port.Base.{
  ℕ, suc, ◌+◌, ◌-◌, ◌*◌, ◌/◌, ◌%◌, ◌^◌, ◌≤◌, ◌<◌, ◌≡◌, refl, ap, sym, ◌∙◌, arith, ◌==◌, ltb, leb,
  not, ◌&&◌, if◌then◌else◌, false, Bool-cases, ◌⊎◌, inl, inr,
}
use mquickjs_port.Base.Bits.{bit_or_mod, bit_or-le, bit_or-zero}
use mquickjs_port.Base.Int.{ℤ, pos, negsuc, ◌-ℤ◌, eq_ℤ, ltb_ℤ, leb_ℤ}
use mquickjs_port.Base.Pow.{pow-pos}
use mquickjs_port.Softfp.Format.{float64, sign, isnan_sf}
use mquickjs_port.Softfp.Compare.{both_zero, eq_quiet_sf, le_sf, lt_sf, cmp_sf}
use native.Mathlib.Decide.{dec_lt}
use native.Mathlib.Nat.{
  pow-le-pow_right, mul-le-mul, mul-lt-mul_of_pos_right, le-mul_of_pos_right, pow-suc,
}

-- The value of the bits of a float without its sign, in units of 2^-1074, the smallest number.
-- Infinity has the value that would follow the largest number.
unfoldable pub units : ℕ → ℕ
units x = if ltb x (2 ^ 52) then x else (2 ^ 52 + x % 2 ^ 52) * 2 ^ (x / 2 ^ 52 - 1)

-- The value of a float, in the same units.
pub value_sf : ℕ → ℤ
unfolding units
value_sf a =
    if sign float64 a == 0 then pos (units (a % 2 ^ 63)) else pos 0 -ℤ pos (units (a % 2 ^ 63))

-- Larger bits have a larger value.
same_exp : (e m n : ℕ) → m < n → (2 ^ 52 + m) * 2 ^ e < (2 ^ 52 + n) * 2 ^ e
same_exp e m n h = mul-lt-mul_of_pos_right (omega arith) (pow-pos 2 e (omega arith))

next_exp : (e f m n : ℕ) → m < 2 ^ 52 → e < f → (2 ^ 52 + m) * 2 ^ e < (2 ^ 52 + n) * 2 ^ f
next_exp e f m n hm h = omega (
  arith,
  mul-lt-mul_of_pos_right {m = 2 ^ 52 + m} {n = 2 ^ 53} (omega arith) (pow-pos 2 e (omega arith)),
  mul-le-mul {n₁ = 2 ^ 52} {m₁ = 2 ^ suc e} {n₂ = 2 ^ 52 + n} {m₂ = 2 ^ f} (omega arith)
      (pow-le-pow_right {n = 2} (omega arith) h),
  pow-suc 2 e,
)

normal-lt :
    (x y : ℕ)
    → 2 ^ 52 ≤ x
    → x < y
    → (2 ^ 52 + x % 2 ^ 52) * 2 ^ (x / 2 ^ 52 - 1) < (2 ^ 52 + y % 2 ^ 52) * 2 ^ (y / 2 ^ 52 - 1)
normal-lt x y hx h = elim (dec_lt (x / 2 ^ 52) (y / 2 ^ 52)) [
  | yes less ↦
      next_exp (x / 2 ^ 52 - 1) (y / 2 ^ 52 - 1) (x % 2 ^ 52) (y % 2 ^ 52) (omega arith)
        (omega arith)
  | no same ↦
      let e : y / 2 ^ 52 - 1 ≡ x / 2 ^ 52 - 1 = omega arith in
      rw e (same_exp (x / 2 ^ 52 - 1) (x % 2 ^ 52) (y % 2 ^ 52) (omega arith))
]

units-lt : (x y : ℕ) → x < y → units x < units y
unfolding units
units-lt x y h = elim (Bool-cases (ltb y (2 ^ 52))) [
  | inl small ↦ ground arith
  | inr large ↦ elim (Bool-cases (ltb x (2 ^ 52))) [
    | inl small ↦
        rw (large, small)
          (ground (
            arith,
            le-mul_of_pos_right (2 ^ 52 + y % 2 ^ 52) (pow-pos 2 (y / 2 ^ 52 - 1) (omega arith)),
          ))
    | inr normal ↦ rw (large, normal) (normal-lt x y (ground arith) h)
  ]
]

-- So the values are ordered and told apart as the bits are.
ltb-units : (x y : ℕ) → ltb (units x) (units y) ≡ ltb x y
ltb-units x y = elim (dec_lt x y) [
  | yes less ↦ ground (arith, units-lt x y less)
  | no more ↦ elim (dec_lt y x) [
    | yes less ↦ ground (arith, units-lt y x less)
    | no same ↦ let e : x ≡ y = omega arith in rw e (ground arith)
  ]
]

eqb-units : (x y : ℕ) → (units x == units y) ≡ (x == y)
eqb-units x y = elim (dec_lt x y) [
  | yes less ↦ ground (arith, units-lt x y less)
  | no more ↦ elim (dec_lt y x) [
    | yes less ↦ ground (arith, units-lt y x less)
    | no same ↦ let e : x ≡ y = omega arith in rw e (ground arith)
  ]
]

units_zero : units 0 ≡ 0
unfolding units
units_zero = refl

-- Both are a zero.
both_zero_lem : (a b : ℕ) → both_zero float64 a b ≡ (a % 2 ^ 63 == 0 && b % 2 ^ 63 == 0)
unfolding both_zero
both_zero_lem a b =
    ground (arith, bit_or_mod 63 a b, bit_or-le (a % 2 ^ 63) (b % 2 ^ 63), bit_or-zero 0)

one_bit : (a : ℕ) → a < 2 ^ 64 → (sign float64 a ≡ 0) ⊎ (sign float64 a ≡ 1)
one_bit a h = ground arith

units-eqb_zero : (x : ℕ) → (units x == 0) ≡ (x == 0)
units-eqb_zero x = ap (λ (t : ℕ). units x == t) (sym units_zero) ∙ eqb-units x 0

zeros : (a b : ℕ) → both_zero float64 a b ≡ (units (a % 2 ^ 63) == 0 && units (b % 2 ^ 63) == 0)
zeros a b = rw (units-eqb_zero (a % 2 ^ 63), units-eqb_zero (b % 2 ^ 63)) (both_zero_lem a b)

-- Words with the same sign are ordered as their values' magnitudes.
same_sign :
    (a b : ℕ)
    → sign float64 a ≡ sign float64 b
    → (ltb a b ≡ ltb (units (a % 2 ^ 63)) (units (b % 2 ^ 63)))
      × (leb a b ≡ leb (units (a % 2 ^ 63)) (units (b % 2 ^ 63)))
      × ((a == b) ≡ (units (a % 2 ^ 63) == units (b % 2 ^ 63)))
same_sign a b e = (
  below ∙ sym (ltb-units (a % 2 ^ 63) (b % 2 ^ 63)),
  not_below ∙ ap not (sym (ltb-units (b % 2 ^ 63) (a % 2 ^ 63))) ∙ back,
  equal ∙ sym (eqb-units (a % 2 ^ 63) (b % 2 ^ 63)),
)
  where
    below : ltb a b ≡ ltb (a % 2 ^ 63) (b % 2 ^ 63)
    below = ground arith

    not_below : leb a b ≡ not (ltb (b % 2 ^ 63) (a % 2 ^ 63))
    not_below = ground arith

    back :
        not (ltb (units (b % 2 ^ 63)) (units (a % 2 ^ 63)))
        ≡ leb (units (a % 2 ^ 63)) (units (b % 2 ^ 63))
    back = ground arith

    equal : (a == b) ≡ (a % 2 ^ 63 == b % 2 ^ 63)
    equal = ground arith

other_sign :
    (a b s t : ℕ) → sign float64 a ≡ s → sign float64 b ≡ t → (s == t) ≡ false → (a == b) ≡ false
other_sign a b s t sa sb e = ground arith

module _ (a b : ℕ) (ha : a < 2 ^ 64) (hb : b < 2 ^ 64) (na : isnan_sf float64 a ≡ false)
    (nb : isnan_sf float64 b ≡ false) where
  eq_quiet_sf-value_sf : eq_quiet_sf float64 a b ≡ eq_ℤ (value_sf a) (value_sf b)
  unfolding eq_quiet_sf value_sf ◌-ℤ◌
  eq_quiet_sf-value_sf = elim (one_bit a ha) [
    | inl sa ↦ elim (one_bit b hb) [
      | inl sb ↦ rw (na, nb, zeros a b, sa, sb, (same_sign a b (sa ∙ sym sb)).2) (ground arith)
      | inr sb ↦ rw (na, nb, zeros a b, sa, sb, other_sign a b 0 1 sa sb refl) (ground arith)
    ]
    | inr sa ↦ elim (one_bit b hb) [
      | inl sb ↦ rw (na, nb, zeros a b, sa, sb, other_sign a b 1 0 sa sb refl) (ground arith)
      | inr sb ↦ rw (na, nb, zeros a b, sa, sb, (same_sign a b (sa ∙ sym sb)).2) (ground arith)
    ]
  ]

  le_sf-value_sf : le_sf float64 a b ≡ leb_ℤ (value_sf a) (value_sf b)
  unfolding le_sf value_sf ◌-ℤ◌
  le_sf-value_sf = elim (one_bit a ha) [
    | inl sa ↦ elim (one_bit b hb) [
      | inl sb ↦ rw (na, nb, zeros a b, sa, sb, (same_sign a b (sa ∙ sym sb)).1) (ground arith)
      | inr sb ↦ rw (na, nb, zeros a b, sa, sb) (ground arith)
    ]
    | inr sa ↦ elim (one_bit b hb) [
      | inl sb ↦ rw (na, nb, zeros a b, sa, sb) (ground arith)
      | inr sb ↦ rw (na, nb, zeros a b, sa, sb, (same_sign b a (sb ∙ sym sa)).1) (ground arith)
    ]
  ]

  lt_sf-value_sf : lt_sf float64 a b ≡ ltb_ℤ (value_sf a) (value_sf b)
  unfolding lt_sf value_sf ◌-ℤ◌
  lt_sf-value_sf = elim (one_bit a ha) [
    | inl sa ↦ elim (one_bit b hb) [
      | inl sb ↦ rw (na, nb, zeros a b, sa, sb, (same_sign a b (sa ∙ sym sb)).0) (ground arith)
      | inr sb ↦ rw (na, nb, zeros a b, sa, sb) (ground arith)
    ]
    | inr sa ↦ elim (one_bit b hb) [
      | inl sb ↦ rw (na, nb, zeros a b, sa, sb) (ground arith)
      | inr sb ↦ rw (na, nb, zeros a b, sa, sb, (same_sign b a (sb ∙ sym sa)).0) (ground arith)
    ]
  ]

  cmp_sf-value_sf : cmp_sf float64 a b ≡ (
      if ltb_ℤ (value_sf a) (value_sf b)
      then negsuc 0
      else if eq_ℤ (value_sf a) (value_sf b)
      then pos 0
      else pos 1)
  unfolding cmp_sf value_sf ◌-ℤ◌
  cmp_sf-value_sf = elim (one_bit a ha) [
    | inl sa ↦ elim (one_bit b hb) [
      | inl sb ↦
          rw
            (
              na,
              nb,
              zeros a b,
              sa,
              sb,
              (same_sign a b (sa ∙ sym sb)).0,
              (same_sign b a (sb ∙ sym sa)).0,
            )
            (ground arith)
      | inr sb ↦ rw (na, nb, zeros a b, sa, sb) (ground arith)
    ]
    | inr sa ↦ elim (one_bit b hb) [
      | inl sb ↦ rw (na, nb, zeros a b, sa, sb) (ground arith)
      | inr sb ↦
          rw
            (
              na,
              nb,
              zeros a b,
              sa,
              sb,
              (same_sign a b (sa ∙ sym sb)).0,
              (same_sign b a (sb ∙ sym sa)).0,
            )
            (ground arith)
    ]
  ]

-- For two doubles that are not NaN, `eq_quiet_sf`, `le_sf` and `lt_sf` are the equality and the
-- order of their values, and `cmp_sf` is -1, 0 or 1 as the first value is below, equal to or above
-- the second; the value counts units of 2 ^ -1074, with a value behind the largest number for
-- infinity, and both zeros have the value 0.
pub compare_order :
    (a b : ℕ)
    → a < 2 ^ 64
    → b < 2 ^ 64
    → isnan_sf float64 a ≡ false
    → isnan_sf float64 b ≡ false
    → (eq_quiet_sf float64 a b ≡ eq_ℤ (value_sf a) (value_sf b))
      × (le_sf float64 a b ≡ leb_ℤ (value_sf a) (value_sf b))
      × (lt_sf float64 a b ≡ ltb_ℤ (value_sf a) (value_sf b))
      × (cmp_sf float64 a b ≡ (
          if ltb_ℤ (value_sf a) (value_sf b)
          then negsuc 0
          else if eq_ℤ (value_sf a) (value_sf b)
          then pos 0
          else pos 1))
compare_order a b ha hb na nb = (
  eq_quiet_sf-value_sf a b ha hb na nb,
  le_sf-value_sf a b ha hb na nb,
  lt_sf-value_sf a b ha hb na nb,
  cmp_sf-value_sf a b ha hb na nb,
)
