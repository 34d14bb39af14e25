-- ===== src/Softfp/Arith/Nan.antt =====
-- The arithmetic of softfp_template.h on operands that are not numbers.
use mquickjs_port.Base.{
  ℕ, ◌*◌, ◌/◌, ◌%◌, ◌^◌, ◌<◌, ◌≡◌, refl, sym, ◌∙◌, arith, ◌==◌, ltb, ◌||◌, not, true, false,
  Bool-cases, ◌⊎◌, inl, inr,
}
use mquickjs_port.Base.Bits.{bit_and_mask}
use mquickjs_port.Softfp.Arith.{magnitude, flip_sign, add_ordered, add_sf, sub_sf, mul_sf, div_sf}
use mquickjs_port.Softfp.Format.{float64, biased_exp, mant, qnan, isnan_sf}
use mquickjs_port.Softfp.Round.{Mode}

-- A word is not a number if its magnitude is above that of infinity.
nan_magnitude : (a : ℕ) → isnan_sf float64 a ≡ ltb (2047 * 2 ^ 52) (a % 2 ^ 63)
unfolding isnan_sf
nan_magnitude a = rw (bit_and_mask 11 (a / 2 ^ 52), bit_and_mask 52 a) (ground arith)

nan_fields :
    (a : ℕ)
    → isnan_sf float64 a ≡ true
    → ((biased_exp float64 a == 2047) ≡ true) × ((mant float64 a == 0) ≡ false)
unfolding isnan_sf
nan_fields a h = (ground (arith, h), ground (arith, h))

add_ordered_nan :
    (a b : ℕ) (rm : Mode) → isnan_sf float64 a ≡ true → add_ordered float64 a b rm ≡ qnan float64
unfolding add_ordered
add_ordered_nan a b rm h = rw ((nan_fields a h).0, (nan_fields a h).1) refl

add_sf_nan :
    (a b : ℕ) (rm : Mode)
    → (isnan_sf float64 a || isnan_sf float64 b) ≡ true
    → add_sf float64 a b rm ≡ qnan float64
unfolding add_sf
add_sf_nan a b rm h = elim (Bool-cases (ltb (magnitude float64 a) (magnitude float64 b))) [
  | inl less ↦ rw less (add_ordered_nan b a rm (larger a b h (sym (words a b) ∙ less)))
  | inr more ↦ rw more (add_ordered_nan a b rm (larger_first a b h (sym (words a b) ∙ more)))
]
  where
    words :
        (a b : ℕ) → ltb (magnitude float64 a) (magnitude float64 b) ≡ ltb (a % 2 ^ 63) (b % 2 ^ 63)
    words a b = rw (bit_and_mask 63 a, bit_and_mask 63 b) refl

    larger :
        (a b : ℕ)
        → (isnan_sf float64 a || isnan_sf float64 b) ≡ true
        → ltb (a % 2 ^ 63) (b % 2 ^ 63) ≡ true
        → isnan_sf float64 b ≡ true
    larger a b h less = ground (arith, h, less, nan_magnitude a, nan_magnitude b)

    larger_first :
        (a b : ℕ)
        → (isnan_sf float64 a || isnan_sf float64 b) ≡ true
        → ltb (a % 2 ^ 63) (b % 2 ^ 63) ≡ false
        → isnan_sf float64 a ≡ true
    larger_first a b h less = ground (arith, h, less, nan_magnitude a, nan_magnitude b)

flipped : (b : ℕ) → b < 2 ^ 64 → isnan_sf float64 (flip_sign float64 b) ≡ isnan_sf float64 b
flipped b h = rw (nan_magnitude (flip_sign float64 b), nan_magnitude b) (ground arith)

either_nan :
    (a b : ℕ)
    → (isnan_sf float64 a || isnan_sf float64 b) ≡ true
    → (isnan_sf float64 a ≡ true) ⊎ (isnan_sf float64 b ≡ true)
either_nan a b h = ground (arith, h)

mul_sf_nan :
    (a b : ℕ) (rm : Mode)
    → (isnan_sf float64 a || isnan_sf float64 b) ≡ true
    → mul_sf float64 a b rm ≡ qnan float64
unfolding mul_sf
mul_sf_nan a b rm h = rw (special, h) refl
  where
    special : (biased_exp float64 a == 2047 || biased_exp float64 b == 2047) ≡ true
    special = elim (either_nan a b h) [
      | inl na ↦ rw (nan_fields a na).0 refl
      | inr nb ↦ ground (arith, (nan_fields b nb).0)
    ]

div_sf_nan :
    (a b : ℕ) (rm : Mode)
    → (isnan_sf float64 a || isnan_sf float64 b) ≡ true
    → div_sf float64 a b rm ≡ qnan float64
unfolding div_sf
div_sf_nan a b rm h = elim (either_nan a b h) [
  | inl na ↦ rw ((nan_fields a na).0, (nan_fields a na).1) refl
  | inr nb ↦ elim (Bool-cases (biased_exp float64 a == 2047)) [
    | inl special ↦
        let any : (not (mant float64 a == 0) || isnan_sf float64 b) ≡ true = ground (arith, nb) in
        rw (special, any) refl
    | inr finite ↦ rw (finite, (nan_fields b nb).0, (nan_fields b nb).1) refl
  ]
]

-- For a word and a word of 64 bits of which one at least is not a number, `add_sf`, `sub_sf`,
-- `mul_sf` and `div_sf` return the quiet NaN in every mode.
pub nan_operand :
    (a b : ℕ) (rm : Mode)
    → b < 2 ^ 64
    → (isnan_sf float64 a || isnan_sf float64 b) ≡ true
    → (add_sf float64 a b rm ≡ qnan float64)
      × (sub_sf float64 a b rm ≡ qnan float64)
      × (mul_sf float64 a b rm ≡ qnan float64)
      × (div_sf float64 a b rm ≡ qnan float64)
unfolding sub_sf
nan_operand a b rm hb h = (
  add_sf_nan a b rm h,
  add_sf_nan a (flip_sign float64 b) rm (rw (flipped b hb) h),
  mul_sf_nan a b rm h,
  div_sf_nan a b rm h,
)
