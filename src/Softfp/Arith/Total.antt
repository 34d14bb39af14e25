-- ===== src/Softfp/Arith/Total.antt =====
-- About the end of sqrt_sf of softfp_template.h.
use mquickjs_port.Base.{
  ℕ, zero, suc, ◌-◌, ◌*◌, ◌%◌, ◌^◌, ◌≤◌, ◌<◌, ◌≡◌, refl, ap, arith, ◌==◌, not, if◌then◌else◌, true,
  false, Bool, Option, some, Bool-cases, inl, inr,
}
use mathlib.Core.Option
use mquickjs_port.Base.Bits.{bit_and_mask, bit_or_comm, bit_or_fields}
use mquickjs_port.Base.Pow.{pow-pos}
use mquickjs_port.Cutils.{clz64}
use mquickjs_port.Cutils.Scan.{clz64_lem}
use mquickjs_port.Softfp.Arith.{is_zero, operand, sqrt_finite, sqrt_sf}
use mquickjs_port.Softfp.Format.{float64, clz, biased_exp, exp_mask, mant, pack_sf, qnan, sign}
use mquickjs_port.Softfp.Round.{Mode, normalize_subnormal_sf}
use mquickjs_port.Softfp.Round.Normal.{pow_split}
use mquickjs_port.Softfp.Wide.Root.{sqrtrem_u-root}
use native.Mathlib.Decide.{dec_lt}
use native.Mathlib.Nat.{pow-le-pow_right, mul-lt-mul_of_pos_right}

many_zeros : (m : ℕ) → m < 2 ^ 52 → 2 ^ (63 - clz64 m) ≤ m → 12 ≤ clz64 m
many_zeros m h least = elim (dec_lt (clz64 m) 12) [
  | yes few ↦
      let exponents : 52 ≤ 63 - clz64 m = omega (arith, few) in
      let wide : 2 ^ 52 ≤ 2 ^ (63 - clz64 m) = pow-le-pow_right (omega arith) exponents in
      absurd (omega (arith, wide, h, least))
  | no many ↦ omega (arith, many)
]

-- A denormal mantissa is shifted to at most 53 bits.
shifted_small : (m : ℕ) → m < 2 ^ 52 → (normalize_subnormal_sf float64 m).1 < 2 ^ 53
unfolding normalize_subnormal_sf clz clz64
shifted_small zero h = omega arith
shifted_small (suc m) h =
    let (least, most, few) = clz64_lem (suc m) (omega arith) (omega arith) in
    let zeros : 12 ≤ clz64 (suc m) = many_zeros (suc m) h least in
    let shift : 52 - (63 - clz64 (suc m)) ≡ clz64 (suc m) - 11 = omega (arith, zeros) in
    let whole : 2 ^ (64 - clz64 (suc m)) * 2 ^ (clz64 (suc m) - 11) ≡ 2 ^ 53 =
      pow_split (64 - clz64 (suc m)) (clz64 (suc m) - 11) 53 (omega (arith, zeros, few)) in
    let product : suc m * 2 ^ (clz64 (suc m) - 11)
        < 2 ^ (64 - clz64 (suc m)) * 2 ^ (clz64 (suc m) - 11) =
      mul-lt-mul_of_pos_right most (pow-pos 2 (clz64 (suc m) - 11) (omega arith)) in
    rw shift (omega (arith, product, whole))

operand_small : (a : ℕ) → (operand float64 a).1 < 2 ^ 53
unfolding operand
operand_small a = elim (Bool-cases (biased_exp float64 a == 0)) [
  | inl denormal ↦
      rw denormal (shifted_small (mant float64 a) (rw (bit_and_mask 52 a) (omega arith)))
  | inr normal ↦
      rw
        (
          normal,
          bit_and_mask 52 a,
          bit_or_comm (a % 2 ^ 52) (2 ^ 52),
          bit_or_fields 52 1 (a % 2 ^ 52) (omega arith),
        )
        (omega arith)
]

-- The mantissa of which the root is taken.
root_argument :
    (odd : Bool) (x : ℕ)
    → x < 2 ^ 53
    → (if odd then x * 2 % 2 ^ 64 else x) * 2 ^ 8 % 2 ^ 64 < 2 ^ 62
root_argument true x h = omega arith
root_argument false x h = omega arith

mapped {ℓ} :
    {A B : Type ℓ} (f : A → B) (x : Option A) (r : A)
    → x ≡ some r
    → (y : B) × (Option.map f x ≡ some y)
mapped f x r e = (f r, ap (Option.map f) e)

sqrt_finite_total : (a : ℕ) (rm : Mode) → (r : ℕ) × (sqrt_finite float64 a rm ≡ some r)
unfolding sqrt_finite
sqrt_finite_total a rm =
    let root = sqrtrem_u-root _ (root_argument _ (operand float64 a).1 (operand_small a)) in
    mapped _ _ _ root.1

chosen {ℓ} :
    {A : Type ℓ} (t : Bool) (x y : Option A)
    → (r : A) × (x ≡ some r)
    → (r : A) × (y ≡ some r)
    → (r : A) × ((if t then x else y) ≡ some r)
chosen true x y p q = p
chosen false x y p q = q

-- For every word and every mode `sqrt_sf` returns a result: the iteration of the square root ends
-- within its fuel.
pub sqrt_sf_total : (a : ℕ) (rm : Mode) → (r : ℕ) × (sqrt_sf float64 a rm ≡ some r)
unfolding sqrt_sf
sqrt_sf_total a rm =
    chosen (biased_exp float64 a == exp_mask float64) _ _ (infinite, refl)
      (chosen negative _ _ (below, refl)
        (chosen (is_zero float64 a) _ _ (pack_sf float64 0 0 0, refl) (sqrt_finite_total a rm)))
  where
    negative : Bool
    negative = not (sign float64 a == 0)

    infinite : ℕ
    infinite =
        if not (mant float64 a == 0) then qnan float64 else if negative then qnan float64 else a

    below : ℕ
    below = if is_zero float64 a then a else qnan float64
