-- ===== src/Mp/Normalised.antt =====
-- `mp_div1norm`: the division by a limb through the reciprocal of the shifted limb.
use mquickjs_port.Base.{
  ℕ, zero, suc, ◌+◌, ◌*◌, ◌/◌, ◌%◌, ◌^◌, ◌≤◌, ◌<◌, bit_or, u32, ◌<<<◌, ◌≡◌, refl, ap, sym, ◌∙◌,
  arith, List, [], ◌∷◌, length, suc-ne-zero,
}
use mquickjs_port.Base.Bits.{bit_or_fields}
use mquickjs_port.Base.Pow.{div_unique, pow-pos}
use mquickjs_port.Limbs.{IsLimbs, value, value_injective, weight, weight-eq-pow}
use mquickjs_port.Mp.{mp_div1, mp_shl, mp_div1norm, div1norm_loop, udiv1norm_init}
use mquickjs_port.Mp.Shift.{mp_shl-value}
use mquickjs_port.Mp.Divide.{mp_div1-value, two_limbs, digit_lt, rest_lt}
use mquickjs_port.Mp.Reciprocal.{IsNormal, udiv1norm_lem}
use native.Mathlib.Nat.{
  mul_comm, mul-le-mul_right, mod-eq_of_lt, mul-div_cancel, le-mul_of_pos_right,
}

-- With a normalised divisor the loop computes what the plain division computes.
div1norm_loop-mp_div1 :
    (tab : List ℕ) (b r : ℕ)
    → IsNormal b
    → r < b
    → IsLimbs tab
    → div1norm_loop tab b (udiv1norm_init b) r ≡ mp_div1 tab b r
unfolding div1norm_loop mp_div1
div1norm_loop-mp_div1 [] b r norm small h = refl
div1norm_loop-mp_div1 (x ∷ tab) b r norm small h =
    let r' = (mp_div1 tab b r).1 in
    let below = (mp_div1-value tab b r small (omega arith) h.1).1 in
    rw
      (
        div1norm_loop-mp_div1 tab b r norm small h.1,
        udiv1norm_lem r' x b norm below h.0,
        two_limbs r' x b below h.0 (omega arith),
        mod-eq_of_lt (digit_lt r' x b below h.0 (omega arith)),
        mod-eq_of_lt (fits r' below),
      )
      refl
  where
    fits : (r' : ℕ) → r' < b → (r' * 2 ^ 32 + x) % b < 2 ^ 32
    fits r' below = omega (arith, rest_lt r' x b below h.0 (omega arith))

module _ (tab : List ℕ) (d b r s : ℕ) (norm : IsNormal b) (e : b ≡ d * 2 ^ s) (hs : s ≤ 32)
    (small : r < d) (h : IsLimbs tab) where
  abbrev shifted : List ℕ
  shifted = (mp_shl tab s 0).0

  abbrev top : ℕ
  top = r * 2 ^ s + (mp_shl tab s 0).1

  shl_lem :
      (value shifted + weight tab * (mp_shl tab s 0).1 ≡ value tab * 2 ^ s + 0)
      × IsLimbs shifted
      × (length shifted ≡ length tab)
      × ((mp_shl tab s 0).1 < 2 ^ s)
  shl_lem = mp_shl-value tab s 0 hs (pow-pos 2 s (omega arith)) h

  top_lt : (r + 1) * 2 ^ s ≤ b
  top_lt = omega (arith, mul-le-mul_right (2 ^ s) small)

  join_top : bit_or (u32 (r <<< s)) (mp_shl tab s 0).1 ≡ top
  join_top =
      rw (mod-eq_of_lt {n = r * 2 ^ s} {m = 2 ^ 32} (omega (arith, top_lt, shl_lem.3)))
        (bit_or_fields s r (mp_shl tab s 0).1 shl_lem.3)

  long :
      ((value (mp_div1 shifted b top).0 * b + (mp_div1 shifted b top).1
          ≡ value shifted + weight shifted * top)
        × ((mp_div1 shifted b top).1 < b)
        × IsLimbs (mp_div1 shifted b top).0
        × (length (mp_div1 shifted b top).0 ≡ length shifted))
  long = mp_div1-value shifted b top (omega (arith, top_lt, shl_lem.3)) (omega arith) shl_lem.1

  short :
      ((value (mp_div1 tab d r).0 * d + (mp_div1 tab d r).1 ≡ value tab + weight tab * r)
        × ((mp_div1 tab d r).1 < d)
        × IsLimbs (mp_div1 tab d r).0
        × (length (mp_div1 tab d r).0 ≡ length tab))
  short =
      mp_div1-value tab d r small
        (omega (arith, e, norm, le-mul_of_pos_right d (pow-pos 2 s (omega arith)))) h

  same_weight : weight shifted ≡ weight tab
  same_weight =
      weight-eq-pow shifted ∙ ap (λ (t : ℕ). (2 ^ 32) ^ t) shl_lem.2 ∙ sym (weight-eq-pow tab)

  -- Both divisions split the same number, the one scaled by `2 ^ s`.
  scaled :
      value (mp_div1 shifted b top).0 * b + (mp_div1 shifted b top).1
      ≡ b * value (mp_div1 tab d r).0 + (mp_div1 tab d r).1 * 2 ^ s
  scaled = omega (
    arith,
    long.0,
    ap (λ (t : ℕ). t * top) same_weight,
    shl_lem.0,
    ap (λ (t : ℕ). t * 2 ^ s) short.0,
    ap (λ (t : ℕ). t * value (mp_div1 tab d r).0) e,
  )

  rest_fits : (mp_div1 tab d r).1 * 2 ^ s < b
  rest_fits = omega (arith, mul-le-mul_right (2 ^ s) short.1, pow-pos 2 s (omega arith))

  same_quotient : (mp_div1 shifted b top).0 ≡ (mp_div1 tab d r).0
  same_quotient =
      value_injective (mp_div1 shifted b top).0 (mp_div1 tab d r).0 long.2 short.2
        (long.3 ∙ shl_lem.2 ∙ sym short.3)
        (sym (div_unique _ b _ _ (omega arith) long.1)
          ∙ div_unique _ b _ _ (scaled ∙ refl) rest_fits)

  same_rest : (mp_div1 shifted b top).1 / 2 ^ s ≡ (mp_div1 tab d r).1
  same_rest =
      ap (λ (t : ℕ). t / 2 ^ s) remainder
      ∙ mul-div_cancel (mp_div1 tab d r).1 (pow-pos 2 s (omega arith))
    where
      remainder : (mp_div1 shifted b top).1 ≡ (mp_div1 tab d r).1 * 2 ^ s
      remainder = omega (
        arith,
        scaled,
        ap (λ (t : List ℕ). value t * b) same_quotient,
        mul_comm b (value (mp_div1 tab d r).0),
      )

  norm_loop-mp_div1 : div1norm_loop shifted b (udiv1norm_init b) top ≡ mp_div1 shifted b top
  norm_loop-mp_div1 =
      div1norm_loop-mp_div1 shifted b top norm (omega (arith, top_lt, shl_lem.3)) shl_lem.1

-- For limbs, a high limb below `d`, and a normal `b` that is `d * 2 ^ shift` with `shift` at most
-- 32, division through `b` and the reciprocal of `b` leaves the quotient limbs and the remainder of
-- the plain division by `d`.
pub mp_div1norm-mp_div1 :
    (tab : List ℕ) (d b r shift : ℕ)
    → IsNormal b
    → b ≡ d * 2 ^ shift
    → shift ≤ 32
    → r < d
    → IsLimbs tab
    → mp_div1norm tab b r (udiv1norm_init b) shift ≡ mp_div1 tab d r
unfolding mp_div1norm
mp_div1norm-mp_div1 tab d b r zero norm e hs small h =
    rw (div1norm_loop-mp_div1 tab b r norm (omega arith) h)
      (ap (λ (t : ℕ). mp_div1 tab t r) {y = d} (omega arith))
mp_div1norm-mp_div1 tab d b r (suc s) norm e hs small h =
    rw
      (
        suc-ne-zero s,
        join_top tab d b r (suc s) norm e hs small h,
        norm_loop-mp_div1 tab d b r (suc s) norm e hs small h,
        same_quotient tab d b r (suc s) norm e hs small h,
        same_rest tab d b r (suc s) norm e hs small h,
      )
      refl
