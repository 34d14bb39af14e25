-- ===== src/Softfp/Arith.antt =====
-- Addition, subtraction, multiplication, division and square root of softfp_template.h, without the
-- exception flags (`F_USE_FFLAGS` is 0).
pub mod Operand
pub mod Sum
pub mod Product
pub mod Quotient
pub mod Total
pub mod Nan
use mquickjs_port.Base.{
  ℕ, zero, suc, ◌+◌, ◌-◌, ◌*◌, ◌/◌, ◌%◌, ◌^◌, bit_and, bit_or, ◌<<<◌, ◌>>>◌, low_mask, ◌==◌, ltb,
  leb, if◌then◌else◌, ◌&&◌, ◌||◌, not, Bool, true, false, Option, none, some,
}
use mathlib.Core.Option
use mquickjs_port.Base.Int.{ℤ, pos, negsuc, ◌+ℤ◌, ◌-ℤ◌, pos_part, neg_part}
use mquickjs_port.Softfp.Format.{
  Format, exp_mask, mant_mask, sign_mask, rnd_size, word, qnan, pack_sf, sign, biased_exp, mant,
  isnan_sf,
}
use mquickjs_port.Softfp.Round.{Mode, rdn, rshift_rnd, normalize_sf, normalize_subnormal_sf}
use mquickjs_port.Softfp.Wide.{mul_u, divrem_u, sqrtrem_u}

-- `a & ~SIGN_MASK` and `b ^ SIGN_MASK`.
abbrev pub magnitude : Format → ℕ → ℕ
magnitude f a = bit_and a (low_mask (f.size - 1))

abbrev pub flip_sign : Format → ℕ → ℕ
flip_sign f b = if sign f b == 0 then b + sign_mask f else b - sign_mask f

-- `^` of two sign bits.
abbrev pub sign_xor : ℕ → ℕ → ℕ
sign_xor a b = if a == b then 0 else 1

is_rdn : Mode → Bool
is_rdn rdn = true
is_rdn _ = false

-- The exponent of a denormal number is that of the smallest normal ones, and the mantissa of a normal
-- number has its hidden bit.
abbrev pub add_exp : Format → ℕ → ℕ
add_exp f e = if e == 0 then 1 else e

abbrev pub add_mant : Format → ℕ → ℕ → ℕ
add_mant f e m =
    if e == 0 then word f (m <<< 3) else bit_or (word f (m <<< 3)) (1 <<< (f.mant_size + 3))

-- The sum of two finite numbers, the first with the larger magnitude.
pub add_finite : Format → ℕ → ℕ → Mode → ℕ
unfolding is_rdn
add_finite f a b rm =
    let a_exp = add_exp f (biased_exp f a) in
    let a_mant = add_mant f (biased_exp f a) (mant f a) in
    let b_exp = add_exp f (biased_exp f b) in
    let b_mant = rshift_rnd f (add_mant f (biased_exp f b) (mant f b)) (a_exp - b_exp) in
    let same = sign f a == sign f b in
    let r_mant = if same then word f (a_mant + b_mant) else word f (a_mant + 2 ^ f.size - b_mant) in
    let r_sign = if not same && r_mant == 0 then (if is_rdn rm then 1 else 0) else sign f a in
    normalize_sf f r_sign (pos (a_exp + (rnd_size f - 3))) r_mant rm

-- The sum, the first number with the larger magnitude.
pub add_ordered : Format → ℕ → ℕ → Mode → ℕ
unfolding add_finite
add_ordered f a b rm =
    if biased_exp f a == exp_mask f
    then (if not (mant f a == 0)
        then qnan f
        else if biased_exp f b == exp_mask f && not (sign f a == sign f b)
        then qnan f
        else a)
    else add_finite f a b rm

unfoldable pub add_sf : Format → ℕ → ℕ → Mode → ℕ
unfolding add_ordered
add_sf f a b rm =
    if ltb (magnitude f a) (magnitude f b) then add_ordered f b a rm else add_ordered f a b rm

unfoldable pub sub_sf : Format → ℕ → ℕ → Mode → ℕ
sub_sf f a b rm = add_sf f a (flip_sign f b) rm

-- The exponent and the mantissa of a finite number that is not 0, with the hidden bit.
pub operand : Format → ℕ → ℤ × ℕ
operand f a =
    if biased_exp f a == 0
    then normalize_subnormal_sf f (mant f a)
    else (pos (biased_exp f a), bit_or (mant f a) (1 <<< f.mant_size))

pub is_zero : Format → ℕ → Bool
is_zero f a = biased_exp f a == 0 && mant f a == 0

-- The product of two finite numbers that are not 0.
pub mul_finite : Format → ℕ → ℕ → Mode → ℕ
unfolding operand
mul_finite f a b rm =
    let x = operand f a in
    let y = operand f b in
    let r_exp = x.0 +ℤ y.0 -ℤ pos (2 ^ (f.exp_size - 1)) +ℤ pos 2 in
    let product = mul_u f (word f (x.1 <<< rnd_size f)) (word f (y.1 <<< suc (rnd_size f))) in
    normalize_sf f (sign_xor (sign f a) (sign f b)) r_exp
      (bit_or product.1 (if product.0 == 0 then 0 else 1)) rm

unfoldable pub mul_sf : Format → ℕ → ℕ → Mode → ℕ
unfolding is_zero mul_finite
mul_sf f a b rm =
    let r_sign = sign_xor (sign f a) (sign f b) in
    if biased_exp f a == exp_mask f || biased_exp f b == exp_mask f
    then (if isnan_sf f a || isnan_sf f b
        then qnan f
        else if (biased_exp f a == exp_mask f && is_zero f b)
            || (biased_exp f b == exp_mask f && is_zero f a)
        then qnan f
        else pack_sf f r_sign (exp_mask f) 0)
    else if is_zero f a || is_zero f b
    then pack_sf f r_sign 0 0
    else mul_finite f a b rm

-- The quotient of two finite numbers that are not 0.
pub div_finite : Format → ℕ → ℕ → Mode → ℕ
unfolding operand
div_finite f a b rm =
    let x = operand f a in
    let y = operand f b in
    let r_exp = x.0 -ℤ y.0 +ℤ pos (2 ^ (f.exp_size - 1)) -ℤ pos 1 in
    let quotient = divrem_u f x.1 0 (word f (y.1 <<< 2)) in
    normalize_sf f (sign_xor (sign f a) (sign f b)) r_exp
      (if quotient.1 == 0 then quotient.0 else bit_or quotient.0 1) rm

unfoldable pub div_sf : Format → ℕ → ℕ → Mode → ℕ
unfolding is_zero div_finite
div_sf f a b rm =
    let r_sign = sign_xor (sign f a) (sign f b) in
    if biased_exp f a == exp_mask f
    then (if not (mant f a == 0) || isnan_sf f b
        then qnan f
        else if biased_exp f b == exp_mask f
        then qnan f
        else pack_sf f r_sign (exp_mask f) 0)
    else if biased_exp f b == exp_mask f
    then (if not (mant f b == 0) then qnan f else pack_sf f r_sign 0 0)
    else if is_zero f b
    then (if is_zero f a then qnan f else pack_sf f r_sign (exp_mask f) 0)
    else if is_zero f a
    then pack_sf f r_sign 0 0
    else div_finite f a b rm

-- An arithmetic right shift, and the lowest bit, of an exponent.
half_exp : ℤ → ℤ
half_exp (pos n) = pos (n / 2)
half_exp (negsuc n) = negsuc (n / 2)

odd_exp : ℤ → Bool
odd_exp (pos n) = n % 2 == 1
odd_exp (negsuc n) = n % 2 == 0

-- The square root of a positive number; `none` means that the fuel of the iteration ran out.
pub sqrt_finite : Format → ℕ → Mode → Option ℕ
unfolding operand half_exp odd_exp
sqrt_finite f a rm =
    let x = operand f a in
    let bias = exp_mask f / 2 in
    let e = x.0 -ℤ pos bias in
    let m = if odd_exp e then word f (x.1 <<< 1) else x.1 in
    let r_exp = half_exp (if odd_exp e then e -ℤ pos 1 else e) +ℤ pos bias in
    Option.map (λ (r : ℕ × Bool). normalize_sf f 0 r_exp (if r.1 then bit_or r.0 1 else r.0) rm)
      (sqrtrem_u f (word f (m <<< (f.size - 4 - f.mant_size))) 0)

unfoldable pub sqrt_sf : Format → ℕ → Mode → Option ℕ
unfolding is_zero sqrt_finite
sqrt_sf f a rm =
    let negative = not (sign f a == 0) in
    if biased_exp f a == exp_mask f
    then some (if not (mant f a == 0) then qnan f else if negative then qnan f else a)
    else if negative
    then some (if is_zero f a then a else qnan f)
    else if is_zero f a
    then some (pack_sf f 0 0 0)
    else sqrt_finite f a rm
