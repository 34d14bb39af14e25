-- ===== src/Softfp/Convert.antt =====
-- The conversions between formats and integers, and the exact remainder, of softfp_template.h and
-- softfp_template_icvt.h.
pub mod Remainder
use mquickjs_port.Base.{
  ℕ, zero, suc, ◌+◌, ◌-◌, ◌*◌, ◌/◌, ◌%◌, ◌^◌, bit_and, bit_or, ◌<<<◌, ◌>>>◌, low_mask, ◌==◌, ltb,
  leb, if◌then◌else◌, ◌&&◌, ◌||◌, not, Bool, true, false,
}
use mquickjs_port.Base.Int.{ℤ, pos, negsuc, ◌+ℤ◌, ◌-ℤ◌, ltb_ℤ, leb_ℤ, pos_part, neg_part}
use mquickjs_port.Softfp.Arith.{magnitude, operand}
use mquickjs_port.Softfp.Format.{
  Format, float32, exp_mask, mant_mask, sign_mask, rnd_size, word, qnan, clz, pack_sf, sign,
  biased_exp, mant,
}
use mquickjs_port.Softfp.Round.{
  Mode, rne, rshift_rnd, addend, is_rne, normalize_sf, normalize_subnormal_sf,
}

-- From 32 bits to a larger format, in which no rounding is needed.
pub cvt_sf32_sf : Format → ℕ → ℕ
cvt_sf32_sf f a =
    let a_sign = sign float32 a in
    let a_exp = biased_exp float32 a in
    let a_mant = mant float32 a in
    let x = if a_exp == 0 then normalize_subnormal_sf float32 a_mant else (pos a_exp, a_mant) in
    let e = x.0 -ℤ pos 0x7f +ℤ pos (exp_mask f / 2) in
    if a_exp == 0xff
    then (if not (a_mant == 0) then qnan f else pack_sf f a_sign (exp_mask f) 0)
    else if a_exp == 0 && a_mant == 0
    then pack_sf f a_sign 0 0
    else pack_sf f a_sign (pos_part e) (word f (x.1 <<< (f.mant_size - 23)))

-- To 32 bits. For a denormal number the exponent is normalised, and the mantissa stays as it is.
pub cvt_sf_sf32 : Format → ℕ → Mode → ℕ
cvt_sf_sf32 f a rm =
    let a_sign = sign f a in
    let a_exp = biased_exp f a in
    let a_mant = mant f a in
    let x = if a_exp == 0 then (normalize_subnormal_sf f a_mant).0 else pos a_exp in
    let m = if a_exp == 0 then a_mant else bit_or a_mant (1 <<< f.mant_size) in
    let e = x -ℤ pos (exp_mask f / 2) +ℤ pos 0x7f in
    if a_exp == exp_mask f
    then (if not (a_mant == 0) then qnan float32 else pack_sf float32 a_sign 0xff 0)
    else if a_exp == 0 && a_mant == 0
    then pack_sf float32 a_sign 0 0
    else normalize_sf float32 a_sign e (rshift_rnd f m (f.mant_size - 30) % 2 ^ 32) rm

-- The largest integer of `isize` bits that the sign allows, as a magnitude.
r_max : ℕ → Bool → ℕ → ℕ
r_max isize is_unsigned a_sign =
    if is_unsigned
    then (a_sign + 2 ^ isize - 1) % 2 ^ isize
    else 2 ^ (isize - 1) - (if a_sign == 0 then 1 else 0)

negate : ℕ → ℕ → ℕ → ℕ
negate isize a_sign r = if a_sign == 0 then r else (2 ^ isize - r) % 2 ^ isize

-- The magnitude of an integer in range, or the bound.
cvt_magnitude : ℕ → Format → ℕ → ℕ → ℤ → ℕ → Mode → ℕ × Bool
cvt_magnitude isize f max a_sign e a_mant rm =
    if ltb_ℤ e (pos 0)
    then (let m = rshift_rnd f a_mant (neg_part e) in
        let r = word f (m + addend f a_sign rm) >>> rnd_size f in
        let even = is_rne rm && bit_and m (low_mask (rnd_size f)) == 2 ^ (rnd_size f - 1) in
        let r' = if even then bit_and r (2 ^ f.size - 2) else r in
        if ltb max r' then (max, true) else (r' % 2 ^ isize, false))
    else if leb_ℤ e (pos isize -ℤ pos 1 -ℤ pos f.mant_size)
    then (let r = ((a_mant >>> rnd_size f) <<< pos_part e) % 2 ^ isize in
        if ltb max r then (max, true) else (r, false))
    else (max, true)

-- To an integer of `isize` bits; the result is its two's complement. An overflow returns the bound
-- as it is.
pub internal_cvt_sf_i : ℕ → Format → ℕ → Mode → Bool → ℕ
unfolding r_max negate cvt_magnitude
internal_cvt_sf_i isize f a rm is_unsigned =
    let nan = biased_exp f a == exp_mask f && not (mant f a == 0) in
    let a_sign = if nan then 0 else sign f a in
    let a_exp = if biased_exp f a == 0 then 1 else biased_exp f a in
    let a_mant = if biased_exp f a == 0 then mant f a else bit_or (mant f a) (1 <<< f.mant_size) in
    let e = pos a_exp -ℤ pos (exp_mask f / 2) -ℤ pos f.mant_size in
    let result =
      cvt_magnitude isize f (r_max isize is_unsigned a_sign) a_sign e
        (word f (a_mant <<< rnd_size f)) rm in
    if result.1 then result.0 else negate isize a_sign result.0

pub cvt_sf_i : ℕ → Format → ℕ → Mode → ℕ
cvt_sf_i isize f a rm = internal_cvt_sf_i isize f a rm false

pub cvt_sf_u : ℕ → Format → ℕ → Mode → ℕ
cvt_sf_u isize f a rm = internal_cvt_sf_i isize f a rm true

-- From an integer of `isize` bits, in two's complement.
pub internal_cvt_i_sf : ℕ → Format → ℕ → Mode → Bool → ℕ
internal_cvt_i_sf isize f a rm is_unsigned =
    let negative = not is_unsigned && leb (2 ^ (isize - 1)) a in
    let r = if negative then (2 ^ isize - a) % 2 ^ isize else a in
    let l = isize - clz (record { size = isize; mant_size = 0; exp_size = 0 }) r - (f.size - 1) in
    let a_exp = exp_mask f / 2 + f.size - 2 in
    let mask = bit_and r (low_mask l) in
    let r' = if l == 0 then r else bit_or (r >>> l) (if bit_and r mask == 0 then 0 else 1) in
    normalize_sf f (if negative then 1 else 0) (pos (a_exp + l)) (word f r') rm

pub cvt_i_sf : ℕ → Format → ℕ → Mode → ℕ
cvt_i_sf isize f a rm = internal_cvt_i_sf isize f a rm false

pub cvt_u_sf : ℕ → Format → ℕ → Mode → ℕ
cvt_u_sf isize f a rm = internal_cvt_i_sf isize f a rm true

-- One doubling of the remainder.
pub double_mod : ℕ → ℕ → ℕ
double_mod b_mant a_mant = let m = 2 * a_mant in if leb b_mant m then m - b_mant else m

pub mod_loop : ℕ → ℕ → ℕ → ℕ
unfolding double_mod
mod_loop zero b_mant a_mant = a_mant
mod_loop (suc n) b_mant a_mant = mod_loop n b_mant (double_mod b_mant a_mant)

-- `a` mod `b`, exactly. The exponent of `a` is not below that of `b` where the loop is reached.
pub fmod_sf : Format → ℕ → ℕ → ℕ
unfolding mod_loop
fmod_sf f a b =
    let a_abs = magnitude f a in
    let b_abs = magnitude f b in
    let x = operand f a in
    let y = operand f b in
    let first = if leb y.1 x.1 then x.1 - y.1 else x.1 in
    let last = mod_loop (pos_part (x.0 -ℤ y.0)) y.1 first in
    if b_abs == 0
      || (leb (exp_mask f <<< f.mant_size) a_abs || ltb (exp_mask f <<< f.mant_size) b_abs)
    then qnan f
    else if ltb a_abs b_abs
    then a
    else if a_abs == b_abs
    then bit_and a (sign_mask f)
    else normalize_sf f (sign f a) y.0 (word f (last <<< rnd_size f)) rne
