-- ===== src/Softfp/Round.antt =====
-- Rounding and packing in softfp_template.h.
pub mod Sticky
pub mod Nearest
pub mod Normal
use mquickjs_port.Base.{
  ℕ, zero, suc, ◌+◌, ◌-◌, ◌*◌, ◌/◌, ◌%◌, ◌^◌, bit_and, bit_or, ◌<<<◌, ◌>>>◌, low_mask, ◌==◌, ltb,
  leb, if◌then◌else◌, ◌&&◌, not, Bool, true, false,
}
use mquickjs_port.Base.Int.{ℤ, pos, negsuc, ◌+ℤ◌, ◌-ℤ◌, ltb_ℤ, leb_ℤ, pos_part}
use mquickjs_port.Softfp.Format.{Format, exp_mask, mant_mask, rnd_size, word, clz, pack_sf}

-- `RoundingModeEnum` of libm.c.
pub data Mode : Type 0 where
  rne rtz rdn rup rmm rmm_up : Mode

-- `rm & 1`, with which the modes other than the first, second and fifth are told apart.
odd_mode : Mode → Bool
odd_mode rne = false
odd_mode rtz = true
odd_mode rdn = false
odd_mode rup = true
odd_mode rmm = false
odd_mode rmm_up = true

pub is_rne : Mode → Bool
is_rne rne = true
is_rne _ = false

-- A right shift that keeps in the lowest bit whether bits were lost.
unfoldable pub rshift_rnd : Format → ℕ → ℕ → ℕ
rshift_rnd f a d =
    if d == 0
    then a
    else if leb f.size d
    then (if a == 0 then 0 else 1)
    else bit_or (a >>> d) (if bit_and a (low_mask d) == 0 then 0 else 1)

-- Away from zero for a sign and a directed mode.
outwards : ℕ → Mode → Bool
unfolding odd_mode
outwards a_sign rm = if odd_mode rm then a_sign == 0 else not (a_sign == 0)

-- What is added before the low bits are cut off.
pub addend : Format → ℕ → Mode → ℕ
unfolding outwards
addend f a_sign rne = 2 ^ (rnd_size f - 1)
addend f a_sign rmm = 2 ^ (rnd_size f - 1)
addend f a_sign rtz = 0
addend f a_sign rm = if outwards a_sign rm then low_mask (rnd_size f) else 0

-- The rounded mantissa: half way, the even result is taken.
pub rounded : Format → ℕ → ℕ → Mode → ℕ
unfolding is_rne
rounded f a_mant add rm =
    let m = word f (a_mant + add) >>> rnd_size f in
    if is_rne rm && bit_and a_mant (low_mask (rnd_size f)) == 2 ^ (rnd_size f - 1)
    then bit_and m (2 ^ f.size - 2)
    else m

-- The exponent and the mantissa behind the rounding: a denormal number, a number in range, the
-- largest number or infinity.
pub in_range : Format → ℤ → ℕ → ℕ → ℕ × ℕ
in_range f a_exp a_mant add =
    let e = a_exp +ℤ pos (a_mant >>> suc f.mant_size) in
    if leb a_mant (mant_mask f)
    then (0, a_mant)
    else if leb_ℤ (pos (exp_mask f)) e
    then (if add == 0 then (exp_mask f - 1, mant_mask f) else (exp_mask f, 0))
    else (pos_part e, a_mant)

-- `a_mant` has its highest bit at `F_SIZE - 2`.
unfoldable pub round_pack_sf : Format → ℕ → ℤ → ℕ → Mode → ℕ
unfolding addend rounded in_range pack_sf rshift_rnd
round_pack_sf f a_sign a_exp a_mant rm =
    let low = leb_ℤ a_exp (pos 0) in
    let m = if low then rshift_rnd f a_mant (pos_part (pos 1 -ℤ a_exp)) else a_mant in
    let e = if low then pos 1 else a_exp in
    let add = addend f a_sign rm in
    let result = in_range f e (rounded f m add rm) add in pack_sf f a_sign result.0 result.1

-- `a_mant` has at most `F_SIZE - 1` bits.
unfoldable pub normalize_sf : Format → ℕ → ℤ → ℕ → Mode → ℕ
unfolding round_pack_sf clz
normalize_sf f a_sign a_exp a_mant rm =
    let shift = clz f a_mant - 1 in
    round_pack_sf f a_sign (a_exp -ℤ pos shift) (word f (a_mant <<< shift)) rm

-- The exponent and the mantissa of a denormal number as of a normal one.
unfoldable pub normalize_subnormal_sf : Format → ℕ → ℤ × ℕ
unfolding clz
normalize_subnormal_sf f a_mant =
    let shift = f.mant_size - (f.size - 1 - clz f a_mant) in
    (pos 1 -ℤ pos shift, word f (a_mant <<< shift))
