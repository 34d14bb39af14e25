-- ===== src/Double.antt =====
-- The bits of a double: taken apart at the start of `js_dtoa` of dtoa.c, and put together at the end
-- of `js_atod`. A double is its 64 bits.
pub mod RoundTrip
use mquickjs_port.Base.{
  ℕ, zero, suc, ◌+◌, ◌-◌, ◌*◌, ◌/◌, ◌%◌, ◌^◌, bit_and, bit_or, u64, ◌<<<◌, ◌>>>◌, low_mask, ◌==◌,
  if◌then◌else◌,
}
use mquickjs_port.Base.Int.{ℤ, pos, negsuc, ◌+ℤ◌, ◌-ℤ◌, ltb_ℤ, pos_part, neg_part}
use mquickjs_port.Cutils.{clz64}

-- What `js_dtoa` finds in a double besides the sign; a finite double that is not 0 is
-- `mantissa * 2 ^ (exponent - 53)`.
pub data Magnitude : Type 0 where
  infinity : Magnitude
  not_a_number : Magnitude
  zero_magnitude : Magnitude
  finite : (mantissa : ℕ) (exponent : ℤ) → Magnitude

-- The exponent and the mantissa of a denormal number are those of a normal one, with a larger range.
normalise : ℕ → Magnitude
normalise m = let l = clz64 m - 11 in finite (u64 (m <<< l)) (pos 0 -ℤ (pos l -ℤ pos 1) -ℤ pos 1022)

magnitude : ℕ → ℕ → Magnitude
unfolding normalise
magnitude e m =
    if e == 0x7ff
    then (if m == 0 then infinity else not_a_number)
    else if e == 0
    then (if m == 0 then zero_magnitude else normalise m)
    else finite (bit_or m (1 <<< 52)) (pos e -ℤ pos 1022)

-- The sign bit and the magnitude.
pub unpack : ℕ → ℕ × Magnitude
unpack a = (a >>> 63, magnitude (bit_and (a >>> 52) 0x7ff) (bit_and a (low_mask 52)))

-- The bits without the sign.
pub pack_magnitude : ℕ → ℤ → ℕ
pack_magnitude m e =
    if m == 0
    then 0
    else if ltb_ℤ (pos 1024) e
    then 0x7ff <<< 52
    else if ltb_ℤ e (negsuc 1072)
    then 0
    else if ltb_ℤ e (negsuc 1020)
    then m >>> pos_part (pos 0 -ℤ e -ℤ pos 1021)
    else bit_or (pos_part (e +ℤ pos 1022) <<< 52) (bit_and m (low_mask 52))

pub pack : ℕ → ℕ → ℤ → ℕ
pack is_neg m e = bit_or (pack_magnitude m e) (u64 (is_neg <<< 63))
