-- ===== src/Softfp/Format.antt =====
-- The formats of softfp_template.h, and the fields of a float. A float is its bits.
use mquickjs_port.Base.{
  ℕ, ◌-◌, ◌%◌, ◌^◌, bit_and, bit_or, ◌<<<◌, ◌>>>◌, low_mask, ◌==◌, ◌&&◌, not, Bool,
}
use mquickjs_port.Cutils.{bit_length}

-- The parameters `F_SIZE`, `MANT_SIZE` and `EXP_SIZE` of the template.
pub record Format : Type 0 where
  pub size : ℕ
  pub mant_size : ℕ
  pub exp_size : ℕ

abbrev pub float32 : Format
float32 = record { size = 32; mant_size = 23; exp_size = 8 }

abbrev pub float64 : Format
float64 = record { size = 64; mant_size = 52; exp_size = 11 }

abbrev pub exp_mask : Format → ℕ
exp_mask f = low_mask f.exp_size

abbrev pub mant_mask : Format → ℕ
mant_mask f = low_mask f.mant_size

abbrev pub sign_mask : Format → ℕ
sign_mask f = 2 ^ (f.size - 1)

abbrev pub rnd_size : Format → ℕ
rnd_size f = f.size - 2 - f.mant_size

-- A value of the type `F_UINT`.
abbrev pub word : Format → ℕ → ℕ
word f x = x % 2 ^ f.size

-- `F_QNAN`, the quiet NaN.
abbrev pub qnan : Format → ℕ
qnan f = bit_or (exp_mask f <<< f.mant_size) (2 ^ (f.mant_size - 1))

-- The number of leading zeros; for 0, where the C code has no defined result, it is the width.
unfoldable pub clz : Format → ℕ → ℕ
clz f a = f.size - bit_length f.size a

unfoldable pub pack_sf : Format → ℕ → ℕ → ℕ → ℕ
pack_sf f a_sign a_exp a_mant =
    bit_or (bit_or (word f (a_sign <<< (f.size - 1))) (word f (a_exp <<< f.mant_size)))
      (bit_and a_mant (mant_mask f))

-- The fields, as `unpack_sf` returns them.
abbrev pub sign : Format → ℕ → ℕ
sign f a = a >>> (f.size - 1)

abbrev pub biased_exp : Format → ℕ → ℕ
biased_exp f a = bit_and (a >>> f.mant_size) (exp_mask f)

abbrev pub mant : Format → ℕ → ℕ
mant f a = bit_and a (mant_mask f)

unfoldable pub unpack_sf : Format → ℕ → ℕ × ℕ × ℕ
unpack_sf f a = (sign f a, biased_exp f a, mant f a)

unfoldable pub isnan_sf : Format → ℕ → Bool
isnan_sf f a = biased_exp f a == exp_mask f && not (mant f a == 0)
