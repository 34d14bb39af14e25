-- ===== src/Cutils.antt =====
-- The bit scans, digits and extrema of cutils.h.
pub mod Scan
use mquickjs_port.Base.{
  ℕ, zero, suc, ◌+◌, ◌-◌, ◌*◌, ◌/◌, ◌%◌, ◌^◌, ltb, leb, ◌==◌, if◌then◌else◌, ◌&&◌, Bool, Option,
  some, none,
}
use mquickjs_port.Base.Int.{ℤ, ltb_ℤ}

unfoldable pub min_int : ℤ → ℤ → ℤ
min_int a b = if ltb_ℤ a b then a else b

unfoldable pub max_int : ℤ → ℤ → ℤ
max_int a b = if ltb_ℤ b a then a else b

-- The number of bits of `n`, if `fuel` bits are enough.
pub bit_length : ℕ → ℕ → ℕ
bit_length zero n = 0
bit_length (suc fuel) n = let rest = bit_length fuel (n / 2) in if n == 0 then 0 else suc rest

-- `__builtin_clz` and `__builtin_clzll`, for a word that is not 0.
unfoldable pub clz32 : ℕ → ℕ
unfolding bit_length
clz32 a = 32 - bit_length 32 a

unfoldable pub clz64 : ℕ → ℕ
unfolding bit_length
clz64 a = 64 - bit_length 64 a

-- The number of low zero bits among the `fuel` lowest ones.
low_zeros : ℕ → ℕ → ℕ
low_zeros zero n = 0
low_zeros (suc fuel) n = let rest = low_zeros fuel (n / 2) in if n % 2 == 0 then suc rest else 0

-- `__builtin_ctz`, for a word that is not 0.
unfoldable pub ctz32 : ℕ → ℕ
unfolding low_zeros
ctz32 a = low_zeros 32 a
