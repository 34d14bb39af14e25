-- ===== src/Softfp/Compare.antt =====
-- The comparisons of softfp_template.h.
pub mod Order
use mquickjs_port.Base.{
  ℕ, zero, suc, ◌+◌, ◌-◌, ◌*◌, ◌/◌, ◌%◌, ◌^◌, bit_or, ◌<<<◌, ◌>>>◌, ◌==◌, ltb, leb, if◌then◌else◌,
  ◌&&◌, ◌||◌, not, Bool, true, false,
}
use mquickjs_port.Base.Int.{ℤ, pos, ◌-ℤ◌}
use mquickjs_port.Softfp.Format.{Format, word, sign, isnan_sf}

-- `(F_UINT)((a | b) << 1) == 0`: both are a zero.
pub both_zero : Format → ℕ → ℕ → Bool
both_zero f a b = word f (bit_or a b <<< 1) == 0

unfoldable pub eq_quiet_sf : Format → ℕ → ℕ → Bool
unfolding both_zero
eq_quiet_sf f a b =
    if isnan_sf f a || isnan_sf f b then false else if both_zero f a b then true else a == b

unfoldable pub le_sf : Format → ℕ → ℕ → Bool
unfolding both_zero
le_sf f a b =
    if isnan_sf f a || isnan_sf f b
    then false
    else if not (sign f a == sign f b)
    then not (sign f a == 0) || both_zero f a b
    else if not (sign f a == 0)
    then leb b a
    else leb a b

unfoldable pub lt_sf : Format → ℕ → ℕ → Bool
unfolding both_zero
lt_sf f a b =
    if isnan_sf f a || isnan_sf f b
    then false
    else if not (sign f a == sign f b)
    then not (sign f a == 0) && not (both_zero f a b)
    else if not (sign f a == 0)
    then ltb b a
    else ltb a b

-- -1, 0 or 1, or 2 where one is not a number.
unfoldable pub cmp_sf : Format → ℕ → ℕ → ℤ
unfolding both_zero
cmp_sf f a b =
    if isnan_sf f a || isnan_sf f b
    then pos 2
    else if not (sign f a == sign f b)
    then (if both_zero f a b then pos 0 else pos 1 -ℤ pos (2 * sign f a))
    else if ltb a b
    then pos (2 * sign f a) -ℤ pos 1
    else if ltb b a
    then pos 1 -ℤ pos (2 * sign f a)
    else pos 0
