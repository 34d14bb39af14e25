-- ===== src/Mp/Divide.antt =====
-- `mp_div1`: the plain long division by one limb.
use mquickjs_port.Base.{
  ℕ, suc, ◌+◌, ◌*◌, ◌/◌, ◌%◌, ◌^◌, ◌≤◌, ◌<◌, bit_or, ◌<<<◌, ◌≡◌, ap, arith, List, [], ◌∷◌, length,
}
use mquickjs_port.Base.Bits.{bit_or_fields}
use mquickjs_port.Limbs.{IsLimb, IsLimbs, value, weight, limb_bits}
use mquickjs_port.Mp.{mp_div1}
use native.Mathlib.Nat.{div-add-mod, mod-lt, mul_assoc, div-lt_iff_lt-mul, mod-eq_of_lt}

-- One step of a long division: the two limbs of the numerator give a limb and a remainder.
module _ (r x b : ℕ) (small : r < b) (hx : IsLimb x) (hb : b ≤ 2 ^ 32) where
  pub two_limbs : bit_or (r <<< limb_bits) x ≡ r * 2 ^ 32 + x
  two_limbs = bit_or_fields 32 r x hx

  pub digit_lt : (r * 2 ^ 32 + x) / b < 2 ^ 32
  digit_lt = (div-lt_iff_lt-mul (omega arith)).1 (omega arith)

  pub rest_lt : (r * 2 ^ 32 + x) % b < b
  rest_lt = mod-lt (r * 2 ^ 32 + x) (omega arith)

-- For limbs and `r < b <= 2 ^ 32` `mp_div1` leaves the quotient limbs and the remainder of the
-- array, with `r` as the limb above it, by `b`; there are as many limbs as before.
pub mp_div1-value :
    (tab : List ℕ) (b r : ℕ)
    → r < b
    → b ≤ 2 ^ 32
    → IsLimbs tab
    → (value (mp_div1 tab b r).0 * b + (mp_div1 tab b r).1 ≡ value tab + weight tab * r)
      × ((mp_div1 tab b r).1 < b)
      × IsLimbs (mp_div1 tab b r).0
      × (length (mp_div1 tab b r).0 ≡ length tab)
unfolding mp_div1
mp_div1-value [] b r h k j = ground arith
mp_div1-value (x ∷ tab) b r h k j =
    let r' = (mp_div1 tab b r).1 in
    let ih = mp_div1-value tab b r h k j.1 in
    let small = ih.1 in
    let fits : (r' * 2 ^ 32 + x) % b < 2 ^ 32 = omega (arith, rest_lt r' x b small j.0 k) in
    rw (two_limbs r' x b small j.0 k, mod-eq_of_lt (digit_lt r' x b small j.0 k), mod-eq_of_lt fits)
      (
        omega (
          arith,
          ih.0,
          div-add-mod (r' * 2 ^ 32 + x) b,
          mul_assoc (2 ^ 32) (value (mp_div1 tab b r).0) b,
          mul_assoc (2 ^ 32) (weight tab) r,
        ),
        rest_lt r' x b small j.0 k,
        (digit_lt r' x b small j.0 k, ih.2),
        ap suc ih.3,
      )
