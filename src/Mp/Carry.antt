-- ===== src/Mp/Carry.antt =====
-- `mp_add_ui` and `mp_mul1`: sums and products, with their carries.
use mquickjs_port.Base.{ℕ, ◌+◌, ◌*◌, ◌/◌, ◌^◌, ◌≤◌, ◌<◌, ◌≡◌, arith, List, [], ◌∷◌, length}
use native.Mathlib.Nat.{mul-le-mul_right, mul_assoc, mod-eq_of_lt, le-pred_of_lt}
use mquickjs_port.Limbs.{IsLimb, IsLimbs, value, weight}
use mquickjs_port.Mp.{mp_add_ui, mp_mul1}

-- For limbs and a limb `b` the array and the carry that `mp_add_ui` leaves hold the sum of the
-- array and `b`; there are as many limbs as before, and the carry is at most `b`.
pub mp_add_ui-value :
    (tab : List ℕ) (b : ℕ)
    → IsLimbs tab
    → IsLimb b
    → (value (mp_add_ui tab b).0 + weight tab * (mp_add_ui tab b).1 ≡ value tab + b)
      × IsLimbs (mp_add_ui tab b).0
      × (length (mp_add_ui tab b).0 ≡ length tab)
      × ((mp_add_ui tab b).1 ≤ b)
unfolding mp_add_ui
mp_add_ui-value [] b h k = ground arith
mp_add_ui-value (x ∷ tab) b h k = ground (arith, mp_add_ui-value tab 0, mp_add_ui-value tab 1)

-- A product of two words and a word more fit a double word.
pub mul_word : (x b l : ℕ) → IsLimb x → IsLimb b → IsLimb l → x * b + l < 2 ^ 64
mul_word x b l hx hb hl = omega (arith, mul-le-mul_right b (le-pred_of_lt hx))

-- For limbs and limbs `b` and `l` the array and the high limb that `mp_mul1` leaves hold the
-- product of the array and `b`, plus `l`; there are as many limbs as before.
pub mp_mul1-value :
    (tab : List ℕ) (b l : ℕ)
    → IsLimbs tab
    → IsLimb b
    → IsLimb l
    → (value (mp_mul1 tab b l).0 + weight tab * (mp_mul1 tab b l).1 ≡ value tab * b + l)
      × IsLimbs (mp_mul1 tab b l).0
      × (length (mp_mul1 tab b l).0 ≡ length tab)
      × IsLimb (mp_mul1 tab b l).1
unfolding mp_mul1
mp_mul1-value [] b l h k j = ground arith
mp_mul1-value (x ∷ tab) b l h k j = ground (
  arith,
  mul_word x b l,
  mp_mul1-value tab b ((x * b + l) / 2 ^ 32),
  mod-eq_of_lt (mul_word x b l h.0 k j),
  mul_assoc (2 ^ 32) (weight tab) (mp_mul1 tab b ((x * b + l) / 2 ^ 32)).1,
)
