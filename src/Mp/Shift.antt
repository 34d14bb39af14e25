-- ===== src/Mp/Shift.antt =====
-- `mp_shl` and `mp_shr`: multiplication and division by a power of two below the limb base.
use mquickjs_port.Base.{
  ℕ, suc, ◌+◌, ◌-◌, ◌*◌, ◌/◌, ◌%◌, ◌^◌, ◌≤◌, ◌<◌, bit_or, u32, ◌<<<◌, ◌>>>◌, ◌≡◌, ap, sym, ◌∙◌,
  arith, List, [], ◌∷◌, length,
}
use mquickjs_port.Base.Bits.{bit_or_fields, bit_and_mask, bit_or_comm}
use mquickjs_port.Base.Pow.{pow-add, pow-pos, mod_unique}
use mquickjs_port.Limbs.{IsLimb, IsLimbs, value, weight, limb_bits}
use mquickjs_port.Mp.{mp_shl, mp_shr, shr_loop}
use native.Mathlib.Nat.{
  div-add-mod, mod-lt, mul_assoc, mul_comm, mul-lt-mul_of_pos_right, mul-le-mul_right,
  div-lt_iff_lt-mul, mod-eq_of_lt,
}

-- The limb base splits at the bit `s`.
split_base : (s : ℕ) → s ≤ 32 → 2 ^ (32 - s) * 2 ^ s ≡ 2 ^ 32
split_base s h = sym (pow-add 2 (32 - s) s) ∙ ap (λ (t : ℕ). 2 ^ t) {y = 32} (omega arith)

-- A limb shifted left by `s` has a part that stays and a part that leaves.
module _ (a s : ℕ) (h : s ≤ 32) where
  stay_lt : a % 2 ^ (32 - s) * 2 ^ s < 2 ^ 32
  stay_lt = omega (
    arith,
    split_base s h,
    mul-lt-mul_of_pos_right (mod-lt a (pow-pos 2 (32 - s) (omega arith)))
        (pow-pos 2 s (omega arith)),
  )

  shl_split : a * 2 ^ s ≡ 2 ^ 32 * (a / 2 ^ (32 - s)) + a % 2 ^ (32 - s) * 2 ^ s
  shl_split = omega (
    arith,
    ap (λ (t : ℕ). t * 2 ^ s) (div-add-mod a (2 ^ (32 - s))),
    ap (λ (t : ℕ). t * (a / 2 ^ (32 - s))) (split_base s h),
  )

  pub shl_limb : u32 (a <<< s) ≡ (a % 2 ^ (32 - s)) <<< s
  shl_limb = mod_unique (a * 2 ^ s) (2 ^ 32) (a / 2 ^ (32 - s)) _ shl_split stay_lt

-- What `mp_shl` writes into one limb.
shl_or : (a s l : ℕ) → s ≤ 32 → l < 2 ^ s → bit_or (u32 (a <<< s)) l ≡ a % 2 ^ (32 - s) * 2 ^ s + l
shl_or a s l h k = rw (shl_limb a s h) (bit_or_fields s (a % 2 ^ (32 - s)) l k)

shl_or_lt : (a s l : ℕ) → s ≤ 32 → l < 2 ^ s → a % 2 ^ (32 - s) * 2 ^ s + l < 2 ^ 32
shl_or_lt a s l h k = omega (
  arith,
  split_base s h,
  ap (λ (t : ℕ). t * 2 ^ s) (div-add-mod a (2 ^ (32 - s))),
  mul-le-mul_right (2 ^ s) (mod-lt a (pow-pos 2 (32 - s) (omega arith))),
)

shl_carry : (a s : ℕ) → s ≤ 32 → IsLimb a → a / 2 ^ (32 - s) < 2 ^ s
shl_carry a s h k =
    (div-lt_iff_lt-mul (pow-pos 2 (32 - s) (omega arith))).1
      (omega (arith, split_base s h, mul_comm (2 ^ s) (2 ^ (32 - s))))

-- For limbs, a shift of at most 32 and `low < 2 ^ shift`, the array and the high bits that `mp_shl`
-- leaves hold `2 ^ shift` times the array plus `low`; there are as many limbs as before, and the
-- high bits are below `2 ^ shift`.
pub mp_shl-value :
    (tab : List ℕ) (shift low : ℕ)
    → shift ≤ 32
    → low < 2 ^ shift
    → IsLimbs tab
    → (value (mp_shl tab shift low).0 + weight tab * (mp_shl tab shift low).1
        ≡ value tab * 2 ^ shift + low)
      × IsLimbs (mp_shl tab shift low).0
      × (length (mp_shl tab shift low).0 ≡ length tab)
      × ((mp_shl tab shift low).1 < 2 ^ shift)
unfolding mp_shl
mp_shl-value [] shift low h k j = ground arith
mp_shl-value (a ∷ tab) shift low h k j = ground (
  arith,
  shl_or a shift low h k,
  shl_or_lt a shift low h k,
  shl_split a shift h,
  mp_shl-value tab shift (a / 2 ^ (32 - shift)) h (shl_carry a shift h j.0) j.1,
  mul_assoc (2 ^ 32) (value tab) (2 ^ shift),
  mul_assoc (2 ^ 32) (weight tab) (mp_shl tab shift (a / 2 ^ (32 - shift))).1,
)

shr_fits : (a s : ℕ) → s ≤ 32 → IsLimb a → a / 2 ^ s < 2 ^ (32 - s)
shr_fits a s h k = (div-lt_iff_lt-mul (pow-pos 2 s (omega arith))).1 (omega (arith, split_base s h))

-- What `mp_shr` writes into one limb, from the limb and the one above it.
shr_or :
    (a s l : ℕ)
    → s ≤ 32
    → IsLimb a
    → bit_or (a >>> s) (u32 (l <<< (limb_bits - s))) ≡ l % 2 ^ s * 2 ^ (32 - s) + a / 2 ^ s
shr_or a s l h k =
    rw (bit_or_comm (a / 2 ^ s) (u32 (l <<< (32 - s))), shl_limb l (32 - s) (omega arith), back)
      (bit_or_fields (32 - s) (l % 2 ^ s) (a / 2 ^ s) (shr_fits a s h k))
  where
    back : 32 - (32 - s) ≡ s
    back = omega arith

shr_or_lt : (a s l : ℕ) → s ≤ 32 → IsLimb a → l % 2 ^ s * 2 ^ (32 - s) + a / 2 ^ s < 2 ^ 32
shr_or_lt a s l h k = omega (
  arith,
  split_base s h,
  shr_fits a s h k,
  mul_comm (2 ^ s) (2 ^ (32 - s)),
  mul-le-mul_right (2 ^ (32 - s)) (mod-lt l (pow-pos 2 s (omega arith))),
)

-- A limb shifted right, times the power, with the bits of the limb above it.
shr_split :
    (a s l : ℕ)
    → s ≤ 32
    → (l % 2 ^ s * 2 ^ (32 - s) + a / 2 ^ s) * 2 ^ s + a % 2 ^ s ≡ a + 2 ^ 32 * (l % 2 ^ s)
shr_split a s l h = omega (
  arith,
  div-add-mod a (2 ^ s),
  mul_assoc (l % 2 ^ s) (2 ^ (32 - s)) (2 ^ s),
  ap (λ (t : ℕ). l % 2 ^ s * t) (split_base s h),
)

-- The array that the loop leaves, and the low bits of the last limb read, hold the array with
-- the low bits of `high` above it.
shr_loop-value :
    (tab : List ℕ) (shift high : ℕ)
    → shift ≤ 32
    → IsLimbs tab
    → (value (shr_loop tab shift high).0 * 2 ^ shift + (shr_loop tab shift high).1 % 2 ^ shift
        ≡ value tab + weight tab * (high % 2 ^ shift))
      × IsLimbs (shr_loop tab shift high).0
      × (length (shr_loop tab shift high).0 ≡ length tab)
unfolding shr_loop
shr_loop-value [] shift high h j = ground arith
shr_loop-value (a ∷ tab) shift high h j =
    let l = (shr_loop tab shift high).1 in
    let ih = shr_loop-value tab shift high h j.1 in
    (
      rw (shr_or a shift l h j.0) (
          omega (
            arith,
            shr_split a shift l h,
            ih.0,
            mul_assoc (2 ^ 32) (value (shr_loop tab shift high).0) (2 ^ shift),
            mul_assoc (2 ^ 32) (weight tab) (high % 2 ^ shift),
          )),
      (rw (shr_or a shift l h j.0) (shr_or_lt a shift l h j.0), ih.1),
      ap suc ih.2,
    )

-- For limbs, a shift of at most 32 and `high < 2 ^ shift`, `mp_shr` leaves the array with `high`
-- above it divided by `2 ^ shift`, and returns the remainder; there are as many limbs as before.
pub mp_shr-value :
    (tab : List ℕ) (shift high : ℕ)
    → shift ≤ 32
    → high < 2 ^ shift
    → IsLimbs tab
    → (value (mp_shr tab shift high).0 * 2 ^ shift + (mp_shr tab shift high).1
        ≡ value tab + weight tab * high)
      × ((mp_shr tab shift high).1 < 2 ^ shift)
      × IsLimbs (mp_shr tab shift high).0
      × (length (mp_shr tab shift high).0 ≡ length tab)
unfolding mp_shr
mp_shr-value tab shift high h k j = ground (
  arith,
  shr_loop-value tab shift high h j,
  bit_and_mask shift (shr_loop tab shift high).1,
  mod-lt (shr_loop tab shift high).1 (pow-pos 2 shift (omega arith)),
  mod-eq_of_lt k,
)
