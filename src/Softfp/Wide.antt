-- ===== src/Softfp/Wide.antt =====
-- Arithmetic on two words in softfp_template.h: with a type of twice the width, and without one.
pub mod Multiply
pub mod Divide
pub mod Root
use mquickjs_port.Base.{
  ℕ, zero, suc, ◌+◌, ◌-◌, ◌*◌, ◌/◌, ◌%◌, ◌^◌, bit_and, bit_or, ◌<<<◌, ◌>>>◌, low_mask, ◌==◌, ltb,
  leb, if◌then◌else◌, ◌&&◌, ◌||◌, not, Bool, true, false, Option, none, some,
}
use mquickjs_port.Softfp.Format.{Format, word, clz}

-- The low and the high word of a product.
unfoldable pub mul_u : Format → ℕ → ℕ → ℕ × ℕ
mul_u f a b = let r = a * b in (word f r, r >>> f.size)

-- The same from products of half words; `half` is `FH_SIZE`.
abbrev pub half_size : Format → ℕ
half_size f = f.size / 2

abbrev pub half : Format → ℕ → ℕ
half f x = x % 2 ^ half_size f

pub mul_u_halves : Format → ℕ → ℕ → ℕ × ℕ
mul_u_halves f a b =
    let h = half_size f in
    let a0 = half f a in
    let a1 = half f (a >>> h) in
    let b0 = half f b in
    let b1 = half f (b >>> h) in
    let r00 = word f (a0 * b0) in
    let r01 = word f (a0 * b1) in
    let r10 = word f (a1 * b0) in
    let r11 = word f (a1 * b1) in
    let r0 = half f r00 in
    let c = word f ((r00 >>> h) + half f r01 + half f r10) in
    let r1 = half f c in
    let c' = word f ((c >>> h) + (r01 >>> h) + (r10 >>> h) + half f r11) in
    let r2 = half f c' in
    let r3 = half f ((c' >>> h) + (r11 >>> h)) in
    (bit_or (word f (r1 <<< h)) r0, bit_or (word f (r3 <<< h)) r2)

-- The quotient and the remainder of two words by one.
unfoldable pub divrem_u : Format → ℕ → ℕ → ℕ → ℕ × ℕ
divrem_u f ah al b = let a = bit_or (ah <<< f.size) al in (word f (a / b), a % b)

-- One bit of the long division: the two words are shifted left, and the quotient bit comes in.
pub divide_step : Format → ℕ → ℕ × ℕ → ℕ × ℕ
divide_step f b (a1, a0) =
    let ab = a1 >>> (f.size - 1) in
    let shifted = bit_or (word f (a1 <<< 1)) (a0 >>> (f.size - 1)) in
    let qb = not (ab == 0) || leb b shifted in
    let a0' = bit_or (word f (a0 <<< 1)) (if qb then 1 else 0) in
    (if qb then word f (shifted + 2 ^ f.size - b) else shifted, a0')

pub divide_loop : Format → ℕ → ℕ → ℕ × ℕ → ℕ × ℕ
divide_loop f b zero a = a
divide_loop f b (suc i) a = divide_loop f b i (divide_step f b a)

pub divrem_u_bits : Format → ℕ → ℕ → ℕ → ℕ × ℕ
unfolding divide_loop divide_step
divrem_u_bits f a1 a0 b = let r = divide_loop f b f.size (a1, a0) in (r.1, r.0)

-- The iteration of `sqrtrem_u`: from `s` on, while it falls. `none` means that the fuel ran out.
pub newton : ℕ → ℕ → ℕ → Option ℕ
newton zero a s = none
newton (suc fuel) a s =
    let u = (a / s + s) / 2 in let rest = newton fuel a u in if leb s u then some s else rest

-- The bit length of the first guess: `2 ^ l >= a`. For a word of 1 the code counts the zeros of 0,
-- which cutils.h leaves undefined and `clz` takes for the width.
pub guess_bits : Format → ℕ → ℕ → ℕ
guess_bits f ah al = if ah == 0 then f.size - clz f (al - 1) else 2 * f.size - clz f (ah - 1)

-- The square root of two words, and whether it is not exact.
unfoldable pub sqrtrem_u : Format → ℕ → ℕ → Option (ℕ × Bool)
unfolding newton guess_bits
sqrtrem_u f ah al =
    let a = bit_or (ah <<< f.size) al in
    if ah == 0 && al == 0
    then some (0, false)
    else elim (newton f.size a (1 <<< ((guess_bits f ah al + 1) / 2))) [
      | none ↦ none
      | some s ↦ some (s, not (a - s * s == 0))
    ]
