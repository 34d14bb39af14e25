-- ===== src/Base/Pow.antt =====
-- Powers, and division with a known quotient and remainder.
use Prim.Native.Nat.{ℕ, zero, suc, ◌+◌, ◌-◌, ◌*◌, ◌/◌, ◌%◌, ◌^◌, ◌<◌}
use mathlib.Core.Path.{◌≡◌, sym, ap, ◌∙◌}
use native.Mathlib.Nat.{
  pow-suc, pow-zero, mul-zero, mul-suc, mul_assoc, mul-one, one-le-pow, mul-add-div,
  mul-add-mod_self_left, div-eq_of_lt, mod-eq_of_lt, add-zero, div-add-mod, mod-lt, mul_comm,
  mul-le-mul_left, add-suc,
}
use native.Mathlib.Omega.{arith}

pub pow-add : (b m n : ℕ) → b ^ (m + n) ≡ b ^ m * b ^ n
pow-add b m zero = rw (add-zero, pow-zero) (sym (mul-one (b ^ m)))
pow-add b m (suc n) = rw (add-suc, pow-suc, pow-suc, pow-add b m n) (mul_assoc (b ^ m) (b ^ n) b)

pub pow-pos : (b n : ℕ) → 0 < b → 0 < b ^ n
pow-pos b n h = one-le-pow n b h

pub pow-mul : (b m n : ℕ) → b ^ (m * n) ≡ (b ^ m) ^ n
pow-mul b m zero = rw (mul-zero, pow-zero, pow-zero)
pow-mul b m (suc n) = rw (mul-suc, pow-suc, pow-add b (m * n) m, pow-mul b m n)

-- The quotient and the remainder are the only ones.
pub div_unique : (a d q r : ℕ) → a ≡ d * q + r → r < d → a / d ≡ q
div_unique a d q r e h = rw e (mul-add-div (omega arith) q r ∙ rw (div-eq_of_lt h) (omega arith))

pub mod_unique : (a d q r : ℕ) → a ≡ d * q + r → r < d → a % d ≡ r
mod_unique a d q r e h = rw e (mul-add-mod_self_left d q r ∙ mod-eq_of_lt h)

-- A remainder by a product: the low part, and the remainder of the high part.
pub mod_mul : (a m p : ℕ) → 0 < m → 0 < p → a % (m * p) ≡ a % m + m * (a / m % p)
mod_mul a m p hm hp = mod_unique a (m * p) (a / m / p) (a % m + m * (a / m % p)) split below
  where
    split : a ≡ m * p * (a / m / p) + (a % m + m * (a / m % p))
    split = omega (
      arith,
      div-add-mod a m,
      ap (λ (t : ℕ). m * t) (div-add-mod (a / m) p),
      mul_assoc m p (a / m / p),
    )

    below : a % m + m * (a / m % p) < m * p
    below = omega (arith, mod-lt a hm, mul-le-mul_left m (mod-lt (a / m) hp))

-- A bit of the low part of a number is that bit of the number.
pub bit_of_low : (v k : ℕ) → k < 32 → v % 2 ^ 32 / 2 ^ k % 2 ≡ v / 2 ^ k % 2
bit_of_low v k h = omega (
  arith,
  div_unique v (2 ^ k) (2 ^ (31 - k) * 2 * (v / 2 ^ 32) + v % 2 ^ 32 / 2 ^ k) (v % 2 ^ 32 % 2 ^ k)
      (omega (
        arith,
        div-add-mod (v % 2 ^ 32) (2 ^ k),
        ap (λ (t : ℕ). t * (v / 2 ^ 32)) base,
        mul_assoc (2 ^ k) (2 ^ (31 - k) * 2) (v / 2 ^ 32),
      ))
      (mod-lt (v % 2 ^ 32) (pow-pos 2 k (omega arith))),
)
  where
    base : 2 ^ k * (2 ^ (31 - k) * 2) ≡ 2 ^ 32
    base =
        sym (mul_assoc (2 ^ k) (2 ^ (31 - k)) 2)
        ∙ ap (λ (t : ℕ). t * 2)
            (sym (pow-add 2 k (31 - k)) ∙ ap (λ (t : ℕ). 2 ^ t) {y = 31} (omega arith))

-- Factors may be reduced before they are multiplied.
pub mod-mul-mod : (a b m : ℕ) → (a % m * b) % m ≡ (a * b) % m
mod-mul-mod a b m = sym (
    ap (λ (t : ℕ). t % m)
      (omega (arith, ap (λ (t : ℕ). t * b) (div-add-mod a m), mul_assoc m (a / m) b))
    ∙ mul-add-mod_self_left m (a / m * b) (a % m * b))

pub mul-mod-mod : (a b m : ℕ) → (a * (b % m)) % m ≡ (a * b) % m
mul-mod-mod a b m = rw (mul_comm a (b % m), mod-mul-mod b a m, mul_comm b a)

pub pow-one : (a : ℕ) → a ^ 1 ≡ a
pow-one a = rw (pow-suc a 0, pow-zero a) (omega arith)
