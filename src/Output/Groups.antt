-- ===== src/Output/Groups.antt =====
-- A number written in groups of digits, the lowest group first.
use mquickjs_port.Base.{
  ℕ, ◌+◌, ◌-◌, ◌*◌, ◌/◌, ◌%◌, ◌^◌, ◌≤◌, ◌<◌, ◌≡◌, ap, ◌∙◌, arith, inl, inr, ◌⊎◌,
}
use Prim.Native.Nat.{min}
use mquickjs_port.Base.Pow.{mod_mul, pow-pos, pow-add, mod_unique}
use native.Mathlib.Nat.{
  mul_assoc, mul_comm, mod-one, pow-zero, mod-lt, mul-one, min-eq_left, min-eq_right, sub_self,
}

-- The lower part of a remainder by a product.
pub mod-mod-left : (v m p : ℕ) → 0 < m → 0 < p → v % (m * p) % m ≡ v % m
mod-mod-left v m p hm hp =
    rw (mod_mul v m p hm hp) (mod_unique _ m (v / m % p) (v % m) (omega arith) (mod-lt v hm))

-- A smaller power divides the larger one.
pub mod-pow-mod : (v r n d : ℕ) → 0 < r → n ≤ d → v % r ^ d % r ^ n ≡ v % r ^ n
mod-pow-mod v r n d p h =
    ap (λ (t : ℕ). v % t % r ^ n) split
    ∙ mod-mod-left v (r ^ n) (r ^ (d - n)) (pow-pos r n p) (pow-pos r (d - n) p)
  where
    split : r ^ d ≡ r ^ n * r ^ (d - n)
    split = ap (λ (t : ℕ). r ^ t) {y = n + (d - n)} (omega arith) ∙ pow-add r n (d - n)

le-or-le : (a b : ℕ) → (a ≤ b) ⊎ (b ≤ a)
le-or-le a b = ground arith

-- The lowest group of `n_digits` digits, of `d` digits or of all, and what is above it.
pub group_lem :
    (v r n_digits d acc : ℕ)
    → 0 < r
    → (acc * r ^ (n_digits - min n_digits d) + v / r ^ d % r ^ (n_digits - min n_digits d))
          * r ^ min n_digits d
        + v % r ^ min n_digits d
      ≡ acc * r ^ n_digits + v % r ^ n_digits
group_lem v r n_digits d acc p = elim (le-or-le n_digits d) [
  | inl last ↦
      rw (min-eq_left last, sub_self n_digits, pow-zero r, mod-one (v / r ^ d))
        (omega (arith, mul-one acc))
  | inr more ↦ rw (min-eq_right more) (joined more)
]
  where
    joined :
        d ≤ n_digits
        → (acc * r ^ (n_digits - d) + v / r ^ d % r ^ (n_digits - d)) * r ^ d + v % r ^ d
          ≡ acc * r ^ n_digits + v % r ^ n_digits
    joined h =
        let split : r ^ n_digits ≡ r ^ d * r ^ (n_digits - d) =
          ap (λ (t : ℕ). r ^ t) {y = d + (n_digits - d)} (omega arith)
          ∙ pow-add r d (n_digits - d) in
        rw
          (
            split,
            mod_mul v (r ^ d) (r ^ (n_digits - d)) (pow-pos r d p) (pow-pos r (n_digits - d) p),
          )
          (omega (
            arith,
            mul_assoc acc (r ^ (n_digits - d)) (r ^ d),
            ap (λ (t : ℕ). acc * t) (mul_comm (r ^ (n_digits - d)) (r ^ d)),
            mul_comm (r ^ d) (v / r ^ d % r ^ (n_digits - d)),
          ))
