-- ===== src/Softfp/Convert/Remainder.antt =====
-- The doublings of fmod_sf give the remainder of a shifted number.
use mquickjs_port.Base.{
  ℕ, zero, suc, ◌-◌, ◌*◌, ◌%◌, ◌^◌, ◌<◌, ◌≡◌, ap, sym, ◌∙◌, arith, leb, Bool-cases, inl, inr,
}
use mquickjs_port.Softfp.Convert.{double_mod, mod_loop}
use mquickjs_port.Base.Pow.{mod_unique, mul-mod-mod}
use native.Mathlib.Nat.{mod-eq_of_lt, mul_assoc, pow-suc, one-mul}

-- A doubled remainder needs at most one subtraction.
double_mod-mod : (b a : ℕ) → a < b → double_mod b a ≡ (2 * a) % b
unfolding double_mod
double_mod-mod b a h = elim (Bool-cases (leb b (2 * a))) [
  | inl over ↦ rw over (sym (mod_unique (2 * a) b 1 (2 * a - b) (ground arith) (ground arith)))
  | inr under ↦ rw under (sym (mod-eq_of_lt (ground arith)))
]

double_mod-lt : (b a : ℕ) → a < b → double_mod b a < b
unfolding double_mod
double_mod-lt b a h = ground arith

-- For `a` below `b` the `n` doublings of `fmod_sf` leave `2 ^ n * a` modulo `b`.
pub mod_loop-mod : (n b a : ℕ) → a < b → mod_loop n b a ≡ (2 ^ n * a) % b
unfolding mod_loop
mod_loop-mod zero b a h = sym (ap (λ (t : ℕ). t % b) (one-mul a) ∙ mod-eq_of_lt h)
mod_loop-mod (suc n) b a h =
    mod_loop-mod n b (double_mod b a) (double_mod-lt b a h)
    ∙ ap (λ (t : ℕ). (2 ^ n * t) % b) (double_mod-mod b a h)
    ∙ mul-mod-mod (2 ^ n) (2 * a) b
    ∙ ap (λ (t : ℕ). t % b)
        (sym (mul_assoc (2 ^ n) 2 a) ∙ ap (λ (t : ℕ). t * a) (sym (pow-suc 2 n)))
