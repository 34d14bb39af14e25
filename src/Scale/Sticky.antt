-- ===== src/Scale/Sticky.antt =====
-- A quotient with a sticky bit rounds as the exact quotient does.
use mquickjs_port.Base.{
  ℕ, suc, ◌+◌, ◌*◌, ◌/◌, ◌%◌, ◌^◌, ◌≤◌, ◌<◌, ltb, leb, ◌==◌, ==_iff, if◌then◌else◌, ◌≡◌, refl, ap,
  sym, arith, false, Bool-cases, ◌⊎◌, inl, inr,
}
use native.Mathlib.Decide.{dec_lt}
use mquickjs_port.Base.Pow.{div_unique, mod_unique, mod_mul, pow-pos}
use mquickjs_port.Rounding.{Rounding, rndn, rndna, rndz, round_up, round_div}
use native.Mathlib.Nat.{
  div-div-eq-div-mul, div-add-mod, mod-lt, mul_assoc, mul_comm, mul-le-mul_left, mul-le-mul_right,
  pow-suc, zero-add, eq_of_mul-eq-mul_right, mul-lt-mul_of_pos_right,
}

-- The quotient, with its lowest bit set where the division is not exact.
unfoldable pub sticky_div : ℕ → ℕ → ℕ
sticky_div n d = if n % d == 0 then n / d else n / d / 2 * 2 + 1

-- A comparison does not change when both sides are scaled.
ltb_scale : (a b k : ℕ) → 0 < k → ltb (a * k) (b * k) ≡ ltb a b
ltb_scale a b k h = elim (Bool-cases (ltb a b)) [
  | inl lt ↦ ground (arith, mul-lt-mul_of_pos_right {m = a} {n = b} (ground arith) h)
  | inr ge ↦ ground (arith, mul-le-mul_right {m = b} {n = a} k (ground arith))
]

eqb_scale : (a b k : ℕ) → 0 < k → (a * k == b * k) ≡ (a == b)
eqb_scale a b k h = elim (Bool-cases (a == b)) [
  | inl eq ↦ rw ((==_iff a b).0 eq) (ground arith)
  | inr ne ↦ ground (arith, eq_of_mul-eq-mul_right k h a b)
]

leb_scale : (a b k : ℕ) → 0 < k → leb (a * k) (b * k) ≡ leb a b
leb_scale a b k h = elim (Bool-cases (leb a b)) [
  | inl le ↦ ground (arith, mul-le-mul_right {m = a} {n = b} k (ground arith))
  | inr gt ↦ ground (arith, mul-lt-mul_of_pos_right {m = b} {n = a} (ground arith) h)
]

round_up_scale :
    (mode : Rounding) (q r d k : ℕ) → 0 < k → round_up mode q (r * k) (d * k) ≡ round_up mode q r d
unfolding round_up
round_up_scale rndn q r d k h =
    rw (← mul_assoc 2 r k, ltb_scale d (2 * r) k h, eqb_scale d (2 * r) k h)
round_up_scale rndna q r d k h = rw (← mul_assoc 2 r k, leb_scale d (2 * r) k h)
round_up_scale rndz q r d k h = refl

-- A fraction may be expanded before it is rounded.
pub round_div_scale :
    (mode : Rounding) (n d k : ℕ)
    → 0 < d
    → 0 < k
    → round_div mode (n * k) (d * k) ≡ round_div mode n d
unfolding round_div
round_div_scale mode n d k hd hk = rw (quotient, rest, round_up_scale mode (n / d) (n % d) d k hk)
  where
    split : n * k ≡ d * k * (n / d) + n % d * k
    split = omega (
      arith,
      ap (λ (t : ℕ). t * k) (div-add-mod n d),
      mul_assoc d k (n / d),
      mul_comm k (n / d),
      mul_assoc d (n / d) k,
    )

    small : n % d * k < d * k
    small = mul-lt-mul_of_pos_right (mod-lt n hd) hk

    quotient : n * k / (d * k) ≡ n / d
    quotient = div_unique (n * k) (d * k) (n / d) (n % d * k) split small

    rest : n * k % (d * k) ≡ n % d * k
    rest = mod_unique (n * k) (d * k) (n / d) (n % d * k) split small

-- The quotient with its lowest bit set, divided by a multiple of 4.
module _ (q m : ℕ) (hm : 0 < m) where
  odd_split : q / 2 * 2 + 1 ≡ m * 4 * (q / (m * 4)) + (q % (m * 4) / 2 * 2 + 1)
  odd_split = omega (arith, div-add-mod q (m * 4), mul_comm m 4, mul_assoc 4 m (q / (m * 4)))

  odd_small : q % (m * 4) / 2 * 2 + 1 < m * 4
  odd_small = omega (arith, mod-lt q {m = m * 4} (omega arith))

  odd_quotient : (q / 2 * 2 + 1) / (m * 4) ≡ q / (m * 4)
  odd_quotient = div_unique _ (m * 4) _ _ odd_split odd_small

  odd_rest : (q / 2 * 2 + 1) % (m * 4) ≡ q % (m * 4) / 2 * 2 + 1
  odd_rest = mod_unique _ (m * 4) _ _ odd_split odd_small

sides :
    (x r d m : ℕ)
    → 0 < r
    → r < d
    → ((x < 2 * m) × (2 * (r + d * x) < d * (m * 4)))
      ⊎ ((2 * m ≤ x) × (d * (m * 4) < 2 * (r + d * x)))
sides x r d m hr hd = elim (dec_lt x (2 * m)) [
  | yes h ↦ inl (h, omega (arith, mul-le-mul_left d h))
  | no h ↦ inr (omega arith, omega (arith, mul-le-mul_left {m = 2 * m} {n = x} d (omega arith)))
]

odd_sides :
    (x m : ℕ)
    → ((x < 2 * m) × (2 * (x / 2 * 2 + 1) < m * 4)) ⊎ ((2 * m ≤ x) × (m * 4 < 2 * (x / 2 * 2 + 1)))
odd_sides x m = elim (dec_lt x (2 * m)) [
  | yes h ↦ inl (h, omega arith)
  | no h ↦ inr (omega arith, omega arith)
]

-- With a remainder `r` below, both remainders lie on the same side of the half.
inexact :
    (mode : Rounding) (q x r d m : ℕ)
    → 0 < r
    → r < d
    → round_up mode q (x / 2 * 2 + 1) (m * 4) ≡ round_up mode q (r + d * x) (d * (m * 4))
unfolding round_up
inexact rndz q x r d m hr hd = refl
inexact rndn q x r d m hr hd = ground (arith, sides x r d m hr hd, odd_sides x m)
inexact rndna q x r d m hr hd = ground (arith, sides x r d m hr hd, odd_sides x m)

-- Rounding a quotient with a sticky bit by at least two bits rounds the exact quotient.
pub round_div-sticky_div :
    (mode : Rounding) (n d t : ℕ)
    → 0 < d
    → round_div mode (sticky_div n d) (2 ^ suc (suc t)) ≡ round_div mode n (d * 2 ^ suc (suc t))
unfolding round_div sticky_div
round_div-sticky_div mode n d t h =
    rw (four, ← div-div-eq-div-mul n d (2 ^ t * 4), mod_mul n d (2 ^ t * 4) h fours)
      (elim (Bool-cases (n % d == 0)) [
        | inl exact ↦
            rw
              (
                exact,
                (==_iff (n % d) 0).0 exact,
                zero-add,
                mul_comm d (n / d % (2 ^ t * 4)),
                mul_comm d (2 ^ t * 4),
              )
              (ap (λ (u : ℕ). n / d / (2 ^ t * 4) + u)
                (sym (
                  round_up_scale mode (n / d / (2 ^ t * 4)) (n / d % (2 ^ t * 4)) (2 ^ t * 4) d h)))
        | inr rest ↦
            rw
              (
                rest,
                odd_quotient (n / d) (2 ^ t) (pow-pos 2 t (omega arith)),
                odd_rest (n / d) (2 ^ t) (pow-pos 2 t (omega arith)),
              )
              (ap (λ (u : ℕ). n / d / (2 ^ t * 4) + u)
                (inexact mode (n / d / (2 ^ t * 4)) (n / d % (2 ^ t * 4)) (n % d) d (2 ^ t)
                  (positive rest) (mod-lt n h)))
      ])
  where
    four : 2 ^ suc (suc t) ≡ 2 ^ t * 4
    four = omega (arith, pow-suc 2 (suc t), pow-suc 2 t)

    fours : 0 < 2 ^ t * 4
    fours = omega (arith, pow-pos 2 t (omega arith))

    positive : (n % d == 0) ≡ false → 0 < n % d
    positive e = ground arith
