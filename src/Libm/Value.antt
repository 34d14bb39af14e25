-- ===== src/Libm/Value.antt =====
-- The value of a finite double, from its bits, and what it means to round it.
use mquickjs_port.Base.{
  ℕ, zero, suc, ◌+◌, ◌*◌, ◌/◌, ◌%◌, ◌^◌, ◌≤◌, ◌<◌, ◌≡◌, ap, sym, ◌∙◌, arith, if◌then◌else◌, ◌==◌,
  low_mask, bit_and,
}
use native.Mathlib.Nat.{
  mul-le-mul_right, mul-lt-mul_of_pos_right, mul_assoc, div-div-eq-div-mul, pow-suc, pow-succ',
}
use mquickjs_port.Base.Bits.{bit_and_step, bit_and_mask}
use mquickjs_port.Base.Pow.{pow-add, pow-pos}
use mquickjs_port.Libm.{RintMode, rup, rdn, rtz, rmm, rmmup}

-- The fields of the bits.
abbrev pub sign_of : ℕ → ℕ
sign_of u = u / 2 ^ 63

abbrev pub exp_of : ℕ → ℕ
exp_of u = u / 2 ^ 52 % 2 ^ 11

abbrev pub mant_of : ℕ → ℕ
mant_of u = u % 2 ^ 52

-- The absolute value of a double with these fields, in units of 2^-1074.
unfoldable pub size_of : ℕ → ℕ → ℕ
size_of zero m = m
size_of (suc e) m = (2 ^ 52 + m) * 2 ^ e

-- The absolute value of a double.
abbrev pub magnitude : ℕ → ℕ
magnitude u = size_of (exp_of u) (mant_of u)

-- The number 1, in the same units.
unfoldable pub unity : ℕ
unity = 2 ^ 1074

-- To which of the integers around it an absolute value is rounded.
pub data Direction : Type 0 where
  away toward ties_away ties_toward : Direction

abbrev pub direction : ℕ → RintMode → Direction
direction s rup = if s == 0 then away else toward
direction s rdn = if s == 0 then toward else away
direction s rtz = toward
direction s rmm = ties_away
direction s rmmup = if s == 0 then ties_away else ties_toward

-- `n` units are `x` rounded in a direction.
abbrev pub Rounds : Direction → ℕ → ℕ → ℕ → Type 0
Rounds away x one n = (x ≤ n * one) × (n * one < x + one)
Rounds toward x one n = (n * one ≤ x) × (x < n * one + one)
Rounds ties_away x one n = (2 * (n * one) ≤ 2 * x + one) × (2 * x + one < 2 * (n * one) + 2 * one)
Rounds ties_toward x one n = (2 * (n * one) < 2 * x + one) × (2 * x + one ≤ 2 * (n * one) + 2 * one)

-- A common factor of the value and the unit.
pub scaled :
    (d : Direction) (x one n t : ℕ) → 0 < t → Rounds d x one n → Rounds d (x * t) (one * t) n
scaled away x one n t h (a, b) =
    omega (arith, mul-le-mul_right t a, mul-lt-mul_of_pos_right b h, mul_assoc n one t)
scaled toward x one n t h (a, b) =
    omega (arith, mul-le-mul_right t a, mul-lt-mul_of_pos_right b h, mul_assoc n one t)
scaled ties_away x one n t h (a, b) =
    omega (arith, mul-le-mul_right t a, mul-lt-mul_of_pos_right b h, mul_assoc n one t)
scaled ties_toward x one n t h (a, b) =
    omega (arith, mul-lt-mul_of_pos_right a h, mul-le-mul_right t b, mul_assoc n one t)

-- `&` with ones above `k` bits.
pub bit_and_high : (k w x : ℕ) → bit_and x (low_mask w * 2 ^ k) ≡ x / 2 ^ k % 2 ^ w * 2 ^ k
bit_and_high zero w x =
    let one : low_mask w * 2 ^ 0 ≡ low_mask w = omega arith in
    let whole : x / 2 ^ 0 ≡ x = omega arith in
    let same : x / 2 ^ 0 % 2 ^ w * 2 ^ 0 ≡ x % 2 ^ w =
      omega (arith, ap (λ (t : ℕ). t % 2 ^ w) whole) in
    ap (bit_and x) one ∙ bit_and_mask w x ∙ sym same
bit_and_high (suc k) w x =
    let l : ℕ = low_mask w * 2 ^ k in
    let twice : low_mask w * 2 ^ suc k ≡ 2 * l =
      omega
        (arith, ap (λ (t : ℕ). low_mask w * t) (pow-suc 2 k), mul_assoc (low_mask w) (2 ^ k) 2) in
    let halves : 2 * l / 2 ≡ l = omega arith in
    let quotient : x / 2 / 2 ^ k ≡ x / 2 ^ suc k =
      div-div-eq-div-mul x 2 (2 ^ k) ∙ ap (λ (t : ℕ). x / t) (sym (pow-succ' 2 k)) in
    let rest : bit_and (x / 2) (2 * l / 2) ≡ x / 2 ^ suc k % 2 ^ w * 2 ^ k =
      ap (bit_and (x / 2)) halves
      ∙ bit_and_high k w (x / 2)
      ∙ ap (λ (t : ℕ). t % 2 ^ w * 2 ^ k) quotient in
    let doubled : x / 2 ^ suc k % 2 ^ w * 2 ^ suc k ≡ x / 2 ^ suc k % 2 ^ w * 2 ^ k * 2 =
      ap (λ (t : ℕ). x / 2 ^ suc k % 2 ^ w * t) (pow-suc 2 k)
      ∙ sym (mul_assoc (x / 2 ^ suc k % 2 ^ w) (2 ^ k) 2) in
    ap (bit_and x) twice ∙ bit_and_step x (2 * l) ∙ omega (arith, rest, doubled)

pub unity_split : (k e : ℕ) → k + e ≡ 1074 → 2 ^ k * 2 ^ e ≡ unity
unfolding unity
unity_split k e h = sym (pow-add 2 k e) ∙ ap (λ (t : ℕ). 2 ^ t) h

pub unity-pos : 0 < unity
unfolding unity
unity-pos = pow-pos 2 1074 (omega arith)

-- An integer is rounded to itself.
pub Rounds-exact : (d : Direction) (n one : ℕ) → 0 < one → Rounds d (n * one) one n
Rounds-exact away n one h = omega (arith, h)
Rounds-exact toward n one h = omega (arith, h)
Rounds-exact ties_away n one h = omega (arith, h)
Rounds-exact ties_toward n one h = omega (arith, h)
