-- ===== src/Limbs.antt =====
-- What an array of limbs of dtoa.c stands for: sum(i, tab[i] * 2^(LIMB_BITS * i)), lowest limb
-- first.
use mquickjs_port.Base.{
  ℕ, ◌+◌, ◌*◌, ◌^◌, ◌<◌, ◌≡◌, refl, ap, sym, ◌∙◌, arith, List, [], ◌∷◌, ◌++◌, length, All,
}
use native.Mathlib.Nat.{pow-suc, mul_assoc}

abbrev pub limb_bits : ℕ
limb_bits = 32

-- One more than the largest limb.
abbrev pub limb_base : ℕ
limb_base = 2 ^ 32

abbrev pub IsLimb : ℕ → Type 0
IsLimb x = x < 2 ^ 32

abbrev pub IsLimbs : List ℕ → Type 0
IsLimbs xs = All IsLimb xs

abbrev pub value : List ℕ → ℕ
value [] = 0
value (x ∷ xs) = x + 2 ^ 32 * value xs

-- The weight of the limb behind an array of limbs.
abbrev pub weight : List ℕ → ℕ
weight [] = 1
weight (x ∷ xs) = 2 ^ 32 * weight xs

pub value-lt-weight : (xs : List ℕ) → IsLimbs xs → value xs < weight xs
value-lt-weight [] h = omega arith
value-lt-weight (x ∷ xs) h = omega (arith, value-lt-weight xs h.1)

pub weight-pos : (xs : List ℕ) → 0 < weight xs
weight-pos [] = omega arith
weight-pos (x ∷ xs) = omega (arith, weight-pos xs)

pub weight-eq-pow : (xs : List ℕ) → weight xs ≡ (2 ^ 32) ^ length xs
weight-eq-pow [] = refl
weight-eq-pow (x ∷ xs) = omega (arith, weight-eq-pow xs, pow-suc (2 ^ 32) (length xs))

pub value-append : (xs ys : List ℕ) → value (xs ++ ys) ≡ value xs + weight xs * value ys
value-append [] ys = omega arith
value-append (x ∷ xs) ys =
    omega (arith, value-append xs ys, mul_assoc (2 ^ 32) (weight xs) (value ys))

pub weight-append : (xs ys : List ℕ) → weight (xs ++ ys) ≡ weight xs * weight ys
weight-append [] ys = omega arith
weight-append (x ∷ xs) ys =
    omega (arith, weight-append xs ys, mul_assoc (2 ^ 32) (weight xs) (weight ys))

pub same-weight : (xs ys : List ℕ) → length xs ≡ length ys → weight xs ≡ weight ys
same-weight xs ys e = weight-eq-pow xs ∙ ap (λ (t : ℕ). (2 ^ 32) ^ t) e ∙ sym (weight-eq-pow ys)

-- The limbs of a number are the only ones of their length.
pub value_injective :
    (xs ys : List ℕ)
    → IsLimbs xs
    → IsLimbs ys
    → length xs ≡ length ys
    → value xs ≡ value ys
    → xs ≡ ys
value_injective [] [] h k l e = refl
value_injective [] (y ∷ ys) h k l e = absurd (omega arith)
value_injective (x ∷ xs) [] h k l e = absurd (omega arith)
value_injective (x ∷ xs) (y ∷ ys) h k l e =
    let tails : xs ≡ ys = value_injective xs ys h.1 k.1 (omega arith) (omega arith) in
    let heads : x ≡ y = omega arith in cc
