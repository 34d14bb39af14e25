-- ===== src/Digits/Reading.antt =====
-- What a string of digits stands for, read with the source's own `to_digit`.
use mquickjs_port.Base.{
  ℕ, zero, suc, ◌+◌, ◌*◌, ◌/◌, ◌%◌, ◌^◌, ◌≤◌, ◌<◌, ◌≡◌, refl, ap, ◌∙◌, arith, List, [], ◌∷◌, ◌++◌,
  length,
}
use mquickjs_port.Base.Pow.{mod_mul, pow-pos}
use mquickjs_port.Digits.{digit_char, to_digit, limb_loop}
use native.Mathlib.Nat.{pow-succ', mod-one, mul_assoc, mul_comm, pow-zero, mod-lt}

-- The number that the digits `s` continue, when those before them stand for `acc`. It does not say
-- that the characters are digits of the radix; `IsNumeral` of Digits/Numeral does.
unfoldable pub of_digits : ℕ → ℕ → List ℕ → ℕ
of_digits radix acc [] = acc
of_digits radix acc (c ∷ s) = of_digits radix (acc * radix + to_digit c) s

pub of_digits-append :
    (radix acc : ℕ) (s t : List ℕ)
    → of_digits radix acc (s ++ t) ≡ of_digits radix (of_digits radix acc s) t
unfolding of_digits
of_digits-append radix acc [] t = refl
of_digits-append radix acc (c ∷ s) t = of_digits-append radix (acc * radix + to_digit c) s t

-- Of a digit in a radix up to 36 the character reads back as the digit.
pub to_digit-digit_char : (d : ℕ) → d < 36 → to_digit (digit_char d) ≡ d
unfolding to_digit digit_char
to_digit-digit_char d h = ground arith

-- The loop appends the lowest `len` digits of the number.
pub limb_loop_lem :
    (radix len n acc : ℕ) (tail : List ℕ)
    → 2 ≤ radix
    → radix ≤ 36
    → (of_digits radix acc (limb_loop len n radix tail)
        ≡ of_digits radix (acc * radix ^ len + n % radix ^ len) tail)
      × (length (limb_loop len n radix tail) ≡ len + length tail)
unfolding limb_loop of_digits
limb_loop_lem radix zero n acc tail lo hi = (
  ap (λ (t : ℕ). of_digits radix t tail) (rw (pow-zero radix, mod-one n) (omega arith)),
  omega arith,
)
limb_loop_lem radix (suc len) n acc tail lo hi =
    let rest = limb_loop_lem radix len (n / radix) acc (digit_char (n % radix) ∷ tail) lo hi in
    (
      rest.0
          ∙ rw (to_digit-digit_char (n % radix) (omega (arith, mod-lt n {m = radix} (omega arith))))
              (ap (λ (t : ℕ). of_digits radix t tail) together),
      omega (arith, rest.1),
    )
  where
    together :
        (acc * radix ^ len + n / radix % radix ^ len) * radix + n % radix
        ≡ acc * radix ^ suc len + n % radix ^ suc len
    together =
        rw
          (
            pow-succ' radix len,
            mod_mul n radix (radix ^ len) (omega arith) (pow-pos radix len (omega arith)),
          )
          (omega (
            arith,
            mul_assoc acc (radix ^ len) radix,
            ap (λ (t : ℕ). acc * t) (mul_comm (radix ^ len) radix),
            mul_comm radix (n / radix % radix ^ len),
          ))

-- The terminating 0 is no digit.
pub to_digit-pos : (c : ℕ) → to_digit c < 36 → 0 < c
unfolding to_digit
to_digit-pos c h = ground arith
