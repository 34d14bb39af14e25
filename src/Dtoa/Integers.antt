-- ===== src/Dtoa/Integers.antt =====
-- What `js_dtoa` prints for an integer in the free format.
use mquickjs_port.Base.{
  ℕ, suc, ◌-◌, ◌*◌, ◌^◌, ◌≤◌, ◌<◌, ◌≡◌, ap, sym, ◌∙◌, arith, List, ◌++◌, true, false, Option, some,
  ◌==◌,
}
use mquickjs_port.Base.Bits.{bit_and_mask}
use mquickjs_port.Base.Int.{pos, ◌-ℤ◌, -ℤ_parts, eq_of_parts, pos_part}
use mquickjs_port.Base.Pow.{pow-add, pow-pos}
use mquickjs_port.Digits.{u64toa_radix}
use mquickjs_port.Digits.AnyRadix.{u64toa_radix_lem}
use mquickjs_port.Digits.Numeral.{IsNumeral}
use mquickjs_port.Double.{Magnitude, pack}
use mquickjs_port.Double.RoundTrip.{unpack-pack}
use mathlib.Core.Option
use mquickjs_port.Dtoa.{
  js_dtoa, text_of, number, input, fast_int, sign_text, format_of, format_free, exp_of, exp_enabled,
}
use native.Mathlib.Nat.{
  mul-le-mul_right, mul-mod_left, mul-div_left, mul_assoc, pow-suc, pow-le-pow_right,
}

-- An integer of `l + 1` bits as a mantissa of 53 bits.
abbrev pub mantissa : ℕ → ℕ → ℕ
mantissa n l = n * 2 ^ (52 - l)

shift_lem : (l : ℕ) → l ≤ 52 → pos_part (pos 53 -ℤ pos (suc l)) ≡ 52 - l
shift_lem l h = ap pos_part same
  where
    same : pos 53 -ℤ pos (suc l) ≡ pos (52 - l)
    same = eq_of_parts _ _ (omega (arith, -ℤ_parts (pos 53) (pos (suc l))))

weights : (l : ℕ) → l ≤ 52 → 2 ^ l * 2 ^ (52 - l) ≡ 2 ^ 52
weights l h = sym (pow-add 2 l (52 - l)) ∙ ap (λ (t : ℕ). 2 ^ t) {y = 52} (omega arith)

pub mantissa-bounds :
    (n l : ℕ)
    → l ≤ 52
    → 2 ^ l ≤ n
    → n < 2 ^ suc l
    → (2 ^ 52 ≤ mantissa n l) × (mantissa n l < 2 ^ 53)
mantissa-bounds n l h lo hi =
    let above : suc n ≤ 2 ^ l * 2 = omega (arith, pow-suc 2 l) in
    let below : suc n * 2 ^ (52 - l) ≤ 2 ^ l * 2 * 2 ^ (52 - l) =
      mul-le-mul_right (2 ^ (52 - l)) above in
    (
      omega (arith, weights l h, mul-le-mul_right (2 ^ (52 - l)) lo),
      omega (
        arith,
        weights l h,
        mul_assoc (2 ^ l) 2 (2 ^ (52 - l)),
        pow-pos 2 (52 - l) (omega arith),
        below,
      ),
    )

fast :
    (n l radix flags : ℕ)
    → l ≤ 52
    → format_of flags ≡ format_free
    → (exp_of flags == exp_enabled) ≡ false
    → fast_int (input (mantissa n l) (pos (suc l)) radix) flags ≡ true
unfolding fast_int input
fast n l radix flags h free no_exp =
    rw
      (
        free,
        no_exp,
        shift_lem l h,
        bit_and_mask (52 - l) (n * 2 ^ (52 - l)),
        mul-mod_left n (2 ^ (52 - l)),
      )
      (ground arith)

number_lem :
    (n l radix n_digits flags : ℕ)
    → l ≤ 52
    → format_of flags ≡ format_free
    → (exp_of flags == exp_enabled) ≡ false
    → number (input (mantissa n l) (pos (suc l)) radix) n_digits flags ≡ u64toa_radix n radix
unfolding number input
number_lem n l radix n_digits flags h free no_exp = rw (
  fast n l radix flags h free no_exp,
  shift_lem l h,
  mul-div_left n (pow-pos 2 (52 - l) (omega arith)),
)

-- For an integer `n` with `2 ^ l <= n < 2 ^ (l + 1)` and `l` at most 52, as a double with a sign
-- bit, a radix from 2 to 36, the free format and an exponent that is not asked for, `js_dtoa`
-- writes a minus sign if the sign bit is set and then the numeral of `n`: digits below the radix,
-- with small letters from 10 on, that stand for `n`, the first of them not 0.
pub js_dtoa_integer :
    (sgn n l radix n_digits flags : ℕ)
    → sgn < 2
    → l ≤ 52
    → 2 ^ l ≤ n
    → n < 2 ^ suc l
    → 2 ≤ radix
    → radix ≤ 36
    → format_of flags ≡ format_free
    → (exp_of flags == exp_enabled) ≡ false
    → (s : List ℕ) × (js_dtoa (pack sgn (mantissa n l) (pos (suc l))) radix n_digits flags
        ≡ some (sign_text (sgn == 1) ++ s))
      × IsNumeral radix n s
unfolding js_dtoa
js_dtoa_integer sgn n l radix n_digits flags h short lo hi least most free no_exp =
    let m = mantissa-bounds n l short lo hi in
    let (s, text, reads) =
      u64toa_radix_lem n radix
        (omega (arith, pow-le-pow_right {n = 2} (omega arith) {i = suc l} {j = 53} (omega arith)))
        least most in
    (
      s,
      ap (λ (u : ℕ × Magnitude). text_of u radix n_digits flags)
            (unpack-pack sgn (mantissa n l) (pos (suc l)) h m.0 m.1 (ground arith) (ground arith))
          ∙ ap (λ (o : Option (List ℕ)). Option.map (λ t. sign_text (sgn == 1) ++ t) o)
              (number_lem n l radix n_digits flags short free no_exp ∙ text),
      reads,
    )
