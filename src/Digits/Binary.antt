-- ===== src/Digits/Binary.antt =====
-- `u64toa_radix` in a radix that is a power of two: `bin_length` is the number of digits, with none
-- to spare.
use mquickjs_port.Base.{
  ℕ, zero, suc, ◌+◌, ◌-◌, ◌*◌, ◌/◌, ◌^◌, ◌≤◌, ◌<◌, ◌≡◌, refl, ap, ◌∙◌, arith, [], ◌∷◌, get_or, ◌≢◌,
  false, Bool-cases, ◌==◌, ==_iff, inl, inr,
}
use mquickjs_port.Base.Pow.{pow-mul, pow-pos, pow-one}
use mquickjs_port.Cutils.{clz64}
use mquickjs_port.Cutils.Scan.{clz64_lem}
use mquickjs_port.Digits.{digit_char, limb_loop, bin_length, u64toa_bin_len}
use mquickjs_port.Digits.Fixed.{u64toa_bin_len-limb_loop}
use mquickjs_port.Digits.Numeral.{IsNumeral, numeral, limb_loop-AreDigits, limb_loop_first}
use mquickjs_port.Digits.Reading.{of_digits, limb_loop_lem}
use native.Mathlib.Nat.{mod-eq_of_lt, zero-mod, mul-suc, mod-lt, div-add-mod, pow-le-pow_right}

-- As many digits of `bits` bits as `bin_length` says hold a word.
bin_length_lem : (n bits : ℕ) → 1 ≤ bits → n < 2 ^ 64 → n < (2 ^ bits) ^ bin_length n bits
unfolding bin_length
bin_length_lem n bits p h = elim (Bool-cases (n == 0)) [
  | inl none_left ↦
      rw none_left
        (omega (arith, (==_iff n 0).0 none_left, pow-one (2 ^ bits), pow-pos 2 bits (omega arith)))
  | inr some_left ↦
      let scan = clz64_lem n (ground arith) h in
      rw (some_left, ← pow-mul 2 bits ((64 - clz64 n + bits - 1) / bits))
        (omega (
          arith,
          scan.1,
          pow-le-pow_right {n = 2} (omega arith) {i = 64 - clz64 n}
              {j = bits * ((64 - clz64 n + bits - 1) / bits)}
              (omega (
                arith,
                div-add-mod (64 - clz64 n + bits - 1) bits,
                mod-lt (64 - clz64 n + bits - 1) p,
              )),
        ))
]

-- Rounded up, the quotient is one more than one that does not reach the dividend.
round_up :
    (l bits q : ℕ)
    → 1 ≤ bits
    → 1 ≤ l
    → (l + bits - 1) / bits ≡ q
    → (k : ℕ) × (q ≡ suc k) × (bits * k ≤ l - 1)
round_up l bits zero p h e = absurd (
    omega
      (arith, div-add-mod (l + bits - 1) bits, ap (λ (t : ℕ). bits * t) e, mod-lt (l + bits - 1) p))
round_up l bits (suc k) p h e = (
  k,
  refl,
  omega (arith, div-add-mod (l + bits - 1) bits, ap (λ (t : ℕ). bits * t) e, mul-suc bits k),
)

-- All of these digits are needed.
bin_length_least :
    (n bits : ℕ)
    → 1 ≤ bits
    → 0 < n
    → n < 2 ^ 64
    → (k : ℕ) × (bin_length n bits ≡ suc k) × ((2 ^ bits) ^ k ≤ n)
unfolding bin_length
bin_length_least n bits p some_left h =
    let scan = clz64_lem n some_left h in
    let nonzero : (n == 0) ≡ false = ground arith in
    let (k, q, few) =
      round_up (64 - clz64 n) bits ((64 - clz64 n + bits - 1) / bits) p (omega (arith, scan.2))
        refl in
    rw nonzero (
      k,
      q,
      rw (← pow-mul 2 bits k) (
          omega (
            arith,
            scan.0,
            pow-le-pow_right {n = 2} (omega arith) {i = bits * k} {j = 63 - clz64 n}
                (omega (arith, few)),
          )),
    )

-- For 0 there is one digit.
binary_zero : (bits radix : ℕ) → limb_loop (bin_length 0 bits) 0 radix [] ≡ b'0' ∷ []
unfolding bin_length limb_loop digit_char
binary_zero bits radix = rw (zero-mod radix) refl

-- In a radix of `bits` bits the digits are the numeral.
pub binary_digits :
    (n bits radix : ℕ)
    → 1 ≤ bits
    → 2 ^ bits ≡ radix
    → radix ≤ 36
    → n < 2 ^ 64
    → IsNumeral radix n (u64toa_bin_len (bin_length n bits) n bits [])
binary_digits n bits radix p e hi h =
    rw (u64toa_bin_len-limb_loop (bin_length n bits) n bits [], e)
      (numeral radix n (limb_loop (bin_length n bits) n radix [])
        (limb_loop-AreDigits radix (bin_length n bits) n [] two hi tt)
        ((limb_loop_lem radix (bin_length n bits) n 0 [] two hi).0
          ∙ unfold of_digits in omega (arith, mod-eq_of_lt fitting))
        (λ z. ap (λ (t : ℕ). limb_loop (bin_length t bits) t radix []) z ∙ binary_zero bits radix)
        first)
  where
    two : 2 ≤ radix
    two = omega (arith, e, pow-le-pow_right {n = 2} (omega arith) {i = 1} {j = bits} p)

    fitting : n < radix ^ bin_length n bits
    fitting = rw e at (bin_length_lem n bits p h)

    first : 0 < n → get_or (limb_loop (bin_length n bits) n radix []) 0 0 ≢ b'0'
    first q =
        let (k, len, least) = bin_length_least n bits p q h in
        rw len (limb_loop_first radix k n [] two (rw e at least) (rw len at fitting))
