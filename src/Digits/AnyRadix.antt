-- ===== src/Digits/AnyRadix.antt =====
-- `u64toa_radix`: the digits of a word in any radix from 2 to 36.
use mquickjs_port.Base.{
  ℕ, zero, suc, ◌+◌, ◌-◌, ◌*◌, ◌/◌, ◌%◌, ◌^◌, ◌≤◌, ◌<◌, ◌≡◌, refl, ap, ◌∙◌, arith, List, [], ◌∷◌,
  get_or, ◌≢◌, Option, some, leb, if◌then◌else◌, false, true, Bool, Bool-cases, ◌==◌, ==_iff, ◌&&◌,
  inl, inr,
}
use mquickjs_port.Base.Check.{all_below, all_below_sound}
use mquickjs_port.Base.Pow.{pow-one}
use mquickjs_port.Cutils.{clz32}
use mquickjs_port.Digits.{digit_char, radix_loop, u64toa, u64toa_radix}
use mquickjs_port.Digits.Decimal.{u64toa_lem}
use mquickjs_port.Digits.Numeral.{AreDigits, IsNumeral, numeral, digit_char-DigitIn, digit_char-pos}
use mquickjs_port.Digits.Reading.{of_digits, to_digit-digit_char}
use mquickjs_port.Radix.{is_power_of_two}
use mquickjs_port.Digits.Binary.{binary_digits}
use native.Mathlib.Nat.{
  pow-suc, mod-eq_of_lt, div-le_self, div-eq_of_lt, mod-lt, div-add-mod, mul_comm,
  div-lt_iff_lt-mul, pow-le-pow_left,
}

-- The characters that are produced, if any, are digits that stand for `m`. With `n` the number that
-- is printed, the first is not 0 unless `n` is, and for 0 there is one in front of the tail.
abbrev Writes : ℕ → Option (List ℕ) → ℕ → ℕ → List ℕ → Type 0
Writes radix out m n tail =
    (s : List ℕ) × (out ≡ some s)
    × (of_digits radix 0 s ≡ m)
    × AreDigits radix s
    × (n ≡ 0 → s ≡ digit_char 0 ∷ tail)
    × (0 < n → get_or s 0 0 ≢ b'0')

read_digit :
    (radix acc d m : ℕ) (tail : List ℕ)
    → d < 36
    → acc * radix + d ≡ m
    → of_digits radix acc (digit_char d ∷ tail) ≡ of_digits radix m tail
unfolding of_digits
read_digit radix acc d m tail h e =
    ap (λ (t : ℕ). of_digits radix (acc * radix + t) tail) (to_digit-digit_char d h)
    ∙ ap (λ (t : ℕ). of_digits radix t tail) e

zero_char : (digit_char 0 ∷ []) ≡ b'0' ∷ []
unfolding digit_char
zero_char = refl

-- The last round of the loop, for a number below the radix.
last_round :
    (n radix : ℕ) (tail : List ℕ)
    → 2 ≤ radix
    → radix ≤ 36
    → n < radix
    → AreDigits radix tail
    → Writes radix (some (digit_char n ∷ tail)) (of_digits radix n tail) n tail
last_round n radix tail lo hi h digits = (
  _,
  refl,
  read_digit radix 0 n n tail (omega arith) (omega arith),
  (digit_char-DigitIn radix n hi h, digits),
  λ z. ap (λ (t : ℕ). digit_char t ∷ tail) z,
  digit_char-pos n,
)

-- The loop writes all the digits of a number that fits its buffer.
radix_loop_lem :
    (room n radix : ℕ) (tail : List ℕ)
    → 2 ≤ radix
    → radix ≤ 36
    → n < radix ^ suc room
    → AreDigits radix tail
    → Writes radix (radix_loop (suc room) n radix tail) (of_digits radix n tail) n tail
unfolding radix_loop
radix_loop_lem zero n radix tail lo hi h digits =
    let small : n < radix = omega (arith, pow-one radix) in
    rw (div-eq_of_lt {n = n} {m = radix} small, mod-eq_of_lt {n = n} {m = radix} small)
      (last_round n radix tail lo hi small digits)
radix_loop_lem (suc room) n radix tail lo hi h digits = elim (Bool-cases (n / radix == 0)) [
  | inl last ↦
      let same : n % radix ≡ n = omega (
        arith,
        split,
        (==_iff (n / radix) 0).0 last,
        ap (λ (t : ℕ). radix * t) ((==_iff (n / radix) 0).0 last),
      ) in
      rw (last, same) (last_round n radix tail lo hi (omega (arith, same, digit)) digits)
  | inr more ↦
      let rest =
        radix_loop_lem room (n / radix) radix (digit_char (n % radix) ∷ tail) lo hi less
          (digit_char-DigitIn radix (n % radix) hi digit, digits) in
      rw more (
        rest.0,
        rest.1,
        rest.2
            ∙ read_digit radix (n / radix) (n % radix) n tail (omega (arith, digit))
                (omega (arith, split, mul_comm (n / radix) radix)),
        rest.3,
        λ z. absurd (ground (arith, div-le_self n radix)),
        λ p. rest.5 (ground arith),
      )
]
  where
    digit : n % radix < radix
    digit = mod-lt n {m = radix} (omega arith)

    split : radix * (n / radix) + n % radix ≡ n
    split = div-add-mod n radix

    less : n / radix < radix ^ suc room
    less = (div-lt_iff_lt-mul (omega arith)).1 (omega (arith, pow-suc radix (suc room)))

-- A buffer of 41 characters holds a word in radix 3 or more, and the powers of two up to 36.
fits : (n radix : ℕ) → 3 ≤ radix → n < 2 ^ 64 → n < radix ^ 41
fits n radix lo h = omega (arith, pow-le-pow_left lo 41)

binary_right : ℕ → Bool
binary_right r =
    if is_power_of_two r then leb 1 (31 - clz32 r) && (2 ^ (31 - clz32 r) == r) else leb 3 r

binary_all : all_below 35 (λ i. binary_right (i + 2)) ≡ true
unfolding all_below binary_right is_power_of_two clz32
binary_all = refl

large :
    (b : Bool) (r k p : ℕ) → b ≡ false → (if b then leb 1 k && (p == r) else leb 3 r) ≡ true → 3 ≤ r
large b r k p e h = ground arith

power :
    (b : Bool) (r k p : ℕ)
    → b ≡ true
    → (if b then leb 1 k && (p == r) else leb 3 r) ≡ true
    → (1 ≤ k) × (p ≡ r)
power b r k p e h = ground arith

power_parts :
    (radix : ℕ)
    → binary_right radix ≡ true
    → (is_power_of_two radix ≡ true → (1 ≤ 31 - clz32 radix) × (2 ^ (31 - clz32 radix) ≡ radix))
      × (is_power_of_two radix ≡ false → 3 ≤ radix)
unfolding binary_right
power_parts radix checked = (λ e. power _ _ _ _ e checked, λ e. large _ _ _ _ e checked)

-- For every radix from 2 to 36 and every 64-bit word `u64toa_radix` stays within its scratch of 41
-- characters and writes the numeral of the word: every character is a digit below the radix, with
-- small letters from 10 on, the digits stand for the word, and the first is not 0, but for the word
-- 0, which is written as one 0.
pub u64toa_radix_lem :
    (n radix : ℕ)
    → n < 2 ^ 64
    → 2 ≤ radix
    → radix ≤ 36
    → (s : List ℕ) × (u64toa_radix n radix ≡ some s) × IsNumeral radix n s
unfolding u64toa_radix
u64toa_radix_lem n radix h lo hi = elim (Bool-cases (radix == 10)) [
  | inl ten ↦ rw (ten, (==_iff radix 10).0 ten) (u64toa n, refl, u64toa_lem n h)
  | inr other ↦ elim (Bool-cases (is_power_of_two radix)) [
    | inl even ↦
        let (bits, same_radix) = parts.0 even in
        rw (other, even) (_, refl, binary_digits n (31 - clz32 radix) radix bits same_radix hi h)
    | inr odd ↦
        let all = radix_loop_lem 40 n radix [] lo hi (fits n radix (parts.1 odd) h) tt in
        rw (other, odd)
          (
            all.0,
            all.1,
            numeral radix n all.0 all.3 (all.2 ∙ unfold of_digits in refl)
                (λ z. all.4 z ∙ zero_char) all.5,
          )
  ]
]
  where
    same : radix - 2 + 2 ≡ radix
    same = omega arith

    checked : binary_right radix ≡ true
    checked =
        rw same at
          (all_below_sound 35 (λ i. binary_right (i + 2)) (radix - 2) binary_all (omega arith))

    parts :
        (is_power_of_two radix ≡ true → (1 ≤ 31 - clz32 radix) × (2 ^ (31 - clz32 radix) ≡ radix))
        × (is_power_of_two radix ≡ false → 3 ≤ radix)
    parts = power_parts radix checked
