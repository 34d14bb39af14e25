-- ===== src/Digits/Numeral.antt =====
-- What it is to be a number written out: digits of the radix, and no zeros in front. Of each
-- printing loop it is shown which characters it writes.
use mquickjs_port.Base.{
  ◌⊎◌, ℕ, zero, suc, ◌+◌, ◌/◌, ◌%◌, ◌^◌, ◌≤◌, ◌<◌, ◌≡◌, ◌≢◌, refl, arith, List, [], ◌∷◌, u32, ltb,
  leb, if◌then◌else◌, Bool-cases, ◌==◌, inl, inr, get_or, All, All-append,
}
use mquickjs_port.Base.Pow.{pow-one}
use mquickjs_port.Digits.{digit_char, to_digit, limb_loop, u32toa_loop, u32toa, u32toa_len, u64toa}
use mquickjs_port.Digits.Reading.{of_digits}
use mquickjs_port.Digits.Fixed.{u32toa_len-limb_loop}
use native.Mathlib.Nat.{
  pow-suc, mod-eq_of_lt, mod-lt, le-div_iff_mul-le, div-lt_iff_lt-mul, pow-zero,
}

-- A character from '0' to '9' or from 'a' on that stands for a digit below the radix.
abbrev pub DigitIn : ℕ → ℕ → Type 0
DigitIn radix c = (to_digit c < radix) × ((c ≤ b'9') ⊎ (b'a' ≤ c))

abbrev pub AreDigits : ℕ → List ℕ → Type 0
AreDigits radix s = All (DigitIn radix) s

-- The numeral of `n` in the radix: all characters are digits of the radix, they stand for `n`, and
-- there is no zero in front; 0 is written as one zero.
abbrev pub IsNumeral : ℕ → ℕ → List ℕ → Type 0
IsNumeral radix n s =
    AreDigits radix s
    × (of_digits radix 0 s ≡ n)
    × (((n ≡ 0) × (s ≡ b'0' ∷ [])) ⊎ ((0 < n) × (get_or s 0 0 ≢ b'0')))

-- A numeral from its parts, with a case for 0.
pub numeral :
    (radix n : ℕ) (s : List ℕ)
    → AreDigits radix s
    → of_digits radix 0 s ≡ n
    → (n ≡ 0 → s ≡ b'0' ∷ [])
    → (0 < n → get_or s 0 0 ≢ b'0')
    → IsNumeral radix n s
numeral radix zero s d e z p = (d, e, inl (refl, z refl))
numeral radix (suc n) s d e z p = (d, e, inr (omega arith, p (omega arith)))

pub digit_char-DigitIn : (radix d : ℕ) → radix ≤ 36 → d < radix → DigitIn radix (digit_char d)
unfolding digit_char to_digit
digit_char-DigitIn radix d hi h = (ground arith, ground arith)

pub digit_char-pos : (d : ℕ) → 0 < d → digit_char d ≢ b'0'
unfolding digit_char
digit_char-pos d h e = ground arith

decimal-DigitIn : (d : ℕ) → d < 10 → DigitIn 10 (d + b'0')
unfolding to_digit
decimal-DigitIn d h = (ground arith, inl (omega arith))

-- The loop of `limb_to_a` writes digits of its radix.
pub limb_loop-AreDigits :
    (radix len n : ℕ) (tail : List ℕ)
    → 2 ≤ radix
    → radix ≤ 36
    → AreDigits radix tail
    → AreDigits radix (limb_loop len n radix tail)
unfolding limb_loop
limb_loop-AreDigits radix zero n tail lo hi h = h
limb_loop-AreDigits radix (suc len) n tail lo hi h =
    limb_loop-AreDigits radix len (n / radix) (digit_char (n % radix) ∷ tail) lo hi
      (digit_char-DigitIn radix (n % radix) hi (mod-lt n {m = radix} (omega arith)), h)

-- With just as many digits as the number has, the first is not 0.
pub limb_loop_first :
    (radix len n : ℕ) (tail : List ℕ)
    → 2 ≤ radix
    → radix ^ len ≤ n
    → n < radix ^ suc len
    → get_or (limb_loop (suc len) n radix tail) 0 0 ≢ b'0'
unfolding limb_loop
limb_loop_first radix zero n tail lo h k =
    rw (mod-eq_of_lt {n = n} {m = radix} (omega (arith, pow-one radix)))
      (digit_char-pos n (omega (arith, pow-zero radix)))
limb_loop_first radix (suc len) n tail lo h k =
    limb_loop_first radix len (n / radix) (digit_char (n % radix) ∷ tail) lo
      ((le-div_iff_mul-le (omega arith)).1 (omega (arith, pow-suc radix len)))
      ((div-lt_iff_lt-mul (omega arith)).1 (omega (arith, pow-suc radix (suc len))))

-- The loop of `u32toa` writes decimal digits.
u32toa_loop-AreDigits :
    (room n : ℕ) (tail : List ℕ) → AreDigits 10 tail → AreDigits 10 (u32toa_loop room n tail)
unfolding u32toa_loop
u32toa_loop-AreDigits zero n tail h = h
u32toa_loop-AreDigits (suc room) n tail h =
    let now : AreDigits 10 ((n % 10 + b'0') ∷ tail) = (decimal-DigitIn (n % 10) (omega arith), h) in
    elim (Bool-cases (n / 10 == 0)) [
      | inl last ↦ rw last now
      | inr more ↦ rw more (u32toa_loop-AreDigits room (n / 10) _ now)
    ]

u32toa_len-AreDigits : (len n : ℕ) → AreDigits 10 (u32toa_len len n [])
u32toa_len-AreDigits len n =
    rw (u32toa_len-limb_loop len n [])
      (limb_loop-AreDigits 10 len n [] (omega arith) (omega arith) tt)

-- The one or two digits above the two groups of nine.
high-AreDigits :
    (n2 : ℕ)
    → n2 < 100
    → AreDigits 10
        (if leb 10 n2 then (n2 / 10 + b'0') ∷ (n2 % 10 + b'0') ∷ [] else (n2 + b'0') ∷ [])
high-AreDigits n2 h = elim (Bool-cases (leb 10 n2)) [
  | inl two ↦
      rw two
        (decimal-DigitIn (n2 / 10) (omega arith), (decimal-DigitIn (n2 % 10) (omega arith), tt))
  | inr one ↦ rw one (decimal-DigitIn n2 (ground arith), tt)
]

-- All characters of `u64toa` are decimal digits.
pub u64toa-AreDigits : (n : ℕ) → n < 2 ^ 64 → AreDigits 10 (u64toa n)
unfolding u64toa u32toa
u64toa-AreDigits n h = elim (Bool-cases (ltb n 0x100000000)) [
  | inl short ↦ rw short (u32toa_loop-AreDigits 10 (u32 n) [] tt)
  | inr long ↦ elim (Bool-cases (leb 0x100000000 (n / 1000000000))) [
    | inl longer ↦
        rw (long, longer)
          (All-append (DigitIn 10) _ _
            (high-AreDigits (u32 (n / 1000000000 / 1000000000)) (omega arith))
            (All-append (DigitIn 10) _ _ (u32toa_len-AreDigits 9 _) (u32toa_len-AreDigits 9 _)))
    | inr middle ↦
        rw (long, middle)
          (All-append (DigitIn 10) _ _ (u32toa_loop-AreDigits 10 (u32 (n / 1000000000)) [] tt)
            (u32toa_len-AreDigits 9 _))
  ]
]

pub u64toa_zero : u64toa 0 ≡ b'0' ∷ []
unfolding u64toa u32toa u32toa_loop
u64toa_zero = refl
