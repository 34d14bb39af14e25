-- ===== src/Digits/Decimal.antt =====
-- `u32toa`, `u64toa` and `i64toa`: the decimal digits of a word, with none missing.
use mquickjs_port.Base.{
  ℕ, zero, suc, ◌+◌, ◌*◌, ◌/◌, ◌%◌, ◌^◌, ◌≤◌, ◌<◌, ◌≡◌, ◌≢◌, refl, ap, sym, ◌∙◌, arith, List, [],
  ◌∷◌, ◌++◌, length, u32, ltb, leb, if◌then◌else◌, false, Bool-cases, length-append, ◌==◌, inl, inr,
  get_or,
}
use mquickjs_port.Digits.{to_digit, u32toa_loop, u32toa, u32toa_len, u64toa}
use mquickjs_port.Digits.Reading.{of_digits, of_digits-append, limb_loop_lem}
use mquickjs_port.Digits.Numeral.{IsNumeral, numeral, u64toa-AreDigits, u64toa_zero}
use mquickjs_port.Digits.Fixed.{u32toa_len-limb_loop}
use mathlib.Core.List.{append_assoc}
use mathlib.Core.Path.{subst}
use native.Mathlib.Nat.{pow-suc, mod-eq_of_lt}

to_digit_decimal : (d : ℕ) → d < 10 → to_digit (d + b'0') ≡ d
unfolding to_digit
to_digit_decimal d h = ground arith

room_pos : (room n : ℕ) → (n / 10 == 0) ≡ false → n < 10 ^ suc room → 1 ≤ room
room_pos zero n e h = absurd (ground arith)
room_pos (suc room) n e h = omega arith

-- Reading one more decimal digit.
read_digit :
    (acc d m : ℕ) (tail : List ℕ)
    → d < 10
    → acc * 10 + d ≡ m
    → of_digits 10 acc ((d + b'0') ∷ tail) ≡ of_digits 10 m tail
unfolding of_digits
read_digit acc d m tail h e =
    ap (λ (t : ℕ). of_digits 10 (acc * 10 + t) tail) (to_digit_decimal d h)
    ∙ ap (λ (t : ℕ). of_digits 10 t tail) e

-- The scratch is large enough, and the digits stand for the number.
u32toa_loop_lem :
    (room n : ℕ) (tail : List ℕ)
    → 1 ≤ room
    → n < 10 ^ room
    → (of_digits 10 0 (u32toa_loop room n tail) ≡ of_digits 10 n tail)
      × (length (u32toa_loop room n tail) ≤ room + length tail)
      × (1 ≤ length (u32toa_loop room n tail))
      × (0 < n → get_or (u32toa_loop room n tail) 0 0 ≢ b'0')
unfolding u32toa_loop
u32toa_loop_lem zero n tail k h = absurd (omega arith)
u32toa_loop_lem (suc room) n tail k h = elim (Bool-cases (n / 10 == 0)) [
  | inl last ↦ rw last (
    read_digit 0 (n % 10) n tail (omega arith) (ground arith),
    omega arith,
    omega arith,
    λ p. ground arith,
  )
  | inr more ↦
      let rest =
        u32toa_loop_lem room (n / 10) ((n % 10 + b'0') ∷ tail) (room_left more)
          (omega (arith, pow-suc 10 room)) in
      rw more (
        rest.0 ∙ read_digit (n / 10) (n % 10) n tail (omega arith) (omega arith),
        omega (arith, rest.1),
        rest.2,
        λ p. rest.3 (ground arith),
      )
]
  where
    room_left : (n / 10 == 0) ≡ false → 1 ≤ room
    room_left more = room_pos room n more h

-- The decimal digits that `s` should be: they stand for `n`, and the first is not 0 unless `n` is.
abbrev IsDecimal : ℕ → List ℕ → Type 0
IsDecimal n s = (of_digits 10 0 s ≡ n) × (0 < n → get_or s 0 0 ≢ b'0')

u32toa_lem :
    (n : ℕ)
    → n < 2 ^ 32
    → IsDecimal n (u32toa n) × (length (u32toa n) ≤ 10) × (1 ≤ length (u32toa n))
unfolding u32toa
u32toa_lem n h =
    let loop = u32toa_loop_lem 10 n [] (omega arith) (omega arith) in
    rw (mod-eq_of_lt h) ((loop.0 ∙ unfold of_digits in refl, loop.3), omega (arith, loop.1), loop.2)

-- Nine digits behind others.
nine : (acc n : ℕ) → n < 10 ^ 9 → of_digits 10 acc (u32toa_len 9 n []) ≡ acc * 10 ^ 9 + n
unfolding of_digits
nine acc n h =
    rw (u32toa_len-limb_loop 9 n [])
      ((limb_loop_lem 10 9 n acc [] (omega arith) (omega arith)).0 ∙ omega arith)

first-append : (s t : List ℕ) → 1 ≤ length s → get_or (s ++ t) 0 0 ≡ get_or s 0 0
first-append [] t h = absurd (omega arith)
first-append (c ∷ s) t h = refl

-- The one or two digits above the two groups of nine.
abbrev high_digits : ℕ → List ℕ
high_digits n2 = if leb 10 n2 then (n2 / 10 + b'0') ∷ (n2 % 10 + b'0') ∷ [] else (n2 + b'0') ∷ []

high_digits_lem :
    (n2 : ℕ)
    → 0 < n2
    → n2 < 100
    → (of_digits 10 0 (high_digits n2) ≡ n2)
      × (get_or (high_digits n2) 0 0 ≢ b'0')
      × (1 ≤ length (high_digits n2))
high_digits_lem n2 p h = elim (Bool-cases (leb 10 n2)) [
  | inl two ↦ rw two (
    read_digit 0 (n2 / 10) (n2 / 10) _ (omega arith) (omega arith)
        ∙ read_digit (n2 / 10) (n2 % 10) n2 [] (omega arith) (omega arith)
        ∙ unfold of_digits in refl,
    λ e. ground arith,
    omega arith,
  )
  | inr one ↦ rw one (
    read_digit 0 n2 n2 [] (ground arith) (omega arith) ∙ unfold of_digits in refl,
    λ e. ground arith,
    omega arith,
  )
]

-- Nine digits behind the digits of a positive number.
behind :
    (s : List ℕ) (m low n : ℕ)
    → of_digits 10 0 s ≡ m
    → get_or s 0 0 ≢ b'0'
    → 1 ≤ length s
    → low < 10 ^ 9
    → m * 10 ^ 9 + low ≡ n
    → (of_digits 10 0 (s ++ u32toa_len 9 low []) ≡ n)
      × (get_or (s ++ u32toa_len 9 low []) 0 0 ≢ b'0')
      × (1 ≤ length (s ++ u32toa_len 9 low []))
behind s m low n e first k h sum = (
  of_digits-append 10 0 s _
      ∙ ap (λ (t : ℕ). of_digits 10 t (u32toa_len 9 low [])) e
      ∙ nine m low h
      ∙ sum,
  λ z. first (sym (first-append s _ k) ∙ z),
  omega (arith, length-append s (u32toa_len 9 low [])),
)

-- The three groups of a number from 2 ^ 32 * 10 ^ 9 on.
three_groups :
    (n2 n1 low n : ℕ)
    → 0 < n2
    → n2 < 100
    → n1 < 10 ^ 9
    → low < 10 ^ 9
    → (n2 * 10 ^ 9 + n1) * 10 ^ 9 + low ≡ n
    → IsDecimal n (high_digits n2 ++ (u32toa_len 9 n1 [] ++ u32toa_len 9 low []))
three_groups n2 n1 low n p h h1 h0 sum =
    let high = high_digits_lem n2 p h in
    let two = behind (high_digits n2) n2 n1 (n2 * 10 ^ 9 + n1) high.0 high.1 high.2 h1 refl in
    let all =
      behind (high_digits n2 ++ u32toa_len 9 n1 []) (n2 * 10 ^ 9 + n1) low n two.0 two.1 two.2 h0
        sum in
    subst (λ s. IsDecimal n s) (append_assoc (high_digits n2) _ _) (all.0, λ q. all.1)

u32_small : (n : ℕ) → n < 2 ^ 32 → u32 n ≡ n
u32_small n h = mod-eq_of_lt h

u64toa-IsDecimal : (n : ℕ) → n < 2 ^ 64 → IsDecimal n (u64toa n)
unfolding u64toa
u64toa-IsDecimal n h = elim (Bool-cases (ltb n 0x100000000)) [
  | inl short ↦ rw short (u32toa_lem n (ground arith)).0
  | inr long ↦ elim (Bool-cases (leb 0x100000000 (n / 1000000000))) [
    | inl longer ↦
        rw
          (
            long,
            longer,
            u32_small (n / 1000000000 / 1000000000) (omega arith),
            u32_small (n / 1000000000 % 1000000000) (omega arith),
            u32_small (n % 1000000000) (omega arith),
          )
          (three_groups (n / 1000000000 / 1000000000) (n / 1000000000 % 1000000000) (n % 1000000000)
            n (ground arith) (omega arith) (omega arith) (omega arith) (omega arith))
    | inr middle ↦
        let first = u32toa_lem (n / 1000000000) (ground arith) in
        let all =
          behind (u32toa (n / 1000000000)) (n / 1000000000) (n % 1000000000) n first.0.0
            (first.0.1 (ground arith)) first.2 (omega arith) (omega arith) in
        rw (long, middle, u32_small (n % 1000000000) (omega arith)) (all.0, λ p. all.1)
  ]
]

-- For a 64-bit word `u64toa` writes its decimal numeral: every character is a decimal digit, the
-- digits stand for the word, and the first is not 0, but for the word 0, which is written as one 0.
pub u64toa_lem : (n : ℕ) → n < 2 ^ 64 → IsNumeral 10 n (u64toa n)
u64toa_lem n h =
    let all = u64toa-IsDecimal n h in
    numeral 10 n (u64toa n) (u64toa-AreDigits n h) all.0 (λ z. ap u64toa z ∙ u64toa_zero) all.1
