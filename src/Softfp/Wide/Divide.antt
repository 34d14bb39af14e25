-- ===== src/Softfp/Wide/Divide.antt =====
-- The long division by bits against the division.
use mquickjs_port.Base.{
  ℕ, zero, suc, ◌+◌, ◌-◌, ◌*◌, ◌/◌, ◌%◌, ◌^◌, ◌<◌, ◌≡◌, refl, ap, sym, ◌∙◌, arith, bit_or, ◌<<<◌,
  ◌==◌, leb, not, ◌||◌, Bool-cases, inl, inr,
}
use mquickjs_port.Base.Bits.{bit_or_fields}
use mquickjs_port.Base.Pow.{pow-add, pow-pos, div_unique, mod_unique}
use mquickjs_port.Softfp.Format.{float64}
use mquickjs_port.Softfp.Wide.{divrem_u, divrem_u_bits, divide_step, divide_loop}
use native.Mathlib.Nat.{mod-eq_of_lt, mul-le-mul_right, mod-lt, div-add-mod, pow-suc}

-- A shifted word takes a bit.
shift_in : (x c : ℕ) → c < 2 → bit_or (x * 2 % 2 ^ 64) c ≡ x * 2 % 2 ^ 64 + c
shift_in x c h =
    let even : x * 2 % 2 ^ 64 ≡ (x % 2 ^ 63) * 2 = omega arith in
    rw even (bit_or_fields 1 (x % 2 ^ 63) c h)

both : {a a' b b' : ℕ} → a ≡ a' → b ≡ b' → Path (ℕ × ℕ) (a, b) (a', b')
both p q = λ i. (p i, q i)

-- Whether the subtraction takes place, as a comparison of the number without its wrap.
overflows :
    (b a1 c : ℕ)
    → c < 2
    → b < 2 ^ 64
    → (not (a1 / 2 ^ 63 == 0) || leb b (a1 * 2 % 2 ^ 64 + c)) ≡ leb b (a1 * 2 + c)
overflows b a1 c h hb = elim (Bool-cases (a1 / 2 ^ 63 == 0)) [
  | inl low ↦ let fits : a1 * 2 < 2 ^ 64 = ground arith in rw (low, mod-eq_of_lt fits) refl
  | inr high ↦ rw high (ground arith)
]

-- One step: the remainder `a1` is doubled and takes the highest bit of `a0`, and the quotient bit
-- goes in below.
divide_step_lem :
    (b a1 a0 : ℕ)
    → a1 < b
    → b < 2 ^ 64
    → a0 < 2 ^ 64
    → (q r : ℕ) × (q < 2)
      × (r < b)
      × (a1 * 2 + a0 / 2 ^ 63 ≡ q * b + r)
      × (divide_step float64 b (a1, a0) ≡ (r, a0 % 2 ^ 63 * 2 + q))
unfolding divide_step
divide_step_lem b a1 a0 h hb ha = elim (Bool-cases (leb b (a1 * 2 + a0 / 2 ^ 63))) [
  | inl over ↦ (
    1,
    a1 * 2 + a0 / 2 ^ 63 - b,
    omega arith,
    ground arith,
    ground arith,
    rw
        (
          shift_in a1 (a0 / 2 ^ 63) top,
          overflows b a1 (a0 / 2 ^ 63) top hb,
          over,
          shift_in a0 1 (omega arith),
        )
        (both (ground arith) (omega arith)),
  )
  | inr under ↦ (
    0,
    a1 * 2 + a0 / 2 ^ 63,
    omega arith,
    ground arith,
    omega arith,
    rw
        (
          shift_in a1 (a0 / 2 ^ 63) top,
          overflows b a1 (a0 / 2 ^ 63) top hb,
          under,
          shift_in a0 0 (omega arith),
        )
        (both (ground arith) (omega arith)),
  )
]
  where
    top : a0 / 2 ^ 63 < 2
    top = omega arith

-- The highest bit of a word, and the bits that are left.
top_bit :
    (n w top low : ℕ)
    → n + w ≡ 63
    → top < 2 ^ suc n
    → low < 2 ^ w
    → (top * 2 ^ w + low < 2 ^ 64)
      × ((top * 2 ^ w + low) / 2 ^ 63 ≡ top / 2 ^ n)
      × ((top * 2 ^ w + low) % 2 ^ 63 ≡ top % 2 ^ n * 2 ^ w + low)
top_bit n w top low hw ht hl = (
  omega (
    arith,
    mul-le-mul_right {m = suc top} {n = 2 ^ suc n} (2 ^ w) ht,
    ap (λ (t : ℕ). t * 2 ^ w) (pow-suc 2 n),
    whole,
  ),
  div_unique _ (2 ^ 63) _ _ split below,
  mod_unique _ (2 ^ 63) _ _ split below,
)
  where
    whole : 2 ^ n * 2 ^ w ≡ 2 ^ 63
    whole = sym (pow-add 2 n w) ∙ ap (λ (t : ℕ). 2 ^ t) hw

    split : top * 2 ^ w + low ≡ 2 ^ 63 * (top / 2 ^ n) + (top % 2 ^ n * 2 ^ w + low)
    split = omega (
      arith,
      ap (λ (t : ℕ). t * 2 ^ w) (div-add-mod top (2 ^ n)),
      ap (λ (t : ℕ). t * (top / 2 ^ n)) whole,
    )

    below : top % 2 ^ n * 2 ^ w + low < 2 ^ 63
    below = omega (
      arith,
      mul-le-mul_right {m = suc (top % 2 ^ n)} {n = 2 ^ n} (2 ^ w)
          (mod-lt top (pow-pos 2 n (omega arith))),
      whole,
    )

-- The loop divides: `top` are the bits of the dividend that are left, and `low` is the quotient so
-- far.
divide_loop_lem :
    (n w b a1 top low : ℕ)
    → n + w ≡ 64
    → a1 < b
    → b < 2 ^ 64
    → top < 2 ^ n
    → low < 2 ^ w
    → (q r : ℕ) × (q < 2 ^ n)
      × (r < b)
      × (a1 * 2 ^ n + top ≡ q * b + r)
      × (divide_loop float64 b n (a1, top * 2 ^ w + low) ≡ (r, low * 2 ^ n + q))
unfolding divide_loop
divide_loop_lem zero w b a1 top low hw h hb ht hl =
    let none_left : top ≡ 0 = omega arith in
    (
      0,
      a1,
      omega arith,
      h,
      omega arith,
      both refl (omega (arith, ap (λ (t : ℕ). t * 2 ^ w) none_left)),
    )
divide_loop_lem (suc n) w b a1 top low hw h hb ht hl =
    let (fits, high_bit, left) = top_bit n w top low (omega arith) ht hl in
    let (q1, r1, hq1, hr1, e1, step) = divide_step_lem b a1 (top * 2 ^ w + low) h hb fits in
    let (q, r, hq, hr, e, loop) =
      divide_loop_lem n (suc w) b r1 (top % 2 ^ n) (low * 2 + q1) (omega arith) hr1 hb
        (mod-lt top (pow-pos 2 n (omega arith))) (omega (arith, pow-suc 2 w, hq1, hl)) in
    (
      q1 * 2 ^ n + q,
      r,
      omega
          (arith, hq, mul-le-mul_right {m = q1} {n = 1} (2 ^ n) (omega (arith, hq1)), pow-suc 2 n),
      hr,
      omega (
        arith,
        ap (λ (t : ℕ). t * 2 ^ n) e1,
        ap (λ (t : ℕ). t * 2 ^ n) high_bit,
        e,
        div-add-mod top (2 ^ n),
        ap (λ (t : ℕ). a1 * t) (pow-suc 2 n),
      ),
      ap (divide_loop float64 b n)
            (step ∙ both refl (omega (arith, left, ap (λ (t : ℕ). top % 2 ^ n * t) (pow-suc 2 w))))
          ∙ loop
          ∙ both refl (omega (arith, ap (λ (t : ℕ). low * t) (pow-suc 2 n))),
    )

-- For words with the high word below the divisor, the long division by bits returns the quotient
-- and the remainder that the division of a double word returns.
pub divrem_u_bits-divrem_u :
    (a1 a0 b : ℕ)
    → a1 < b
    → a0 < 2 ^ 64
    → b < 2 ^ 64
    → divrem_u_bits float64 a1 a0 b ≡ divrem_u float64 a1 a0 b
unfolding divrem_u_bits divrem_u
divrem_u_bits-divrem_u a1 a0 b h ha hb =
    let (q, r, hq, hr, e, loop) = divide_loop_lem 64 0 b a1 a0 0 refl h hb ha (omega arith) in
    let a = bit_or (a1 <<< 64) a0 in
    let whole : a ≡ b * q + r = omega (arith, bit_or_fields 64 a1 a0 ha, e) in
    let start : a0 ≡ a0 * 2 ^ 0 + 0 = omega arith in
    let loop' : divide_loop float64 b 64 (a1, a0) ≡ (r, q) =
      ap (λ (t : ℕ). divide_loop float64 b 64 (a1, t)) start ∙ loop ∙ both refl (omega arith) in
    ap (λ (t : ℕ × ℕ). (t.1, t.0)) loop'
    ∙ both (sym (ap (λ (t : ℕ). t % 2 ^ 64) (div_unique a b q r whole hr) ∙ mod-eq_of_lt hq))
        (sym (mod_unique a b q r whole hr))
