-- ===== src/Softfp/Wide/Multiply.antt =====
-- The product from half words against the product.
use mquickjs_port.Base.{ℕ, ◌+◌, ◌-◌, ◌*◌, ◌/◌, ◌%◌, ◌^◌, ◌≤◌, ◌<◌, ◌≡◌, ap, ◌∙◌, arith, bit_or}
use mquickjs_port.Base.Bits.{bit_or_fields}
use mquickjs_port.Softfp.Format.{float64}
use mquickjs_port.Softfp.Wide.{mul_u, mul_u_halves}
use native.Mathlib.Nat.{mul-le-mul, mod-eq_of_lt}
use mathlib.Core.Path.{ap₂}

expand :
    (a1 a0 b1 b0 : ℕ)
    → (a1 * 2 ^ 32 + a0) * (b1 * 2 ^ 32 + b0)
      ≡ a0 * b0 + 2 ^ 32 * (a0 * b1 + a1 * b0) + 2 ^ 64 * (a1 * b1)
expand a1 a0 b1 b0 = omega arith

le_pred : (x : ℕ) → x < 2 ^ 32 → x ≤ 2 ^ 32 - 1
le_pred x h = omega arith

-- A product of two half words.
small : (x y : ℕ) → x < 2 ^ 32 → y < 2 ^ 32 → x * y ≤ (2 ^ 32 - 1) * (2 ^ 32 - 1)
small x y h k = mul-le-mul (le_pred x h) (le_pred y k)

-- Two half words side by side.
side_by_side :
    (r1 r0 : ℕ) → r1 < 2 ^ 32 → r0 < 2 ^ 32 → bit_or (r1 * 2 ^ 32 % 2 ^ 64) r0 ≡ r1 * 2 ^ 32 + r0
side_by_side r1 r0 h k =
    let fits : r1 * 2 ^ 32 < 2 ^ 64 = omega arith in
    ap (λ (t : ℕ). bit_or t r0) (mod-eq_of_lt fits) ∙ bit_or_fields 32 r1 r0 k

-- The columns of the product of four half words, added with their carries.
abbrev middle : ℕ → ℕ → ℕ → ℕ
middle r00 r01 r10 = (r00 / 2 ^ 32 + r01 % 2 ^ 32 + r10 % 2 ^ 32) % 2 ^ 64

abbrev high : ℕ → ℕ → ℕ → ℕ → ℕ
high c r01 r10 r11 = (c / 2 ^ 32 + r01 / 2 ^ 32 + r10 / 2 ^ 32 + r11 % 2 ^ 32) % 2 ^ 64

abbrev words : ℕ → ℕ → ℕ → ℕ → ℕ × ℕ
words r00 r01 r10 r11 =
    let c = middle r00 r01 r10 in
    let c' = high c r01 r10 r11 in
    (
      bit_or (c % 2 ^ 32 * 2 ^ 32 % 2 ^ 64) (r00 % 2 ^ 32),
      bit_or ((c' / 2 ^ 32 + r11 / 2 ^ 32) % 2 ^ 32 * 2 ^ 32 % 2 ^ 64) (c' % 2 ^ 32),
    )

columns :
    (p00 p01 p10 p11 all : ℕ)
    → p00 ≤ (2 ^ 32 - 1) * (2 ^ 32 - 1)
    → p01 ≤ (2 ^ 32 - 1) * (2 ^ 32 - 1)
    → p10 ≤ (2 ^ 32 - 1) * (2 ^ 32 - 1)
    → p11 ≤ (2 ^ 32 - 1) * (2 ^ 32 - 1)
    → all ≡ p00 + 2 ^ 32 * (p01 + p10) + 2 ^ 64 * p11
    → words (p00 % 2 ^ 64) (p01 % 2 ^ 64) (p10 % 2 ^ 64) (p11 % 2 ^ 64)
      ≡ (all % 2 ^ 64, all / 2 ^ 64)
columns p00 p01 p10 p11 all h00 h01 h10 h11 e = λ i. (low i, top i)
  where
    low : (words (p00 % 2 ^ 64) (p01 % 2 ^ 64) (p10 % 2 ^ 64) (p11 % 2 ^ 64)).0 ≡ all % 2 ^ 64
    low = side_by_side _ _ (omega arith) (omega arith) ∙ omega arith

    top : (words (p00 % 2 ^ 64) (p01 % 2 ^ 64) (p10 % 2 ^ 64) (p11 % 2 ^ 64)).1 ≡ all / 2 ^ 64
    top = side_by_side _ _ (omega arith) (omega arith) ∙ omega arith

halves : (a : ℕ) → a < 2 ^ 64 → a ≡ a / 2 ^ 32 % 2 ^ 32 * 2 ^ 32 + a % 2 ^ 32
halves a h = omega arith

-- For two words the multiplication of half words with carries returns the two words that the
-- multiplication into a double word returns.
pub mul_u_halves-mul_u :
    (a b : ℕ) → a < 2 ^ 64 → b < 2 ^ 64 → mul_u_halves float64 a b ≡ mul_u float64 a b
unfolding mul_u_halves mul_u
mul_u_halves-mul_u a b ha hb =
    columns (a0 * b0) (a0 * b1) (a1 * b0) (a1 * b1) (a * b)
      (small a0 b0 (omega arith) (omega arith)) (small a0 b1 (omega arith) (omega arith))
      (small a1 b0 (omega arith) (omega arith)) (small a1 b1 (omega arith) (omega arith))
      (split ∙ expand a1 a0 b1 b0)
  where
    a0 : ℕ
    a0 = a % 2 ^ 32

    a1 : ℕ
    a1 = a / 2 ^ 32 % 2 ^ 32

    b0 : ℕ
    b0 = b % 2 ^ 32

    b1 : ℕ
    b1 = b / 2 ^ 32 % 2 ^ 32

    split : a * b ≡ (a1 * 2 ^ 32 + a0) * (b1 * 2 ^ 32 + b0)
    split = ap₂ (λ (x y : ℕ). x * y) (halves a ha) (halves b hb)
