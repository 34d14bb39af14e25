-- ===== src/Digits/Fixed.antt =====
-- `u32toa_len`, `u64toa_bin_len` and `limb_to_a`: a given number of digits.
use mquickjs_port.Base.{
  ℕ, zero, suc, ◌+◌, ◌*◌, ◌/◌, ◌%◌, ◌^◌, ◌≤◌, ◌≡◌, refl, ◌∙◌, arith, List, [], ◌∷◌, length,
  Bool-cases, ◌==◌, ==_iff, inl, inr,
}
use mquickjs_port.Base.Bits.{bit_and_mask}
use mquickjs_port.Digits.{digit_char, limb_loop, u32toa_len, u64toa_bin_len, limb_to_a}
use mquickjs_port.Digits.Reading.{of_digits, limb_loop_lem}

small_digit : (n : ℕ) → digit_char (n % 10) ≡ n % 10 + b'0'
unfolding digit_char
small_digit n = ground arith

-- The three loops are one.
pub u32toa_len-limb_loop :
    (len n : ℕ) (tail : List ℕ) → u32toa_len len n tail ≡ limb_loop len n 10 tail
unfolding u32toa_len limb_loop
u32toa_len-limb_loop zero n tail = refl
u32toa_len-limb_loop (suc len) n tail =
    rw (u32toa_len-limb_loop len (n / 10) ((n % 10 + b'0') ∷ tail), small_digit n)

pub u64toa_bin_len-limb_loop :
    (len n bits : ℕ) (tail : List ℕ)
    → u64toa_bin_len len n bits tail ≡ limb_loop len n (2 ^ bits) tail
unfolding u64toa_bin_len limb_loop
u64toa_bin_len-limb_loop zero n bits tail = refl
u64toa_bin_len-limb_loop (suc len) n bits tail =
    rw (bit_and_mask bits n) (u64toa_bin_len-limb_loop len (n / 2 ^ bits) bits _)

pub limb_to_a-limb_loop : (n radix len : ℕ) → limb_to_a n radix len ≡ limb_loop len n radix []
unfolding limb_to_a
limb_to_a-limb_loop n radix len = elim (Bool-cases (radix == 10)) [
  | inl ten ↦ rw (ten, u32toa_len-limb_loop len n [], (==_iff radix 10).0 ten)
  | inr other ↦ rw other
]

zero_acc : (radix len : ℕ) (r : ℕ) → 0 * radix ^ len + r ≡ r
zero_acc radix len r = omega arith

-- For a radix from 2 to 36 `limb_to_a` writes `len` characters, and they stand for the limb modulo
-- `radix ^ len`.
pub limb_to_a_lem :
    (n radix len : ℕ)
    → 2 ≤ radix
    → radix ≤ 36
    → (of_digits radix 0 (limb_to_a n radix len) ≡ n % radix ^ len)
      × (length (limb_to_a n radix len) ≡ len)
unfolding of_digits
limb_to_a_lem n radix len lo hi =
    let loop = limb_loop_lem radix len n 0 [] lo hi in
    rw (limb_to_a-limb_loop n radix len)
      (loop.0 ∙ zero_acc radix len (n % radix ^ len), loop.1 ∙ omega arith)
