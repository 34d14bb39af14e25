-- ===== src/Softfp/Arith/Operand.antt =====
-- The operands of softfp_template.h that are normal numbers.
use mquickjs_port.Base.{ℕ, ◌+◌, ◌/◌, ◌%◌, ◌^◌, ◌<◌, ◌≡◌, ◌∙◌, arith, bit_and, ◌==◌, false, low_mask}
use mquickjs_port.Base.Bits.{bit_and_mask, bit_or_comm, bit_or_fields}
use mquickjs_port.Base.Int.{pos}
use mquickjs_port.Softfp.Format.{float64}
use mquickjs_port.Softfp.Arith.{operand, is_zero}

-- The biased exponent, and the mantissa with its hidden bit.
abbrev pub exp_of_sf : ℕ → ℕ
exp_of_sf a = a / 2 ^ 52 % 2 ^ 11

abbrev pub mant_of_sf : ℕ → ℕ
mant_of_sf a = 2 ^ 52 + a % 2 ^ 52

abbrev pub IsNormal : ℕ → Type 0
IsNormal a = (0 < exp_of_sf a) × (exp_of_sf a < 2047)

pub operand_lem : (a : ℕ) → IsNormal a → operand float64 a ≡ (pos (exp_of_sf a), mant_of_sf a)
unfolding operand
operand_lem a h =
    let normal : (exp_of_sf a == 0) ≡ false = ground (arith, h) in
    rw (bit_and_mask 11 (a / 2 ^ 52), bit_and_mask 52 a, normal)
      (λ i. (
        pos (exp_of_sf a),
        (bit_or_comm (a % 2 ^ 52) (2 ^ 52) ∙ bit_or_fields 52 1 (a % 2 ^ 52) (omega arith)) i,
      ))

pub normal_tests :
    (a : ℕ)
    → IsNormal a
    → ((bit_and (a / 2 ^ 52) (low_mask 11) == 2047) ≡ false) × (is_zero float64 a ≡ false)
unfolding is_zero
normal_tests a h = rw (bit_and_mask 11 (a / 2 ^ 52)) (ground (arith, h), ground (arith, h))
