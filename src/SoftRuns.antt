-- ===== src/SoftRuns.antt =====
-- Runs of the theorems on js_dtoa, js_atod and the soft floating point at concrete inputs.
use mquickjs_port.Base.{
  ℕ, suc, ◌+◌, ◌-◌, ◌*◌, ◌^◌, ◌≤◌, ◌<◌, ◌≡◌, refl, arith, ◌==◌, not, if◌then◌else◌, List, [], ◌∷◌,
  ◌++◌, length, some, inl, inr,
}
use mquickjs_port.Base.Int.{pos, negsuc, ◌-ℤ◌, eq_ℤ, ltb_ℤ, leb_ℤ}
use mquickjs_port.Double.{pack}
use mquickjs_port.Dtoa.{js_dtoa, sign_text}
use mquickjs_port.Dtoa.Integers.{mantissa, js_dtoa_integer}
use mquickjs_port.Digits.Numeral.{IsNumeral}
use mquickjs_port.JsAtod.{Outcome, js_atod}
use mquickjs_port.JsAtod.Total.{place, js_atod_total}
use mquickjs_port.Rounding.{rndn, rndna, round_div}
use mquickjs_port.Softfp.Arith.{add_sf, sub_sf, mul_sf, div_sf, sqrt_sf, sign_xor}
use mquickjs_port.Softfp.Arith.Operand.{exp_of_sf, mant_of_sf}
use mquickjs_port.Softfp.Arith.Product.{product_shift, mul_sf-round_div}
use mquickjs_port.Softfp.Arith.Quotient.{quotient_shift, div_sf-round_div}
use mquickjs_port.Softfp.Arith.Sum.{mant_sum, sum_carry, add_sf-round_div}
use mquickjs_port.Softfp.Arith.Nan.{nan_operand}
use mquickjs_port.Softfp.Arith.Total.{sqrt_sf_total}
use mquickjs_port.Softfp.Compare.{eq_quiet_sf, le_sf, lt_sf, cmp_sf}
use mquickjs_port.Softfp.Compare.Order.{value_sf, compare_order}
use mquickjs_port.Softfp.Format.{float64, qnan, isnan_sf, sign}
use mquickjs_port.Softfp.Round.{rne, rmm, rup, round_pack_sf}
use mquickjs_port.Softfp.Round.Nearest.{round_pack_sf_lem, round_pack_sf_low}
use mquickjs_port.Softfp.Wide.{mul_u, mul_u_halves, divrem_u, divrem_u_bits, sqrtrem_u}
use mquickjs_port.Softfp.Wide.Divide.{divrem_u_bits-divrem_u}
use mquickjs_port.Softfp.Wide.Multiply.{mul_u_halves-mul_u}
use mquickjs_port.Softfp.Wide.Root.{sqrtrem_u_lem}

-- 1, 1.5, 2.5, -2.5 and 3 as doubles.
abbrev one_sf : ℕ
one_sf = 0x3ff0000000000000

abbrev one_half_sf : ℕ
one_half_sf = 0x3ff8000000000000

abbrev five_halves_sf : ℕ
five_halves_sf = 0x4004000000000000

abbrev minus_five_halves_sf : ℕ
minus_five_halves_sf = 0xc004000000000000

abbrev three_sf : ℕ
three_sf = 0x4008000000000000

mul_sf-round_div_example :
    mul_sf float64 one_half_sf five_halves_sf rne
    ≡ sign_xor (sign float64 one_half_sf) (sign float64 five_halves_sf) * 2 ^ 63
      + (1024 - 1) * 2 ^ 52
      + round_div rndn
          (mant_of_sf one_half_sf * mant_of_sf five_halves_sf)
          (2 ^ product_shift one_half_sf five_halves_sf)
mul_sf-round_div_example =
    mul_sf-round_div rndn one_half_sf five_halves_sf 1024 (omega arith) (omega arith)
      (omega arith, omega arith) (omega arith, omega arith) (omega arith) (omega arith) refl

add_sf-round_div_example :
    add_sf float64 five_halves_sf one_half_sf rne
    ≡ sign float64 five_halves_sf * 2 ^ 63
      + (exp_of_sf five_halves_sf + sum_carry five_halves_sf one_half_sf - 1) * 2 ^ 52
      + round_div rndn (mant_sum five_halves_sf one_half_sf) (
          2 ^ (exp_of_sf five_halves_sf - exp_of_sf one_half_sf)
          * 2 ^ sum_carry five_halves_sf one_half_sf)
add_sf-round_div_example =
    add_sf-round_div rndn five_halves_sf one_half_sf (omega arith) (omega arith)
      (omega arith, omega arith) (omega arith, omega arith) refl (omega arith) (omega arith)

-- A NaN with a payload.
abbrev payload_sf : ℕ
payload_sf = 0x7ff8000000000001

nan_operand_example :
    (add_sf float64 one_sf payload_sf rne ≡ qnan float64)
    × (sub_sf float64 one_sf payload_sf rne ≡ qnan float64)
    × (mul_sf float64 one_sf payload_sf rne ≡ qnan float64)
    × (div_sf float64 one_sf payload_sf rne ≡ qnan float64)
unfolding isnan_sf
nan_operand_example = nan_operand one_sf payload_sf rne (omega arith) refl

div_sf-round_div_example :
    div_sf float64 one_sf three_sf rne
    ≡ sign_xor (sign float64 one_sf) (sign float64 three_sf) * 2 ^ 63
      + (1021 - 1) * 2 ^ 52
      + round_div rndn
          (mant_of_sf one_sf * 2 ^ quotient_shift one_sf three_sf)
          (mant_of_sf three_sf)
div_sf-round_div_example =
    div_sf-round_div rndn one_sf three_sf 1021 (omega arith) (omega arith)
      (omega arith, omega arith) (omega arith, omega arith) (omega arith) (omega arith) refl

round_pack_sf_lem_example :
    round_pack_sf float64 1 (pos 1023) (2 ^ 62 + 2 ^ 9 + 1) rmm
    ≡ 1 * 2 ^ 63 + (1023 - 1) * 2 ^ 52 + round_div rndna (2 ^ 62 + 2 ^ 9 + 1) (2 ^ 10)
round_pack_sf_lem_example =
    round_pack_sf_lem rndna 1 1023 (2 ^ 62 + 2 ^ 9 + 1) (omega arith) (omega arith) (omega arith)
      (omega arith) (omega arith)

round_pack_sf_low_example :
    round_pack_sf float64 0 (pos 1 -ℤ pos 4) (2 ^ 62 + 1) rne
    ≡ 0 * 2 ^ 63 + round_div rndn (2 ^ 62 + 1) (2 ^ 4 * 2 ^ 10)
round_pack_sf_low_example = round_pack_sf_low rndn 0 3 (2 ^ 62 + 1) (omega arith) (omega arith)

compare_order_example :
    (eq_quiet_sf float64 minus_five_halves_sf one_sf
      ≡ eq_ℤ (value_sf minus_five_halves_sf) (value_sf one_sf))
    × (le_sf float64 minus_five_halves_sf one_sf
        ≡ leb_ℤ (value_sf minus_five_halves_sf) (value_sf one_sf))
    × (lt_sf float64 minus_five_halves_sf one_sf
        ≡ ltb_ℤ (value_sf minus_five_halves_sf) (value_sf one_sf))
    × (cmp_sf float64 minus_five_halves_sf one_sf ≡ (
        if ltb_ℤ (value_sf minus_five_halves_sf) (value_sf one_sf)
        then negsuc 0
        else if eq_ℤ (value_sf minus_five_halves_sf) (value_sf one_sf)
        then pos 0
        else pos 1))
unfolding isnan_sf
compare_order_example =
    compare_order minus_five_halves_sf one_sf (omega arith) (omega arith) refl refl

sqrtrem_u_lem_example :
    (r : ℕ) × (sqrtrem_u float64 (2 ^ 53) 0 ≡ some (r, not (2 ^ 53 * 2 ^ 64 == r * r)))
    × (r * r ≤ 2 ^ 53 * 2 ^ 64)
    × (2 ^ 53 * 2 ^ 64 < suc r * suc r)
sqrtrem_u_lem_example = sqrtrem_u_lem (2 ^ 53) (inr (omega arith)) (omega arith)

sqrt_sf_total_example : (r : ℕ) × (sqrt_sf float64 three_sf rup ≡ some r)
sqrt_sf_total_example = sqrt_sf_total three_sf rup

divrem_u_bits-divrem_u_example : divrem_u_bits float64 3 (2 ^ 63) 7 ≡ divrem_u float64 3 (2 ^ 63) 7
divrem_u_bits-divrem_u_example =
    divrem_u_bits-divrem_u 3 (2 ^ 63) 7 (omega arith) (omega arith) (omega arith)

mul_u_halves-mul_u_example :
    mul_u_halves float64 (2 ^ 63 + 5) (2 ^ 64 - 1) ≡ mul_u float64 (2 ^ 63 + 5) (2 ^ 64 - 1)
mul_u_halves-mul_u_example =
    mul_u_halves-mul_u (2 ^ 63 + 5) (2 ^ 64 - 1) (omega arith) (omega arith)

js_dtoa_integer_example :
    (s : List ℕ) × (js_dtoa (pack 1 (mantissa 1234567 20) (pos 21)) 10 0 0
      ≡ some (sign_text (1 == 1) ++ s))
    × IsNumeral 10 1234567 s
js_dtoa_integer_example =
    js_dtoa_integer 1 1234567 20 10 0 0 (omega arith) (omega arith) (omega arith) (omega arith)
      (omega arith) (omega arith) refl refl

-- "0x1Fz".
abbrev hex_text : List ℕ
hex_text = b'0' ∷ b'x' ∷ b'1' ∷ b'F' ∷ b'z' ∷ []

js_atod_total_example :
    (r : Outcome) × (js_atod hex_text 0 0 ≡ some r) × (place r ≤ length hex_text)
js_atod_total_example = js_atod_total hex_text 0 0 (inl refl) (omega arith)
