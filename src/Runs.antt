-- ===== src/Runs.antt =====
-- Runs of the theorems at concrete inputs.
use mquickjs_port.Base.{
  ℕ, suc, ◌+◌, ◌-◌, ◌*◌, ◌%◌, ◌^◌, ◌≤◌, ◌<◌, ◌≡◌, ◌⊎◌, refl, inl, inr, arith, List, [], ◌∷◌, ◌++◌,
  length, some, false, take, drop,
}
use mquickjs_port.Base.Int.{◌+ℤ◌, pos, negsuc, ◌-ℤ◌}
use mquickjs_port.Atod.{mpb_mul1_base}
use mquickjs_port.Atod.Accumulate.{mpb_mul1_base_lem}
use mquickjs_port.Digits.{u64toa, u64toa_radix}
use mquickjs_port.Digits.AnyRadix.{u64toa_radix_lem}
use mquickjs_port.Digits.Decimal.{u64toa_lem}
use mquickjs_port.Digits.Numeral.{IsNumeral}
use mquickjs_port.Digits.Reading.{of_digits}
use mquickjs_port.Double.{finite, unpack, pack}
use mquickjs_port.Double.RoundTrip.{unpack-pack}
use mquickjs_port.Limbs.{value}
use mquickjs_port.Mp.{mp_div1, mp_div1norm, udiv1norm, udiv1norm_init}
use mquickjs_port.Mp.Normalised.{mp_div1norm-mp_div1}
use mquickjs_port.Mp.Reciprocal.{udiv1norm_lem}
use mquickjs_port.Mpb.{Mpb, mpb_renorm, mpb_shr_round}
use mquickjs_port.Mpb.Compact.{IsCompact, mpb_renorm-IsCompact}
use mquickjs_port.Mpb.Round.{mpb_shr_round_right}
use mquickjs_port.Output.{output_digits}
use mquickjs_port.Output.Written.{output_digits_lem}
use mquickjs_port.Radix.{mul_log2_radix}
use mquickjs_port.Radix.Logarithm.{mul_log2_radix_lem}
use mquickjs_port.Rounding.{rndn, rndna, round_div, round_up}
use mquickjs_port.Scale.{mul_pow, mul_pow_round, round_to_d}
use mquickjs_port.Scale.Double.{round_to_d_lem}
use mquickjs_port.Scale.Down.{up_bits, mul_pow_down}
use mquickjs_port.Scale.Rounded.{mul_pow_round_up, mul_pow_round_down}
use mquickjs_port.Scale.Sticky.{sticky_div}
use mquickjs_port.Scale.Up.{mul_pow_up}

-- Numbers of one and of two limbs.
abbrev short : Mpb
short = 12345 ∷ []

abbrev long : Mpb
long = 7 ∷ 3 ∷ []

short_lem : IsCompact short
short_lem = record { words = (omega arith, tt); some_limb = omega arith; top = inl refl }

long_lem : IsCompact long
long_lem = record {
  words = (omega arith, (omega arith, tt));
  some_limb = omega arith;
  top = inr (omega arith);
}

-- 7 * 2 ^ 10 / 10 ^ 2 is 71.68.
mul_pow_round_down_example : value (mul_pow_round 7 (pos 10) 5 1 (negsuc 1) rndn) ≡ 72
unfolding round_div round_up
mul_pow_round_down_example =
    mul_pow_round_down 7 (pos 10) 5 1 1 rndn (omega arith) (omega arith)
      (inr (omega arith, omega arith, refl))

-- 7 * 10 ^ 2 / 2 ^ 3 is 87.5.
mul_pow_round_up_example : value (mul_pow_round 7 (negsuc 2) 5 1 (pos 2) rndna) ≡ 88
unfolding round_div round_up
mul_pow_round_up_example =
    mul_pow_round_up 7 (negsuc 2) 5 1 2 rndna (omega arith) (omega arith)
      (inr (omega arith, omega arith, refl))

output_digits_lem_example :
    (s : List ℕ) × (length s ≡ 6)
    × (of_digits 10 0 s ≡ value short % 10 ^ 6)
    × (output_digits short 10 6 4 ≡ take 4 s ++ (b'.' ∷ drop 4 s))
output_digits_lem_example = output_digits_lem short 10 6 4 short_lem (omega arith) (omega arith)

mpb_shr_round_right_example :
    (value (mpb_shr_round long (pos 33) rndn) ≡ 2) × IsCompact (mpb_shr_round long (pos 33) rndn)
unfolding round_div round_up
mpb_shr_round_right_example = mpb_shr_round_right rndn long 33 long_lem

mul_pow_up_example :
    (value (mul_pow short 5 1 (pos 3) false (pos 55)).0 ≡ 1543125)
    × IsCompact (mul_pow short 5 1 (pos 3) false (pos 55)).0
    × ((mul_pow short 5 1 (pos 3) false (pos 55)).1 ≡ pos 0 -ℤ pos 3)
mul_pow_up_example =
    mul_pow_up short 5 1 3 false (pos 55) short_lem (inr (omega arith, omega arith, refl))

-- 12345 is divided by 5.
mul_pow_down_example :
    (value (mul_pow short 5 1 (negsuc 0) false (pos 55)).0
      ≡ sticky_div (12345 * 2 ^ up_bits short 5 1 1 false (pos 55)) 5)
    × IsCompact (mul_pow short 5 1 (negsuc 0) false (pos 55)).0
    × ((mul_pow short 5 1 (negsuc 0) false (pos 55)).1
        ≡ pos (1 + up_bits short 5 1 1 false (pos 55)))
mul_pow_down_example =
    mul_pow_down short 5 1 0 false (pos 55) short_lem (omega arith) (omega arith, omega arith, refl)

-- Division by 10, as 5 * 2 ^ 29 and 2 ^ 28.
mp_div1norm-mp_div1_example :
    mp_div1norm long (10 * 2 ^ 28) 4 (udiv1norm_init (10 * 2 ^ 28)) 28 ≡ mp_div1 long 10 4
mp_div1norm-mp_div1_example =
    mp_div1norm-mp_div1 long 10 (10 * 2 ^ 28) 4 28 (omega arith, omega arith) refl (omega arith)
      (omega arith) (omega arith, (omega arith, tt))

udiv1norm_lem_example : udiv1norm 5 7 (2 ^ 32 - 5) (udiv1norm_init (2 ^ 32 - 5)) ≡ (5, 32)
udiv1norm_lem_example =
    udiv1norm_lem 5 7 (2 ^ 32 - 5) (omega arith, omega arith) (omega arith) (omega arith)

mul_log2_radix_lem_example :
    ((q : ℕ) × (mul_log2_radix (pos 52) 10 ≡ pos q) × (10 ^ q ≤ 2 ^ 52) × (2 ^ 52 < 10 ^ suc q))
    × ((q : ℕ) × (mul_log2_radix (negsuc 52) 10 ≡ negsuc q)
        × (2 ^ 53 ≤ 10 ^ suc q)
        × (10 ^ q < 2 ^ 53))
mul_log2_radix_lem_example = mul_log2_radix_lem 10 52 (omega arith) (omega arith) (omega arith)

u64toa_radix_lem_example :
    (s : List ℕ) × (u64toa_radix 123456789 36 ≡ some s) × IsNumeral 36 123456789 s
u64toa_radix_lem_example = u64toa_radix_lem 123456789 36 (omega arith) (omega arith) (omega arith)

u64toa_lem_example : IsNumeral 10 5000000000 (u64toa 5000000000)
u64toa_lem_example = u64toa_lem 5000000000 (omega arith)

mpb_mul1_base_lem_example :
    (value (mpb_mul1_base long 1000 8) ≡ (7 + 3 * 2 ^ 32) * 1000 + 8)
    × IsCompact (mpb_mul1_base long 1000 8)
mpb_mul1_base_lem_example = mpb_mul1_base_lem long 1000 8 long_lem (omega arith) (omega arith)

mpb_renorm-IsCompact_example :
    (value (mpb_renorm (9 ∷ 0 ∷ [])) ≡ 9)
    × IsCompact (mpb_renorm (9 ∷ 0 ∷ []))
    × (length (mpb_renorm (9 ∷ 0 ∷ [])) ≤ 2)
mpb_renorm-IsCompact_example =
    mpb_renorm-IsCompact (9 ∷ 0 ∷ []) (omega arith, (omega arith, tt)) (omega arith)

-- 3 * 2 ^ 32 + 7 times 2 ^ -10, whose top bit is bit 33.
round_to_d_lem_example :
    (2 ^ 52 ≤ (round_to_d long (pos 10) rndn).0)
    × ((round_to_d long (pos 10) rndn).0 < 2 ^ 53)
    × ((((round_to_d long (pos 10) rndn).0 ≡ round_div rndn ((7 + 3 * 2 ^ 32) * 2 ^ 52) (2 ^ 33))
          × ((round_to_d long (pos 10) rndn).1 ≡ pos 34 -ℤ pos 10))
        ⊎ (((round_to_d long (pos 10) rndn).0 * 2
              ≡ round_div rndn ((7 + 3 * 2 ^ 32) * 2 ^ 52) (2 ^ 33))
            × ((round_to_d long (pos 10) rndn).1 ≡ pos 34 -ℤ pos 10 +ℤ pos 1)))
unfolding ◌-ℤ◌
round_to_d_lem_example =
    round_to_d_lem long (pos 10) rndn 33 long_lem (omega arith) (omega arith) refl

unpack-pack_example : unpack (pack 1 (2 ^ 52 + 1) (pos 1)) ≡ (1, finite (2 ^ 52 + 1) (pos 1))
unpack-pack_example =
    unpack-pack 1 (2 ^ 52 + 1) (pos 1) (omega arith) (omega arith) (omega arith) refl refl
