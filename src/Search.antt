-- ===== src/Search.antt =====
-- The choice of the digits in `js_dtoa` of dtoa.c: the search of the free format for the fewest
-- digits that give the double back, and the rounding of the fixed format. `radix` is
-- `radix1 * 2 ^ radix_shift`, and the number is `m * 2 ^ (e - 53)`.
use mquickjs_port.Base.{
  ℕ, zero, suc, ◌-◌, ◌/◌, ◌%◌, ◌==◌, ltb, if◌then◌else◌, ◌&&◌, [], ◌∷◌, Bool, false, Option, none,
  some, ◌>>=◌,
}
use mquickjs_port.Base.Int.{ℤ, pos, ◌+ℤ◌, ◌-ℤ◌, ltb_ℤ, eq_ℤ}
use mquickjs_port.Mpb.{Mpb, mpb_cmp, mpb_get_u64, mpb_set_u64, mpb_shr_round}
use mquickjs_port.Radix.{pow_ui}
use mquickjs_port.Rounding.{rndn, rndna, rndz}
use mquickjs_port.Scale.{mul_pow, mul_pow_round, mul_pow_round_to_d}

-- What stays the same during a search.
pub record Input : Type 0 where
  pub m : ℕ
  pub e : ℤ
  pub radix : ℕ
  pub radix1 : ℕ
  pub radix_shift : ℕ

-- The mantissa of `p` digits in the radix, and its exponent: the loop raises the exponent until the
-- rounded mantissa has no more than `p` digits.
pub fit_mantissa : ℕ → Input → ℕ → ℤ → ℕ → Option (ℕ × ℤ)
fit_mantissa zero d p exponent mant_max = none
fit_mantissa (suc fuel) d p exponent mant_max =
    let mant =
      mpb_get_u64
        (mul_pow_round d.m (d.e -ℤ pos 53) d.radix1 d.radix_shift (pos p -ℤ exponent) rndn) in
    let rest = fit_mantissa fuel d p (exponent +ℤ pos 1) mant_max in
    if ltb mant mant_max then some (mant, exponent) else rest

-- `while ((mant % radix) == 0)`, which does not end for a mantissa of 0.
pub strip_zeros : ℕ → ℕ → ℕ → ℕ → Option (ℕ × ℕ)
strip_zeros zero radix mant p = none
strip_zeros (suc fuel) radix mant p =
    let rest = strip_zeros fuel radix (mant / radix) (p - 1) in
    if mant % radix == 0 then rest else some (mant, p)

-- Whether the digits give the double back.
pub gives_back : Input → ℕ → ℕ → ℤ → Bool
gives_back d mant p exponent =
    let (m1, e1) =
      mul_pow_round_to_d (mpb_set_u64 mant) d.radix1 d.radix_shift (exponent -ℤ pos p) rndn in
    m1 == d.m && eq_ℤ e1 d.e

-- The digits of a candidate: the mantissa, their number and the exponent.
pub record Digits : Type 0 where
  pub mant : ℕ
  pub p : ℕ
  pub exponent : ℤ

-- One round for `p` digits.
pub candidate : Input → ℤ → ℕ → Option Digits
unfolding fit_mantissa strip_zeros
candidate d e0 p = do
  (mant, exponent) ← fit_mantissa 4 d p e0 (pow_ui d.radix p)
  (mant', p') ← strip_zeros 64 d.radix mant p
  some (record { mant = mant'; p = p'; exponent = exponent })

-- The rounds: from `p` digits down, as long as the digits give the double back. The first candidate
-- is taken untested.
pub shorten : ℕ → Input → ℤ → ℕ → Option Digits → Option Digits
shorten zero d e0 p found = none
shorten (suc fuel) d e0 p found = do
  next ← candidate d e0 p
  let rest = shorten fuel d e0 (next.p - 1) (some next)
  let accept = if next.p == 1 then some next else rest
  elim found [
    | none ↦ accept
    | some digits ↦ if gives_back d next.mant next.p next.exponent then accept else some digits
  ]

-- The loop of the fixed format, and the exponent that it ends with.
pub fit_fixed : ℕ → Input → ℕ → ℤ → Mpb → Option (Mpb × ℤ)
fit_fixed zero d p exponent mant_max = none
fit_fixed (suc fuel) d p exponent mant_max =
    let tmp1 = mul_pow_round d.m (d.e -ℤ pos 53) d.radix1 d.radix_shift (pos p -ℤ exponent) rndna in
    let rest = fit_fixed fuel d p (exponent +ℤ pos 1) mant_max in
    if ltb_ℤ (mpb_cmp tmp1 mant_max) (pos 0) then some (tmp1, exponent) else rest

-- `radix ^ p` as a big number.
pub fixed_max : Input → ℕ → Mpb
fixed_max d p =
    let (mant_max, pow_shift) = mul_pow (1 ∷ []) d.radix1 d.radix_shift (pos p) false (pos 0) in
    mpb_shr_round mant_max pow_shift rndz
