-- ===== src/Dtoa.antt =====
-- `js_dtoa` and `js_dtoa_max_len` of dtoa.c. A double is its 64 bits, and the buffer is the list of
-- the characters written; `none` means that the fuel of a loop ran out.
pub mod Integers
use mquickjs_port.Base.{
  ℕ, zero, suc, ◌+◌, ◌-◌, ◌*◌, ◌/◌, ◌%◌, ◌^◌, bit_and, ◌>>>◌, low_mask, ◌==◌, ltb, leb,
  if◌then◌else◌, ◌&&◌, ◌||◌, not, List, [], ◌∷◌, ◌++◌, length, get_or, drop, replicate, Bool, true,
  false, Option, none, some, map, ◌>>=◌,
}
use mathlib.Core.Option
use mquickjs_port.Base.Int.{ℤ, pos, negsuc, ◌+ℤ◌, ◌-ℤ◌, ◌*ℤ◌, ltb_ℤ, leb_ℤ, pos_part, neg_part}
use mquickjs_port.Cutils.{min_int, max_int, ctz32}
use mquickjs_port.Digits.{u32toa, u64toa_radix}
use mquickjs_port.Double.{Magnitude, infinity, not_a_number, zero_magnitude, finite, unpack}
use mquickjs_port.Mpb.{Mpb, mpb_set_u64}
use mquickjs_port.Output.{output_digits}
use mquickjs_port.Radix.{dtoa_max_digits_table, mul_log2_radix}
use mquickjs_port.Rounding.{rndna}
use mquickjs_port.Scale.{mul_pow_round}
use mquickjs_port.Search.{Input, Digits, shorten, fit_fixed, fixed_max}

-- The flags of dtoa.h.
abbrev pub format_free : ℕ
format_free = 0

abbrev pub format_fixed : ℕ
format_fixed = 1

abbrev pub format_frac : ℕ
format_frac = 2

abbrev pub exp_auto : ℕ
exp_auto = 0

abbrev pub exp_enabled : ℕ
exp_enabled = 4

abbrev pub exp_disabled : ℕ
exp_disabled = 8

abbrev pub minus_zero : ℕ
minus_zero = 16

-- `flags & JS_DTOA_FORMAT_MASK` and `flags & JS_DTOA_EXP_MASK`.
abbrev pub format_of : ℕ → ℕ
format_of flags = bit_and flags 3

abbrev pub exp_of : ℕ → ℕ
exp_of flags = bit_and flags 12

abbrev pub max_digits : ℕ → ℕ
max_digits radix = get_or dtoa_max_digits_table (radix - 2) 0

abs : ℤ → ℤ
abs n = if ltb_ℤ n (pos 0) then pos 0 -ℤ n else n

-- A bound on the number of characters that `js_dtoa` writes.
pub js_dtoa_max_len : ℕ → ℕ → ℕ → ℕ → ℤ
unfolding abs
js_dtoa_max_len d radix n_digits flags =
    let biased = bit_and (d >>> 52) 0x7ff in
    let e = pos biased -ℤ pos 1023 in
    let digits = if format_of flags == format_free then max_digits radix else n_digits in
    let free_or_fixed =
      if exp_of flags == exp_disabled
      then (if biased == 0x7ff
          then pos 0
          else pos digits +ℤ (pos 10 +ℤ abs (mul_log2_radix (e -ℤ pos 1) radix)))
      else pos digits +ℤ pos 8 in
    let frac =
      if biased == 0x7ff
      then pos 0
      else (if ltb_ℤ e (pos 0) then pos 1 else pos 2 +ℤ mul_log2_radix (e -ℤ pos 1) radix)
        +ℤ (pos 3 +ℤ pos n_digits) in
    max_int (if format_of flags == format_frac then frac else free_or_fixed) (pos 9)

-- The marker of an exponent and the exponent that it counts.
exponent_marker : ℕ → ℕ → ℕ → ℤ → ℕ × ℤ
exponent_marker radix radix1 radix_shift exponent =
    if radix == 10
    then (b'e', exponent)
    else if radix1 == 1 && leb radix_shift 4
    then (b'p', exponent *ℤ pos radix_shift)
    else (b'@', exponent)

signed_exponent : ℤ → List ℕ
signed_exponent exponent =
    if ltb_ℤ exponent (pos 0)
    then b'-' ∷ u32toa (neg_part exponent)
    else b'+' ∷ u32toa (pos_part exponent)

-- The part of `js_dtoa` from the label `output` on: `p` digits of `tmp1`, with the dot behind
-- `exponent` of them or with an exponent.
pub output : Mpb → Input → ℕ → ℤ → ℕ → ℕ → List ℕ
unfolding exponent_marker signed_exponent
output tmp1 d p exponent n_digits flags =
    let exponent_max =
      if format_of flags == format_fixed then n_digits else max_digits d.radix + 4 in
    if exp_of flags == exp_enabled
      || (exp_of flags == exp_auto
          && (leb_ℤ exponent (negsuc 5) || ltb_ℤ (pos exponent_max) exponent))
    then (let marker = exponent_marker d.radix d.radix1 d.radix_shift (exponent -ℤ pos 1) in
        output_digits tmp1 d.radix p 1 ++ (marker.0 ∷ signed_exponent marker.1))
    else if leb_ℤ exponent (pos 0)
    then (b'0'
        ∷ b'.'
        ∷ (replicate (pos_part (pos 0 -ℤ exponent)) b'0' ++ output_digits tmp1 d.radix p p))
    else (output_digits tmp1 d.radix p (pos_part (min_int (pos p) exponent))
        ++ replicate (pos_part (exponent -ℤ pos p)) b'0')

-- The free format.
pub free : Input → ℤ → ℕ → ℕ → Option (List ℕ)
free d e0 n_digits flags = do
  digits ← shorten (suc (max_digits d.radix)) d e0 (max_digits d.radix) none
  some (output (mpb_set_u64 digits.mant) d digits.p digits.exponent n_digits flags)

-- The format with `n_digits` digits behind the dot: one digit more is written on the left, and taken
-- off if it is a 0 that is not needed.
pub frac : Input → ℤ → ℕ → List ℕ
frac d e0 n_digits =
    let tmp1 = mul_pow_round d.m (d.e -ℤ pos 53) d.radix1 d.radix_shift (pos n_digits) rndna in
    let before = pos_part (max_int (e0 +ℤ pos 1) (pos 1)) in
    let q = output_digits tmp1 d.radix (before + n_digits) before in
    if get_or q 0 0 == b'0' && (leb 2 (length q) && not (get_or q 1 0 == b'.')) then drop 1 q else q

-- The format with `n_digits` significant digits.
pub fixed : Input → ℤ → ℕ → ℕ → Option (List ℕ)
fixed d e0 n_digits flags = do
  (tmp1, exponent) ← fit_fixed 4 d n_digits e0 (fixed_max d n_digits)
  some (output tmp1 d n_digits exponent n_digits flags)

-- Whether the double is an integer that the free format prints as one.
pub fast_int : Input → ℕ → Bool
fast_int d flags =
    format_of flags == format_free
    && (leb_ℤ (pos 1) d.e
        && (leb_ℤ d.e (pos 53)
            && (bit_and d.m (low_mask (pos_part (pos 53 -ℤ d.e))) == 0
                && not (exp_of flags == exp_enabled))))

-- A finite number that is not 0, without its sign.
pub number : Input → ℕ → ℕ → Option (List ℕ)
number d n_digits flags =
    let e0 = pos 1 +ℤ mul_log2_radix (d.e -ℤ pos 1) d.radix in
    if fast_int d flags
    then u64toa_radix (d.m >>> pos_part (pos 53 -ℤ d.e)) d.radix
    else if format_of flags == format_free
    then free d e0 n_digits flags
    else if format_of flags == format_frac
    then some (frac d e0 n_digits)
    else fixed d e0 n_digits flags

abbrev pub sign_text : Bool → List ℕ
sign_text negative = if negative then b'-' ∷ [] else []

-- The radix as an odd part and a power of two, and the double as `m * 2 ^ (e - 53)`.
pub input : ℕ → ℤ → ℕ → Input
input m e radix = record {
  m = m;
  e = e;
  radix = radix;
  radix1 = radix >>> ctz32 radix;
  radix_shift = ctz32 radix;
}

pub zero_text : ℕ → ℕ → ℕ → List ℕ
zero_text radix n_digits flags =
    let p =
      if format_of flags == format_free
      then 1
      else if format_of flags == format_frac
      then n_digits + 1
      else n_digits in
    output (0 ∷ []) (input 0 (pos 0) radix) p (pos 1) n_digits flags

-- The text of a double that is taken apart.
pub text_of : ℕ × Magnitude → ℕ → ℕ → ℕ → Option (List ℕ)
text_of (sgn, infinity) radix n_digits flags =
    some (sign_text (sgn == 1) ++ (b'I' ∷ b'n' ∷ b'f' ∷ b'i' ∷ b'n' ∷ b'i' ∷ b't' ∷ b'y' ∷ []))
text_of (sgn, not_a_number) radix n_digits flags = some (b'N' ∷ b'a' ∷ b'N' ∷ [])
text_of (sgn, zero_magnitude) radix n_digits flags =
    some (
      sign_text (sgn == 1 && not (bit_and flags minus_zero == 0)) ++ zero_text radix n_digits flags)
text_of (sgn, finite m e) radix n_digits flags =
    Option.map (λ s. sign_text (sgn == 1) ++ s) (number (input m e radix) n_digits flags)

pub js_dtoa : ℕ → ℕ → ℕ → ℕ → Option (List ℕ)
unfolding text_of
js_dtoa d radix n_digits flags = text_of (unpack d) radix n_digits flags
