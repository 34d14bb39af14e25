-- ===== src/JsAtod.antt =====
-- `js_atod` of dtoa.c. `Parse` reads the text; here the digits and the exponent become a double.
pub mod Total
use mquickjs_port.Base.{
  ℕ, zero, suc, ◌+◌, ◌-◌, ◌*◌, ◌/◌, ◌%◌, ◌^◌, bit_or, u64, ◌<<<◌, ◌>>>◌, ◌==◌, ltb, leb,
  if◌then◌else◌, ◌&&◌, ◌||◌, not, List, [], ◌∷◌, length, get_or, Bool, true, false, Option, none,
  some, ◌>>=◌,
}
use mquickjs_port.Base.Int.{ℤ, pos, negsuc, ◌+ℤ◌, ◌-ℤ◌, ◌*ℤ◌, ltb_ℤ, leb_ℤ, pos_part, neg_part}
use mquickjs_port.Cutils.{ctz32}
use mquickjs_port.Double.{pack_magnitude}
use mquickjs_port.Mpb.{Mpb}
use mquickjs_port.Parse.{
  Source, Scan, failed, stopped, Digits, Read, unread, read, Exponent, ReadExponent, bad_exponent,
  exponent, Prefix, bad, infinite, start, at, has, accept_underscores, prefix, skip_zeros,
  read_digits, flush, has_exponent, read_exponent,
}
use mquickjs_port.Radix.{max_exponent, min_exponent_abs}
use mquickjs_port.Rounding.{rndn}
use mquickjs_port.Scale.{set_sticky, round_to_d, mul_pow_round_to_d}

-- Arithmetic on an `int`, with the wrap-around that C leaves undefined.
wrap : ℤ → ℤ
wrap n = pos ((pos_part n + 2 ^ 31 + (2 ^ 32 - neg_part n % 2 ^ 32)) % 2 ^ 32) -ℤ pos (2 ^ 31)

-- The result: not a number, or the bits of a double; and the place where the number ends.
pub data Outcome : Type 0 where
  nan : (p : ℕ) → Outcome
  double : (bits p : ℕ) → Outcome

abbrev pub infinity_bits : ℕ
infinity_bits = 0x7ff <<< 52

-- `radix_bits`: the bits of a digit, if the radix is a power of two.
abbrev pub radix_bits : ℕ → ℕ
radix_bits radix = if radix >>> ctz32 radix == 1 then ctz32 radix else 0

-- The double of `tmp0` with `digit_count` digits and the exponent `expn`, in a radix of `bits` bits.
convert_binary : Mpb → ℕ → ℕ → ℤ → ℤ → Bool → ℕ
convert_binary tmp0 bits digit_count expn_offset expn0 is_bin_exp =
    let scaled = if is_bin_exp then expn0 else wrap (expn0 *ℤ pos bits) in
    let expn = wrap (scaled -ℤ expn_offset *ℤ pos bits) in
    let expn1 = wrap (expn +ℤ pos (digit_count * bits)) in
    let result = round_to_d tmp0 (pos 0 -ℤ expn) rndn in
    if leb_ℤ (pos (1024 + bits)) expn1
    then infinity_bits
    else if leb_ℤ expn1 (negsuc 1074)
    then 0
    else pack_magnitude result.0 result.1

convert_other : Mpb → ℕ → ℕ → ℤ → ℤ → ℕ
convert_other tmp0 radix digit_count expn_offset expn0 =
    let expn = wrap (expn0 -ℤ expn_offset) in
    let expn1 = wrap (expn +ℤ pos digit_count) in
    let result = mul_pow_round_to_d tmp0 (radix >>> ctz32 radix) (ctz32 radix) expn rndn in
    if leb_ℤ (pos (get_or max_exponent (radix - 2) 0 + 1)) expn1
    then infinity_bits
    else if leb_ℤ expn1 (pos 0 -ℤ pos (get_or min_exponent_abs (radix - 2) 0))
    then 0
    else pack_magnitude result.0 result.1

-- The bits of the number without its sign.
pub convert : ℕ → Digits → ℕ → Exponent → ℕ
unfolding convert_binary convert_other wrap
convert radix st sig_pos ex =
    let bits = radix_bits radix in
    let dot_pos = if ltb_ℤ st.dot_pos (pos 0) then pos st.digits else st.dot_pos in
    let expn_offset = pos (sig_pos + st.digit_count) -ℤ dot_pos in
    let tmp0 = flush radix st in
    let tmp0' = if bits == 0 then tmp0 else set_sticky tmp0 st.extra_digits in
    if st.digit_count == 0
    then 0
    else if ex.expn_overflow
    then (if ex.exp_is_neg then 0 else infinity_bits)
    else if bits == 0
    then convert_other tmp0 radix st.digit_count expn_offset ex.expn
    else convert_binary tmp0' bits st.digit_count expn_offset ex.expn ex.is_bin_exp

pub with_sign : ℕ → ℕ → ℕ
with_sign is_neg bits = bit_or bits (u64 (is_neg <<< 63))

pub no_exponent : ℕ → Exponent
no_exponent p = record {
  p = p;
  expn = pos 0;
  is_bin_exp = false;
  expn_overflow = false;
  exp_is_neg = false;
}

-- The end of `js_atod`, behind the digits.
pub finish : Source → ℕ → ℕ → Digits → Option Outcome
finish src is_neg sig_pos st =
    if has_exponent src (radix_bits src.radix) st.p
    then elim (read_exponent src st.p) [
      | none ↦ none
      | some result ↦ elim result [
        | bad_exponent p ↦ some (nan p)
        | exponent ex ↦ some (double (with_sign is_neg (convert src.radix st sig_pos ex)) ex.p)
      ]
    ]
    else if st.p == src.p_start
    then some (nan st.p)
    else some (double (with_sign is_neg (convert src.radix st sig_pos (no_exponent st.p))) st.p)

-- The state in front of the digits.
pub start_state : ℕ → ℕ → ℤ → Digits
start_state p digits dot_pos = record {
  p = p;
  digits = digits;
  dot_pos = dot_pos;
  tmp0 = 0 ∷ [];
  cur_limb = 0;
  limb_digit_count = 0;
  digit_count = 0;
  extra_digits = 0;
}

-- The digits behind the leading zeros.
pub significant : Source → ℕ → Scan → Option Outcome
unfolding finish with_sign no_exponent start_state
significant src is_neg (failed p) = some (nan p)
significant src is_neg (stopped p digits dot_pos) =
    elim (read_digits (suc (length src.text)) src (start_state p digits dot_pos)) [
      | none ↦ none
      | some (unread p2) ↦ some (nan p2)
      | some (read st) ↦ finish src is_neg digits st
    ]

-- The digits of a number, from `p` on.
pub digits_from : Source → ℕ → ℕ → Option Outcome
digits_from src is_neg p =
    skip_zeros (suc (length src.text)) src p 0 (negsuc 0) >>= λ zeros. significant src is_neg zeros

-- `js_atod`; a `radix` of 0 leaves the radix to the prefix.
pub js_atod : List ℕ → ℕ → ℕ → Option Outcome
js_atod s radix flags =
    let is_neg = if at s 0 == b'-' then 1 else 0 in
    let p_start = if at s 0 == b'+' || at s 0 == b'-' then 1 else 0 in
    let sep = if has flags accept_underscores then b'_' else 256 in
    elim (prefix s p_start radix flags sep) [
      | bad p ↦ some (nan p)
      | infinite p ↦ some (double (with_sign is_neg infinity_bits) p)
      | start p radix' sep' ↦
          digits_from
            (record { text = s; p_start = p_start; radix = radix'; sep = sep'; flags = flags })
            is_neg p
    ]
