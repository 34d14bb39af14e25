-- ===== src/Parse.antt =====
-- The reading of a number in `js_atod` of dtoa.c: the sign, the prefix, the digits and the exponent.
-- A string is the list of its characters, and a pointer into it is an index; behind the end the
-- terminating 0 is read. `none` means that the fuel of a loop ran out.
pub mod Ends
pub mod Exponents
pub mod Start
use mquickjs_port.Base.{
  ℕ, zero, suc, ◌+◌, ◌-◌, ◌*◌, ◌/◌, ◌%◌, ◌^◌, bit_and, bit_or, u32, ◌==◌, ltb, leb, if◌then◌else◌,
  ◌&&◌, ◌||◌, not, List, [], ◌∷◌, length, get_or, drop, Bool, true, false, Option, none, some,
}
use mquickjs_port.Atod.{mpb_mul1_base}
use mquickjs_port.Base.Int.{ℤ, pos, negsuc, ltb_ℤ, ◌-ℤ◌}
use mquickjs_port.Digits.{to_digit}
use mquickjs_port.Mpb.{Mpb}
use mquickjs_port.Radix.{atod_max_digits_table, pow_ui}
use mquickjs_port.Radix.Table.{digits_per_limb, radix_base}

-- The flags of dtoa.h.
abbrev pub int_only : ℕ
int_only = 1

abbrev pub accept_bin_oct : ℕ
accept_bin_oct = 2

abbrev pub accept_legacy_octal : ℕ
accept_legacy_octal = 4

abbrev pub accept_underscores : ℕ
accept_underscores = 8

abbrev pub has : ℕ → ℕ → Bool
has flags flag = not (bit_and flags flag == 0)

abbrev pub at : List ℕ → ℕ → ℕ
at s p = get_or s p 0

-- `strstart` of ae/cutils.ae.
pub strstart : List ℕ → List ℕ → Bool
strstart str [] = true
strstart [] (q ∷ val) = false
strstart (c ∷ str) (q ∷ val) = let rest = strstart str val in if c == q then rest else false

abbrev pub infinity_text : List ℕ
infinity_text = b'I' ∷ b'n' ∷ b'f' ∷ b'i' ∷ b'n' ∷ b'i' ∷ b't' ∷ b'y' ∷ []

-- The first character that is no octal digit.
pub after_octal : List ℕ → ℕ
after_octal [] = 0
after_octal (c ∷ s) = let rest = after_octal s in if leb b'0' c && leb c b'7' then rest else c

-- What the prefix says: that the text is no number, that it is infinity, or where the digits start,
-- in which radix and with which separator.
pub data Prefix : Type 0 where
  bad : (p : ℕ) → Prefix
  infinite : (p : ℕ) → Prefix
  start : (p radix sep : ℕ) → Prefix

-- There must be a digit after the prefix.
pub digit_after : List ℕ → ℕ → ℕ → ℕ → Prefix
digit_after s p radix sep = if leb radix (to_digit (at s p)) then bad p else start p radix sep

pub default_radix : ℕ → ℕ
default_radix radix = if radix == 0 then 10 else radix

pub prefix : List ℕ → ℕ → ℕ → ℕ → ℕ → Prefix
unfolding digit_after default_radix after_octal strstart
prefix s p radix flags sep =
    let next = at s (suc p) in
    if at s p == b'0'
    then (if (next == b'x' || next == b'X') && (radix == 0 || radix == 16)
        then digit_after s (p + 2) 16 sep
        else if (next == b'o' || next == b'O') && (radix == 0 && has flags accept_bin_oct)
        then digit_after s (p + 2) 8 sep
        else if (next == b'b' || next == b'B') && (radix == 0 && has flags accept_bin_oct)
        then digit_after s (p + 2) 2 sep
        else if (leb b'0' next && leb next b'9') && (radix == 0 && has flags accept_legacy_octal)
        then (let last = after_octal (drop (suc p) s) in
            if last == b'8' || last == b'9'
            then start p (default_radix radix) 256
            else digit_after s (suc p) 8 256)
        else start p (default_radix radix) sep)
    else if not (has flags int_only) && strstart (drop p s) infinity_text
    then infinite (p + 8)
    else start p (default_radix radix) sep

-- What stays the same while the digits are read.
pub record Source : Type 0 where
  pub text : List ℕ
  pub p_start : ℕ
  pub radix : ℕ
  pub sep : ℕ
  pub flags : ℕ

-- What the test for a dot says: the text is no number, the dot is the second one, or the digits go
-- on at a place, with the place of the dot, which is -1 for none.
pub data Dot : Type 0 where
  dot_fail dot_stop : Dot
  go_on : (p : ℕ) (dot_pos : ℤ) → Dot

pub dot : Source → ℕ → ℕ → ℤ → Dot
dot src p digits dot_pos =
    if at src.text p == b'.'
      && ((ltb src.p_start p || ltb (to_digit (at src.text (suc p))) src.radix)
          && not (has src.flags int_only))
    then (if at src.text p == src.sep
        then dot_fail
        else if not (ltb_ℤ dot_pos (pos 0))
        then dot_stop
        else go_on (suc p) (pos digits))
    else go_on p dot_pos

-- Where a loop stopped: the place, the digits passed and the place of the dot.
pub data Scan : Type 0 where
  failed : (p : ℕ) → Scan
  stopped : (p digits : ℕ) (dot_pos : ℤ) → Scan

-- A separator is skipped if the character behind it is a digit.
abbrev pub skip_sep : Source → ℕ → Bool → ℕ
skip_sep src p digit = if at src.text p == src.sep && (ltb src.p_start p && digit) then suc p else p

-- The loop over the leading zeros.
pub skip_zeros : ℕ → Source → ℕ → ℕ → ℤ → Option Scan
skip_zeros zero src p digits dot_pos = none
skip_zeros (suc fuel) src p digits dot_pos = elim (dot src p digits dot_pos) [
  | dot_fail ↦ some (failed p)
  | dot_stop ↦ some (stopped p digits dot_pos)
  | go_on p1 dot1 ↦
      let p2 = skip_sep src p1 (at src.text (suc p1) == b'0') in
      let rest = skip_zeros fuel src (suc p2) (suc digits) dot1 in
      if at src.text p2 == b'0' then rest else some (stopped p2 digits dot1)
]

-- The variables of the loop over the digits.
pub record Digits : Type 0 where
  pub p : ℕ
  pub digits : ℕ
  pub dot_pos : ℤ
  pub tmp0 : Mpb
  pub cur_limb : ℕ
  pub limb_digit_count : ℕ
  pub digit_count : ℕ
  pub extra_digits : ℕ

-- The tables begin at the radix 2. The code reads in front of them for a radix of 1, which is not
-- modelled: the subtraction stops at 0.
abbrev pub max_digits : ℕ → ℕ
max_digits radix = get_or atod_max_digits_table (radix - 2) 0

-- The digit `c` is added to the limb, or to the digits that are only tested for 0.
pub take_digit : ℕ → Digits → ℕ → Digits
take_digit radix st c =
    if ltb st.digit_count (max_digits radix)
    then (let cur = u32 (st.cur_limb * radix + c) in
        let full = suc st.limb_digit_count == digits_per_limb radix in
        record st {
          tmp0 = if full then mpb_mul1_base st.tmp0 (radix_base radix) cur else st.tmp0;
          cur_limb = if full then 0 else cur;
          limb_digit_count = if full then 0 else suc st.limb_digit_count;
          digit_count = suc st.digit_count;
        })
    else record st { extra_digits = bit_or st.extra_digits c }

-- The state behind the loop over the digits, or the place where the text is no number.
pub data Read : Type 0 where
  unread : (p : ℕ) → Read
  read : Digits → Read

pub read_digits : ℕ → Source → Digits → Option Read
unfolding take_digit
read_digits zero src st = none
read_digits (suc fuel) src st = elim (dot src st.p st.digits st.dot_pos) [
  | dot_fail ↦ some (unread st.p)
  | dot_stop ↦ some (read st)
  | go_on p1 dot1 ↦
      let p2 = skip_sep src p1 (ltb (to_digit (at src.text (suc p1))) src.radix) in
      let c = to_digit (at src.text p2) in
      let st' = record st { p = suc p2; digits = suc st.digits; dot_pos = dot1 } in
      let rest = read_digits fuel src (take_digit src.radix st' c) in
      if leb src.radix c then some (read (record st { p = p2; dot_pos = dot1 })) else rest
]

-- The digits that do not fill a limb.
pub flush : ℕ → Digits → Mpb
flush radix st =
    if st.limb_digit_count == 0
    then st.tmp0
    else mpb_mul1_base st.tmp0 (u32 (pow_ui radix st.limb_digit_count)) st.cur_limb

-- An exponent: its value, whether it counts bits, whether it was too large to be kept, and its sign.
pub record Exponent : Type 0 where
  pub p : ℕ
  pub expn : ℤ
  pub is_bin_exp : Bool
  pub expn_overflow : Bool
  pub exp_is_neg : Bool

-- The loop over the digits of an exponent, which stops to count at `INT32_MAX`.
pub exponent_digits : ℕ → List ℕ → ℕ → ℕ → ℕ → Bool → Option (ℕ × ℕ × Bool)
exponent_digits zero s sep p expn overflow = none
exponent_digits (suc fuel) s sep p expn overflow =
    let p' = if at s p == sep && ltb (to_digit (at s (suc p))) 10 then suc p else p in
    let c = to_digit (at s p') in
    let over = overflow || ltb 214748363 expn in
    let rest = exponent_digits fuel s sep (suc p') (if over then expn else expn * 10 + c) over in
    if leb 10 c then some (p', expn, overflow) else rest

pub data ReadExponent : Type 0 where
  bad_exponent : (p : ℕ) → ReadExponent
  exponent : Exponent → ReadExponent

-- The exponent that starts behind the marker at `p`.
pub read_exponent : Source → ℕ → Option ReadExponent
unfolding exponent_digits
read_exponent src p =
    let s = src.text in
    let is_bin_exp = at s p == b'p' || at s p == b'P' in
    let exp_is_neg = at s (suc p) == b'-' in
    let p1 = if at s (suc p) == b'+' || exp_is_neg then p + 2 else suc p in
    let c = to_digit (at s p1) in
    if leb 10 c
    then some (bad_exponent p1)
    else elim (exponent_digits (suc (length s)) s src.sep (suc p1) c false) [
      | none ↦ none
      | some (p2, expn, overflow) ↦ some (
          exponent (record {
            p = p2;
            expn = if exp_is_neg then pos 0 -ℤ pos expn else pos expn;
            is_bin_exp = is_bin_exp;
            expn_overflow = overflow;
            exp_is_neg = exp_is_neg;
          }))
    ]

-- Whether there is an exponent.
pub has_exponent : Source → ℕ → ℕ → Bool
has_exponent src radix_bits p =
    let c = at src.text p in
    not (has src.flags int_only)
    && ((src.radix == 10 && (c == b'e' || c == b'E')
          || not (src.radix == 10)
            && (c == b'@' || leb 1 radix_bits && (leb radix_bits 4 && (c == b'p' || c == b'P'))))
        && ltb src.p_start p)
