-- ===== src/Digits.antt =====
-- The printing of integers in dtoa.c. A character buffer is the list of the bytes written.
pub mod Reading
pub mod Fixed
pub mod Numeral
pub mod Decimal
pub mod Binary
pub mod AnyRadix
use mquickjs_port.Base.{
  ℕ, zero, suc, ◌+◌, ◌-◌, ◌*◌, ◌/◌, ◌%◌, ◌^◌, bit_and, u32, u64, ◌<<<◌, ◌>>>◌, low_mask, ltb, leb,
  ◌==◌, if◌then◌else◌, ◌&&◌, List, [], ◌∷◌, ◌++◌, Option, none, some, map,
}
use mquickjs_port.Base.Int.{ℤ, pos, negsuc}
use mquickjs_port.Cutils.{clz32, clz64}
use mquickjs_port.Radix.{is_power_of_two}
use mathlib.Core.Option

-- `'0' + digit`, or a letter from `'a'` on.
unfoldable pub digit_char : ℕ → ℕ
digit_char digit = if ltb digit 10 then digit + b'0' else digit + b'a' - 10

-- The digit that a character stands for, or 36.
pub to_digit : ℕ → ℕ
to_digit c =
    if leb b'0' c && leb c b'9'
    then c - b'0'
    else if leb b'A' c && leb c b'Z'
    then c - b'A' + 10
    else if leb b'a' c && leb c b'z'
    then c - b'a' + 10
    else 36

-- The loops below write `buf[i]` from the last place down, in front of what is written.
pub u32toa_len : ℕ → ℕ → List ℕ → List ℕ
u32toa_len zero n tail = tail
u32toa_len (suc len) n tail = u32toa_len len (n / 10) ((n % 10 + b'0') ∷ tail)

pub u64toa_bin_len : ℕ → ℕ → ℕ → List ℕ → List ℕ
unfolding digit_char
u64toa_bin_len zero n radix_bits tail = tail
u64toa_bin_len (suc len) n radix_bits tail =
    u64toa_bin_len len (n >>> radix_bits) radix_bits
      (digit_char (bit_and n (low_mask radix_bits)) ∷ tail)

-- The loop of `limb_to_a` for a radix that is not 10.
pub limb_loop : ℕ → ℕ → ℕ → List ℕ → List ℕ
limb_loop zero n radix tail = tail
limb_loop (suc len) n radix tail = limb_loop len (n / radix) radix (digit_char (n % radix) ∷ tail)

pub limb_to_a : ℕ → ℕ → ℕ → List ℕ
limb_to_a n radix len = if radix == 10 then u32toa_len len n [] else limb_loop len n radix []

-- The loop of `u32toa` of ae/dtoa.ae, in a scratch of `room` bytes.
pub u32toa_loop : ℕ → ℕ → List ℕ → List ℕ
u32toa_loop zero n tail = tail
u32toa_loop (suc room) n tail =
    let tail' = (n % 10 + b'0') ∷ tail in
    let rest = u32toa_loop room (n / 10) tail' in if n / 10 == 0 then tail' else rest

pub u32toa : ℕ → List ℕ
u32toa n = u32toa_loop 10 (u32 n) []

pub u64toa : ℕ → List ℕ
u64toa n =
    if ltb n 0x100000000
    then u32toa n
    else (let n1 = n / 1000000000 in
        let low = n % 1000000000 in
        if leb 0x100000000 n1
        then (let n2 = u32 (n1 / 1000000000) in
            let n1' = n1 % 1000000000 in
            (if leb 10 n2 then (n2 / 10 + b'0') ∷ (n2 % 10 + b'0') ∷ [] else (n2 + b'0') ∷ [])
            ++ (u32toa_len 9 (u32 n1') [] ++ u32toa_len 9 (u32 low) []))
        else u32toa n1 ++ u32toa_len 9 (u32 low) [])

pub i64toa : ℤ → List ℕ
i64toa (pos n) = u64toa n
i64toa (negsuc n) = b'-' ∷ u64toa (suc n)

-- The do-while loop of `u64toa_radix` in `buf1`, which has `room` bytes left; writing below it is a
-- fault.
pub radix_loop : ℕ → ℕ → ℕ → List ℕ → Option (List ℕ)
radix_loop zero n radix tail = none
radix_loop (suc room) n radix tail =
    let tail' = digit_char (n % radix) ∷ tail in
    let rest = radix_loop room (n / radix) radix tail' in
    if n / radix == 0 then some tail' else rest

-- The number of digits for a radix of `radix_bits` bits.
pub bin_length : ℕ → ℕ → ℕ
bin_length n radix_bits = if n == 0 then 1 else (64 - clz64 n + radix_bits - 1) / radix_bits

pub u64toa_radix : ℕ → ℕ → Option (List ℕ)
u64toa_radix n radix =
    if radix == 10
    then some (u64toa n)
    else if is_power_of_two radix
    then (let radix_bits = 31 - clz32 radix in
        some (u64toa_bin_len (bin_length n radix_bits) n radix_bits []))
    else radix_loop 41 n radix []

pub i64toa_radix : ℤ → ℕ → Option (List ℕ)
i64toa_radix (pos n) radix = u64toa_radix n radix
i64toa_radix (negsuc n) radix = Option.map (λ s. b'-' ∷ s) (u64toa_radix (suc n) radix)
