-- ===== src/Radix.antt =====
-- The radix tables of dtoa.c and the functions on them: powers, reciprocals, logarithms.
pub mod Table
pub mod Power
pub mod Logarithm
use mquickjs_port.Base.{
  ℕ, zero, suc, ◌+◌, ◌-◌, ◌*◌, ◌/◌, ◌%◌, ◌^◌, bit_and, bit_or, u32, u64, ◌<<<◌, ◌>>>◌, ltb, leb,
  ◌==◌, if◌then◌else◌, ◌&&◌, ◌||◌, List, [], ◌∷◌, get_or, Bool,
}
use mquickjs_port.Base.Int.{ℤ, pos, negsuc, ◌-ℤ◌, ◌*ℤ◌}
use mquickjs_port.Cutils.{clz32}
use mquickjs_port.Mp.{udiv1norm_init}

abbrev pub pow5_table : List ℕ
pow5_table =
    0x00000005 ∷ 0x00000019 ∷ 0x0000007d ∷ 0x00000271 ∷ 0x00000c35 ∷ 0x00003d09 ∷ 0x0001312d
    ∷ 0x0005f5e1 ∷ 0x001dcd65 ∷ 0x009502f9 ∷ 0x02e90edd ∷ 0x0e8d4a51 ∷ 0x48c27395 ∷ 0x6bcc41e9
    ∷ 0x1afd498d ∷ 0x86f26fc1 ∷ 0xa2bc2ec5 ∷ []

abbrev pub pow5h_table : List ℕ
pow5h_table = 0x00000001 ∷ 0x00000007 ∷ 0x00000023 ∷ 0x000000b1 ∷ []

abbrev pub pow5_inv_table : List ℕ
pow5_inv_table =
    0x99999999 ∷ 0x47ae147a ∷ 0x0624dd2f ∷ 0xa36e2eb1 ∷ 0x4f8b588e ∷ 0x0c6f7a0b ∷ 0xad7f29ab
    ∷ 0x5798ee23 ∷ 0x12e0be82 ∷ 0xb7cdfd9d ∷ 0x5fd7fe17 ∷ 0x19799812 ∷ 0xc25c2684 ∷ []

-- The powers of 5 and 10 that the tables hold.
table_power : ℕ → ℕ → ℕ
table_power a b =
    let low = get_or pow5_table (b - 1) 0 in
    let r = if leb 14 b then bit_or low (u64 (get_or pow5h_table (b - 14) 0 <<< 32)) else low in
    if a == 10 then u64 (r <<< b) else r

-- Square and multiply, with `i` bits of `b` left.
pow_loop : ℕ → ℕ → ℕ → ℕ → ℕ
pow_loop zero a b r = r
pow_loop (suc i) a b r =
    let square = u64 (r * r) in
    pow_loop i a b (if bit_and (b >>> i) 1 == 0 then square else u64 (square * a))

-- `a ^ b`, as a 64-bit word.
pub pow_ui : ℕ → ℕ → ℕ
unfolding table_power pow_loop
pow_ui a b =
    if b == 0
    then 1
    else if b == 1
    then a
    else if (a == 5 || a == 10) && leb b 17
    then table_power a b
    else pow_loop (32 - clz32 b - 1) a b a

-- The normalised power, its reciprocal and the shift that normalises it.
pub pow_ui_inv : ℕ → ℕ → ℕ × ℕ × ℕ
pow_ui_inv a b =
    if a == 5 && (leb 1 b && leb b 13)
    then (let r = get_or pow5_table (b - 1) 0 in
        let shift = clz32 r in (u32 (r <<< shift), get_or pow5_inv_table (b - 1) 0, shift))
    else (let r = u32 (pow_ui a b) in
        let shift = clz32 r in let r' = u32 (r <<< shift) in (r', udiv1norm_init r', shift))

abbrev pub mul_log2_radix_table : List ℕ
mul_log2_radix_table =
    0x000000 ∷ 0xa1849d ∷ 0x000000 ∷ 0x6e40d2 ∷ 0x6308c9 ∷ 0x5b3065 ∷ 0x000000 ∷ 0x50c24e ∷ 0x4d104d
    ∷ 0x4a0027 ∷ 0x4768ce ∷ 0x452e54 ∷ 0x433d00 ∷ 0x418677 ∷ 0x000000 ∷ 0x3ea16b ∷ 0x3d645a
    ∷ 0x3c43c2 ∷ 0x3b3b9a ∷ 0x3a4899 ∷ 0x39680b ∷ 0x3897b3 ∷ 0x37d5af ∷ 0x372069 ∷ 0x367686
    ∷ 0x35d6df ∷ 0x354072 ∷ 0x34b261 ∷ 0x342bea ∷ 0x33ac62 ∷ 0x000000 ∷ 0x32bfd9 ∷ 0x3251dd
    ∷ 0x31e8d6 ∷ 0x318465 ∷ []

-- `(radix & (radix - 1)) == 0`.
unfoldable pub is_power_of_two : ℕ → Bool
is_power_of_two radix = bit_and radix (radix - 1) == 0

-- `/` of C on a signed number, towards zero, and `>>`, towards minus infinity.
div_trunc : ℤ → ℕ → ℤ
div_trunc (pos n) d = pos (n / d)
div_trunc (negsuc n) d = pos 0 -ℤ pos (suc n / d)

shr_floor : ℤ → ℕ → ℤ
shr_floor (pos n) k = pos (n >>> k)
shr_floor (negsuc n) k = negsuc (n >>> k)

-- `a - (radix_bits - 1)` where `a` is negative.
round_down : ℤ → ℕ → ℤ
round_down (pos n) bits = pos n
round_down (negsuc n) bits = negsuc n -ℤ pos (bits - 1)

-- `floor(a / log2(radix))`.
pub mul_log2_radix : ℤ → ℕ → ℤ
unfolding is_power_of_two div_trunc shr_floor round_down ◌-ℤ◌ ◌*ℤ◌ clz32
mul_log2_radix a radix =
    if is_power_of_two radix
    then (let radix_bits = 31 - clz32 radix in div_trunc (round_down a radix_bits) radix_bits)
    else shr_floor (a *ℤ pos (get_or mul_log2_radix_table (radix - 2) 0)) 24

abbrev pub digits_per_limb_table : List ℕ
digits_per_limb_table =
    32 ∷ 20 ∷ 16 ∷ 13 ∷ 12 ∷ 11 ∷ 10 ∷ 10 ∷ 9 ∷ 9 ∷ 8 ∷ 8 ∷ 8 ∷ 8 ∷ 8 ∷ 7 ∷ 7 ∷ 7 ∷ 7 ∷ 7 ∷ 7 ∷ 7
    ∷ 6 ∷ 6 ∷ 6 ∷ 6 ∷ 6 ∷ 6 ∷ 6 ∷ 6 ∷ 6 ∷ 6 ∷ 6 ∷ 6 ∷ 6 ∷ []

abbrev pub radix_base_table : List ℕ
radix_base_table =
    0x00000000 ∷ 0xcfd41b91 ∷ 0x00000000 ∷ 0x48c27395 ∷ 0x81bf1000 ∷ 0x75db9c97 ∷ 0x40000000
    ∷ 0xcfd41b91 ∷ 0x3b9aca00 ∷ 0x8c8b6d2b ∷ 0x19a10000 ∷ 0x309f1021 ∷ 0x57f6c100 ∷ 0x98c29b81
    ∷ 0x00000000 ∷ 0x18754571 ∷ 0x247dbc80 ∷ 0x3547667b ∷ 0x4c4b4000 ∷ 0x6b5a6e1d ∷ 0x94ace180
    ∷ 0xcaf18367 ∷ 0x0b640000 ∷ 0x0e8d4a51 ∷ 0x1269ae40 ∷ 0x17179149 ∷ 0x1cb91000 ∷ 0x23744899
    ∷ 0x2b73a840 ∷ 0x34e63b41 ∷ 0x40000000 ∷ 0x4cfa3cc1 ∷ 0x5c13d840 ∷ 0x6d91b519 ∷ 0x81bf1000 ∷ []

abbrev pub dtoa_max_digits_table : List ℕ
dtoa_max_digits_table =
    54 ∷ 35 ∷ 28 ∷ 24 ∷ 22 ∷ 20 ∷ 19 ∷ 18 ∷ 17 ∷ 17 ∷ 16 ∷ 16 ∷ 15 ∷ 15 ∷ 15 ∷ 14 ∷ 14 ∷ 14 ∷ 14
    ∷ 14 ∷ 13 ∷ 13 ∷ 13 ∷ 13 ∷ 13 ∷ 13 ∷ 13 ∷ 12 ∷ 12 ∷ 12 ∷ 12 ∷ 12 ∷ 12 ∷ 12 ∷ 12 ∷ []

abbrev pub atod_max_digits_table : List ℕ
atod_max_digits_table =
    64 ∷ 80 ∷ 32 ∷ 55 ∷ 49 ∷ 45 ∷ 21 ∷ 40 ∷ 38 ∷ 37 ∷ 35 ∷ 34 ∷ 33 ∷ 32 ∷ 16 ∷ 31 ∷ 30 ∷ 30 ∷ 29
    ∷ 29 ∷ 28 ∷ 28 ∷ 27 ∷ 27 ∷ 27 ∷ 26 ∷ 26 ∷ 26 ∷ 26 ∷ 25 ∷ 12 ∷ 25 ∷ 25 ∷ 24 ∷ 24 ∷ []

abbrev pub max_exponent : List ℕ
max_exponent =
    1024 ∷ 647 ∷ 512 ∷ 442 ∷ 397 ∷ 365 ∷ 342 ∷ 324 ∷ 309 ∷ 297 ∷ 286 ∷ 277 ∷ 269 ∷ 263 ∷ 256 ∷ 251
    ∷ 246 ∷ 242 ∷ 237 ∷ 234 ∷ 230 ∷ 227 ∷ 224 ∷ 221 ∷ 218 ∷ 216 ∷ 214 ∷ 211 ∷ 209 ∷ 207 ∷ 205 ∷ 203
    ∷ 202 ∷ 200 ∷ 199 ∷ []

-- The entries of `min_exponent`, which are negative, without their sign.
abbrev pub min_exponent_abs : List ℕ
min_exponent_abs =
    1075 ∷ 679 ∷ 538 ∷ 463 ∷ 416 ∷ 383 ∷ 359 ∷ 340 ∷ 324 ∷ 311 ∷ 300 ∷ 291 ∷ 283 ∷ 276 ∷ 269 ∷ 263
    ∷ 258 ∷ 254 ∷ 249 ∷ 245 ∷ 242 ∷ 238 ∷ 235 ∷ 232 ∷ 229 ∷ 227 ∷ 224 ∷ 222 ∷ 220 ∷ 217 ∷ 215 ∷ 214
    ∷ 212 ∷ 210 ∷ 208 ∷ []
