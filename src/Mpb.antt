-- ===== src/Mpb.antt =====
-- The numbers `mpb_t` of dtoa.c and their routines. An `mpb_t` is the list of its `len` limbs; what
-- stands in `tab` from `len` on is never read.
pub mod Compact
pub mod Bit
pub mod AddOne
pub mod Round
pub mod Order
use mquickjs_port.Base.{
  ℕ, zero, suc, ◌+◌, ◌-◌, ◌*◌, ◌/◌, ◌%◌, ◌^◌, bit_and, bit_or, u32, u64, ◌<<<◌, ◌>>>◌, low_mask,
  ltb, leb, ◌==◌, if◌then◌else◌, ◌&&◌, List, [], ◌∷◌, ◌++◌, length, get_or, take, drop, replicate,
  Option, some, none, Bool, true, false,
}
use mquickjs_port.Base.Int.{ℤ, pos, negsuc}
use mquickjs_port.Limbs.{limb_bits}
use mquickjs_port.Rounding.{Rounding, rndn, rndna, rndz}
use mquickjs_port.Cutils.{clz32}
use mquickjs_port.Mp.{mp_add_ui, mp_shl, mp_shr}

abbrev pub Mpb : Type 0
Mpb = List ℕ

-- A limb below limbs that may have been dropped; a limb 0 is dropped too if none is left above.
keep_limb : ℕ → List ℕ → List ℕ
keep_limb x [] = if x == 0 then [] else x ∷ []
keep_limb x (y ∷ ys) = x ∷ y ∷ ys

-- The limbs without the zeros at the top.
drop_zeros : List ℕ → List ℕ
drop_zeros [] = []
drop_zeros (x ∷ xs) = keep_limb x (drop_zeros xs)

-- The loop of `mpb_renorm` goes down from the top limb, and keeps the lowest one.
pub mpb_renorm : Mpb → Mpb
unfolding drop_zeros keep_limb
mpb_renorm [] = []
mpb_renorm (x ∷ xs) = x ∷ drop_zeros xs

pub mpb_get_bit : Mpb → ℕ → ℕ
mpb_get_bit r k =
    let l = k / limb_bits in
    let k' = bit_and k (limb_bits - 1) in
    if leb (length r) l then 0 else bit_and (get_or r l 0 >>> k') 1

-- `mpb_shr_round` by a negative shift, which is given by its absolute value.
pub mpb_shl : Mpb → ℕ → Mpb
mpb_shl r shift =
    let l = shift / limb_bits in
    let s = bit_and shift (limb_bits - 1) in
    let r' =
      if s == 0 then r else (let (tab, high) = mp_shl r s 0 in mpb_renorm (tab ++ (high ∷ []))) in
    replicate l 0 ++ r'

-- The bits of all the limbs together.
pub or_limbs : List ℕ → ℕ
or_limbs [] = 0
or_limbs (x ∷ xs) = bit_or x (or_limbs xs)

-- `bit2` of the mode to even: all the bits of `r` below bit `shift - 1`.
pub low_bits_or : Mpb → ℕ → ℕ
low_bits_or r shift =
    if leb 2 shift
    then (let k = shift - 1 in
        let l = k / limb_bits in
        let k' = bit_and k (limb_bits - 1) in
        bit_or (or_limbs (take l r))
          (if ltb l (length r) then bit_and (get_or r l 0) (low_mask k') else 0))
    else 0

-- `add_one` where `bit1` is set.
pub tie_bit : Rounding → Mpb → ℕ → ℕ
tie_bit rndna r shift = 1
tie_bit rndz r shift = 0
tie_bit rndn r shift = if low_bits_or r shift == 0 then mpb_get_bit r shift else 1

pub add_one : Rounding → Mpb → ℕ → ℕ
add_one rndz r shift = 0
add_one mode r shift = if mpb_get_bit r (shift - 1) == 0 then 0 else tie_bit mode r shift

-- The limb that `mp_add_ui` carries out is appended.
unfoldable pub append_carry : List ℕ × ℕ → Mpb
append_carry (tab, a) = if a == 0 then tab else tab ++ (a ∷ [])

-- `mpb_shr_round` by a positive shift.
pub mpb_shr : Rounding → Mpb → ℕ → Mpb
mpb_shr mode r shift =
    let one = add_one mode r shift in
    let l = shift / limb_bits in
    let s = bit_and shift (limb_bits - 1) in
    if leb (length r) l
    then one ∷ []
    else (let r1 = drop l r in
        let r2 = if s == 0 then r1 else mpb_renorm (mp_shr r1 s 0).0 in
        if one == 0 then r2 else append_carry (mp_add_ui r2 1))

-- `round(r / 2 ^ shift)`.
pub mpb_shr_round : Mpb → ℤ → Rounding → Mpb
unfolding mpb_shl mpb_shr
mpb_shr_round r (pos zero) mode = r
mpb_shr_round r (pos (suc shift)) mode = mpb_shr mode r (suc shift)
mpb_shr_round r (negsuc n) mode = mpb_shl r (suc n)

-- Whether two limbs differ, and how, where the limbs above them do not.
pub cmp_limb : ℤ → ℕ → ℕ → ℤ
cmp_limb (pos zero) x y = if x == y then pos 0 else if ltb x y then negsuc 0 else pos 1
cmp_limb above x y = above

-- The loop of `mpb_cmp` over arrays of one length goes down from the top limb.
pub cmp_limbs : List ℕ → List ℕ → ℤ
cmp_limbs [] ys = pos 0
cmp_limbs (x ∷ xs) [] = pos 0
cmp_limbs (x ∷ xs) (y ∷ ys) = cmp_limb (cmp_limbs xs ys) x y

-- -1, 0 or 1.
pub mpb_cmp : Mpb → Mpb → ℤ
unfolding cmp_limbs cmp_limb
mpb_cmp a b =
    if ltb (length a) (length b)
    then negsuc 0
    else if ltb (length b) (length a)
    then pos 1
    else cmp_limbs a b

pub mpb_set_u64 : ℕ → Mpb
mpb_set_u64 m =
    if u32 (m >>> limb_bits) == 0 then u32 m ∷ [] else u32 m ∷ u32 (m >>> limb_bits) ∷ []

pub mpb_get_u64 : Mpb → ℕ
mpb_get_u64 r =
    if length r == 1 then get_or r 0 0 else bit_or (get_or r 0 0) (u64 (get_or r 1 0 <<< limb_bits))

-- The position of the highest set bit, or -1.
pub mpb_floor_log2 : Mpb → ℤ
mpb_floor_log2 a =
    let v = get_or a (length a - 1) 0 in
    if v == 0 then negsuc 0 else pos (length a * limb_bits - 1 - clz32 v)
