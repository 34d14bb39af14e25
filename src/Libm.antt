-- ===== src/Libm.antt =====
-- The functions of libm.c over the bits of the doubles: the conversions to integers and the words of a
-- double.
pub mod Value
pub mod Rint
pub mod Small
pub mod Rounded
pub mod Whole
pub mod Wrappers
use mquickjs_port.Base.{
  ℕ, zero, suc, ◌+◌, ◌-◌, ◌*◌, ◌/◌, ◌%◌, ◌^◌, ltb, leb, ◌==◌, if◌then◌else◌, not, ◌&&◌, ◌||◌, Bool,
  true, false, bit_or, bit_and, u32, u64, ◌<<<◌, ◌>>>◌, low_mask,
}

-- The rounding modes that `rint_sf64` supports: RM_RUP, RM_RDN, RM_RTZ, RM_RMM and RM_RMMUP.
pub data RintMode : Type 0 where
  rup rdn rtz rmm rmmup : RintMode

-- `s ^ (rm & 1)` for RM_RUP, which is odd, and RM_RDN, which is even.
abbrev pub rint_outwards : ℕ → RintMode → Bool
rint_outwards s rup = s == 0
rint_outwards s rdn = not (s == 0)
rint_outwards s _ = false

-- The switch for |a| < 1, with the biased exponent `e` and the mantissa `m`: 0 or 1.
pub small : ℕ → ℕ → ℕ → RintMode → ℕ
small s e m rup = if rint_outwards s rup then 0x3ff <<< 52 else 0
small s e m rdn = if rint_outwards s rdn then 0x3ff <<< 52 else 0
small s e m rmm =
    if e == 0x3fe && (not (m == 0) || (m == 0 && (s == 0 || true))) then 0x3ff <<< 52 else 0
small s e m rmmup =
    if e == 0x3fe && (not (m == 0) || (m == 0 && (s == 0 || false))) then 0x3ff <<< 52 else 0
small s e m rtz = 0

-- The switch for 1 ≤ |a| < 2^52.
pub rint_addend : ℕ → ℕ → RintMode → ℕ
rint_addend s one rmmup = (one >>> 1) - s
rint_addend s one rmm = one >>> 1
rint_addend s one rtz = 0
rint_addend s one rup = if rint_outwards s rup then one - 1 else 0
rint_addend s one rdn = if rint_outwards s rdn then one - 1 else 0

-- `rint_sf64` on the bits of a double.
pub rint_sf64 : ℕ → RintMode → ℕ
rint_sf64 u rm =
    let e = bit_and (u >>> 52) 0x7ff in
    let s = u >>> 63 in
    let m = bit_and u (low_mask 52) in
    let one = 1 <<< (52 - (e - 0x3ff)) in
    if ltb e 0x3ff
    then if e == 0 && m == 0 then u else bit_or (small s e m rm) (s <<< 63)
    else if ltb (e - 0x3ff) 52
    then bit_and (u64 (u + rint_addend s one rm)) (low_mask 64 - (one - 1))
    else u

unfoldable pub js_floor : ℕ → ℕ
js_floor x = rint_sf64 x rdn

unfoldable pub js_ceil : ℕ → ℕ
js_ceil x = rint_sf64 x rup

unfoldable pub js_trunc : ℕ → ℕ
js_trunc x = rint_sf64 x rtz

unfoldable pub js_round_inf : ℕ → ℕ
js_round_inf x = rint_sf64 x rmmup

unfoldable pub js_fabs : ℕ → ℕ
js_fabs x = bit_and x 0x7fffffffffffffff

-- The two words of a double.
unfoldable pub get_high_word : ℕ → ℕ
get_high_word d = d >>> 32

unfoldable pub set_high_word : ℕ → ℕ → ℕ
set_high_word d h = bit_or (bit_and d 0xffffffff) (h <<< 32)

unfoldable pub get_low_word : ℕ → ℕ
get_low_word d = u32 d

unfoldable pub zero_low : ℕ → ℕ
zero_low x = bit_and x 0xffffffff00000000

unfoldable pub float64_from_u32 : ℕ → ℕ → ℕ
float64_from_u32 h l = bit_or (h <<< 32) l
