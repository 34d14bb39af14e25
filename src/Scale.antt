-- ===== src/Scale.antt =====
-- Scaling by powers of the radix in dtoa.c: `mul_pow`, `mul_pow_round`, `round_to_d`.
-- The radix is `radix1 * 2 ^ radix_shift` with `radix1` odd; an `int` is an integer.
pub mod Sticky
pub mod Up
pub mod Down
pub mod Rounded
pub mod Double
use mquickjs_port.Base.{
  ℕ, zero, suc, ◌+◌, ◌-◌, ◌*◌, ◌/◌, ◌%◌, ◌^◌, bit_or, u32, u64, ◌<<<◌, ltb, leb, ◌==◌,
  if◌then◌else◌, ◌&&◌, List, [], ◌∷◌, ◌++◌, length, get_or, Bool, true, false,
}
use Prim.Native.Nat.{min}
use mquickjs_port.Base.Int.{ℤ, pos, negsuc, pos_part, ◌+ℤ◌, ◌-ℤ◌, ◌*ℤ◌, ltb_ℤ}
use mquickjs_port.Cutils.{max_int}
use mquickjs_port.Limbs.{limb_bits}
use mquickjs_port.Mp.{mp_mul1, mp_div1norm}
use mquickjs_port.Mpb.{Mpb, mpb_renorm, mpb_shr_round, mpb_set_u64, mpb_get_u64, mpb_floor_log2}
use mquickjs_port.Radix.{pow_ui, pow_ui_inv}
use mquickjs_port.Radix.Table.{digits_per_limb}
use mquickjs_port.Rounding.{Rounding, rndz}

-- `a` times a limb; a carry makes one more limb.
mul_limb : Mpb → ℕ → Mpb
mul_limb a b = let (tab, h) = mp_mul1 a b 0 in if h == 0 then tab else tab ++ (h ∷ [])

-- The power of `n` digits, which is kept in `b` from the round before if that had `n0 = n`.
kept_power : ℕ → ℕ → ℕ → ℕ → ℕ
kept_power radix1 n n0 b = if n == n0 then b else u32 (pow_ui radix1 n)

-- The loop for `f >= 0`; each round takes at least one of the `f` factors that are left.
mul_loop : ℕ → ℕ → ℕ → Mpb → ℕ → ℕ → ℕ → Mpb
mul_loop zero radix1 d a f n0 b = a
mul_loop (suc fuel) radix1 d a f n0 b =
    let n = min f d in
    let b' = kept_power radix1 n n0 b in
    let rest = mul_loop fuel radix1 d (mul_limb a b') (f - n) n b' in if f == 0 then a else rest

kept_inverse : ℕ → ℕ → ℕ → ℕ × ℕ × ℕ → ℕ × ℕ × ℕ
kept_inverse radix1 n n0 b = if n == n0 then b else pow_ui_inv radix1 n

-- The loop for `f < 0`, with `-f` factors left; `rem` collects the remainders.
pub div_loop : ℕ → ℕ → ℕ → Mpb → ℕ → ℕ → ℕ × ℕ × ℕ → ℕ → Mpb × ℕ
div_loop zero radix1 d a f n0 b rem = (a, rem)
div_loop (suc fuel) radix1 d a f n0 b rem =
    let n = min f d in
    let b' = kept_inverse radix1 n n0 b in
    let quotient = mp_div1norm a b'.0 0 b'.1 b'.2 in
    let rest =
      div_loop fuel radix1 d (mpb_renorm quotient.0) (f - n) n b' (bit_or rem quotient.1) in
    if f == 0 then (a, rem) else rest

-- `a->tab[0] |= (rem != 0)`.
pub set_sticky : Mpb → ℕ → Mpb
set_sticky [] rem = []
set_sticky (x ∷ a) rem = bit_or x (if rem == 0 then 0 else 1) ∷ a

-- The extra bits that a division needs for the rounding that follows.
pub extra_bits : Mpb → Bool → ℤ → ℤ → ℕ
extra_bits a is_int e e_offset = pos_part (
    if is_int
    then max_int (pos 2 +ℤ e -ℤ e_offset) (pos 0)
    else max_int (e -ℤ mpb_floor_log2 a) (pos 0))

-- `mul_pow` for `f = -g`, when `radix1` is not 1.
pub div_pow : Mpb → ℕ → ℕ → ℕ → Bool → ℤ → Mpb × ℤ
div_pow a radix1 radix_shift g is_int e =
    let d = digits_per_limb radix1 in
    let l = (g + d - 1) / d in
    let e_offset = g * radix_shift + l * limb_bits in
    let extra = extra_bits a is_int e (pos e_offset) in
    let shifted = mpb_shr_round a (pos 0 -ℤ pos (l * limb_bits + extra)) rndz in
    let done = div_loop g radix1 d shifted g 0 (0, 0, 0) 0 in
    (set_sticky done.0 done.1, pos (e_offset + extra))

-- `a` and `e_offset` with `a = a0 * (radix1 * 2 ^ radix_shift) ^ f * 2 ^ e_offset`, up to the bits
-- that are lost.
pub mul_pow : Mpb → ℕ → ℕ → ℤ → Bool → ℤ → Mpb × ℤ
unfolding mul_loop mul_limb kept_power div_pow div_loop kept_inverse set_sticky extra_bits
mul_pow a radix1 radix_shift (pos f) is_int e =
    if radix1 == 1
    then (a, pos 0 -ℤ pos (f * radix_shift))
    else (mul_loop f radix1 (digits_per_limb radix1) a f 0 0, pos 0 -ℤ pos (f * radix_shift))
mul_pow a radix1 radix_shift (negsuc g) is_int e =
    if radix1 == 1
    then (a, pos (suc g * radix_shift))
    else div_pow a radix1 radix_shift (suc g) is_int e

-- `round(m * 2 ^ e * radix ^ f)`.
pub mul_pow_round : ℕ → ℤ → ℕ → ℕ → ℤ → Rounding → Mpb
mul_pow_round m e radix1 radix_shift f mode =
    let scaled = mul_pow (mpb_set_u64 m) radix1 radix_shift f true e in
    mpb_shr_round scaled.0 (scaled.1 -ℤ e) mode

-- The number of bits that a float64 with the exponent `e` keeps: 53, or less for a subnormal.
precision : ℤ → ℤ
precision e = if ltb_ℤ e (negsuc 1020) then pos 53 -ℤ (negsuc 1020 -ℤ e) else pos 53

-- The shift and the carry behind the rounding of `round_to_d`.
finish_round : ℕ → ℤ → ℤ → ℕ × ℤ
finish_round m0 prec e =
    let m = u64 (m0 <<< pos_part (pos 53 -ℤ prec)) in
    if leb (2 ^ 53) m then (m / 2, e +ℤ pos 1) else (m, e)

-- `round(a * 2 ^ -e_offset)` as a float64 mantissa and exponent.
pub round_to_d : Mpb → ℤ → Rounding → ℕ × ℤ
unfolding finish_round precision
round_to_d a e_offset mode =
    let e = mpb_floor_log2 a +ℤ pos 1 -ℤ e_offset in
    let prec = precision e in
    if get_or a 0 0 == 0 && length a == 1
    then (0, pos 0)
    else finish_round (mpb_get_u64 (mpb_shr_round a (e +ℤ e_offset -ℤ prec) mode)) prec e

-- The mantissa and the exponent of `round(a * radix ^ f)`.
pub mul_pow_round_to_d : Mpb → ℕ → ℕ → ℤ → Rounding → ℕ × ℤ
mul_pow_round_to_d a radix1 radix_shift f mode =
    let scaled = mul_pow a radix1 radix_shift f false (pos 55) in round_to_d scaled.0 scaled.1 mode
