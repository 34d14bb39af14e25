-- ===== src/Mp.antt =====
-- The multi-precision routines `mp_*` of dtoa.c. An array `tab` with its length `n` is the list of
-- its `n` limbs, lowest first; a routine that fills an array returns it beside its result.
pub mod Carry
pub mod Shift
pub mod Divide
pub mod Reciprocal
pub mod Normalised
use mquickjs_port.Base.{
  ℕ, zero, suc, ◌+◌, ◌-◌, ◌*◌, ◌/◌, ◌%◌, ◌^◌, bit_and, bit_or, u32, u64, ◌<<<◌, ◌>>>◌, low_mask,
  ltb, ◌==◌, if◌then◌else◌, List, [], ◌∷◌, length,
}
use mquickjs_port.Limbs.{limb_bits}

-- `tab[] + b`, in place; the loop stops at the first carry 0.
pub mp_add_ui : List ℕ → ℕ → List ℕ × ℕ
mp_add_ui [] k = ([], k)
mp_add_ui (x ∷ tab) k =
    let a = u32 (x + k) in
    let (rest, carry) = mp_add_ui tab (if ltb a k then 1 else 0) in
    if k == 0 then (x ∷ tab, k) else (a ∷ rest, carry)

-- `taba[] * b + l`, with the high carry.
pub mp_mul1 : List ℕ → ℕ → ℕ → List ℕ × ℕ
mp_mul1 [] b l = ([], l)
mp_mul1 (x ∷ taba) b l =
    let t = u64 (x * b + l) in
    let (tabr, carry) = mp_mul1 taba b (t >>> limb_bits) in (u32 t ∷ tabr, carry)

unfoldable pub udiv1norm_init : ℕ → ℕ
udiv1norm_init d =
    let a1 = u32 (2 ^ 32 - d + 2 ^ 32 - 1) in
    let a0 = low_mask 32 in u32 (bit_or (a1 <<< limb_bits) a0 / d)

-- `(slimb_t)a0 >> (LIMB_BITS - 1)`: all ones where the top bit of `a0` is set.
sign_mask : ℕ → ℕ
sign_mask a0 = if ltb a0 (2 ^ 31) then 0 else low_mask 32

-- The quotient of `udiv1norm` before it is corrected.
quotient_estimate : ℕ → ℕ → ℕ → ℕ → ℕ
unfolding sign_mask
quotient_estimate a1 a0 d d_inv =
    let n1m = sign_mask a0 in
    let n_adj = u32 (a0 + bit_and n1m d) in
    let a = u64 (u64 (d_inv * u32 (a1 + 2 ^ 32 - n1m)) + n_adj) in u32 ((a >>> limb_bits) + a1)

-- The remainder for the quotient `q + 1`, and its correction by the high word `ah`, which is 0 or
-- all ones.
correct_quotient : ℕ → ℕ → ℕ → ℕ → ℕ × ℕ
correct_quotient a1 a0 d q =
    let a = u64 (bit_or (a1 <<< limb_bits) a0 + 2 ^ 64 - u64 (q * d) + 2 ^ 64 - d) in
    let ah = u32 (a >>> limb_bits) in (u32 (q + 1 + ah), u32 (u32 a + bit_and ah d))

-- The quotient and the remainder of `a1 * 2 ^ 32 + a0` by `d`.
pub udiv1norm : ℕ → ℕ → ℕ → ℕ → ℕ × ℕ
unfolding quotient_estimate correct_quotient
udiv1norm a1 a0 d d_inv = correct_quotient a1 a0 d (quotient_estimate a1 a0 d d_inv)

-- The quotient of `r * 2 ^ (32 * n) + taba[]` by `b`, and the remainder. The loop goes from the
-- highest limb down.
pub mp_div1 : List ℕ → ℕ → ℕ → List ℕ × ℕ
mp_div1 [] b r = ([], r)
mp_div1 (x ∷ taba) b r =
    let (tabr, r') = mp_div1 taba b r in
    let a1 = bit_or (r' <<< limb_bits) x in (u32 (a1 / b) ∷ tabr, u32 (a1 % b))

-- The loop of `mp_shr`, with the last limb read.
shr_loop : List ℕ → ℕ → ℕ → List ℕ × ℕ
shr_loop [] shift l = ([], l)
shr_loop (a ∷ tab) shift l =
    let (tab_r, l') = shr_loop tab shift l in
    (bit_or (a >>> shift) (u32 (l' <<< (limb_bits - shift))) ∷ tab_r, a)

pub mp_shr : List ℕ → ℕ → ℕ → List ℕ × ℕ
unfolding shr_loop
mp_shr tab shift high =
    let (tab_r, l) = shr_loop tab shift high in (tab_r, bit_and l (low_mask shift))

pub mp_shl : List ℕ → ℕ → ℕ → List ℕ × ℕ
mp_shl [] shift l = ([], l)
mp_shl (a ∷ tab) shift l =
    let (tab_r, l') = mp_shl tab shift (a >>> (limb_bits - shift)) in
    (bit_or (u32 (a <<< shift)) l ∷ tab_r, l')

-- The division loop of `mp_div1norm`.
div1norm_loop : List ℕ → ℕ → ℕ → ℕ → List ℕ × ℕ
div1norm_loop [] b b_inv r = ([], r)
div1norm_loop (x ∷ taba) b b_inv r =
    let (tabr, r') = div1norm_loop taba b b_inv r in
    let (q, r'') = udiv1norm r' x b b_inv in (q ∷ tabr, r'')

pub mp_div1norm : List ℕ → ℕ → ℕ → ℕ → ℕ → List ℕ × ℕ
unfolding div1norm_loop
mp_div1norm taba b r b_inv shift =
    if shift == 0
    then div1norm_loop taba b b_inv r
    else (let (shifted, high) = mp_shl taba shift 0 in
        let (tabr, r') = div1norm_loop shifted b b_inv (bit_or (u32 (r <<< shift)) high) in
        (tabr, r' >>> shift))
