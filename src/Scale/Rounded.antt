-- ===== src/Scale/Rounded.antt =====
-- `mul_pow_round` against the rounded value of `m * 2 ^ e * radix ^ f`.
use mquickjs_port.Base.{
  ℕ, zero, suc, ◌+◌, ◌-◌, ◌*◌, ◌^◌, ◌≤◌, ◌<◌, ◌≡◌, refl, ap, sym, ◌∙◌, arith, true, inl, inr,
}
use mquickjs_port.Base.Int.{
  ℤ, pos, negsuc, pos_part, neg_part, ◌+ℤ◌, ◌-ℤ◌, +ℤ_parts, -ℤ_parts, eq_of_parts,
}
use mquickjs_port.Base.Pow.{pow-add, pow-mul, pow-pos}
use mquickjs_port.Cutils.{max_int}
use mquickjs_port.Limbs.{value}
use mquickjs_port.Mpb.{Mpb, mpb_shr_round, mpb_set_u64}
use mquickjs_port.Mpb.Compact.{IsCompact, mpb_set_u64_lem}
use mquickjs_port.Mpb.Round.{mpb_shr_round_left, mpb_shr_round_right, round_div-one}
use mquickjs_port.Rounding.{Rounding, round_div}
use mquickjs_port.Scale.{extra_bits, mul_pow, mul_pow_round}
use mquickjs_port.Scale.Sticky.{round_div_scale, round_div-sticky_div}
use mquickjs_port.Scale.Up.{IsOddPart, mul_pow_up, one-pow}
use mquickjs_port.Scale.Down.{up_bits, mul_pow_down}
use mathlib.Core.Path.{ap₂}
use native.Mathlib.Nat.{
  add_assoc, mul_assoc, mul_comm, mul-pos, pow-suc, pow-zero, mul-mul-mul_comm, one-mul,
}

pub mul-pow : (a b n : ℕ) → (a * b) ^ n ≡ a ^ n * b ^ n
mul-pow a b zero = rw (pow-zero, pow-zero, pow-zero)
mul-pow a b (suc n) =
    rw (pow-suc, pow-suc a n, pow-suc b n, mul-pow a b n) (mul-mul-mul_comm (a ^ n) (b ^ n) a b)

-- A shift by `x - y` bits to the right, whatever its sign.
shift_lem :
    (mode : Rounding) (a : Mpb) (s : ℤ) (x y : ℕ)
    → IsCompact a
    → 0 < value a
    → pos_part s + y ≡ neg_part s + x
    → value (mpb_shr_round a s mode) ≡ round_div mode (value a * 2 ^ y) (2 ^ x)
shift_lem mode a (pos n) x y c p e =
    (mpb_shr_round_right mode a n c).0
    ∙ sym (
        round_div_scale mode (value a) (2 ^ n) (2 ^ y) (pow-pos 2 n (omega arith))
          (pow-pos 2 y (omega arith)))
    ∙ ap (λ (t : ℕ). round_div mode (value a * 2 ^ y) t)
        (sym (pow-add 2 n y) ∙ ap (λ (t : ℕ). 2 ^ t) (omega arith))
shift_lem mode a (negsuc n) x y c p e =
    (mpb_shr_round_left mode a n c p).0
    ∙ sym (
        round_div_scale mode (value a * 2 ^ suc n) 1 (2 ^ x) (omega arith)
          (pow-pos 2 x (omega arith))
        ∙ round_div-one mode (value a * 2 ^ suc n))
    ∙ ap₂ (round_div mode)
        (mul_assoc (value a) (2 ^ suc n) (2 ^ x)
          ∙ ap (λ (t : ℕ). value a * t)
              (sym (pow-add 2 (suc n) x) ∙ ap (λ (t : ℕ). 2 ^ t) (omega arith)))
        (one-mul (2 ^ x))

-- The power of two that the odd part leaves out of a power of the radix.
radix_power : (r s f : ℕ) → (r * 2 ^ s) ^ f ≡ r ^ f * 2 ^ (f * s)
radix_power r s f =
    mul-pow r (2 ^ s) f
    ∙ ap (λ (t : ℕ). r ^ f * t) (sym (pow-mul 2 s f) ∙ ap (λ (t : ℕ). 2 ^ t) (mul_comm s f))

IsOddPart-pos : (r : ℕ) → IsOddPart r → 0 < r
IsOddPart-pos r (inl e) = omega arith
IsOddPart-pos r (inr h) = omega arith

-- For 0 < m < 2 ^ 64, a radix `radix1 * 2 ^ radix_shift` with `radix1` 1 or odd from 3 to 35, and
-- `f >= 0`, `mul_pow_round` returns `m * radix ^ f * 2 ^ e` rounded to an integer in the mode asked
-- for; `e` may be negative.
pub mul_pow_round_up :
    (m : ℕ) (e : ℤ) (radix1 radix_shift f : ℕ) (mode : Rounding)
    → 0 < m
    → m < 2 ^ 64
    → IsOddPart radix1
    → value (mul_pow_round m e radix1 radix_shift (pos f) mode)
      ≡ round_div mode (m * (radix1 * 2 ^ radix_shift) ^ f * 2 ^ pos_part e) (2 ^ neg_part e)
unfolding mul_pow_round
mul_pow_round_up m e radix1 radix_shift f mode p h odd =
    let set = mpb_set_u64_lem m h in
    let up = mul_pow_up (mpb_set_u64 m) radix1 radix_shift f true e set.1 odd in
    let scaled = (mul_pow (mpb_set_u64 m) radix1 radix_shift (pos f) true e).0 in
    let number : value scaled ≡ m * radix1 ^ f = up.0 ∙ ap (λ (t : ℕ). t * radix1 ^ f) set.0 in
    rw up.2 (
      shift_lem mode scaled (pos 0 -ℤ pos (f * radix_shift) -ℤ e) (neg_part e)
        (f * radix_shift + pos_part e) up.1
        (rw number (mul-pos p (pow-pos radix1 f (IsOddPart-pos radix1 odd))))
        (omega (
          arith,
          -ℤ_parts (pos 0 -ℤ pos (f * radix_shift)) e,
          -ℤ_parts (pos 0) (pos (f * radix_shift)),
        ))
      ∙ ap (λ (t : ℕ). round_div mode t (2 ^ neg_part e))
          (rw (number, radix_power radix1 radix_shift f, pow-add 2 (f * radix_shift) (pos_part e))
            (regroup m (radix1 ^ f) _ _)))
  where
    regroup : (a b c d : ℕ) → a * b * (c * d) ≡ a * (b * c) * d
    regroup a b c d = omega (arith, mul_assoc (a * b) c d, mul_assoc a b c)

-- With `is_int` a division leaves at least two bits for the rounding.
extra_enough :
    (a : Mpb) (e : ℤ) (o : ℕ) → 2 + pos_part e ≤ o + extra_bits a true e (pos o) + neg_part e
unfolding extra_bits max_int
extra_enough a e o = ground (arith, -ℤ_parts (pos 2 +ℤ e) (pos o), +ℤ_parts (pos 2) e)

-- The shift behind a division, which is by `t + 2` bits.
down_shift :
    (o : ℕ) (e : ℤ)
    → 2 + pos_part e ≤ o + neg_part e
    → (t : ℕ) × (pos o -ℤ e ≡ pos (suc (suc t))) × (suc (suc t) + pos_part e ≡ o + neg_part e)
down_shift o e h = (
  o + neg_part e - pos_part e - 2,
  eq_of_parts _ _ (omega (arith, -ℤ_parts (pos o) e)),
  omega arith,
)

-- Both fractions are the same one, expanded by a power of two.
same_fraction :
    (mode : Rounding) (m p rs k s t pe ne : ℕ)
    → 0 < p
    → suc (suc t) + pe ≡ suc k * rs + s + ne
    → round_div mode (m * 2 ^ s) (p * 2 ^ suc (suc t))
      ≡ round_div mode (m * 2 ^ pe) (p * 2 ^ (suc k * rs) * 2 ^ ne)
same_fraction mode m p rs k s t pe ne hp e =
    sym (
      round_div_scale mode (m * 2 ^ s) (p * 2 ^ suc (suc t)) (2 ^ pe)
        (mul-pos hp (pow-pos 2 (suc (suc t)) (omega arith))) (pow-pos 2 pe (omega arith)))
    ∙ ap₂ (round_div mode) (swap_last m (2 ^ s) (2 ^ pe)) bottom
    ∙ round_div_scale mode (m * 2 ^ pe) (p * 2 ^ (suc k * rs) * 2 ^ ne) (2 ^ s)
        (mul-pos (mul-pos hp (pow-pos 2 (suc k * rs) (omega arith))) (pow-pos 2 ne (omega arith)))
        (pow-pos 2 s (omega arith))
  where
    swap_last : (a b c : ℕ) → a * b * c ≡ a * c * b
    swap_last a b c = omega (arith, mul_assoc a b c, mul_assoc a c b)

    bottom : p * 2 ^ suc (suc t) * 2 ^ pe ≡ p * 2 ^ (suc k * rs) * 2 ^ ne * 2 ^ s
    bottom =
        mul_assoc p (2 ^ suc (suc t)) (2 ^ pe)
        ∙ ap (λ (u : ℕ). p * u)
            (sym (pow-add 2 (suc (suc t)) pe)
              ∙ ap (λ (u : ℕ). 2 ^ u) (e ∙ omega arith)
              ∙ pow-add 2 (suc k * rs) (ne + s)
              ∙ ap (λ (u : ℕ). 2 ^ (suc k * rs) * u) (pow-add 2 ne s))
        ∙ sym (
            mul_assoc (p * 2 ^ (suc k * rs)) (2 ^ ne) (2 ^ s)
            ∙ mul_assoc p (2 ^ (suc k * rs)) (2 ^ ne * 2 ^ s))

mul_pow_one :
    (a : Mpb) (rs k : ℕ) (e : ℤ) → mul_pow a 1 rs (negsuc k) true e ≡ (a, pos (suc k * rs))
unfolding mul_pow
mul_pow_one a rs k e = refl

-- For 0 < m < 2 ^ 64, a radix `radix1 * 2 ^ radix_shift` with `radix1` 1 or odd from 3 to 35, and
-- `f = -(k + 1)`, `mul_pow_round` returns `m * 2 ^ e / radix ^ (k + 1)` rounded to an integer in
-- the mode asked for, as the one exact rounding would; `e` may be negative.
pub mul_pow_round_down :
    (m : ℕ) (e : ℤ) (radix1 radix_shift k : ℕ) (mode : Rounding)
    → 0 < m
    → m < 2 ^ 64
    → IsOddPart radix1
    → value (mul_pow_round m e radix1 radix_shift (negsuc k) mode)
      ≡ round_div mode (m * 2 ^ pos_part e) ((radix1 * 2 ^ radix_shift) ^ suc k * 2 ^ neg_part e)
unfolding mul_pow_round
mul_pow_round_down m e radix1 radix_shift k mode p h (inl one) =
    let set = mpb_set_u64_lem m h in
    rw
      (
        one,
        mul_pow_one (mpb_set_u64 m) radix_shift k e,
        radix_power 1 radix_shift (suc k),
        one-pow (suc k),
      )
      (shift_lem mode (mpb_set_u64 m) (pos (suc k * radix_shift) -ℤ e)
          (suc k * radix_shift + neg_part e) (pos_part e) set.1 (rw set.0 p)
          (omega (arith, -ℤ_parts (pos (suc k * radix_shift)) e))
        ∙ ap₂ (round_div mode) (ap (λ (t : ℕ). t * 2 ^ pos_part e) set.0) (
            pow-add 2 (suc k * radix_shift) (neg_part e)
            ∙ ap (λ (t : ℕ). t * 2 ^ neg_part e) (sym (one-mul (2 ^ (suc k * radix_shift))))))
mul_pow_round_down m e radix1 radix_shift k mode p h (inr odd) =
    let set = mpb_set_u64_lem m h in
    let a = mpb_set_u64 m in
    let s = up_bits a radix1 radix_shift (suc k) true e in
    let down = mul_pow_down a radix1 radix_shift k true e set.1 (rw set.0 p) odd in
    let (t, shift, bits) =
      down_shift (suc k * radix_shift + s) e (rw (← add_assoc) (extra_enough a e _)) in
    let q = radix1 ^ suc k in
    let hq : 0 < q = pow-pos radix1 (suc k) (omega arith) in
    rw (down.2, shift, radix_power radix1 radix_shift (suc k))
      ((mpb_shr_round_right mode _ (suc (suc t)) down.1).0
        ∙ rw (down.0, set.0) (round_div-sticky_div mode (m * 2 ^ s) q t hq)
        ∙ same_fraction mode m q radix_shift k s t (pos_part e) (neg_part e) hq bits)
