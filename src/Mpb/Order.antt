-- ===== src/Mpb/Order.antt =====
-- `mpb_cmp` and `mpb_floor_log2`: the order and the size of the numbers.
use mquickjs_port.Base.{
  ℕ, suc, ◌+◌, ◌-◌, ◌*◌, ◌/◌, ◌^◌, ◌≤◌, ◌<◌, ◌==◌, ◌≡◌, inl, inr, refl, ap, ◌∙◌, ltb, if◌then◌else◌,
  arith, List, [], ◌∷◌, length, get_or, drop, Bool-cases, false, length-drop, All-drop,
}
use mquickjs_port.Base.Int.{ℤ, pos, negsuc}
use mquickjs_port.Base.Pow.{pow-add, pow-mul, pow-pos}
use mquickjs_port.Limbs.{IsLimb, IsLimbs, value, weight, weight-pos, weight-eq-pow, value-lt-weight}
use mquickjs_port.Cutils.{clz32}
use mquickjs_port.Cutils.Scan.{clz32_lem}
use mquickjs_port.Mpb.{Mpb, mpb_cmp, cmp_limbs, cmp_limb, mpb_floor_log2}
use mquickjs_port.Mpb.Compact.{IsCompact}
use mquickjs_port.Mpb.Bit.{value-drop, get_or-eq-mod}
use native.Mathlib.Nat.{
  div-add-mod, mod-lt, mod-eq_of_lt, mul-le-mul_left, div-one, le-div_iff_mul-le, pow-suc,
}

-- -1, 0 or 1, as `a` is below, equal to or above `b`.
abbrev pub sign_of : ℕ → ℕ → ℤ
sign_of a b = if a == b then pos 0 else if ltb a b then negsuc 0 else pos 1

cmp_step :
    (x y v w : ℕ)
    → IsLimb x
    → IsLimb y
    → cmp_limb (sign_of v w) x y ≡ sign_of (x + 2 ^ 32 * v) (y + 2 ^ 32 * w)
unfolding cmp_limb
cmp_step x y v w h k = ground arith

cmp_limbs_lem :
    (a b : List ℕ)
    → IsLimbs a
    → IsLimbs b
    → length a ≡ length b
    → cmp_limbs a b ≡ sign_of (value a) (value b)
unfolding cmp_limbs
cmp_limbs_lem [] [] h k e = refl
cmp_limbs_lem [] (y ∷ b) h k e = absurd (omega arith)
cmp_limbs_lem (x ∷ a) [] h k e = absurd (omega arith)
cmp_limbs_lem (x ∷ a) (y ∷ b) h k e =
    rw (cmp_limbs_lem a b h.1 k.1 (omega arith)) (cmp_step x y (value a) (value b) h.0 k.0)

weight_mono : (a b : List ℕ) → length a < length b → 2 ^ 32 * weight a ≤ weight b
weight_mono [] [] h = absurd (omega arith)
weight_mono (x ∷ a) [] h = absurd (omega arith)
weight_mono [] (y ∷ b) h = omega (arith, weight-pos b)
weight_mono (x ∷ a) (y ∷ b) h = omega (arith, weight_mono a b (omega arith))

-- A number with fewer limbs is smaller.
shorter-lt : (a b : Mpb) → IsCompact a → IsCompact b → length a < length b → value a < value b
shorter-lt a b ca cb h = elim cb.top [
  | inl e ↦ absurd (omega (arith, ca.some_limb))
  | inr t ↦ omega (arith, t, weight_mono a b h, value-lt-weight a ca.words)
]

-- For two compact numbers `mpb_cmp` returns the sign of the comparison of the numbers.
pub mpb_cmp_lem :
    (a b : Mpb) → IsCompact a → IsCompact b → mpb_cmp a b ≡ sign_of (value a) (value b)
unfolding mpb_cmp
mpb_cmp_lem a b ca cb = elim (Bool-cases (ltb (length a) (length b))) [
  | inl shorter ↦ rw shorter (below (value a) (value b) (shorter-lt a b ca cb (ground arith)))
  | inr longer ↦ elim (Bool-cases (ltb (length b) (length a))) [
    | inl more ↦ rw (longer, more) (above (value a) (value b) (shorter-lt b a cb ca (ground arith)))
    | inr same ↦ rw (longer, same) (cmp_limbs_lem a b ca.words cb.words (ground arith))
  ]
]
  where
    below : (v w : ℕ) → v < w → negsuc 0 ≡ sign_of v w
    below v w h = ground arith

    above : (v w : ℕ) → w < v → pos 1 ≡ sign_of v w
    above v w h = ground arith

-- The top limb is what is left of the number without the limbs below.
top_limb :
    (a : Mpb)
    → IsLimbs a
    → 1 ≤ length a
    → get_or a (length a - 1) 0 ≡ value a / (2 ^ 32) ^ (length a - 1)
top_limb a h k =
    get_or-eq-mod (length a - 1) a h ∙ mod-eq_of_lt one_limb ∙ value-drop (length a - 1) a h
  where
    one_limb : value (drop (length a - 1) a) < 2 ^ 32
    one_limb =
        rw (weight-eq-pow (drop (length a - 1) a), length-drop (length a - 1) a, one) at
          (value-lt-weight (drop (length a - 1) a) (All-drop IsLimb (length a - 1) a h))
      where
        one : length a - (length a - 1) ≡ 1
        one = omega arith

top_limb-pos : (a : Mpb) → IsCompact a → 0 < value a → 0 < value a / (2 ^ 32) ^ (length a - 1)
top_limb-pos a c p = elim c.top [
  | inl e ↦ rw (e, div-one (value a)) p
  | inr t ↦
      (le-div_iff_mul-le (pow-pos (2 ^ 32) (length a - 1) (omega arith))).1
        (omega (arith, t, weight-eq-pow a, full a c.some_limb))
]
  where
    full : (a : Mpb) → 1 ≤ length a → (2 ^ 32) ^ length a ≡ (2 ^ 32) ^ (length a - 1) * 2 ^ 32
    full [] k = absurd (omega arith)
    full (x ∷ a) k = rw (one_less (length a)) (pow-suc (2 ^ 32) (length a))
      where
        one_less : (n : ℕ) → suc n - 1 ≡ n
        one_less n = omega arith

-- For a compact number that is not 0 `mpb_floor_log2` is the position of the highest set bit of the
-- number.
pub mpb_floor_log2_lem :
    (a : Mpb)
    → IsCompact a
    → 0 < value a
    → (k : ℕ) × (mpb_floor_log2 a ≡ pos k) × (2 ^ k ≤ value a) × (value a < 2 ^ suc k)
unfolding mpb_floor_log2
mpb_floor_log2_lem a c p =
    let m : ℕ = (2 ^ 32) ^ (length a - 1) in
    let v = value a / m in
    let v_lt : v < 2 ^ 32 = rw (top_limb a c.words c.some_limb) at top_word in
    let vp = top_limb-pos a c p in
    let bits = clz32_lem v vp v_lt in
    let k = 32 * (length a - 1) + (31 - clz32 v) in
    (
      k,
      rw (top_limb a c.words c.some_limb, nonzero v vp)
          (ap (λ (t : ℕ). pos t) (omega (arith, bits.2, c.some_limb))),
      rw (scale (31 - clz32 v)) (omega (arith, div-add-mod (value a) m, mul-le-mul_left m bits.0)),
      rw (next (clz32 v) bits.2, scale (32 - clz32 v))
          (omega (
            arith,
            div-add-mod (value a) m,
            mul-le-mul_left m bits.1,
            mod-lt (value a) {m = m} (pow-pos (2 ^ 32) (length a - 1) (omega arith)),
          )),
    )
  where
    nonzero : (v : ℕ) → 0 < v → (v == 0) ≡ false
    nonzero v h = ground arith

    scale : (j : ℕ) → 2 ^ (32 * (length a - 1) + j) ≡ (2 ^ 32) ^ (length a - 1) * 2 ^ j
    scale j =
        pow-add 2 (32 * (length a - 1)) j ∙ ap (λ (t : ℕ). t * 2 ^ j) (pow-mul 2 32 (length a - 1))

    next : (z : ℕ) → z ≤ 31 → suc (32 * (length a - 1) + (31 - z)) ≡ 32 * (length a - 1) + (32 - z)
    next z h = omega arith

    top_word : get_or a (length a - 1) 0 < 2 ^ 32
    top_word =
        rw (get_or-eq-mod (length a - 1) a c.words)
          (mod-lt (value (drop (length a - 1) a)) {m = 2 ^ 32} (omega arith))
