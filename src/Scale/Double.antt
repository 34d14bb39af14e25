-- ===== src/Scale/Double.antt =====
-- `round_to_d`: rounding a big number to the mantissa and the exponent of a double.
use mquickjs_port.Base.{
  ℕ, zero, suc, ◌-◌, ◌*◌, ◌/◌, ◌%◌, ◌^◌, ◌≤◌, ◌<◌, ◌≡◌, refl, ap, sym, ◌∙◌, arith, [], ◌∷◌, length,
  get_or, ◌==◌, ◌&&◌, false, Bool-cases, inl, inr, ◌⊎◌, leb, u64, ◌<<<◌,
}
use mquickjs_port.Base.Int.{
  ℤ, pos, negsuc, ◌+ℤ◌, ◌-ℤ◌, ltb_ℤ, pos_part, eq_of_parts, -ℤ_parts, +ℤ_parts,
}
use mquickjs_port.Base.Pow.{pow-add, pow-pos}
use mquickjs_port.Limbs.{value}
use mquickjs_port.Mpb.{Mpb, mpb_get_u64, mpb_shr_round, mpb_floor_log2}
use mquickjs_port.Mpb.Compact.{IsCompact, mpb_get_u64_lem}
use mquickjs_port.Mpb.Order.{mpb_floor_log2_lem}
use mquickjs_port.Mpb.Round.{mpb_shr_round_right, mpb_shr_round_left, round_div-one}
use mquickjs_port.Rounding.{Rounding, rndn, rndna, rndz, round_div, round_up}
use mquickjs_port.Scale.{finish_round, precision, round_to_d}
use mquickjs_port.Scale.Sticky.{round_div_scale}
use native.Mathlib.Nat.{
  pow-le-pow_right, pow-suc, le-div_iff_mul-le, div-lt_iff_lt-mul, mul_assoc, mod-eq_of_lt,
}

-- A rounded quotient is the quotient or one more.
round_up_le : (mode : Rounding) (q r d : ℕ) → round_up mode q r d ≤ 1
unfolding round_up
round_up_le rndn q r d = ground arith
round_up_le rndna q r d = ground arith
round_up_le rndz q r d = omega arith

-- The position of the top bit is the only one.
top_unique : (v j k : ℕ) → 2 ^ j ≤ v → v < 2 ^ suc j → 2 ^ k ≤ v → v < 2 ^ suc k → j ≤ k
top_unique v j k lo hi lo' hi' = elim (Bool-cases (leb j k)) [
  | inl le ↦ ground arith
  | inr gt ↦
      absurd
        (omega (arith, pow-le-pow_right {n = 2} (omega arith) {i = suc k} {j = j} (ground arith)))
]

-- The number shifted so that its top bit is bit 52, rounded.
shifted_lem :
    (mode : Rounding) (a : Mpb) (l : ℕ)
    → IsCompact a
    → 0 < value a
    → (value (mpb_shr_round a (pos (suc l) -ℤ pos 53) mode)
        ≡ round_div mode (value a * 2 ^ 52) (2 ^ l))
      × IsCompact (mpb_shr_round a (pos (suc l) -ℤ pos 53) mode)
shifted_lem mode a l c p = elim (Bool-cases (leb 52 l)) [
  | inl long ↦
      let same : pos (suc l) -ℤ pos 53 ≡ pos (l - 52) =
        eq_of_parts _ _ (ground (arith, -ℤ_parts (pos (suc l)) (pos 53))) in
      let right = mpb_shr_round_right mode a (l - 52) c in
      let weights : 2 ^ (l - 52) * 2 ^ 52 ≡ 2 ^ l =
        sym (pow-add 2 (l - 52) 52) ∙ ap (λ (t : ℕ). 2 ^ t) {y = l} (ground arith) in
      rw same (
        right.0
            ∙ sym (
                round_div_scale mode (value a) (2 ^ (l - 52)) (2 ^ 52)
                  (pow-pos 2 (l - 52) (omega arith)) (omega arith))
            ∙ ap (λ (t : ℕ). round_div mode (value a * 2 ^ 52) t) weights,
        right.1,
      )
  | inr few ↦
      let same : pos (suc l) -ℤ pos 53 ≡ negsuc (51 - l) =
        eq_of_parts _ _ (ground (arith, -ℤ_parts (pos (suc l)) (pos 53))) in
      let left = mpb_shr_round_left mode a (51 - l) c p in
      let weights : 2 ^ suc (51 - l) * 2 ^ l ≡ 2 ^ 52 =
        sym (pow-add 2 (suc (51 - l)) l) ∙ ap (λ (t : ℕ). 2 ^ t) {y = 52} (ground arith) in
      rw same (
        left.0
            ∙ sym (round_div-one mode (value a * 2 ^ suc (51 - l)))
            ∙ sym (
                round_div_scale mode (value a * 2 ^ suc (51 - l)) 1 (2 ^ l) (omega arith)
                  (pow-pos 2 l (omega arith)))
            ∙ ap (λ (t : ℕ). round_div mode t (1 * 2 ^ l))
                (mul_assoc (value a) (2 ^ suc (51 - l)) (2 ^ l)
                  ∙ ap (λ (t : ℕ). value a * t) weights)
            ∙ ap (λ (t : ℕ). round_div mode (value a * 2 ^ 52) t) {y = 2 ^ l} (omega arith),
        left.1,
      )
]

-- The rounded quotient has 53 bits, or is the power above them.
bounds :
    (mode : Rounding) (v l : ℕ)
    → 2 ^ l ≤ v
    → v < 2 ^ suc l
    → (2 ^ 52 ≤ round_div mode (v * 2 ^ 52) (2 ^ l))
      × (round_div mode (v * 2 ^ 52) (2 ^ l) ≤ 2 ^ 53)
unfolding round_div
bounds mode v l lo hi =
    let low : 2 ^ 52 ≤ v * 2 ^ 52 / 2 ^ l =
      (le-div_iff_mul-le (pow-pos 2 l (omega arith))).1 (omega arith) in
    let high : v * 2 ^ 52 / 2 ^ l < 2 ^ 53 =
      (div-lt_iff_lt-mul (pow-pos 2 l (omega arith))).1 (omega (arith, pow-suc 2 l)) in
    (omega arith, omega (arith, round_up_le mode (v * 2 ^ 52 / 2 ^ l) (v * 2 ^ 52 % 2 ^ l) (2 ^ l)))

no_shift : pos_part (pos 53 -ℤ pos 53) ≡ 0
unfolding ◌-ℤ◌
no_shift = refl

-- What `finish_round` makes of such a number.
finish_lem :
    (m : ℕ) (e : ℤ)
    → 2 ^ 52 ≤ m
    → m ≤ 2 ^ 53
    → (2 ^ 52 ≤ (finish_round m (pos 53) e).0)
      × ((finish_round m (pos 53) e).0 < 2 ^ 53)
      × ((((finish_round m (pos 53) e).0 ≡ m) × ((finish_round m (pos 53) e).1 ≡ e))
          ⊎ (((finish_round m (pos 53) e).0 * 2 ≡ m)
              × ((finish_round m (pos 53) e).1 ≡ e +ℤ pos 1)))
unfolding finish_round
finish_lem m e lo hi = elim (Bool-cases (leb (2 ^ 53) m)) [
  | inl over ↦ rw (same, over) (ground arith, ground arith, inr (ground arith, refl))
  | inr under ↦ rw (same, under) (lo, ground arith, inl (refl, refl))
]
  where
    same : u64 (m <<< pos_part (pos 53 -ℤ pos 53)) ≡ m
    same = rw no_shift (omega (arith, mod-eq_of_lt {n = m} {m = 2 ^ 64} (omega arith)))

precision_normal : (e : ℤ) → ltb_ℤ e (negsuc 1020) ≡ false → precision e ≡ pos 53
unfolding precision
precision_normal e h = rw h refl

cancel : (x off y : ℤ) → x -ℤ off +ℤ off -ℤ y ≡ x -ℤ y
cancel x off y = eq_of_parts _ _ (
    omega
      (arith, -ℤ_parts x off, +ℤ_parts (x -ℤ off) off, -ℤ_parts (x -ℤ off +ℤ off) y, -ℤ_parts x y))

successor : (l : ℕ) → pos l +ℤ pos 1 ≡ pos (suc l)
successor l = eq_of_parts _ _ (omega (arith, +ℤ_parts (pos l) (pos 1)))

not_zero : (v : Mpb) → 0 < value v → (get_or v 0 0 == 0 && length v == 1) ≡ false
not_zero [] h = refl
not_zero (zero ∷ []) h = absurd (omega arith)
not_zero (suc x ∷ []) h = ground arith
not_zero (x ∷ y ∷ v) h = ground arith

floor_log2 :
    (a : Mpb) (l : ℕ)
    → IsCompact a
    → 2 ^ l ≤ value a
    → value a < 2 ^ suc l
    → mpb_floor_log2 a ≡ pos l
floor_log2 a l c lo hi =
    let (k, e, lo', hi') = mpb_floor_log2_lem a c (omega (arith, pow-pos 2 l (omega arith))) in
    let up = top_unique (value a) k l lo' hi' lo hi in
    let down = top_unique (value a) l k lo hi lo' hi' in e ∙ ap (λ (t : ℕ). pos t) (omega arith)

-- For a compact number with its top bit at `l` whose exponent `l + 1 - e_offset` is that of a
-- normal double, `round_to_d` returns a mantissa of 53 bits and an exponent: the number rounded to
-- 53 bits in the mode asked for with that exponent, or half of that with the exponent one larger,
-- when the rounding carries.
pub round_to_d_lem :
    (a : Mpb) (e_offset : ℤ) (mode : Rounding) (l : ℕ)
    → IsCompact a
    → 2 ^ l ≤ value a
    → value a < 2 ^ suc l
    → ltb_ℤ (pos (suc l) -ℤ e_offset) (negsuc 1020) ≡ false
    → (2 ^ 52 ≤ (round_to_d a e_offset mode).0)
      × ((round_to_d a e_offset mode).0 < 2 ^ 53)
      × ((((round_to_d a e_offset mode).0 ≡ round_div mode (value a * 2 ^ 52) (2 ^ l))
            × ((round_to_d a e_offset mode).1 ≡ pos (suc l) -ℤ e_offset))
          ⊎ (((round_to_d a e_offset mode).0 * 2 ≡ round_div mode (value a * 2 ^ 52) (2 ^ l))
              × ((round_to_d a e_offset mode).1 ≡ pos (suc l) -ℤ e_offset +ℤ pos 1)))
unfolding round_to_d
round_to_d_lem a e_offset mode l c lo hi normal =
    let shifted = shifted_lem mode a l c positive in
    let bound = bounds mode (value a) l lo hi in
    let m : mpb_get_u64 (mpb_shr_round a (pos (suc l) -ℤ pos 53) mode)
        ≡ round_div mode (value a * 2 ^ 52) (2 ^ l) =
      mpb_get_u64_lem _ shifted.1 (omega (arith, shifted.0, bound.1)) ∙ shifted.0 in
    rw
      (
        not_zero a positive,
        floor_log2 a l c lo hi,
        successor l,
        precision_normal (pos (suc l) -ℤ e_offset) normal,
        cancel (pos (suc l)) e_offset (pos 53),
        m,
      )
      (finish_lem (round_div mode (value a * 2 ^ 52) (2 ^ l)) (pos (suc l) -ℤ e_offset) bound.0
        bound.1)
  where
    positive : 0 < value a
    positive = omega (arith, pow-pos 2 l (omega arith))
