-- ===== src/Mpb/Round.antt =====
-- `mpb_shr_round` against the rounded quotient by a power of two, and the product.
use mquickjs_port.Base.{
  ℕ, zero, suc, ◌*◌, ◌/◌, ◌%◌, ◌^◌, ◌≤◌, ◌<◌, ◌==◌, ==_iff, ◌≡◌, inl, inr, refl, ap, sym, ◌∙◌, leb,
  if◌then◌else◌, arith, List, [], ◌∷◌, ◌++◌, length, drop, Bool-cases, true, false, length-append,
  All-append,
}
use mquickjs_port.Base.Int.{pos, negsuc}
use mquickjs_port.Base.Pow.{pow-pos, div_unique}
use mquickjs_port.Limbs.{IsLimb, IsLimbs, value, value-append, same-weight}
use mquickjs_port.Rounding.{Rounding, rndn, rndna, rndz, round_up, round_div}
use mquickjs_port.Mp.{mp_add_ui, mp_shl, mp_shr}
use mquickjs_port.Mp.Carry.{mp_add_ui-value}
use mquickjs_port.Mp.Shift.{mp_shl-value, mp_shr-value}
use mquickjs_port.Mpb.{Mpb, mpb_renorm, mpb_shr_round, mpb_shl, mpb_shr, add_one}
use mquickjs_port.Mpb.Compact.{
  IsCompact, drop-IsCompact, append_carry-IsCompact, replicate-IsCompact, mpb_renorm-IsCompact,
}
use mquickjs_port.Mpb.Bit.{value-drop, drop-beyond, split_index, low_five}
use mquickjs_port.Mpb.AddOne.{add_one_lem, add_one-le}
use native.Mathlib.Nat.{
  div-div-eq-div-mul, zero-div, div-one, mod-one, mul-pos, pow-le-pow_right, mul_assoc, mul_comm,
}

-- The part of a power of two inside one limb.
module _ (r : Mpb) (s : ℕ) where
  -- The limbs that are left when whole limbs are dropped, and shifted within a limb.
  abbrev moved : Mpb
  moved =
      if s % 32 == 0 then drop (s / 32) r else mpb_renorm (mp_shr (drop (s / 32) r) (s % 32) 0).0

  quotient_parts : IsLimbs r → value r / 2 ^ s ≡ value (drop (s / 32) r) / 2 ^ (s % 32)
  quotient_parts h = rw (
    split_index s,
    ← div-div-eq-div-mul (value r) ((2 ^ 32) ^ (s / 32)) (2 ^ (s % 32)),
    value-drop (s / 32) r h,
  )

  moved_lem : IsCompact r → s / 32 < length r → (value moved ≡ value r / 2 ^ s) × IsCompact moved
  moved_lem c k = elim (Bool-cases (s % 32 == 0)) [
    | inl whole ↦ rw whole (
      sym (
          quotient_parts c.words
          ∙ ap (λ (t : ℕ). value (drop (s / 32) r) / 2 ^ t) {y = 0} (ground arith)
          ∙ div-one (value (drop (s / 32) r))),
      drop-IsCompact (s / 32) r c k,
    )
    | inr part ↦
        let d = drop-IsCompact (s / 32) r c k in
        let low =
          mp_shr-value (drop (s / 32) r) (s % 32) 0 (omega arith) (pow-pos 2 (s % 32) (omega arith))
            d.words in
        let now =
          mpb_renorm-IsCompact (mp_shr (drop (s / 32) r) (s % 32) 0).0 low.2
            (omega (arith, low.3, d.some_limb)) in
        rw part (
          now.0
              ∙ sym (
                  quotient_parts c.words
                  ∙ div_unique _ (2 ^ (s % 32)) _ _
                      (omega (
                        arith,
                        low.0,
                        mul_comm (2 ^ (s % 32)) (value (mp_shr (drop (s / 32) r) (s % 32) 0).0),
                      ))
                      low.1),
          now.1,
        )
  ]

-- With the bits of all its limbs shifted out the number is below the divisor.
all_out : (r : Mpb) (s : ℕ) → IsLimbs r → length r ≤ s / 32 → value r / 2 ^ s ≡ 0
all_out r s h k = rw (quotient_parts r s h, drop-beyond (s / 32) r k) (zero-div (2 ^ (s % 32)))

only_one : (x : ℕ) → (x == 0) ≡ false → x ≤ 1 → x ≡ 1
only_one x e h = ground arith

-- `mpb_shr` by at least one bit.
mpb_shr_lem :
    (mode : Rounding) (r : Mpb) (n : ℕ)
    → IsCompact r
    → (value (mpb_shr mode r (suc n)) ≡ round_div mode (value r) (2 ^ suc n))
      × IsCompact (mpb_shr mode r (suc n))
unfolding mpb_shr round_div
mpb_shr_lem mode r n c =
    let s = suc n in
    let small = add_one-le mode r n c.words in
    rw (low_five s, ← add_one_lem mode r n c.words)
      (elim (Bool-cases (leb (length r) (s / 32))) [
        | inl out ↦
            rw (out, all_out r s c.words (ground arith))
              (
                omega arith,
                record { words = omega (arith, small); some_limb = omega arith; top = inl refl },
              )
        | inr inside ↦
            let m = moved_lem r s c (ground arith) in
            elim (Bool-cases (add_one mode r s == 0)) [
              | inl zero_bit ↦
                  rw (inside, zero_bit)
                    (omega (arith, m.0, (==_iff (add_one mode r s) 0).0 zero_bit), m.1)
              | inr one_bit ↦
                  let sum = mp_add_ui-value (moved r s) 1 m.1.words (omega arith) in
                  let now =
                    append_carry-IsCompact (moved r s) (mp_add_ui (moved r s) 1).0
                      (mp_add_ui (moved r s) 1).1 m.1 sum.1 sum.2
                      (omega
                        (arith, sum.0, same-weight (mp_add_ui (moved r s) 1).0 (moved r s) sum.2))
                      (omega (arith, sum.3)) in
                  rw (inside, one_bit)
                    (
                      now.0 ∙ sum.0 ∙ omega (arith, m.0, only_one (add_one mode r s) one_bit small),
                      now.1,
                    )
            ]
      ])

shift_zero : (v s : ℕ) → (s == 0) ≡ true → v ≡ v * 2 ^ s
shift_zero v zero e = omega arith
shift_zero v (suc s) e = absurd (ground arith)

word_bits : (s : ℕ) → s < 32 → 2 ^ s ≤ 2 ^ 32
word_bits s h = pow-le-pow_right {n = 2} (omega arith) {i = s} {j = 32} (omega arith)

-- The shift to the left within a limb.
module _ (r : Mpb) (s : ℕ) where
  abbrev raised : Mpb
  raised = if s == 0 then r else mpb_renorm ((mp_shl r s 0).0 ++ ((mp_shl r s 0).1 ∷ []))

  raised_lem : IsCompact r → s < 32 → (value raised ≡ value r * 2 ^ s) × IsCompact raised
  raised_lem c k = elim (Bool-cases (s == 0)) [
    | inl still ↦ rw still (shift_zero (value r) s still, c)
    | inr part ↦
        let low = mp_shl-value r s 0 (omega arith) (pow-pos 2 s (omega arith)) c.words in
        let out = (mp_shl r s 0).0 in
        let high : List ℕ = (mp_shl r s 0).1 ∷ [] in
        let now =
          mpb_renorm-IsCompact (out ++ high)
            (All-append IsLimb out high low.1 (omega (arith, low.3, word_bits s k), tt))
            (omega (arith, length-append out high)) in
        rw part (
          now.0
              ∙ value-append out high
              ∙ omega
                  (arith, low.0, ap (λ (t : ℕ). t * (mp_shl r s 0).1) (same-weight out r low.2)),
          now.1,
        )
  ]

mpb_shl_lem :
    (r : Mpb) (s : ℕ)
    → IsCompact r
    → 0 < value r
    → (value (mpb_shl r s) ≡ value r * 2 ^ s) × IsCompact (mpb_shl r s)
unfolding mpb_shl
mpb_shl_lem r s c p =
    let now = raised_lem r (s % 32) c (omega arith) in
    let all =
      replicate-IsCompact (s / 32) (raised r (s % 32)) now.1
        (rw now.0 (mul-pos p (pow-pos 2 (s % 32) (omega arith)))) in
    rw (low_five s) (
      all.0
          ∙ rw (now.0, split_index s)
              (omega (
                arith,
                mul_assoc (value r) (2 ^ (s % 32)) ((2 ^ 32) ^ (s / 32)),
                ap (λ (t : ℕ). value r * t) (mul_comm (2 ^ (s % 32)) ((2 ^ 32) ^ (s / 32))),
              )),
      all.1,
    )

pub round_div-one : (mode : Rounding) (n : ℕ) → round_div mode n 1 ≡ n
unfolding round_div round_up
round_div-one rndn n = rw (div-one n, mod-one n) (omega arith)
round_div-one rndna n = rw (div-one n, mod-one n) (omega arith)
round_div-one rndz n = rw (div-one n) (omega arith)

-- For a compact number `mpb_shr_round` by `n` bits to the right is the quotient by `2 ^ n` rounded
-- as a whole in the mode asked for, and is compact.
pub mpb_shr_round_right :
    (mode : Rounding) (r : Mpb) (n : ℕ)
    → IsCompact r
    → (value (mpb_shr_round r (pos n) mode) ≡ round_div mode (value r) (2 ^ n))
      × IsCompact (mpb_shr_round r (pos n) mode)
unfolding mpb_shr_round
mpb_shr_round_right mode r zero c = (sym (round_div-one mode (value r)), c)
mpb_shr_round_right mode r (suc n) c = mpb_shr_lem mode r n c

-- For a compact number that is not 0 `mpb_shr_round` by `-(n + 1)` multiplies it by `2 ^ (n + 1)`
-- in each mode, and the result is compact.
pub mpb_shr_round_left :
    (mode : Rounding) (r : Mpb) (n : ℕ)
    → IsCompact r
    → 0 < value r
    → (value (mpb_shr_round r (negsuc n) mode) ≡ value r * 2 ^ suc n)
      × IsCompact (mpb_shr_round r (negsuc n) mode)
unfolding mpb_shr_round
mpb_shr_round_left mode r n c p = mpb_shl_lem r (suc n) c p
