-- ===== src/Scale/Up.antt =====
-- `mul_pow` for `f >= 0`: the exact product by a power of the odd part of the radix.
use mquickjs_port.Base.{
  ℕ, zero, suc, ◌+◌, ◌-◌, ◌*◌, ◌%◌, ◌^◌, ◌≤◌, ◌<◌, ◌==◌, ==_iff, if◌then◌else◌, ◌≡◌, refl, ap, sym,
  ◌∙◌, arith, u32, Bool, true, false, Bool-cases, ◌⊎◌, inl, inr, ltb, leb, ◌&&◌,
}
use Prim.Native.Nat.{min}
use mquickjs_port.Base.Check.{all_below, all_below_sound}
use mquickjs_port.Base.Int.{ℤ, pos, ◌-ℤ◌}
use mquickjs_port.Base.Pow.{pow-add, pow-pos}
use mquickjs_port.Limbs.{IsLimb, value}
use mquickjs_port.Mp.{mp_mul1}
use mquickjs_port.Mp.Carry.{mp_mul1-value}
use mquickjs_port.Mpb.{Mpb, append_carry}
use mquickjs_port.Mpb.Compact.{IsCompact, append_carry-IsCompact}
use mquickjs_port.Radix.{pow_ui}
use mquickjs_port.Radix.Power.{pow_ui_lem}
use mquickjs_port.Radix.Table.{digits_per_limb}
use mquickjs_port.Scale.{mul_limb, kept_power, mul_loop, mul_pow}
use native.Mathlib.Nat.{
  mod-eq_of_lt, mul_assoc, pow-zero, pow-suc, mul-one, pow-le-pow_right, le-mul_of_pos_right,
}

-- The odd parts of the radixes, without 1.
abbrev pub IsOddRadix : ℕ → Type 0
IsOddRadix r = (3 ≤ r) × (r ≤ 35) × (r % 2 ≡ 1)

odd_right : ℕ → Bool
odd_right r =
    if r % 2 == 0
    then true
    else leb 1 (digits_per_limb r)
      && (leb (digits_per_limb r) 20 && ltb (r ^ digits_per_limb r) (2 ^ 32))

odds_right : all_below 33 (λ i. odd_right (i + 3)) ≡ true
unfolding all_below odd_right
odds_right = refl

-- The weight of a limb of digits in an odd radix is itself a limb.
pub odd_radix_lem :
    (r : ℕ)
    → IsOddRadix r
    → (1 ≤ digits_per_limb r) × (digits_per_limb r ≤ 20) × (r ^ digits_per_limb r < 2 ^ 32)
unfolding odd_right
odd_radix_lem r h =
    parts (r % 2) _ _ h.2
      (rw same at (all_below_sound 33 (λ i. odd_right (i + 3)) (r - 3) odds_right (omega arith)))
  where
    same : r - 3 + 3 ≡ r
    same = omega arith

    parts :
        (b d p : ℕ)
        → b ≡ 1
        → (if b == 0 then true else leb 1 d && (leb d 20 && ltb p (2 ^ 32))) ≡ true
        → (1 ≤ d) × (d ≤ 20) × (p < 2 ^ 32)
    parts b d p e h = ground arith

module _ (radix1 d : ℕ) (hr : 3 ≤ radix1) (hr' : radix1 ≤ 35) (hd : 1 ≤ d) (hd' : d ≤ 20)
    (hp : radix1 ^ d < 2 ^ 32) where
  -- What the cached power is, if there is one.
  abbrev pub KeptPower : ℕ → ℕ → Type 0
  KeptPower n0 b = (n0 ≡ 0) ⊎ (b ≡ radix1 ^ n0)

  pub digits_fit : (n : ℕ) → n ≤ d → radix1 ^ n < 2 ^ 32
  digits_fit n h = omega (arith, pow-le-pow_right {n = radix1} (omega arith) {i = n} {j = d} h)

  power_word : (n : ℕ) → n ≤ d → u32 (pow_ui radix1 n) ≡ radix1 ^ n
  power_word n h = rw (pow_ui_lem radix1 n (omega arith) (omega arith)) (
      rw (mod-eq_of_lt {n = radix1 ^ n} {m = 2 ^ 64} (omega (arith, digits_fit n h)))
        (mod-eq_of_lt (digits_fit n h)))

  kept_power_lem :
      (n n0 b : ℕ) → 1 ≤ n → n ≤ d → KeptPower n0 b → kept_power radix1 n n0 b ≡ radix1 ^ n
  unfolding kept_power
  kept_power_lem n n0 b lo hi kept = elim (Bool-cases (n == n0)) [
    | inl same ↦ elim kept [
      | inl e ↦ absurd (ground arith)
      | inr e ↦ rw same (e ∙ ap (λ (t : ℕ). radix1 ^ t) (sym ((==_iff n n0).0 same)))
    ]
    | inr other ↦ rw other (power_word n hi)
  ]

  mul_limb_lem :
      (a : Mpb) (b : ℕ)
      → IsCompact a
      → 0 < b
      → IsLimb b
      → (value (mul_limb a b) ≡ value a * b) × IsCompact (mul_limb a b)
  unfolding mul_limb append_carry
  mul_limb_lem a b c p h =
      let m = mp_mul1-value a b 0 c.words h (omega arith) in
      let now =
        append_carry-IsCompact a (mp_mul1 a b 0).0 (mp_mul1 a b 0).1 c m.1 m.2
          (omega (arith, m.0, le-mul_of_pos_right (value a) p)) m.3 in
      (now.0 ∙ m.0 ∙ omega arith, now.1)

  none_left : (f : ℕ) → f ≤ 0 → f ≡ 0
  none_left f h = omega arith

  pub join : (v n f : ℕ) → n ≤ f → v * radix1 ^ n * radix1 ^ (f - n) ≡ v * radix1 ^ f
  join v n f h =
      mul_assoc v (radix1 ^ n) (radix1 ^ (f - n))
      ∙ ap (λ (t : ℕ). v * t)
          (sym (pow-add radix1 n (f - n)) ∙ ap (λ (t : ℕ). radix1 ^ t) (omega arith))

  mul_loop_lem :
      (fuel : ℕ) (a : Mpb) (f n0 b : ℕ)
      → f ≤ fuel
      → IsCompact a
      → KeptPower n0 b
      → (value (mul_loop fuel radix1 d a f n0 b) ≡ value a * radix1 ^ f)
        × IsCompact (mul_loop fuel radix1 d a f n0 b)
  unfolding mul_loop
  mul_loop_lem zero a f n0 b h c kept = (rw (none_left f h, pow-zero, mul-one), c)
  mul_loop_lem (suc fuel) a f n0 b h c kept = elim (Bool-cases (f == 0)) [
    | inl done ↦ rw (done, (==_iff f 0).0 done, pow-zero, mul-one) (refl, c)
    | inr more ↦
        let n = min f d in
        let power = kept_power_lem n n0 b (ground arith) (omega arith) kept in
        let step =
          mul_limb_lem a (radix1 ^ n) c (pow-pos radix1 n (omega arith))
            (digits_fit n (omega arith)) in
        let rest =
          mul_loop_lem fuel (mul_limb a (radix1 ^ n)) (f - n) n (radix1 ^ n) (ground arith) step.1
            (inr refl) in
        rw (more, power)
          (
            rest.0 ∙ ap (λ (t : ℕ). t * radix1 ^ (f - n)) step.0 ∙ join (value a) n f (omega arith),
            rest.1,
          )
  ]

-- The odd part of a radix.
abbrev pub IsOddPart : ℕ → Type 0
IsOddPart r = (r ≡ 1) ⊎ IsOddRadix r

pub one-pow : (n : ℕ) → 1 ^ n ≡ 1
one-pow zero = refl
one-pow (suc n) = rw (pow-suc 1 n, one-pow n)

-- For a compact number, `f >= 0` and an odd part that is 1 or odd from 3 to 35, `mul_pow`
-- multiplies the number by the power of the odd part exactly, keeps it compact and returns the
-- offset that stands for the power of two.
pub mul_pow_up :
    (a : Mpb) (radix1 radix_shift f : ℕ) (is_int : Bool) (e : ℤ)
    → IsCompact a
    → IsOddPart radix1
    → (value (mul_pow a radix1 radix_shift (pos f) is_int e).0 ≡ value a * radix1 ^ f)
      × IsCompact (mul_pow a radix1 radix_shift (pos f) is_int e).0
      × ((mul_pow a radix1 radix_shift (pos f) is_int e).1 ≡ pos 0 -ℤ pos (f * radix_shift))
unfolding mul_pow
mul_pow_up a radix1 radix_shift f is_int e c (inl one) = rw (one, one-pow f) (omega arith, c, refl)
mul_pow_up a radix1 radix_shift f is_int e c (inr odd) =
    let limb = odd_radix_lem radix1 odd in
    let now =
      mul_loop_lem radix1 (digits_per_limb radix1) odd.0 odd.1 limb.0 limb.1 limb.2 f a f 0 0
        (omega arith) c (inl refl) in
    rw (not_one radix1 odd.0) (now.0, now.1, refl)
  where
    not_one : (r : ℕ) → 3 ≤ r → (r == 1) ≡ false
    not_one r h = ground arith
