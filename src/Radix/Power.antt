-- ===== src/Radix/Power.antt =====
-- `pow_ui` and `pow_ui_inv`: powers by table and by squaring, and their reciprocals.
use mquickjs_port.Base.{
  ℕ, zero, suc, ◌+◌, ◌-◌, ◌*◌, ◌/◌, ◌%◌, ◌^◌, ◌≤◌, ◌<◌, ltb, leb, ◌==◌, ==_iff, ◌&&◌, ◌||◌, Bool,
  true, false, ◌≡◌, refl, arith, u32, u64, ◌<<<◌, bit_and, if◌then◌else◌, Bool-cases, suc-ne-zero,
  inl, inr, ap, sym, ◌∙◌,
}
use mquickjs_port.Base.Bits.{bit_and_mask}
use mquickjs_port.Base.Check.{all_below, all_below_sound}
use mquickjs_port.Base.Pow.{mod-mul-mod, mul-mod-mod, pow-add, pow-one, pow-pos, div_unique}
use mquickjs_port.Cutils.{clz32}
use mquickjs_port.Cutils.Scan.{clz32_lem}
use mquickjs_port.Mp.{udiv1norm_init}
use mquickjs_port.Mp.Reciprocal.{IsNormal}
use mquickjs_port.Radix.{table_power, pow_loop, pow_ui, pow_ui_inv}
use native.Mathlib.Nat.{pow-suc, pow-zero, mod-eq_of_lt, mul-le-mul_right, div-div-eq-div-mul}

-- The squares and products of the loop, modulo 2 ^ 64.
module _ (a q r : ℕ) (e : r ≡ a ^ q % 2 ^ 64) where
  square_lem : u64 (r * r) ≡ a ^ (q + q) % 2 ^ 64
  square_lem = rw (
    e,
    mod-mul-mod (a ^ q) (a ^ q % 2 ^ 64) (2 ^ 64),
    mul-mod-mod (a ^ q) (a ^ q) (2 ^ 64),
    pow-add a q q,
  )

  square_suc_lem : u64 (u64 (r * r) * a) ≡ a ^ suc (q + q) % 2 ^ 64
  square_suc_lem = rw (square_lem, mod-mul-mod (a ^ (q + q)) a (2 ^ 64), pow-suc a (q + q))

bit_step : (b i : ℕ) → b / 2 ^ i ≡ b / 2 ^ suc i + b / 2 ^ suc i + b / 2 ^ i % 2
bit_step b i = rw (pow-suc 2 i, ← div-div-eq-div-mul b (2 ^ i) 2) (omega arith)

-- With `r` the power by the bits of `b` above the lowest `i`, the loop reaches the whole power.
pow_loop_lem : (i a b r : ℕ) → r ≡ a ^ (b / 2 ^ i) % 2 ^ 64 → pow_loop i a b r ≡ a ^ b % 2 ^ 64
unfolding pow_loop
pow_loop_lem zero a b r e = e ∙ ap (λ (t : ℕ). a ^ t % 2 ^ 64) {x = b / 2 ^ 0} (omega arith)
pow_loop_lem (suc i) a b r e = pow_loop_lem i a b _ (go (b / 2 ^ i % 2) refl)
  where
    go :
        (bit : ℕ)
        → b / 2 ^ i % 2 ≡ bit
        → (if bit_and (b / 2 ^ i) 1 == 0 then u64 (r * r) else u64 (u64 (r * r) * a))
          ≡ a ^ (b / 2 ^ i) % 2 ^ 64
    go zero f =
        rw (bit_and_mask 1 (b / 2 ^ i), f, bit_step b i, f)
          (square_lem a (b / 2 ^ suc i) r e ∙ ap (λ (t : ℕ). a ^ t % 2 ^ 64) (omega arith))
    go (suc zero) f =
        rw (bit_and_mask 1 (b / 2 ^ i), f, bit_step b i, f)
          (square_suc_lem a (b / 2 ^ suc i) r e ∙ ap (λ (t : ℕ). a ^ t % 2 ^ 64) (omega arith))
    go (suc (suc n)) f = absurd (omega arith)

table_power_right : ℕ → Bool
table_power_right b = (table_power 5 b == 5 ^ b % 2 ^ 64) && (table_power 10 b == 10 ^ b % 2 ^ 64)

table_powers : all_below 17 (λ i. table_power_right (i + 1)) ≡ true
unfolding all_below table_power_right table_power
table_powers = refl

table_power_at :
    (b : ℕ)
    → 1 ≤ b
    → b ≤ 17
    → (table_power 5 b ≡ 5 ^ b % 2 ^ 64) × (table_power 10 b ≡ 10 ^ b % 2 ^ 64)
unfolding table_power_right
table_power_at b lo hi = parts _ _ _ _ (
    rw same at
      (all_below_sound 17 (λ i. table_power_right (i + 1)) (b - 1) table_powers (omega arith)))
  where
    same : b - 1 + 1 ≡ b
    same = omega arith

    parts : (x y z w : ℕ) → ((x == y) && (z == w)) ≡ true → (x ≡ y) × (z ≡ w)
    parts x y z w h = ground arith

table_power_lem :
    (a b : ℕ) → 1 ≤ b → ((a == 5 || a == 10) && leb b 17) ≡ true → table_power a b ≡ a ^ b % 2 ^ 64
table_power_lem a b lo h = elim (Bool-cases (a == 5)) [
  | inl five ↦ rw ((==_iff a 5).0 five) (table_power_at b lo (ground arith)).0
  | inr other ↦ rw (ten other) (table_power_at b lo (ground arith)).1
]
  where
    ten : (a == 5) ≡ false → a ≡ 10
    ten other = ground arith

-- For words `a` and `b` of 32 bits `pow_ui` is `a ^ b` modulo 2 ^ 64, from the tables of powers of
-- 5 and from the loop.
pub pow_ui_lem : (a b : ℕ) → a < 2 ^ 32 → b < 2 ^ 32 → pow_ui a b ≡ a ^ b % 2 ^ 64
unfolding pow_ui
pow_ui_lem a zero ha hb = rw (pow-zero a)
pow_ui_lem a (suc zero) ha hb =
    sym (mod-eq_of_lt {n = a ^ 1} {m = 2 ^ 64} (rw (pow-one a) (omega arith)) ∙ pow-one a)
pow_ui_lem a (suc (suc n)) ha hb =
    let b = suc (suc n) in
    rw (suc-ne-zero (suc n), large)
      (elim (Bool-cases ((a == 5 || a == 10) && leb b 17)) [
        | inl table ↦ rw table (table_power_lem a b (omega arith) table)
        | inr other ↦ rw other (pow_loop_lem (32 - clz32 b - 1) a b a start)
      ])
  where
    large : (suc (suc n) == 1) ≡ false
    large = ground arith

    bits :
        (2 ^ (31 - clz32 (suc (suc n))) ≤ suc (suc n))
        × (suc (suc n) < 2 ^ (32 - clz32 (suc (suc n))))
        × (clz32 (suc (suc n)) ≤ 31)
    bits = clz32_lem (suc (suc n)) (omega arith) hb

    place : 32 - clz32 (suc (suc n)) - 1 ≡ 31 - clz32 (suc (suc n))
    place = omega arith

    suc_place : suc (31 - clz32 (suc (suc n))) ≡ 32 - clz32 (suc (suc n))
    suc_place = omega (arith, bits.2)

    double : 2 ^ (32 - clz32 (suc (suc n))) ≡ 2 ^ (31 - clz32 (suc (suc n))) * 2
    double = rw (← suc_place) (pow-suc 2 (31 - clz32 (suc (suc n))))

    one : suc (suc n) / 2 ^ (32 - clz32 (suc (suc n)) - 1) ≡ 1
    one = rw place (
        div_unique _ (2 ^ (31 - clz32 (suc (suc n)))) 1
          (suc (suc n) - 2 ^ (31 - clz32 (suc (suc n)))) (omega (arith, bits.0))
          (omega (arith, bits.0, bits.1, double)))

    start : a ≡ a ^ (suc (suc n) / 2 ^ (32 - clz32 (suc (suc n)) - 1)) % 2 ^ 64
    start = sym (
        ap (λ (t : ℕ). a ^ t % 2 ^ 64) {y = 1} one
        ∙ ap (λ (t : ℕ). t % 2 ^ 64) (pow-one a)
        ∙ mod-eq_of_lt (omega arith))

-- What `pow_ui_inv` promises of the normalised power `r`, its reciprocal and the shift.
pub record IsNormalised (p r r_inv shift : ℕ) : Type 0 where
  pub normal : IsNormal r
  pub scaled : r ≡ p * 2 ^ shift
  pub reciprocal : r_inv ≡ udiv1norm_init r
  pub within : shift ≤ 31

-- A word that is not 0, shifted left by its leading zeros.
normalise_lem :
    (p : ℕ)
    → 0 < p
    → p < 2 ^ 32
    → IsNormalised p (u32 (p <<< clz32 p)) (udiv1norm_init (u32 (p <<< clz32 p))) (clz32 p)
normalise_lem p pos h =
    let bits = clz32_lem p pos h in
    let base : 2 ^ (32 - clz32 p) * 2 ^ clz32 p ≡ 2 ^ 32 =
      sym (pow-add 2 (32 - clz32 p) (clz32 p))
      ∙ ap (λ (t : ℕ). 2 ^ t) {y = 32} (omega (arith, bits.2)) in
    let half : 2 ^ (31 - clz32 p) * 2 ^ clz32 p ≡ 2 ^ 31 =
      sym (pow-add 2 (31 - clz32 p) (clz32 p))
      ∙ ap (λ (t : ℕ). 2 ^ t) {y = 31} (omega (arith, bits.2)) in
    let fits : p * 2 ^ clz32 p < 2 ^ 32 =
      omega
        (arith, base, mul-le-mul_right (2 ^ clz32 p) bits.1, pow-pos 2 (clz32 p) (omega arith)) in
    let whole : u32 (p <<< clz32 p) ≡ p * 2 ^ clz32 p = mod-eq_of_lt fits in
    record {
      normal = rw whole (omega (arith, half, mul-le-mul_right (2 ^ clz32 p) bits.0), fits);
      scaled = whole;
      reciprocal = refl;
      within = bits.2;
    }

five_right : ℕ → Bool
five_right b =
    let r = (pow_ui_inv 5 b).0 in
    let shift = (pow_ui_inv 5 b).2 in
    ((r == 5 ^ b * 2 ^ shift) && ((pow_ui_inv 5 b).1 == udiv1norm_init r))
    && (leb (2 ^ 31) r && (ltb r (2 ^ 32) && leb shift 31))

fives_right : all_below 13 (λ i. five_right (i + 1)) ≡ true
unfolding all_below five_right pow_ui_inv clz32 udiv1norm_init
fives_right = refl

five_lem :
    (b : ℕ)
    → 1 ≤ b
    → b ≤ 13
    → IsNormalised (5 ^ b) (pow_ui_inv 5 b).0 (pow_ui_inv 5 b).1 (pow_ui_inv 5 b).2
unfolding five_right
five_lem b lo hi =
    let (e, f, lo', hi', k) = parts _ _ _ _ _ (
      rw same at
        (all_below_sound 13 (λ i. five_right (i + 1)) (b - 1) fives_right (omega arith))) in
    record { normal = (lo', hi'); scaled = e; reciprocal = f; within = k }
  where
    same : b - 1 + 1 ≡ b
    same = omega arith

    parts :
        (p r v w s : ℕ)
        → (((r == p * 2 ^ s) && (v == w)) && (leb (2 ^ 31) r && (ltb r (2 ^ 32) && leb s 31)))
          ≡ true
        → (r ≡ p * 2 ^ s) × (v ≡ w) × (2 ^ 31 ≤ r) × (r < 2 ^ 32) × (s ≤ 31)
    parts p r v w s h = ground arith

-- For limbs `a` and `b` with `a` not 0 and `a ^ b` a limb, `pow_ui_inv` returns the power with its
-- top bit set, the reciprocal that `udiv1norm_init` computes for that, and the shift; the entries
-- of its table agree with it.
pub pow_ui_inv_lem :
    (a b : ℕ)
    → 0 < a
    → a < 2 ^ 32
    → b < 2 ^ 32
    → a ^ b < 2 ^ 32
    → IsNormalised (a ^ b) (pow_ui_inv a b).0 (pow_ui_inv a b).1 (pow_ui_inv a b).2
pow_ui_inv_lem a b ha wa wb fits = elim (Bool-cases (a == 5 && (leb 1 b && leb b 13))) [
  | inl table ↦ rw ((==_iff a 5).0 (ground arith)) (five_lem b (ground arith) (ground arith))
  | inr other ↦
      unfold pow_ui_inv in
      rw (other, pow_ui_lem a b wa wb, small) (normalise_lem (a ^ b) (pow-pos a b ha) fits)
]
  where
    small : u32 (a ^ b % 2 ^ 64) ≡ a ^ b
    small = rw (mod-eq_of_lt {n = a ^ b} {m = 2 ^ 64} (omega arith)) (mod-eq_of_lt fits)
