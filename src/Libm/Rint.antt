-- ===== src/Libm/Rint.antt =====
-- The addend of `rint_sf64` and the bits that it clears, for doubles from 1 on.
use native.Mathlib.Nat.{
  mul_assoc, mul_comm, mod-lt, div-add-mod, mod-eq_of_lt, pow-suc, mul-add-div, pow-le-pow_right,
  mul-lt-mul_of_pos_right, div-lt_iff_lt-mul,
}
use mquickjs_port.Base.{
  ℕ, zero, suc, ◌+◌, ◌-◌, ◌*◌, ◌/◌, ◌^◌, ◌≤◌, ◌<◌, ◌≡◌, ap, sym, ◌∙◌, arith, low_mask, bit_and, u64,
  ◌>>>◌, ◌⊎◌, inl, inr,
}
use mquickjs_port.Base.Pow.{pow-add, pow-pos}
use mquickjs_port.Libm.{RintMode, rup, rdn, rtz, rmm, rmmup, rint_addend}
use mquickjs_port.Libm.Value.{
  sign_of, exp_of, mant_of, size_of, unity, unity_split, direction, Rounds, bit_and_high,
}

-- The fields of a double, from its bits.
pub fields :
    (s e m : ℕ)
    → e < 2 ^ 11
    → m < 2 ^ 52
    → (sign_of (s * 2 ^ 63 + e * 2 ^ 52 + m) ≡ s)
      × (exp_of (s * 2 ^ 63 + e * 2 ^ 52 + m) ≡ e)
      × (mant_of (s * 2 ^ 63 + e * 2 ^ 52 + m) ≡ m)
fields s e m he hm = (omega (arith, he, hm), omega (arith, he, hm), omega (arith, he, hm))

unit_parts : (k : ℕ) → k ≤ 52 → 2 ^ (52 - k) * 2 ^ k ≡ 2 ^ 52
unit_parts k h =
    let split : 52 - k + k ≡ 52 = omega (arith, h) in
    sym (pow-add 2 (52 - k) k) ∙ ap (λ (t : ℕ). 2 ^ t) split

-- The bits above the unit place, when something less than a unit was added.
pub cleared :
    (s e k m add : ℕ)
    → s ≤ 1
    → e ≤ 1074
    → k ≤ 52
    → m < 2 ^ 52
    → add < 2 ^ k
    → bit_and (u64 (s * 2 ^ 63 + e * 2 ^ 52 + m + add)) (low_mask 64 - (2 ^ k - 1))
      ≡ s * 2 ^ 63 + e * 2 ^ 52 + (m + add) / 2 ^ k * 2 ^ k
cleared s e k m add hs he hk hm ha =
    let v : ℕ = s * 2 ^ 63 + e * 2 ^ 52 + m + add in
    let le : 2 ^ k ≤ 2 ^ 52 = pow-le-pow_right (omega arith) hk in
    let small_v : v < 2 ^ 64 = omega (arith, hs, he, hm, ha, le) in
    let word : 2 ^ 64 ≡ 2 ^ (64 - k) * 2 ^ k =
      let split : 64 ≡ 64 - k + k = omega (arith, hk) in
      ap (λ (t : ℕ). 2 ^ t) split ∙ pow-add 2 (64 - k) k in
    let parts : 2 ^ (52 - k) * 2 ^ k ≡ 2 ^ 52 = unit_parts k hk in
    let x : ℕ = s * 2 ^ 11 + e in
    let one_less : 2 ^ (64 - k) ≡ (2 ^ (64 - k) - 1) + 1 =
      omega (arith, pow-pos 2 (64 - k) (omega arith)) in
    let mask : low_mask 64 - (2 ^ k - 1) ≡ low_mask (64 - k) * 2 ^ k =
      omega (arith, word, ap (λ (t : ℕ). t * 2 ^ k) one_less) in
    let high : s * 2 ^ 63 + e * 2 ^ 52 ≡ 2 ^ k * (2 ^ (52 - k) * x) = omega (
      arith,
      ap (λ (t : ℕ). t * x) parts,
      mul_comm (2 ^ k) (2 ^ (52 - k) * x),
      mul_assoc (2 ^ (52 - k)) x (2 ^ k),
      ap (λ (t : ℕ). 2 ^ (52 - k) * t) (mul_comm x (2 ^ k)),
      mul_assoc (2 ^ (52 - k)) (2 ^ k) x,
    ) in
    let quotient : v / 2 ^ k ≡ 2 ^ (52 - k) * x + (m + add) / 2 ^ k =
      let split : v ≡ 2 ^ k * (2 ^ (52 - k) * x) + (m + add) = omega (arith, high) in
      ap (λ (t : ℕ). t / 2 ^ k) split
      ∙ mul-add-div (pow-pos 2 k (omega arith)) (2 ^ (52 - k) * x) (m + add) in
    let fits : v / 2 ^ k < 2 ^ (64 - k) =
      let bound : v < 2 ^ (64 - k) * 2 ^ k = omega (arith, small_v, word) in
      (div-lt_iff_lt-mul (pow-pos 2 k (omega arith))).1 bound in
    ap (λ (t : ℕ). bit_and t (low_mask 64 - (2 ^ k - 1))) (mod-eq_of_lt small_v)
    ∙ ap (bit_and v) mask
    ∙ bit_and_high k (64 - k) v
    ∙ ap (λ (t : ℕ). t * 2 ^ k) (mod-eq_of_lt fits)
    ∙ omega (arith, high, ap (λ (t : ℕ). t * 2 ^ k) quotient, mul_comm (2 ^ k) (2 ^ (52 - k) * x))

split_le : (a b : ℕ) → a ≤ b → (a < b) ⊎ (a ≡ b)
split_le a b h = ground (arith, h)

pub size_at :
    (v e m : ℕ) → exp_of v ≡ e → mant_of v ≡ m → size_of (exp_of v) (mant_of v) ≡ size_of e m
size_at v e m h h' = ap (λ (t : ℕ). size_of t (mant_of v)) h ∙ ap (size_of e) h'

-- The value of those bits.
pub cleared_size :
    (s e k m add : ℕ)
    → suc e + k ≡ 1075
    → k ≤ 52
    → m < 2 ^ 52
    → add < 2 ^ k
    → (sign_of (s * 2 ^ 63 + suc e * 2 ^ 52 + (m + add) / 2 ^ k * 2 ^ k) ≡ s)
      × (size_of
            (exp_of (s * 2 ^ 63 + suc e * 2 ^ 52 + (m + add) / 2 ^ k * 2 ^ k))
            (mant_of (s * 2 ^ 63 + suc e * 2 ^ 52 + (m + add) / 2 ^ k * 2 ^ k))
          ≡ (2 ^ 52 + m + add) / 2 ^ k * unity)
unfolding size_of
cleared_size s e k m add h hk hm ha =
    let p : ℕ = 2 ^ (52 - k) in
    let q : ℕ = (m + add) / 2 ^ k in
    let parts : p * 2 ^ k ≡ 2 ^ 52 = unit_parts k hk in
    let whole : (2 ^ 52 + m + add) / 2 ^ k ≡ p + q =
      let split : 2 ^ 52 + m + add ≡ 2 ^ k * p + (m + add) =
        omega (arith, parts, mul_comm (2 ^ k) p) in
      ap (λ (t : ℕ). t / 2 ^ k) split ∙ mul-add-div (pow-pos 2 k (omega arith)) p (m + add) in
    let fit : unity ≡ 2 ^ k * 2 ^ e = sym (unity_split k e (omega (arith, h))) in
    elim (split_le q p (
      let bound : m + add < suc p * 2 ^ k = omega (arith, hm, ha, parts) in
      let less : q < suc p = (div-lt_iff_lt-mul (pow-pos 2 k (omega arith))).1 bound in
      omega (arith, less))) [
        | inl less ↦
            let below : q * 2 ^ k < 2 ^ 52 =
              omega (arith, parts, mul-lt-mul_of_pos_right less (pow-pos 2 k (omega arith))) in
            let (a, b, c) = fields s (suc e) (q * 2 ^ k) (omega (arith, h)) below in
            let sum : 2 ^ 52 + q * 2 ^ k ≡ (p + q) * 2 ^ k = omega (arith, parts) in
            (
              a,
              size_at (s * 2 ^ 63 + suc e * 2 ^ 52 + q * 2 ^ k) (suc e) (q * 2 ^ k) b c
                  ∙ ap (λ (t : ℕ). t * 2 ^ e) sum
                  ∙ mul_assoc (p + q) (2 ^ k) (2 ^ e)
                  ∙ ap (λ (t : ℕ). (p + q) * t) (sym fit)
                  ∙ ap (λ (t : ℕ). t * unity) (sym whole),
            )
        | inr same ↦
            let bits : s * 2 ^ 63 + suc e * 2 ^ 52 + q * 2 ^ k
                ≡ s * 2 ^ 63 + suc (suc e) * 2 ^ 52 + 0 =
              omega (arith, parts, ap (λ (t : ℕ). t * 2 ^ k) same) in
            let (a, b, c) = fields s (suc (suc e)) 0 (omega (arith, h)) (omega arith) in
            let twice : (2 ^ 52 + 0) * 2 ^ suc e ≡ (p + q) * 2 ^ k * 2 ^ e =
              let sum : (p + q) * 2 ^ k ≡ 2 ^ 53 =
                omega (arith, parts, ap (λ (t : ℕ). t * 2 ^ k) same) in
              omega (arith, pow-suc 2 e, ap (λ (t : ℕ). t * 2 ^ e) sum) in
            (
              ap sign_of bits ∙ a,
              size_at (s * 2 ^ 63 + suc e * 2 ^ 52 + q * 2 ^ k) (suc (suc e)) 0 (ap exp_of bits ∙ b)
                    (ap mant_of bits ∙ c)
                  ∙ twice
                  ∙ mul_assoc (p + q) (2 ^ k) (2 ^ e)
                  ∙ ap (λ (t : ℕ). (p + q) * t) (sym fit)
                  ∙ ap (λ (t : ℕ). t * unity) (sym whole),
            )
      ]

quotient_bounds : (y u : ℕ) → 0 < u → (y / u * u ≤ y) × (y < y / u * u + u)
quotient_bounds y u h =
    let split = div-add-mod y u in
    let left = mod-lt y h in
    let order = mul_comm u (y / u) in
    (omega (arith, split, order), omega (arith, split, left, order))

-- The integer that the rint_addend gives.
pub rint_addend-Rounds :
    (s k x : ℕ) (rm : RintMode)
    → s ≤ 1
    → 1 ≤ k
    → Rounds (direction s rm) x (2 ^ k) ((x + rint_addend s (2 ^ k) rm) / 2 ^ k)
unfolding rint_addend
rint_addend-Rounds s zero x rm hs hk = absurd (ground arith)
rint_addend-Rounds zero (suc k) x rup hs hk =
    let (low, high) =
      quotient_bounds (x + (2 ^ suc k - 1)) (2 ^ suc k) (pow-pos 2 (suc k) (omega arith)) in
    omega (arith, low, high, pow-pos 2 k (omega arith), pow-suc 2 k)
rint_addend-Rounds zero (suc k) x rdn hs hk =
    let (low, high) = quotient_bounds (x + 0) (2 ^ suc k) (pow-pos 2 (suc k) (omega arith)) in
    omega (arith, low, high, pow-pos 2 k (omega arith), pow-suc 2 k)
rint_addend-Rounds zero (suc k) x rtz hs hk =
    let (low, high) = quotient_bounds (x + 0) (2 ^ suc k) (pow-pos 2 (suc k) (omega arith)) in
    omega (arith, low, high, pow-pos 2 k (omega arith), pow-suc 2 k)
rint_addend-Rounds zero (suc k) x rmm hs hk =
    let (low, high) =
      quotient_bounds (x + ((2 ^ suc k) >>> 1)) (2 ^ suc k) (pow-pos 2 (suc k) (omega arith)) in
    omega (arith, low, high, pow-pos 2 k (omega arith), pow-suc 2 k)
rint_addend-Rounds zero (suc k) x rmmup hs hk =
    let (low, high) =
      quotient_bounds (x + ((2 ^ suc k) >>> 1 - 0)) (2 ^ suc k) (pow-pos 2 (suc k) (omega arith)) in
    omega (arith, low, high, pow-pos 2 k (omega arith), pow-suc 2 k)
rint_addend-Rounds (suc zero) (suc k) x rup hs hk =
    let (low, high) = quotient_bounds (x + 0) (2 ^ suc k) (pow-pos 2 (suc k) (omega arith)) in
    omega (arith, low, high, pow-pos 2 k (omega arith), pow-suc 2 k)
rint_addend-Rounds (suc zero) (suc k) x rdn hs hk =
    let (low, high) =
      quotient_bounds (x + (2 ^ suc k - 1)) (2 ^ suc k) (pow-pos 2 (suc k) (omega arith)) in
    omega (arith, low, high, pow-pos 2 k (omega arith), pow-suc 2 k)
rint_addend-Rounds (suc zero) (suc k) x rtz hs hk =
    let (low, high) = quotient_bounds (x + 0) (2 ^ suc k) (pow-pos 2 (suc k) (omega arith)) in
    omega (arith, low, high, pow-pos 2 k (omega arith), pow-suc 2 k)
rint_addend-Rounds (suc zero) (suc k) x rmm hs hk =
    let (low, high) =
      quotient_bounds (x + ((2 ^ suc k) >>> 1)) (2 ^ suc k) (pow-pos 2 (suc k) (omega arith)) in
    omega (arith, low, high, pow-pos 2 k (omega arith), pow-suc 2 k)
rint_addend-Rounds (suc zero) (suc k) x rmmup hs hk =
    let (low, high) =
      quotient_bounds (x + ((2 ^ suc k) >>> 1 - 1)) (2 ^ suc k) (pow-pos 2 (suc k) (omega arith)) in
    omega (arith, low, high, pow-pos 2 k (omega arith), pow-suc 2 k)
rint_addend-Rounds (suc (suc s)) (suc k) x rm hs hk = absurd (omega (arith, hs))
