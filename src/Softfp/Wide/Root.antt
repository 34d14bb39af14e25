-- ===== src/Softfp/Wide/Root.antt =====
-- About the iteration for the square root.
use mquickjs_port.Base.{
  ◌⊎◌, ℕ, zero, suc, ◌+◌, ◌-◌, ◌*◌, ◌/◌, ◌^◌, ◌≤◌, ◌<◌, ◌≡◌, refl, ap, sym, ◌∙◌, arith, ◌<<<◌, ◌==◌,
  leb, not, true, false, some,
}
use Prim.Native.Nat.{max}
use mquickjs_port.Base.Bits.{bit_or-zero}
use mquickjs_port.Base.Pow.{pow-add}
use mquickjs_port.Cutils.{bit_length}
use mquickjs_port.Cutils.Scan.{bit_length_lem}
use mquickjs_port.Softfp.Format.{float64, clz}
use mquickjs_port.Softfp.Wide.{newton, guess_bits, sqrtrem_u}
use native.Mathlib.Decide.{dec_lt}
use native.Mathlib.Nat.{
  mul-le-mul, le-div_iff_mul-le, div-lt_iff_lt-mul, pow-suc, pow-le-pow_right, one-mul,
}

-- `r` is the integer part of the root of `a`.
abbrev pub IsRoot : ℕ → ℕ → Type 0
IsRoot a r = (r * r ≤ a) × (a < suc r * suc r)

IsRoot-exists : (a : ℕ) → (r : ℕ) × IsRoot a r
IsRoot-exists zero = (0, (omega arith, omega arith))
IsRoot-exists (suc a) =
    let (r, root) = IsRoot-exists a in
    let (low, high) = root in
    elim (dec_lt (suc a) (suc r * suc r)) [
      | yes same ↦ (r, (omega (arith, low), same))
      | no next ↦ (suc r, (omega arith, omega (arith, high)))
    ]

-- A step from above stays above the root.
step_above : (a r t : ℕ) → IsRoot a r → 0 < r → r ≤ (a / (r + t) + (r + t)) / 2
step_above a r t h hr = elim (dec_lt r t) [
  | yes far ↦ omega (arith, far)
  | no near ↦
      let u = r - t in
      let split : r ≡ u + t = omega (arith, near) in
      let square : r * r ≡ u * (r + t) + t * t =
        ap (λ (x : ℕ). x * x) split ∙ omega (arith, ap (λ (x : ℕ). u * x) split) in
      let divisor : 0 < r + t = omega (arith, hr) in
      let quotient : u ≤ a / (r + t) = (le-div_iff_mul-le divisor).1 (omega (arith, square, h.0)) in
      omega (arith, quotient, split)
]

-- and halves the distance.
step_halves : (a r s : ℕ) → IsRoot a r → r < s → (a / s + s) / 2 ≤ (r + s) / 2
step_halves a r s h hr =
    let product : suc r * suc r ≤ suc r * s =
      mul-le-mul {n₁ = suc r} {m₁ = suc r} (omega arith) hr in
    let divisor : 0 < s = omega (arith, hr) in
    let quotient : a / s < suc r = (div-lt_iff_lt-mul divisor).1 (omega (arith, product, h.1)) in
    omega (arith, quotient)

above_of : (a r s : ℕ) → IsRoot a r → 0 < r → r ≤ s → r ≤ (a / s + s) / 2
above_of a r s h hr hs =
    let e : r + (s - r) ≡ s = omega arith in rw (sym e) (step_above a r (s - r) h hr)

-- The iteration stops at the root, and goes on above it.
stops : (a r s : ℕ) → IsRoot a r → 0 < r → s ≡ r → leb s ((a / s + s) / 2) ≡ true
stops a r s h hr e = ground (arith, above_of a r s h hr)

goes_on : (a r s : ℕ) → IsRoot a r → r < s → leb s ((a / s + s) / 2) ≡ false
goes_on a r s h hr = ground (arith, step_halves a r s h hr)

-- With the root less than `2 ^ n` below the start, `n + 1` steps are enough.
newton_lem :
    (n a r s : ℕ) → IsRoot a r → 0 < r → r ≤ s → s < r + 2 ^ n → newton (suc n) a s ≡ some r
unfolding newton
newton_lem zero a r s root hr h d =
    let e : s ≡ r = omega arith in rw (stops a r s root hr e) (ap some e)
newton_lem (suc n) a r s root hr h d = elim (dec_lt r s) [
  | no same ↦ let e : s ≡ r = omega arith in rw (stops a r s root hr e) (ap some e)
  | yes more ↦ rw (goes_on a r s root more) (
      newton_lem n a r ((a / s + s) / 2) root hr (above_of a r s root hr h)
        (omega (arith, step_halves a r s root more, pow-suc 2 n)))
]

-- The start is above the root.
start_above : (h r k : ℕ) → h ≤ 2 ^ k → IsRoot (h * 2 ^ 64) r → r ≤ 2 ^ ((64 + k + 1) / 2)
start_above h r k hh root = elim (dec_lt q r) [
  | yes below ↦
      let more : suc q * suc q ≤ r * r = mul-le-mul {n₁ = suc q} {m₁ = suc q} below below in
      absurd (omega (arith, more, square, wide, pow-add 2 64 k, root.0))
  | no fine ↦ omega (arith, fine)
]
  where
    c : ℕ
    c = (64 + k + 1) / 2

    q : ℕ
    q = 2 ^ c

    square : 2 ^ (c + c) ≡ q * q
    square = pow-add 2 c c

    exponents : 64 + k ≤ c + c
    exponents = omega arith

    wide : 2 ^ (64 + k) ≤ 2 ^ (c + c)
    wide = pow-le-pow_right (omega arith) exponents

few_bits : (k h : ℕ) → 2 ^ k ≤ max 1 (2 * h) → h < 2 ^ 62 → k ≤ 62
few_bits k h low hh = elim (dec_lt 62 k) [
  | yes more ↦
      let wide : 2 ^ 63 ≤ 2 ^ k = pow-le-pow_right (omega arith) more in absurd (omega arith)
  | no fine ↦ omega arith
]

module _ (h : ℕ) (hh : suc h < 2 ^ 62) where
  k : ℕ
  k = bit_length 64 h

  guess : (guess_bits float64 (suc h) 0 ≡ 64 + k) × (h < 2 ^ k) × (k ≤ 62)
  unfolding guess_bits clz k
  guess =
      let (most, least, few) = bit_length_lem 64 h (omega arith) in
      let down : suc h - 1 ≡ h = omega arith in
      let nonzero : (suc h == 0) ≡ false = ground arith in
      (
        rw (nonzero, down) (omega (arith, few)),
        most,
        few_bits (bit_length 64 h) h least (omega arith),
      )

  iterated :
      (r : ℕ)
      → IsRoot (suc h * 2 ^ 64) r
      → newton 64 (suc h * 2 ^ 64) (2 ^ ((64 + k + 1) / 2)) ≡ some r
  iterated r root =
      let above : r ≤ 2 ^ ((64 + k + 1) / 2) =
        start_above (suc h) r k (omega (arith, guess.1)) root in
      let last : (64 + k + 1) / 2 ≤ 63 = omega (arith, guess.2) in
      let start : 2 ^ ((64 + k + 1) / 2) ≤ 2 ^ 63 = pow-le-pow_right (omega arith) last in
      let positive : 0 < r = root_pos r root in
      newton_lem 63 (suc h * 2 ^ 64) r (2 ^ ((64 + k + 1) / 2)) root positive above
        (omega (arith, start, positive))
    where
      root_pos : (r : ℕ) → IsRoot (suc h * 2 ^ 64) r → 0 < r
      root_pos zero root = absurd (omega (arith, root.1))
      root_pos (suc r) root = omega arith

  rooted :
      (r : ℕ)
      → IsRoot (suc h * 2 ^ 64) r
      → sqrtrem_u float64 (suc h) 0 ≡ some (r, not (suc h * 2 ^ 64 == r * r))
  unfolding sqrtrem_u
  rooted r root =
      let nonzero : (suc h == 0) ≡ false = ground arith in
      let exact : (suc h * 2 ^ 64 - r * r == 0) ≡ (suc h * 2 ^ 64 == r * r) =
        ground (arith, root.0) in
      rw
        (
          guess.0,
          nonzero,
          bit_or-zero (suc h * 2 ^ 64),
          one-mul (2 ^ ((64 + k + 1) / 2)),
          iterated r root,
          bit_or-zero (suc h <<< 64),
          exact,
        )
        refl

-- The root of every high word that the first guess reaches, with `clz` of 0 read as the width.
pub sqrtrem_u-root :
    (h : ℕ)
    → h < 2 ^ 62
    → (r : ℕ) × (sqrtrem_u float64 h 0 ≡ some (r, not (h * 2 ^ 64 == r * r)))
      × (r * r ≤ h * 2 ^ 64)
      × (h * 2 ^ 64 < suc r * suc r)
unfolding sqrtrem_u
sqrtrem_u-root zero hh = (0, refl, omega arith, omega arith)
sqrtrem_u-root (suc h) hh =
    let (r, root) = IsRoot-exists (suc h * 2 ^ 64) in (r, rooted h hh r root, root.0, root.1)

-- For a high word below 2 ^ 62 that is not 1 and a low word of 0, the iteration of `sqrtrem_u` ends
-- within its fuel and returns the integer part of the square root of the two words, and whether the
-- root is not exact.
pub sqrtrem_u_lem :
    (h : ℕ)
    → (h ≡ 0) ⊎ (2 ≤ h)
    → h < 2 ^ 62
    → (r : ℕ) × (sqrtrem_u float64 h 0 ≡ some (r, not (h * 2 ^ 64 == r * r)))
      × (r * r ≤ h * 2 ^ 64)
      × (h * 2 ^ 64 < suc r * suc r)
sqrtrem_u_lem h _ hh = sqrtrem_u-root h hh
