-- ===== src/Base/Bits.antt =====
-- `|` of disjoint fields and `&` with a low mask, as arithmetic, at every width.
use Prim.Native.Nat.{
  ℕ, zero, suc, ◌+◌, ◌*◌, ◌/◌, ◌%◌, ◌^◌, ◌≤◌, ◌<◌, min, max, digits, bitwise, bit_and, bit_or,
  bit_and-bitwise, bit_or-bitwise,
}
use mathlib.Core.Path.{◌≡◌, refl, ap, ap₂, sym, ◌∙◌}
use mathlib.Core.WellFounded
use native.Mathlib.Omega.{arith}
use native.Mathlib.Nat.{pow-suc, pow-succ', one-le-pow, mod-eq_of_lt, mod-one, mul_assoc}
use mathlib.Core.Logic.{◌⊎◌, inl, inr}
use mquickjs_port.Base.Pow.{mod_mul}
use mquickjs_port.Base.Order.{lt_wf}
use mquickjs_port.Base.Word.{◌<<<◌, low_mask}

below_or_equal : (x n : ℕ) → x ≤ suc n → (x ≤ n) ⊎ (x ≡ suc n)
below_or_equal x n h = ground arith

-- The native operations are `bitwise`, which recurses on the binary digits of its first argument.
module _ (z : ℕ → ℕ) (f : ℕ → ℕ → ℕ) where
  one_more : (fuel x y : ℕ) → x ≤ fuel → digits z f (suc fuel) x y ≡ digits z f fuel x y
  one_more zero zero y h = refl
  one_more zero (suc x) y h = absurd (omega arith)
  one_more (suc fuel) zero y h = refl
  one_more (suc fuel) (suc x) y h = rw (one_more fuel (suc x / 2) (y / 2) (omega arith))

  enough : (fuel x y : ℕ) → x ≤ fuel → digits z f fuel x y ≡ bitwise z f x y
  enough zero zero y h = refl
  enough zero (suc x) y h = absurd (omega arith)
  enough (suc fuel) x y h = elim (below_or_equal x fuel h) [
    | inl below ↦ one_more fuel x y below ∙ enough fuel x y below
    | inr equal ↦ rw equal refl
  ]

  lowest_digit :
      (x y : ℕ)
      → bitwise z f (suc x) y ≡ f (suc x % 2) (y % 2) + 2 * bitwise z f (suc x / 2) (y / 2)
  lowest_digit x y = omega (arith, enough x (suc x / 2) (y / 2) (omega arith))

-- The lowest digit and the others.
pub bit_or_step : (x y : ℕ) → bit_or x y ≡ max (x % 2) (y % 2) + 2 * bit_or (x / 2) (y / 2)
bit_or_step zero y = simp bit_or-bitwise (omega arith)
bit_or_step (suc x) y = simp bit_or-bitwise (lowest_digit (λ t. t) max x y)

pub bit_and_step : (x y : ℕ) → bit_and x y ≡ min (x % 2) (y % 2) + 2 * bit_and (x / 2) (y / 2)
bit_and_step zero y = simp bit_and-bitwise (omega arith)
bit_and_step (suc x) y = simp bit_and-bitwise (lowest_digit (λ t. 0) min x y)

-- Induction along the halves of a number.
by_halves {ℓ} : (P : ℕ → Type ℓ) → P 0 → ((n : ℕ) → P (suc n / 2) → P (suc n)) → (n : ℕ) → P n
by_halves P base half n = WellFounded.induction lt_wf {C = P} n down
  where
    down : (k : ℕ) → ((j : ℕ) → j < k → P j) → P k
    down zero smaller = base
    down (suc k) smaller = half k (smaller (suc k / 2) (omega arith))

pub zero-bit_or : (b : ℕ) → bit_or 0 b ≡ b
zero-bit_or b = bit_or-bitwise 0 b

pub bit_or-zero : (x : ℕ) → bit_or x 0 ≡ x
bit_or-zero =
    by_halves (λ x. bit_or x 0 ≡ x) refl (λ n half. omega (arith, bit_or_step (suc n) 0, half))

pub bit_and-zero : (x : ℕ) → bit_and x 0 ≡ 0
bit_and-zero =
    by_halves (λ x. bit_and x 0 ≡ 0) refl (λ n half. omega (arith, bit_and_step (suc n) 0, half))

-- The high part keeps its weight when a bit is taken off below it.
twice : (high k : ℕ) → high * 2 ^ suc k ≡ high * 2 ^ k * 2
twice high k = ap (λ (t : ℕ). high * t) (pow-suc 2 k) ∙ sym (mul_assoc high (2 ^ k) 2)

-- `|` of a shifted number and one that fits below it adds them.
pub bit_or_fields : (k high low : ℕ) → low < 2 ^ k → bit_or (high <<< k) low ≡ high * 2 ^ k + low
bit_or_fields zero high low small = ground (arith, bit_or-zero high)
bit_or_fields (suc k) high low small =
    let half = bit_or_fields k high (low / 2) (omega (arith, pow-suc 2 k)) in
    ground (arith, twice high k, half, bit_or_step (high * 2 ^ suc k) low)

-- `&` with `k` ones is the remainder by `2 ^ k`.
pub bit_and_mask : (k x : ℕ) → bit_and x (low_mask k) ≡ x % 2 ^ k
bit_and_mask zero x = rw (mod-one x) (bit_and-zero x)
bit_and_mask (suc k) x =
    let half = bit_and_mask k (x / 2) in
    let split : x % 2 ^ suc k ≡ x % 2 + 2 * (x / 2 % 2 ^ k) =
      rw (pow-succ' 2 k) (mod_mul x 2 (2 ^ k) (omega arith) (one-le-pow k 2 (omega arith))) in
    ground (arith, one-le-pow k 2, pow-suc 2 k, split, half, bit_and_step x (low_mask (suc k)))

-- `|` of two remainders.
pub bit_or_mod : (k a b : ℕ) → bit_or a b % 2 ^ k ≡ bit_or (a % 2 ^ k) (b % 2 ^ k)
bit_or_mod zero a b = rw (mod-one (bit_or a b), mod-one a, mod-one b) refl
bit_or_mod (suc k) a b =
    let split : (x : ℕ) → x % 2 ^ suc k ≡ x % 2 + 2 * (x / 2 % 2 ^ k) =
      λ x. rw (pow-succ' 2 k) (mod_mul x 2 (2 ^ k) (omega arith) (one-le-pow k 2 (omega arith))) in
    let halves : bit_or a b / 2 ≡ bit_or (a / 2) (b / 2) = omega (arith, bit_or_step a b) in
    let low : (x : ℕ) → x % 2 ^ suc k / 2 ≡ x / 2 % 2 ^ k = λ x. omega (arith, split x) in
    let half : bit_or (a % 2 ^ suc k / 2) (b % 2 ^ suc k / 2) ≡ bit_or a b / 2 % 2 ^ k =
      ap₂ bit_or (low a) (low b)
      ∙ sym (bit_or_mod k (a / 2) (b / 2))
      ∙ ap (λ (t : ℕ). t % 2 ^ k) (sym halves) in
    omega (
      arith,
      bit_or_step (a % 2 ^ suc k) (b % 2 ^ suc k),
      bit_or_step a b,
      split (bit_or a b),
      split a,
      split b,
      half,
    )

-- The operations do not mind the order of their arguments.
pub bit_or_comm : (a b : ℕ) → bit_or a b ≡ bit_or b a
bit_or_comm =
    by_halves (λ n. (b : ℕ) → bit_or n b ≡ bit_or b n) (λ b. zero-bit_or b ∙ sym (bit_or-zero b))
      (λ n half b. omega (arith, bit_or_step (suc n) b, bit_or_step b (suc n), half (b / 2)))

pub zero-bit_and : (b : ℕ) → bit_and 0 b ≡ 0
zero-bit_and b = bit_and-bitwise 0 b

pub bit_and_comm : (a b : ℕ) → bit_and a b ≡ bit_and b a
bit_and_comm =
    by_halves (λ n. (b : ℕ) → bit_and n b ≡ bit_and b n)
      (λ b. zero-bit_and b ∙ sym (bit_and-zero b))
      (λ n half b. omega (arith, bit_and_step (suc n) b, bit_and_step b (suc n), half (b / 2)))

-- A word under all ones, and under no ones.
pub ones-bit_and : (k a : ℕ) → a < 2 ^ k → bit_and (low_mask k) a ≡ a
ones-bit_and k a h = bit_and_comm (low_mask k) a ∙ bit_and_mask k a ∙ mod-eq_of_lt h

-- `|` loses no bit, so it gives 0 for two zeros only.
pub bit_or-le : (a b : ℕ) → (a ≤ bit_or a b) × (b ≤ bit_or a b)
bit_or-le =
    by_halves (λ n. (b : ℕ) → (n ≤ bit_or n b) × (b ≤ bit_or n b))
      (λ b. omega (arith, zero-bit_or b))
      (λ n half b. omega (arith, bit_or_step (suc n) b, half (b / 2)))

-- `x |= 1`.
pub bit_or-one : (a : ℕ) → bit_or a 1 ≡ a / 2 * 2 + 1
bit_or-one a = omega (arith, bit_or_step a 1, bit_or-zero (a / 2))
