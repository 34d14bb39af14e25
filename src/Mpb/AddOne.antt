-- ===== src/Mpb/AddOne.antt =====
-- The bits by which `mpb_shr_round` decides whether to add one.
use mquickjs_port.Base.{
  ℕ, zero, suc, ◌+◌, ◌-◌, ◌*◌, ◌/◌, ◌%◌, ◌^◌, ◌≤◌, ◌<◌, ◌==◌, ◌≡◌, refl, leb, ltb, if◌then◌else◌,
  arith,
}
use mquickjs_port.Base.Pow.{pow-pos, mod_mul}
use mquickjs_port.Limbs.{IsLimbs, value}
use mquickjs_port.Rounding.{Rounding, rndn, rndna, rndz, round_up}
use mquickjs_port.Mpb.{Mpb, add_one, tie_bit}
use mquickjs_port.Mpb.Bit.{mpb_get_bit_lem, low_bits_or_lem}
use native.Mathlib.Nat.{mod-lt, pow-suc}

-- A remainder by `2 ^ suc n` is its top bit and the bits below.
half_split : (v n : ℕ) → v % 2 ^ suc n ≡ v % 2 ^ n + 2 ^ n * (v / 2 ^ n % 2)
half_split v n = rw pow-suc (mod_mul v (2 ^ n) 2 (pow-pos 2 n (omega arith)) (omega arith))

one_less : (n : ℕ) → suc n - 1 ≡ n
one_less n = omega arith

-- The remainder of which `bit` is the top bit and `low` the rest, against half of the divisor.
away_bit :
    (bit low half : ℕ)
    → bit < 2
    → low < half
    → ◌≡◌ {A = ℕ}
        (if bit == 0 then 0 else 1)
        (if leb (half * 2) (2 * (low + half * bit)) then 1 else 0)
away_bit zero low half h k = ground arith
away_bit (suc zero) low half h k = ground arith
away_bit (suc (suc b)) low half h k = absurd (omega arith)

even_bit :
    (bit low half whole odd : ℕ)
    → bit < 2
    → low < half
    → whole ≡ half * 2
    → (if bit == 0 then 0 else (if low == 0 then odd else 1)) ≡ (
        if ltb whole (2 * (low + half * bit))
        then 1
        else if whole == 2 * (low + half * bit)
        then odd
        else 0)
even_bit zero low half whole odd h k e = ground arith
even_bit (suc zero) low half whole odd h k e = ground arith
even_bit (suc (suc b)) low half whole odd h k e = absurd (omega arith)

-- The bits that the source looks at decide as the remainder does.
pub add_one_lem :
    (mode : Rounding) (r : Mpb) (n : ℕ)
    → IsLimbs r
    → add_one mode r (suc n) ≡ round_up mode (value r / 2 ^ suc n) (value r % 2 ^ suc n) (2 ^ suc n)
unfolding add_one tie_bit round_up
add_one_lem rndz r n h = refl
add_one_lem rndna r n h =
    rw (one_less n, mpb_get_bit_lem r n h, half_split (value r) n, pow-suc 2 n)
      (away_bit (value r / 2 ^ n % 2) (value r % 2 ^ n) (2 ^ n) (omega arith)
        (mod-lt (value r) (pow-pos 2 n (omega arith))))
add_one_lem rndn r n h =
    rw
      (
        low_bits_or_lem r (suc n) (omega arith) h,
        mpb_get_bit_lem r (suc n) h,
        one_less n,
        mpb_get_bit_lem r n h,
        half_split (value r) n,
      )
      (even_bit (value r / 2 ^ n % 2) (value r % 2 ^ n) (2 ^ n) (2 ^ suc n) _ (omega arith)
        (mod-lt (value r) (pow-pos 2 n (omega arith))) (pow-suc 2 n))

pub add_one-le : (mode : Rounding) (r : Mpb) (n : ℕ) → IsLimbs r → add_one mode r (suc n) ≤ 1
unfolding round_up
add_one-le rndz r n h = rw (add_one_lem rndz r n h) (omega arith)
add_one-le rndna r n h = rw (add_one_lem rndna r n h) (ground arith)
add_one-le rndn r n h = rw (add_one_lem rndn r n h) (ground arith)
