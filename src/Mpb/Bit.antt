-- ===== src/Mpb/Bit.antt =====
-- `mpb_get_bit` and the bits below a bit, in terms of the number.
use mquickjs_port.Base.{
  ℕ, zero, suc, ◌+◌, ◌-◌, ◌*◌, ◌/◌, ◌%◌, ◌^◌, ◌≤◌, ◌<◌, bit_and, bit_or, low_mask, ◌==◌, ◌≡◌, leb,
  inl, inr, refl, ap, sym, ◌∙◌, arith, List, [], ◌∷◌, length, get_or, take, drop, Bool-cases, true,
  ltb, if◌then◌else◌, ◌&&◌,
}
use mquickjs_port.Base.Bits.{bit_or-le, bit_and_mask, zero-bit_or}
use mquickjs_port.Base.Pow.{pow-add, pow-mul, pow-pos, mod_mul, bit_of_low}
use mquickjs_port.Limbs.{IsLimbs, value}
use mquickjs_port.Mpb.{Mpb, mpb_get_bit, or_limbs, low_bits_or}
use Prim.Native.Nat.{◌∣◌}
use mathlib.Core.Path.{subst}
use native.Mathlib.Nat.{
  pow-succ', div-div-eq-div-mul, zero-div, zero-mod, div-one, mod-one, mod-mod_of_dvd, dvd-mul_left,
}

-- The limbs from `l` on are the number divided by their weight, the limbs below are the remainder.
pub value-drop : (l : ℕ) (r : List ℕ) → IsLimbs r → value (drop l r) ≡ value r / (2 ^ 32) ^ l
value-drop zero r h = sym (div-one (value r))
value-drop (suc l) [] h = sym (zero-div ((2 ^ 32) ^ suc l))
value-drop (suc l) (x ∷ r) h =
    value-drop l r h.1
    ∙ rw
        (
          pow-succ' (2 ^ 32) l,
          ← div-div-eq-div-mul (x + 2 ^ 32 * value r) (2 ^ 32) ((2 ^ 32) ^ l),
          head,
        )
        refl
  where
    head : (x + 2 ^ 32 * value r) / 2 ^ 32 ≡ value r
    head = omega (arith, h.0)

pub value-take : (l : ℕ) (r : List ℕ) → IsLimbs r → value (take l r) ≡ value r % (2 ^ 32) ^ l
value-take zero r h = sym (mod-one (value r))
value-take (suc l) [] h = sym (zero-mod ((2 ^ 32) ^ suc l))
value-take (suc l) (x ∷ r) h =
    rw
      (
        pow-succ' (2 ^ 32) l,
        mod_mul (x + 2 ^ 32 * value r) (2 ^ 32) ((2 ^ 32) ^ l) (omega arith)
            (pow-pos (2 ^ 32) l (omega arith)),
        head,
        ← value-take l r h.1,
      )
      (omega (arith, h.0))
  where
    head : (x + 2 ^ 32 * value r) / 2 ^ 32 ≡ value r
    head = omega (arith, h.0)

-- Limb `l`, or 0 behind the last one.
pub get_or-eq-mod : (l : ℕ) (r : List ℕ) → IsLimbs r → get_or r l 0 ≡ value (drop l r) % 2 ^ 32
get_or-eq-mod zero [] h = refl
get_or-eq-mod zero (x ∷ r) h = omega (arith, h.0)
get_or-eq-mod (suc l) [] h = refl
get_or-eq-mod (suc l) (x ∷ r) h = get_or-eq-mod l r h.1

pub drop-beyond : (l : ℕ) (r : List ℕ) → length r ≤ l → value (drop l r) ≡ 0
drop-beyond zero [] h = refl
drop-beyond (suc l) [] h = refl
drop-beyond zero (x ∷ r) h = absurd (omega arith)
drop-beyond (suc l) (x ∷ r) h = drop-beyond l r (omega arith)

-- The limb and the place in it of bit `k`.
pub split_index : (k : ℕ) → 2 ^ k ≡ (2 ^ 32) ^ (k / 32) * 2 ^ (k % 32)
split_index k =
    ap (λ (t : ℕ). 2 ^ t) {y = 32 * (k / 32) + k % 32} (omega arith)
    ∙ pow-add 2 (32 * (k / 32)) (k % 32)
    ∙ ap (λ (t : ℕ). t * 2 ^ (k % 32)) (pow-mul 2 32 (k / 32))

pub low_five : (k : ℕ) → bit_and k 31 ≡ k % 32
low_five k = bit_and_mask 5 k

-- For limbs `mpb_get_bit` reads bit `k` of the number, and 0 behind the last limb.
pub mpb_get_bit_lem : (r : Mpb) (k : ℕ) → IsLimbs r → mpb_get_bit r k ≡ value r / 2 ^ k % 2
unfolding mpb_get_bit
mpb_get_bit_lem r k h =
    let v : ℕ = value (drop (k / 32) r) in
    elim (Bool-cases (leb (length r) (k / 32))) [
      | inl out ↦ rw out (
          sym (
            number_bit
            ∙ ap (λ (t : ℕ). t / 2 ^ (k % 32) % 2) {y = 0} (zero_above out)
            ∙ rw (zero-div (2 ^ (k % 32)))))
      | inr inside ↦
          rw
            (
              inside,
              low_five k,
              bit_and_mask 1 (get_or r (k / 32) 0 / 2 ^ (k % 32)),
              get_or-eq-mod (k / 32) r h,
            )
            (bit_of_low v (k % 32) (omega arith) ∙ sym number_bit)
    ]
  where
    number_bit : value r / 2 ^ k % 2 ≡ value (drop (k / 32) r) / 2 ^ (k % 32) % 2
    number_bit = rw (
      split_index k,
      ← div-div-eq-div-mul (value r) ((2 ^ 32) ^ (k / 32)) (2 ^ (k % 32)),
      value-drop (k / 32) r h,
    )

    zero_above : leb (length r) (k / 32) ≡ true → value (drop (k / 32) r) ≡ 0
    zero_above out = drop-beyond (k / 32) r (ground arith)

pub or-eq-zero : (a b : ℕ) → (bit_or a b == 0) ≡ ((a == 0) && (b == 0))
or-eq-zero zero b = rw (zero-bit_or b)
or-eq-zero (suc a) b = ground (arith, bit_or-le (suc a) b)

-- Some bit is set in some limb exactly when the number is not 0.
or_limbs-eq-zero : (xs : List ℕ) → (or_limbs xs == 0) ≡ (value xs == 0)
unfolding or_limbs
or_limbs-eq-zero [] = refl
or_limbs-eq-zero (x ∷ xs) = rw (or-eq-zero x (or_limbs xs), or_limbs-eq-zero xs) (ground arith)

take-all : (l : ℕ) (r : List ℕ) → length r ≤ l → take l r ≡ r
take-all zero [] h = refl
take-all zero (x ∷ r) h = absurd (omega arith)
take-all (suc l) [] h = refl
take-all (suc l) (x ∷ r) h = ap (λ (t : List ℕ). x ∷ t) (take-all l r (omega arith))

-- What `low_bits_or` takes of limb `l`.
partial_limb :
    (r : Mpb) (l k : ℕ)
    → k < 32
    → IsLimbs r
    → (if ltb l (length r) then bit_and (get_or r l 0) (low_mask k) else 0)
      ≡ value (drop l r) % 2 ^ k
partial_limb r l k hk h = elim (Bool-cases (ltb l (length r))) [
  | inl inside ↦
      rw (inside, bit_and_mask k (get_or r l 0), get_or-eq-mod l r h)
        (mod-mod_of_dvd (2 ^ k) (value (drop l r)) fits)
  | inr out ↦ rw (out, drop-beyond l r (ground arith)) (sym (zero-mod (2 ^ k)))
]
  where
    fits : 2 ^ k ∣ 2 ^ 32
    fits =
        subst (λ t. 2 ^ k ∣ t)
          (sym (pow-add 2 (32 - k) k) ∙ ap (λ (t : ℕ). 2 ^ t) {y = 32} (omega arith))
          (dvd-mul_left (2 ^ k) (2 ^ (32 - k)))

both-eq-zero : (a m b : ℕ) → 0 < m → ((a == 0) && (b == 0)) ≡ ((a + m * b) == 0)
both-eq-zero a zero b h = elim h [ ]
both-eq-zero a (suc m) zero h = ground arith
both-eq-zero a (suc m) (suc b) h = ground arith

-- The bits below bit `shift - 1` are all 0 exactly when the remainder is.
pub low_bits_or_lem :
    (r : Mpb) (shift : ℕ)
    → 1 ≤ shift
    → IsLimbs r
    → (low_bits_or r shift == 0) ≡ (value r % 2 ^ (shift - 1) == 0)
unfolding low_bits_or
low_bits_or_lem r zero p h = absurd (omega arith)
low_bits_or_lem r (suc zero) p h = rw (mod-one (value r))
low_bits_or_lem r (suc (suc n)) p h =
    let l = suc n / 32 in
    let k = suc n % 32 in
    rw
      (
        two_or_more,
        one_less,
        low_five (suc n),
        or-eq-zero (or_limbs (take l r)) _,
        or_limbs-eq-zero (take l r),
        partial_limb r l k (omega arith) h,
        split_index (suc n),
        mod_mul (value r) ((2 ^ 32) ^ l) (2 ^ k) (pow-pos (2 ^ 32) l (omega arith))
            (pow-pos 2 k (omega arith)),
        value-take l r h,
        value-drop l r h,
      )
      (both-eq-zero _ ((2 ^ 32) ^ l) _ (pow-pos (2 ^ 32) l (omega arith)))
  where
    two_or_more : leb 2 (suc (suc n)) ≡ true
    two_or_more = ground arith

    one_less : suc (suc n) - 1 ≡ suc n
    one_less = omega arith
