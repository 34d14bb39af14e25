-- ===== src/Libm/Rounded.antt =====
-- `rint_sf64` and the functions that it serves.
use native.Mathlib.Nat.{mul_assoc, mul-lt-mul_of_pos_right}
use mquickjs_port.Base.{
  ℕ, zero, suc, ◌+◌, ◌-◌, ◌*◌, ◌/◌, ◌^◌, ◌≤◌, ◌<◌, ◌≡◌, refl, ap, sym, ◌∙◌, arith, if◌then◌else◌,
  ◌==◌, ltb, ◌&&◌, true, false, low_mask, bit_and, bit_or, u64, ◌<<<◌, ◌>>>◌, inl, inr, Bool-cases,
}
use mathlib.Core.Path.{subst}
use mquickjs_port.Base.Bits.{bit_and_mask, bit_or_fields, bit_or_comm}
use mquickjs_port.Base.Pow.{pow-add, pow-pos}
use mquickjs_port.Libm.{RintMode, rup, rdn, rtz, rmm, rmmup, small, rint_addend, rint_sf64}
use mquickjs_port.Libm.Value.{
  sign_of, exp_of, mant_of, magnitude, unity-pos, Rounds-exact, size_of, unity, unity_split,
  direction, Rounds, scaled,
}
use mquickjs_port.Libm.Rint.{fields, size_at, cleared, cleared_size, rint_addend-Rounds}
use mquickjs_port.Libm.Small.{small_lem}

-- The three cases of `rint_sf64`, from the fields.
by_fields : ℕ → ℕ → ℕ → ℕ → RintMode → ℕ
by_fields u s e m rm =
    if ltb e 0x3ff
    then if e == 0 && m == 0 then u else bit_or (small s e m rm) (s <<< 63)
    else if ltb (e - 0x3ff) 52
    then bit_and (u64 (u + rint_addend s (1 <<< (52 - (e - 0x3ff))) rm))
        (low_mask 64 - (1 <<< (52 - (e - 0x3ff)) - 1))
    else u

rint-by_fields :
    (u : ℕ) (rm : RintMode) → rint_sf64 u rm ≡ by_fields u (sign_of u) (exp_of u) (mant_of u) rm
unfolding rint_sf64 by_fields
rint-by_fields u rm =
    ap (λ (t : ℕ). by_fields u (u >>> 63) t (bit_and u (low_mask 52)) rm)
      (bit_and_mask 11 (u >>> 52))
    ∙ ap (λ (t : ℕ). by_fields u (u >>> 63) (exp_of u) t rm) (bit_and_mask 52 u)

-- What is shown of the result, for a sign and a value.
abbrev pub IsResult : ℕ → ℕ → RintMode → ℕ → Type 0
IsResult s x rm r =
    (n : ℕ) × (sign_of r ≡ s) × (magnitude r ≡ n * unity) × Rounds (direction s rm) x unity n

abbrev pub IsRint : ℕ → RintMode → ℕ → Type 0
IsRint u rm r = IsResult (sign_of u) (magnitude u) rm r

of_bits : (u : ℕ) → u ≡ sign_of u * 2 ^ 63 + exp_of u * 2 ^ 52 + mant_of u
of_bits u = omega arith

-- The result for the bits of 0 or 1, with the sign.
signed : (s a : ℕ) → a < 2 ^ 63 → bit_or a (s <<< 63) ≡ s * 2 ^ 63 + a
signed s a h = bit_or_comm a (s <<< 63) ∙ bit_or_fields 63 s a h

below :
    (u : ℕ) (rm : RintMode)
    → u < 2 ^ 64
    → exp_of u < 1023
    → 0 < magnitude u
    → IsRint u rm (bit_or (small (sign_of u) (exp_of u) (mant_of u) rm) (sign_of u <<< 63))
unfolding size_of
below u rm h he hx =
    elim (small_lem (sign_of u) (exp_of u) (mant_of u) rm (omega (arith, h)) he (omega arith) hx) [
      | inl (e, rounds) ↦
          let s : ℕ = sign_of u in
          let bits : bit_or (small s (exp_of u) (mant_of u) rm) (s <<< 63)
              ≡ s * 2 ^ 63 + 0 * 2 ^ 52 + 0 =
            ap (λ (t : ℕ). bit_or t (s <<< 63)) e ∙ signed s 0 (omega arith) ∙ omega arith in
          let (a, b, c) = fields s 0 0 (omega arith) (omega arith) in
          (
            0,
            ap sign_of bits ∙ a,
            ap magnitude bits ∙ size_at (s * 2 ^ 63 + 0 * 2 ^ 52 + 0) 0 0 b c ∙ omega arith,
            rounds,
          )
      | inr (e, rounds) ↦
          let s : ℕ = sign_of u in
          let bits : bit_or (small s (exp_of u) (mant_of u) rm) (s <<< 63)
              ≡ s * 2 ^ 63 + 1023 * 2 ^ 52 + 0 =
            ap (λ (t : ℕ). bit_or t (s <<< 63)) e
            ∙ signed s (1023 * 2 ^ 52) (omega arith)
            ∙ omega arith in
          let (a, b, c) = fields s 1023 0 (omega arith) (omega arith) in
          let one : (2 ^ 52 + 0) * 2 ^ 1022 ≡ 1 * unity = omega (arith, unity_split 52 1022 refl) in
          (
            1,
            ap sign_of bits ∙ a,
            ap magnitude bits ∙ size_at (s * 2 ^ 63 + 1023 * 2 ^ 52 + 0) 1023 0 b c ∙ one,
            rounds,
          )
    ]

addend_lt : (s k : ℕ) (rm : RintMode) → 1 ≤ k → rint_addend s (2 ^ k) rm < 2 ^ k
unfolding rint_addend
addend_lt s k rup h = ground (arith, pow-pos 2 k)
addend_lt s k rdn h = ground (arith, pow-pos 2 k)
addend_lt s k rtz h = ground (arith, pow-pos 2 k)
addend_lt s k rmm h = ground (arith, pow-pos 2 k)
addend_lt s k rmmup h = ground (arith, pow-pos 2 k)

middle_fields :
    (s e m k : ℕ) (rm : RintMode)
    → s ≤ 1
    → e + k ≡ 1075
    → 1 ≤ k
    → k ≤ 52
    → m < 2 ^ 52
    → IsResult s (size_of e m) rm (
        bit_and
          (u64 (s * 2 ^ 63 + e * 2 ^ 52 + m + rint_addend s (2 ^ k) rm))
          (low_mask 64 - (2 ^ k - 1)))
unfolding size_of
middle_fields s zero m k rm hs h one hk hm = absurd (omega (arith, h, hk))
middle_fields s (suc e) m k rm hs h one hk hm =
    let add : ℕ = rint_addend s (2 ^ k) rm in
    let few : add < 2 ^ k = addend_lt s k rm one in
    let bits = cleared s (suc e) k m add hs (omega (arith, h, one)) hk hm few in
    let (sign, value) = cleared_size s e k m add h hk hm few in
    let n : ℕ = (2 ^ 52 + m + add) / 2 ^ k in
    let rounds =
      scaled (direction s rm) (2 ^ 52 + m) (2 ^ k) n (2 ^ e) (pow-pos 2 e (omega arith))
        (rint_addend-Rounds s k (2 ^ 52 + m) rm hs one) in
    (
      n,
      ap sign_of bits ∙ sign,
      ap magnitude bits ∙ value,
      subst (λ (t : ℕ). Rounds (direction s rm) ((2 ^ 52 + m) * 2 ^ e) t n)
          (unity_split k e (omega (arith, h))) rounds,
    )

middle :
    (u : ℕ) (rm : RintMode)
    → u < 2 ^ 64
    → 1023 ≤ exp_of u
    → exp_of u < 1075
    → IsRint u rm (
        bit_and
          (u64 (u + rint_addend (sign_of u) (2 ^ (52 - (exp_of u - 1023))) rm))
          (low_mask 64 - (2 ^ (52 - (exp_of u - 1023)) - 1)))
middle u rm h he he' =
    let k : ℕ = 52 - (exp_of u - 1023) in
    subst
      (λ (t : ℕ).
        IsRint u rm
          (bit_and (u64 (t + rint_addend (sign_of u) (2 ^ k) rm)) (low_mask 64 - (2 ^ k - 1))))
      (sym (of_bits u))
      (middle_fields (sign_of u) (exp_of u) (mant_of u) k rm (omega (arith, h))
        (omega (arith, he, he')) (omega (arith, he, he')) (omega arith) (omega arith))

whole_size : (e m : ℕ) → 1075 ≤ e → size_of e m ≡ (2 ^ 52 + m) * 2 ^ (e - 1075) * unity
unfolding size_of
whole_size zero m h = absurd (omega (arith, h))
whole_size (suc e) m h =
    let big : 2 ^ 1074 ≡ unity = omega (arith, unity_split 1074 0 refl) in
    let split : e ≡ suc e - 1075 + 1074 = omega (arith, h) in
    ap (λ (t : ℕ). (2 ^ 52 + m) * 2 ^ t) split
    ∙ ap (λ (t : ℕ). (2 ^ 52 + m) * t) (pow-add 2 (suc e - 1075) 1074)
    ∙ sym (mul_assoc (2 ^ 52 + m) (2 ^ (suc e - 1075)) (2 ^ 1074))
    ∙ ap (λ (t : ℕ). (2 ^ 52 + m) * 2 ^ (suc e - 1075) * t) big

-- A double that is an integer already.
unchanged : (u n : ℕ) (rm : RintMode) → magnitude u ≡ n * unity → IsRint u rm u
unchanged u n rm h = (
  n,
  refl,
  h,
  subst (λ (t : ℕ). Rounds (direction (sign_of u) rm) t unity n) (sym h)
      (Rounds-exact (direction (sign_of u) rm) n unity unity-pos),
)

size_pos : (e m : ℕ) → (e == 0 && m == 0) ≡ false → 0 < size_of e m
unfolding size_of
size_pos zero m h = ground (arith, h)
size_pos (suc e) m h =
    let some_bit : 0 < 2 ^ 52 + m = omega arith in
    omega (arith, mul-lt-mul_of_pos_right some_bit (pow-pos 2 e (omega arith)))

size_zero : (e m : ℕ) → (e == 0 && m == 0) ≡ true → size_of e m ≡ 0 * unity
unfolding size_of
size_zero zero m h = ground (arith, h)
size_zero (suc e) m h = absurd (ground (arith, h))

by_fields_lem :
    (u : ℕ) (rm : RintMode)
    → u < 2 ^ 64
    → IsRint u rm (by_fields u (sign_of u) (exp_of u) (mant_of u) rm)
unfolding by_fields
by_fields_lem u rm h = elim (Bool-cases (ltb (exp_of u) 0x3ff)) [
  | inl low ↦ elim (Bool-cases (exp_of u == 0 && mant_of u == 0)) [
    | inl none ↦ rw (low, none) (unchanged u 0 rm (size_zero (exp_of u) (mant_of u) none))
    | inr some_bit ↦
        rw (low, some_bit)
          (below u rm h (ground (arith, low)) (size_pos (exp_of u) (mant_of u) some_bit))
  ]
  | inr high ↦ elim (Bool-cases (ltb (exp_of u - 0x3ff) 52)) [
    | inl mid ↦
        let one : 2 ^ (52 - (exp_of u - 1023)) ≡ 1 <<< (52 - (exp_of u - 1023)) = omega arith in
        rw (high, mid)
          (subst
            (λ (t : ℕ).
              IsRint u rm
                (bit_and (u64 (u + rint_addend (sign_of u) t rm)) (low_mask 64 - (t - 1))))
            one (middle u rm h (ground (arith, high)) (ground (arith, high, mid))))
    | inr top ↦
        rw (high, top)
          (unchanged u ((2 ^ 52 + mant_of u) * 2 ^ (exp_of u - 1075)) rm
            (whole_size (exp_of u) (mant_of u) (ground (arith, high, top))))
  ]
]

-- The result has the sign of the double, and it is an integer: the absolute value of the double rounded
-- in the direction of the mode.
pub rint_sf64_lem : (u : ℕ) (rm : RintMode) → u < 2 ^ 64 → IsRint u rm (rint_sf64 u rm)
rint_sf64_lem u rm h = subst (IsRint u rm) (sym (rint-by_fields u rm)) (by_fields_lem u rm h)
