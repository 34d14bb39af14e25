-- ===== src/Libm/Small.antt =====
-- Rounding of the doubles below 1.
use native.Mathlib.Nat.{pow-le-pow_right, mul-lt-mul_of_pos_right}
use mquickjs_port.Base.{
  ℕ, zero, suc, ◌*◌, ◌^◌, ◌≤◌, ◌<◌, ◌≡◌, refl, ap, sym, arith, if◌then◌else◌, ◌==◌, not, ◌&&◌, ◌||◌,
  Bool, true, false, ◌<<<◌, ◌⊎◌, inl, inr,
}
use mquickjs_port.Base.Pow.{pow-pos}
use mquickjs_port.Libm.{RintMode, rup, rdn, rtz, rmm, rmmup, small}
use mquickjs_port.Libm.Value.{
  size_of, unity, unity_split, unity-pos, Direction, away, toward, ties_away, ties_toward,
  direction, Rounds,
}

split_lt : (a b : ℕ) → a ≤ b → (a < b) ⊎ (a ≡ b)
split_lt a b h = ground (arith, h)

zero_or_pos : (n : ℕ) → (n ≡ 0) ⊎ (0 < n)
zero_or_pos zero = inl refl
zero_or_pos (suc n) = inr (omega arith)

-- A value below 1: one half, more, or less.
below_one :
    (e m : ℕ)
    → e < 1023
    → m < 2 ^ 52
    → ((e ≡ 1022) × (m ≡ 0) × (2 * size_of e m ≡ unity))
      ⊎ ((e ≡ 1022) × (0 < m) × (unity < 2 * size_of e m) × (size_of e m < unity))
      ⊎ ((e < 1022) × (2 * size_of e m < unity))
unfolding size_of
below_one zero m he hm =
    let fit : 2 ^ 54 * 2 ^ 1020 ≡ unity = unity_split 54 1020 refl in
    inr (inr (omega arith, omega (arith, hm, fit, pow-pos 2 1020 (omega arith))))
below_one (suc e) m he hm = elim (split_lt e 1021 (omega (arith, he))) [
  | inl less ↦
      let fit : 2 ^ 54 * 2 ^ 1020 ≡ unity = unity_split 54 1020 refl in
      let e_le : e ≤ 1020 = omega (arith, less) in
      let le : 2 ^ e ≤ 2 ^ 1020 = pow-le-pow_right (omega arith) e_le in
      let little = mul-lt-mul_of_pos_right hm (pow-pos 2 e (omega arith)) in
      inr (inr (omega (arith, less), omega (arith, fit, le, little)))
  | inr same ↦
      let half : unity ≡ 2 ^ 53 * 2 ^ e = sym (unity_split 53 e (omega (arith, same))) in
      elim (zero_or_pos m) [
        | inl none ↦
            inl (omega (arith, same), none, omega (arith, half, ap (λ (t : ℕ). t * 2 ^ e) none))
        | inr some_bit ↦
            let much = mul-lt-mul_of_pos_right some_bit (pow-pos 2 e (omega arith)) in
            let little = mul-lt-mul_of_pos_right hm (pow-pos 2 e (omega arith)) in
            inr (
              inl (
                omega (arith, same),
                some_bit,
                omega (arith, half, much),
                omega (arith, half, little),
              ))
      ]
]

-- The test of the two modes that round to the nearest.
abbrev ties : ℕ → ℕ → Bool → Bool
ties e m out = e == 0x3fe && (not (m == 0) || (m == 0 && out))

ties_out :
    (e m : ℕ)
    → e < 1023
    → m < 2 ^ 52
    → ((ties e m true ≡ true) × (unity ≤ 2 * size_of e m))
      ⊎ ((ties e m true ≡ false) × (2 * size_of e m < unity))
ties_out e m he hm = elim (below_one e m he hm) [
  | inl (half, none, tie) ↦ inl (ground (arith, half, none), omega (arith, tie))
  | inr (inl (half, some_bit, more, _)) ↦ inl (ground (arith, half, some_bit), omega (arith, more))
  | inr (inr (tiny, less)) ↦ inr (ground (arith, tiny), less)
]

ties_in :
    (e m : ℕ)
    → e < 1023
    → m < 2 ^ 52
    → ((ties e m false ≡ true) × (unity < 2 * size_of e m))
      ⊎ ((ties e m false ≡ false) × (2 * size_of e m ≤ unity))
ties_in e m he hm = elim (below_one e m he hm) [
  | inl (half, none, tie) ↦ inr (ground (arith, half, none), omega (arith, tie))
  | inr (inl (half, some_bit, more, _)) ↦ inl (ground (arith, half, some_bit), more)
  | inr (inr (tiny, less)) ↦ inr (ground (arith, tiny), omega (arith, less))
]

-- The choice between 0 and 1.
abbrev Chooses : ℕ → Direction → ℕ → Type 0
Chooses r d x = ((r ≡ 0) × Rounds d x unity 0) ⊎ ((r ≡ 0x3ff <<< 52) × Rounds d x unity 1)

below_unity : (e m : ℕ) → e < 1023 → m < 2 ^ 52 → size_of e m < unity
below_unity e m he hm = elim (below_one e m he hm) [
  | inl (_, _, tie) ↦ omega (arith, tie, unity-pos)
  | inr (inl (_, _, _, less)) ↦ less
  | inr (inr (_, less)) ↦ omega (arith, less)
]

choose_away :
    (x : ℕ) (b : Bool)
    → 0 < x
    → x < unity
    → Chooses (if b then 0x3ff <<< 52 else 0) (if b then away else toward) x
choose_away x true h h' = inr (refl, omega (arith, h, h'))
choose_away x false h h' = inl (refl, omega (arith, h, h'))

bits_if : Bool → ℕ
bits_if b = if b then 0x3ff <<< 52 else 0

choose_out :
    (e m : ℕ) → e < 1023 → m < 2 ^ 52 → Chooses (bits_if (ties e m true)) ties_away (size_of e m)
unfolding bits_if
choose_out e m he hm =
    let below = below_unity e m he hm in
    elim (ties_out e m he hm) [
      | inl (test, more) ↦ inr (ap bits_if test, omega (arith, more, below))
      | inr (test, less) ↦ inl (ap bits_if test, omega (arith, less))
    ]

choose_in :
    (e m : ℕ) → e < 1023 → m < 2 ^ 52 → Chooses (bits_if (ties e m false)) ties_toward (size_of e m)
unfolding bits_if
choose_in e m he hm =
    let below = below_unity e m he hm in
    elim (ties_in e m he hm) [
      | inl (test, more) ↦ inr (ap bits_if test, omega (arith, more, below))
      | inr (test, less) ↦ inl (ap bits_if test, omega (arith, less, unity-pos))
    ]

pub small_lem :
    (s e m : ℕ) (rm : RintMode)
    → s ≤ 1
    → e < 1023
    → m < 2 ^ 52
    → 0 < size_of e m
    → ((small s e m rm ≡ 0) × Rounds (direction s rm) (size_of e m) unity 0)
      ⊎ ((small s e m rm ≡ 0x3ff <<< 52) × Rounds (direction s rm) (size_of e m) unity 1)
unfolding small bits_if
small_lem zero e m rup hs he hm h = choose_away (size_of e m) true h (below_unity e m he hm)
small_lem zero e m rdn hs he hm h = choose_away (size_of e m) false h (below_unity e m he hm)
small_lem zero e m rtz hs he hm h = choose_away (size_of e m) false h (below_unity e m he hm)
small_lem zero e m rmm hs he hm h = choose_out e m he hm
small_lem zero e m rmmup hs he hm h = choose_out e m he hm
small_lem (suc zero) e m rup hs he hm h = choose_away (size_of e m) false h (below_unity e m he hm)
small_lem (suc zero) e m rdn hs he hm h = choose_away (size_of e m) true h (below_unity e m he hm)
small_lem (suc zero) e m rtz hs he hm h = choose_away (size_of e m) false h (below_unity e m he hm)
small_lem (suc zero) e m rmm hs he hm h = choose_out e m he hm
small_lem (suc zero) e m rmmup hs he hm h = choose_in e m he hm
small_lem (suc (suc s)) e m rm hs he hm h = absurd (omega (arith, hs))
