-- ===== src/Scale/Down.antt =====
-- `mul_pow` for `f < 0`: the quotient by a power of the odd part of the radix, with a sticky bit.
use mquickjs_port.Base.{
  ℕ, zero, suc, ◌+◌, ◌-◌, ◌*◌, ◌/◌, ◌%◌, ◌^◌, ◌≤◌, ◌<◌, bit_or, ◌==◌, ==_iff, if◌then◌else◌, ◌≡◌,
  refl, ap, sym, ◌∙◌, arith, Bool, false, Bool-cases, ◌⊎◌, inl, inr, ◌&&◌, List, [], ◌∷◌,
}
use Prim.Native.Nat.{min}
use mquickjs_port.Base.Bits.{bit_or-one, bit_or-zero}
use mquickjs_port.Base.Int.{ℤ, pos, negsuc, ◌-ℤ◌}
use mquickjs_port.Base.Pow.{pow-pos, div_unique, mod_unique, mod_mul}
use mquickjs_port.Limbs.{value, limb_bits}
use mquickjs_port.Mp.{mp_div1norm, mp_div1}
use mquickjs_port.Mp.Divide.{mp_div1-value}
use mquickjs_port.Mp.Normalised.{mp_div1norm-mp_div1}
use mquickjs_port.Mpb.{Mpb, mpb_renorm, mpb_shr_round}
use mquickjs_port.Mpb.Bit.{or-eq-zero}
use mquickjs_port.Mpb.Compact.{IsCompact, mpb_renorm-IsCompact}
use mquickjs_port.Mpb.Round.{mpb_shr_round_left}
use mquickjs_port.Radix.{pow_ui_inv}
use mquickjs_port.Radix.Power.{pow_ui_inv_lem}
use mquickjs_port.Radix.Table.{digits_per_limb}
use mquickjs_port.Rounding.{Rounding, rndz}
use mquickjs_port.Scale.{kept_inverse, div_loop, set_sticky, extra_bits, div_pow, mul_pow}
use mquickjs_port.Scale.Sticky.{sticky_div}
use mquickjs_port.Scale.Up.{IsOddRadix, odd_radix_lem, digits_fit, join}
use native.Mathlib.Nat.{
  mul_comm, pow-zero, mul-one, div-div-eq-div-mul, div-one, mod-one, le-div_iff_mul-le, mul-pos,
}

module _ (radix1 d : ℕ) (hr : 3 ≤ radix1) (hr' : radix1 ≤ 35) (hd : 1 ≤ d) (hd' : d ≤ 20)
    (hp : radix1 ^ d < 2 ^ 32) where
  abbrev KeptInverse : ℕ → ℕ × ℕ × ℕ → Type 0
  KeptInverse n0 b = (n0 ≡ 0) ⊎ (b ≡ pow_ui_inv radix1 n0)

  kept_inverse_lem :
      (n n0 : ℕ) (b : ℕ × ℕ × ℕ)
      → 1 ≤ n
      → KeptInverse n0 b
      → kept_inverse radix1 n n0 b ≡ pow_ui_inv radix1 n
  unfolding kept_inverse
  kept_inverse_lem n n0 b lo kept = elim (Bool-cases (n == n0)) [
    | inl same ↦ elim kept [
      | inl e ↦ absurd (ground arith)
      | inr e ↦ rw same (e ∙ ap (λ (t : ℕ). pow_ui_inv radix1 t) (sym ((==_iff n n0).0 same)))
    ]
    | inr other ↦ rw other
  ]

  fit : (n : ℕ) → n ≤ d → radix1 ^ n < 2 ^ 32
  fit = digits_fit radix1 d hr hr' hd hd' hp

  -- One round divides by a power of the radix.
  module _ (a : Mpb) (n : ℕ) (c : IsCompact a) (hn : n ≤ d) where
    abbrev round : List ℕ × ℕ
    round = mp_div1norm a (pow_ui_inv radix1 n).0 0 (pow_ui_inv radix1 n).1 (pow_ui_inv radix1 n).2

    round-mp_div1 : round ≡ mp_div1 a (radix1 ^ n) 0
    round-mp_div1 =
        let w = pow_ui_inv_lem radix1 n (omega arith) (omega arith) (omega arith) (fit n hn) in
        rw w.reciprocal (
          mp_div1norm-mp_div1 a (radix1 ^ n) (pow_ui_inv radix1 n).0 0 (pow_ui_inv radix1 n).2
            w.normal w.scaled (omega (arith, w.within)) (pow-pos radix1 n (omega arith)) c.words)

    round_lem :
        (value (mpb_renorm round.0) ≡ value a / radix1 ^ n)
        × (round.1 ≡ value a % radix1 ^ n)
        × IsCompact (mpb_renorm round.0)
    round_lem =
        let m =
          mp_div1-value a (radix1 ^ n) 0 (pow-pos radix1 n (omega arith)) (omega (arith, fit n hn))
            c.words in
        let now =
          mpb_renorm-IsCompact (mp_div1 a (radix1 ^ n) 0).0 m.2 (omega (arith, m.3, c.some_limb)) in
        let split : value a
            ≡ radix1 ^ n * value (mp_div1 a (radix1 ^ n) 0).0 + (mp_div1 a (radix1 ^ n) 0).1 =
          omega (arith, m.0, mul_comm (radix1 ^ n) (value (mp_div1 a (radix1 ^ n) 0).0)) in
        rw round-mp_div1 (
          now.0 ∙ sym (div_unique (value a) (radix1 ^ n) _ _ split m.1),
          sym (mod_unique (value a) (radix1 ^ n) _ _ split m.1),
          now.1,
        )

  -- `a` is the quotient of `n` by `q`, and `rem` is 0 exactly when the division was exact.
  abbrev Divided : ℕ → ℕ → Mpb → ℕ → Type 0
  Divided n q a rem = (value a ≡ n / q) × ((rem == 0) ≡ (n % q == 0)) × IsCompact a

  Divided-step :
      (v q p : ℕ) (a a' : Mpb) (rem r : ℕ)
      → 0 < q
      → 0 < p
      → Divided v q a rem
      → value a' ≡ value a / p
      → r ≡ value a % p
      → IsCompact a'
      → Divided v (q * p) a' (bit_or rem r)
  Divided-step v q p a a' rem r hq hp' div e f c = (
    e ∙ rw (div.0) (div-div-eq-div-mul v q p),
    or-eq-zero rem r ∙ rw (div.1, f, div.0, mod_mul v q p hq hp') (both (v % q) q (v / q % p) hq),
    c,
  )
    where
      both : (x m y : ℕ) → 0 < m → ((x == 0) && (y == 0)) ≡ ((x + m * y) == 0)
      both x zero y h = elim h [ ]
      both x (suc m) zero h = ground arith
      both x (suc m) (suc y) h = ground arith

  none_left : (f : ℕ) → f ≤ 0 → f ≡ 0
  none_left f h = omega arith

  joined : (q n f : ℕ) → n ≤ f → q * radix1 ^ n * radix1 ^ (f - n) ≡ q * radix1 ^ f
  joined q n f h = join radix1 d hr hr' hd hd' hp q n f h

  div_loop_lem :
      (fuel v q : ℕ) (a : Mpb) (f n0 : ℕ) (b : ℕ × ℕ × ℕ) (rem : ℕ)
      → f ≤ fuel
      → 0 < q
      → Divided v q a rem
      → KeptInverse n0 b
      → Divided v
          (q * radix1 ^ f)
          (div_loop fuel radix1 d a f n0 b rem).0
          (div_loop fuel radix1 d a f n0 b rem).1
  unfolding div_loop
  div_loop_lem zero v q a f n0 b rem h hq div kept = rw (none_left f h, pow-zero, mul-one) div
  div_loop_lem (suc fuel) v q a f n0 b rem h hq div kept = elim (Bool-cases (f == 0)) [
    | inl done ↦ rw (done, (==_iff f 0).0 done, pow-zero, mul-one) div
    | inr more ↦
        let n = min f d in
        let one = round_lem a n div.2 (omega arith) in
        let here =
          Divided-step v q (radix1 ^ n) a (mpb_renorm (round a n div.2 (omega arith)).0) rem
            (round a n div.2 (omega arith)).1 hq (pow-pos radix1 n (omega arith)) div one.0 one.1
            one.2 in
        let rest =
          div_loop_lem fuel v (q * radix1 ^ n) (mpb_renorm (round a n div.2 (omega arith)).0)
            (f - n) n (pow_ui_inv radix1 n) (bit_or rem (round a n div.2 (omega arith)).1)
            (ground arith) (mul-pos hq (pow-pos radix1 n (omega arith))) here (inr refl) in
        rw (more, kept_inverse_lem n n0 b (ground arith) kept)
          (rw (joined q n f (omega arith)) at rest)
  ]

-- The sticky bit of the remainders.
set_sticky_lem :
    (a : Mpb) (rem : ℕ)
    → IsCompact a
    → (value (set_sticky a rem) ≡ (if rem == 0 then value a else value a / 2 * 2 + 1))
      × IsCompact (set_sticky a rem)
unfolding set_sticky
set_sticky_lem [] rem c = absurd (omega (arith, c.some_limb))
set_sticky_lem (x ∷ a) rem c = elim (Bool-cases (rem == 0)) [
  | inl exact ↦
      rw (exact, bit_or-zero x)
        (refl, record { words = c.words; some_limb = c.some_limb; top = c.top })
  | inr rest ↦
      rw (rest, bit_or-one x)
        (
          omega arith,
          record {
            words = (omega (arith, c.words), c.words.1);
            some_limb = c.some_limb;
            top = elim c.top [ inl e ↦ inl e | inr t ↦ inr (omega (arith, t)) ];
          },
        )
]

-- The bits by which `div_pow` scales up before it divides.
abbrev pub up_bits : Mpb → ℕ → ℕ → ℕ → Bool → ℤ → ℕ
up_bits a radix1 radix_shift g is_int e =
    let l = (g + digits_per_limb radix1 - 1) / digits_per_limb radix1 in
    l * limb_bits + extra_bits a is_int e (pos (g * radix_shift + l * limb_bits))

up_bits-pos :
    (a : Mpb) (radix1 radix_shift k : ℕ) (is_int : Bool) (e : ℤ)
    → 1 ≤ digits_per_limb radix1
    → 0 < up_bits a radix1 radix_shift (suc k) is_int e
up_bits-pos a radix1 radix_shift k is_int e h =
    omega (
      arith,
      (le-div_iff_mul-le {x = 1} {y = suc k + digits_per_limb radix1 - 1} h).1 (omega arith),
    )

neg_pos : (s : ℕ) → 0 < s → pos 0 -ℤ pos s ≡ negsuc (s - 1)
unfolding ◌-ℤ◌
neg_pos s h = ground arith

up_lem :
    (a : Mpb) (s : ℕ) (mode : Rounding)
    → IsCompact a
    → 0 < value a
    → 0 < s
    → (value (mpb_shr_round a (pos 0 -ℤ pos s) mode) ≡ value a * 2 ^ s)
      × IsCompact (mpb_shr_round a (pos 0 -ℤ pos s) mode)
up_lem a s mode c p h = rw (neg_pos s h) (
  (mpb_shr_round_left mode a (s - 1) c p).0 ∙ ap (λ (t : ℕ). value a * 2 ^ t) (omega arith),
  (mpb_shr_round_left mode a (s - 1) c p).1,
)

-- For a compact number that is not 0, `f = -(k + 1)` and an odd part from 3 to 35, `mul_pow` scales
-- the number up by `s` bits, divides by the power of the odd part, sets the lowest bit if the
-- division is not exact, keeps the number compact, and returns the offset that counts `s` and the
-- power of two.
pub mul_pow_down :
    (a : Mpb) (radix1 radix_shift k : ℕ) (is_int : Bool) (e : ℤ)
    → IsCompact a
    → 0 < value a
    → IsOddRadix radix1
    → let s = up_bits a radix1 radix_shift (suc k) is_int e in
      (value (mul_pow a radix1 radix_shift (negsuc k) is_int e).0
        ≡ sticky_div (value a * 2 ^ s) (radix1 ^ suc k))
      × IsCompact (mul_pow a radix1 radix_shift (negsuc k) is_int e).0
      × ((mul_pow a radix1 radix_shift (negsuc k) is_int e).1 ≡ pos (suc k * radix_shift + s))
unfolding mul_pow div_pow sticky_div
mul_pow_down a radix1 radix_shift k is_int e c p odd =
    let s = up_bits a radix1 radix_shift (suc k) is_int e in
    let limb = odd_radix_lem radix1 odd in
    let start = up_lem a s rndz c p (up_bits-pos a radix1 radix_shift k is_int e limb.0) in
    let v : ℕ = value (mpb_shr_round a (pos 0 -ℤ pos s) rndz) in
    let done =
      div_loop_lem radix1 (digits_per_limb radix1) odd.0 odd.1 limb.0 limb.1 limb.2 (suc k) v 1
        (mpb_shr_round a (pos 0 -ℤ pos s) rndz) (suc k) 0 (0, 0, 0) 0 (omega arith) (omega arith)
        (sym (div-one v), rw (mod-one v) refl, start.1) (inl refl) in
    let sticky = set_sticky_lem _ _ done.2 in
    rw (not_one radix1 odd.0) (
      sticky.0 ∙ rw (done.1, done.0, one_time (radix1 ^ suc k), start.0) refl,
      sticky.1,
      ap (λ (t : ℕ). pos t) (omega arith),
    )
  where
    not_one : (r : ℕ) → 3 ≤ r → (r == 1) ≡ false
    not_one r h = ground arith

    one_time : (n : ℕ) → 1 * n ≡ n
    one_time n = omega arith
