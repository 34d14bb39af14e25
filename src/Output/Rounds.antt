-- ===== src/Output/Rounds.antt =====
-- The two loops of `output_digits`, which write the digits of a number by groups.
use mquickjs_port.Base.{
  ℕ, zero, suc, ◌+◌, ◌-◌, ◌*◌, ◌/◌, ◌%◌, ◌^◌, ◌≤◌, ◌<◌, ◌≡◌, ap, sym, ◌∙◌, arith, List, [], ◌++◌,
  length, get_or, Bool-cases, ◌==◌, ==_iff, inl, inr, length-append,
}
use Prim.Native.Nat.{min}
use mquickjs_port.Base.Int.{pos}
use mquickjs_port.Base.Pow.{pow-pos, pow-mul, div_unique, mod_unique}
use mquickjs_port.Digits.{u64toa_bin_len, limb_to_a}
use mquickjs_port.Digits.Fixed.{limb_to_a_lem, limb_to_a-limb_loop, u64toa_bin_len-limb_loop}
use mquickjs_port.Digits.Reading.{of_digits, of_digits-append, limb_loop_lem}
use mquickjs_port.Limbs.{value}
use mquickjs_port.Mp.{mp_div1}
use mquickjs_port.Mp.Divide.{mp_div1-value}
use mquickjs_port.Mpb.{Mpb, mpb_renorm, mpb_shr_round}
use mquickjs_port.Mpb.Compact.{IsCompact, mpb_renorm-IsCompact}
use mquickjs_port.Mpb.Bit.{get_or-eq-mod}
use mquickjs_port.Mpb.Round.{mpb_shr_round_right}
use mquickjs_port.Output.{binary_loop, division_loop}
use mquickjs_port.Output.Groups.{mod-pow-mod, group_lem}
use mquickjs_port.Radix.Table.{radix_base}
use mquickjs_port.Rounding.{rndz, round_div, round_up}
use native.Mathlib.Nat.{mul_comm, pow-zero, mod-one, mul-one, mul-le-mul_left}

-- Nothing is written when no digits are left.
no_digits :
    (a : Mpb) (n radix acc : ℕ) (tail : List ℕ)
    → n ≡ 0
    → (of_digits radix acc tail ≡ of_digits radix (acc * radix ^ n + value a % radix ^ n) tail)
      × (length tail ≡ n + length tail)
no_digits a n radix acc tail e = rw e (
  ap (λ (t : ℕ). of_digits radix t tail)
      (rw (pow-zero radix, mod-one (value a)) (omega (arith, mul-one acc))),
  omega arith,
)

-- One round of the division loop: what is left of the number, and the characters of the group.
division_step :
    (a : Mpb) (b radix d n acc : ℕ) (tail : List ℕ)
    → IsCompact a
    → 2 ≤ radix
    → radix ≤ 36
    → b ≡ radix ^ d
    → radix ^ d < 2 ^ 32
    → n ≤ d
    → (value (mpb_renorm (mp_div1 a b 0).0) ≡ value a / radix ^ d)
      × IsCompact (mpb_renorm (mp_div1 a b 0).0)
      × (of_digits radix acc (limb_to_a (mp_div1 a b 0).1 radix n ++ tail)
          ≡ of_digits radix (acc * radix ^ n + value a % radix ^ n) tail)
      × (length (limb_to_a (mp_div1 a b 0).1 radix n ++ tail) ≡ n + length tail)
division_step a b radix d n acc tail c lo hi base small le =
    let q = (mp_div1 a b 0).0 in
    let r = (mp_div1 a b 0).1 in
    let div = mp_div1-value a b 0 positive (omega arith) c.words in
    let kept = mpb_renorm-IsCompact q div.2 (omega (arith, div.3, c.some_limb)) in
    let split : value a ≡ radix ^ d * value q + r =
      omega (arith, div.0, mul_comm (radix ^ d) (value q), ap (λ (t : ℕ). value q * t) base) in
    let rest : r < radix ^ d = omega (arith, div.1) in
    let loop = limb_loop_lem radix n r acc [] lo hi in
    let group : r % radix ^ n ≡ value a % radix ^ n =
      ap (λ (t : ℕ). t % radix ^ n) (sym (mod_unique (value a) (radix ^ d) (value q) r split rest))
      ∙ mod-pow-mod (value a) radix n d (omega arith) le in
    (
      kept.0 ∙ sym (div_unique (value a) (radix ^ d) (value q) r split rest),
      kept.1,
      of_digits-append radix acc (limb_to_a r radix n) tail
          ∙ ap (λ (t : ℕ). of_digits radix t tail)
              (rw (limb_to_a-limb_loop r radix n)
                (loop.0 ∙ unfold of_digits in (ap (λ (t : ℕ). acc * radix ^ n + t) group))),
      length-append (limb_to_a r radix n) tail ∙ omega (arith, (limb_to_a_lem r radix n lo hi).1),
    )
  where
    positive : 0 < b
    positive = omega (arith, base, pow-pos radix d (omega arith))

pub division_loop_lem :
    (fuel : ℕ) (a : Mpb) (n_digits d radix acc : ℕ) (tail : List ℕ)
    → IsCompact a
    → 2 ≤ radix
    → radix ≤ 36
    → radix_base radix ≡ radix ^ d
    → radix ^ d < 2 ^ 32
    → 1 ≤ d
    → n_digits ≤ fuel
    → (of_digits radix acc (division_loop fuel a n_digits d radix tail)
        ≡ of_digits radix (acc * radix ^ n_digits + value a % radix ^ n_digits) tail)
      × (length (division_loop fuel a n_digits d radix tail) ≡ n_digits + length tail)
unfolding division_loop
division_loop_lem zero a n_digits d radix acc tail c lo hi base small p le =
    no_digits a n_digits radix acc tail (omega arith)
division_loop_lem (suc fuel) a n_digits d radix acc tail c lo hi base small p le =
    elim (Bool-cases (n_digits == 0)) [
      | inl done ↦ rw done (no_digits a n_digits radix acc tail ((==_iff n_digits 0).0 done))
      | inr more ↦
          let n = min n_digits d in
          let acc' = acc * radix ^ (n_digits - n) + value a / radix ^ d % radix ^ (n_digits - n) in
          let step =
            division_step a (radix_base radix) radix d n acc' tail c lo hi base small
              (omega arith) in
          let rest =
            division_loop_lem fuel (mpb_renorm (mp_div1 a (radix_base radix) 0).0) (n_digits - n) d
              radix acc (limb_to_a (mp_div1 a (radix_base radix) 0).1 radix n ++ tail) step.1 lo hi
              base small p (ground arith) in
          rw more (
            rest.0
                ∙ rw step.0 (
                    step.2
                    ∙ ap (λ (t : ℕ). of_digits radix t tail)
                        (group_lem (value a) radix n_digits d acc (omega arith))),
            omega (arith, rest.1, step.3),
          )
    ]

-- One round of the loop for a radix of `bits` bits.
binary_step :
    (a : Mpb) (bits radix d n acc : ℕ) (tail : List ℕ)
    → IsCompact a
    → 2 ≤ radix
    → radix ≤ 36
    → 2 ^ bits ≡ radix
    → bits * d ≤ 32
    → n ≤ d
    → (value (mpb_shr_round a (pos (d * bits)) rndz) ≡ value a / radix ^ d)
      × IsCompact (mpb_shr_round a (pos (d * bits)) rndz)
      × (of_digits radix acc (u64toa_bin_len n (get_or a 0 0) bits tail)
          ≡ of_digits radix (acc * radix ^ n + value a % radix ^ n) tail)
      × (length (u64toa_bin_len n (get_or a 0 0) bits tail) ≡ n + length tail)
unfolding round_div round_up
binary_step a bits radix d n acc tail c lo hi base small le =
    let shifted = mpb_shr_round_right rndz a (d * bits) c in
    let loop = limb_loop_lem radix n (get_or a 0 0) acc tail lo hi in
    (
      shifted.0 ∙ omega (arith, ap (λ (t : ℕ). value a / t) (power d)),
      shifted.1,
      rw (u64toa_bin_len-limb_loop n (get_or a 0 0) bits tail, base)
          (loop.0 ∙ ap (λ (t : ℕ). of_digits radix (acc * radix ^ n + t) tail) low),
      rw (u64toa_bin_len-limb_loop n (get_or a 0 0) bits tail, base) loop.1,
    )
  where
    power : (k : ℕ) → 2 ^ (k * bits) ≡ radix ^ k
    power k =
        ap (λ (t : ℕ). 2 ^ t) (mul_comm k bits) ∙ pow-mul 2 bits k ∙ ap (λ (t : ℕ). t ^ k) base

    low : get_or a 0 0 % radix ^ n ≡ value a % radix ^ n
    low =
        rw (get_or-eq-mod 0 a c.words, ← power n)
          (mod-pow-mod (value a) 2 (n * bits) 32 (omega arith)
            (omega (arith, small, mul-le-mul_left bits le, mul_comm n bits)))

pub binary_loop_lem :
    (fuel : ℕ) (a : Mpb) (n_digits d bits radix acc : ℕ) (tail : List ℕ)
    → IsCompact a
    → 2 ≤ radix
    → radix ≤ 36
    → 2 ^ bits ≡ radix
    → bits * d ≤ 32
    → 1 ≤ d
    → n_digits ≤ fuel
    → (of_digits radix acc (binary_loop fuel a n_digits d bits tail)
        ≡ of_digits radix (acc * radix ^ n_digits + value a % radix ^ n_digits) tail)
      × (length (binary_loop fuel a n_digits d bits tail) ≡ n_digits + length tail)
unfolding binary_loop
binary_loop_lem zero a n_digits d bits radix acc tail c lo hi base small p le =
    no_digits a n_digits radix acc tail (omega arith)
binary_loop_lem (suc fuel) a n_digits d bits radix acc tail c lo hi base small p le =
    elim (Bool-cases (n_digits - min n_digits d == 0)) [
      | inl done ↦
          let step =
            binary_step a bits radix d (min n_digits d) acc tail c lo hi base small (omega arith) in
          let all : min n_digits d ≡ n_digits = ground arith in
          rw done (
            step.2
                ∙ ap (λ (t : ℕ). of_digits radix (acc * radix ^ t + value a % radix ^ t) tail) all,
            omega (arith, step.3, all),
          )
      | inr more ↦
          let above : ℕ =
            acc * radix ^ (n_digits - min n_digits d)
            + value a / radix ^ d % radix ^ (n_digits - min n_digits d) in
          let step =
            binary_step a bits radix d (min n_digits d) above tail c lo hi base small
              (omega arith) in
          let rest =
            binary_loop_lem fuel (mpb_shr_round a (pos (d * bits)) rndz) (n_digits - min n_digits d)
              d bits radix acc (u64toa_bin_len (min n_digits d) (get_or a 0 0) bits tail) step.1 lo
              hi base small p (ground arith) in
          rw more (
            rest.0
                ∙ rw step.0 (
                    step.2
                    ∙ ap (λ (t : ℕ). of_digits radix t tail)
                        (group_lem (value a) radix n_digits d acc (omega arith))),
            omega (arith, rest.1, step.3),
          )
    ]
