-- ===== src/Output/Written.antt =====
-- What `output_digits` writes.
use mquickjs_port.Base.{
  ℕ, ◌+◌, ◌-◌, ◌*◌, ◌%◌, ◌^◌, ◌≤◌, ◌<◌, ◌≡◌, refl, ◌∙◌, arith, List, [], ◌∷◌, ◌++◌, length, take,
  drop, ltb, leb, if◌then◌else◌, false, true, Bool, Bool-cases, ◌==◌, ◌&&◌, inl, inr,
}
use mquickjs_port.Base.Check.{all_below, all_below_sound}
use mquickjs_port.Cutils.{clz32}
use mquickjs_port.Digits.Reading.{of_digits}
use mquickjs_port.Limbs.{value}
use mquickjs_port.Mpb.{Mpb}
use mquickjs_port.Mpb.Compact.{IsCompact}
use mquickjs_port.Output.{all_digits, output_digits}
use mquickjs_port.Output.Rounds.{binary_loop_lem, division_loop_lem}
use mquickjs_port.Radix.{is_power_of_two}
use mquickjs_port.Radix.Table.{digits_per_limb, radix_base}

-- What the tables say of a radix, by whether it is a power of two.
shape_right : ℕ → Bool
shape_right r =
    if is_power_of_two r
    then (2 ^ (31 - clz32 r) == r)
      && (leb ((31 - clz32 r) * digits_per_limb r) 32 && leb 1 (digits_per_limb r))
    else (radix_base r == r ^ digits_per_limb r)
      && (ltb (r ^ digits_per_limb r) (2 ^ 32) && leb 1 (digits_per_limb r))

shapes_right : all_below 35 (λ i. shape_right (i + 2)) ≡ true
unfolding all_below shape_right is_power_of_two clz32
shapes_right = refl

shape_lem :
    (r : ℕ)
    → 2 ≤ r
    → r ≤ 36
    → (is_power_of_two r ≡ true
        → (2 ^ (31 - clz32 r) ≡ r)
          × ((31 - clz32 r) * digits_per_limb r ≤ 32)
          × (1 ≤ digits_per_limb r))
      × (is_power_of_two r ≡ false
          → (radix_base r ≡ r ^ digits_per_limb r)
            × (r ^ digits_per_limb r < 2 ^ 32)
            × (1 ≤ digits_per_limb r))
unfolding shape_right
shape_lem r lo hi = (
  λ e.
      yes (is_power_of_two r) (2 ^ (31 - clz32 r)) r ((31 - clz32 r) * digits_per_limb r)
        (digits_per_limb r) (radix_base r) (r ^ digits_per_limb r) e checked,
  λ e.
      no (is_power_of_two r) (2 ^ (31 - clz32 r)) r ((31 - clz32 r) * digits_per_limb r)
        (digits_per_limb r) (radix_base r) (r ^ digits_per_limb r) e checked,
)
  where
    same : r - 2 + 2 ≡ r
    same = omega arith

    checked : shape_right r ≡ true
    checked =
        rw same at
          (all_below_sound 35 (λ i. shape_right (i + 2)) (r - 2) shapes_right (omega arith))

    yes :
        (b : Bool) (p q k d x y : ℕ)
        → b ≡ true
        → (if b then (p == q) && (leb k 32 && leb 1 d) else (x == y) && (ltb y (2 ^ 32) && leb 1 d))
          ≡ true
        → (p ≡ q) × (k ≤ 32) × (1 ≤ d)
    yes b p q k d x y e h = ground arith

    no :
        (b : Bool) (p q k d x y : ℕ)
        → b ≡ false
        → (if b then (p == q) && (leb k 32 && leb 1 d) else (x == y) && (ltb y (2 ^ 32) && leb 1 d))
          ≡ true
        → (x ≡ y) × (y < 2 ^ 32) × (1 ≤ d)
    no b p q k d x y e h = ground arith

all_digits_lem :
    (a : Mpb) (radix n_digits : ℕ)
    → IsCompact a
    → 2 ≤ radix
    → radix ≤ 36
    → (of_digits radix 0 (all_digits a radix n_digits) ≡ value a % radix ^ n_digits)
      × (length (all_digits a radix n_digits) ≡ n_digits)
unfolding all_digits of_digits
all_digits_lem a radix n_digits c lo hi = elim (Bool-cases (is_power_of_two radix)) [
  | inl binary ↦
      let shape = (shape_lem radix lo hi).0 binary in
      let loop =
        binary_loop_lem n_digits a n_digits (digits_per_limb radix) (31 - clz32 radix) radix 0 [] c
          lo hi shape.0 shape.1 shape.2 (omega arith) in
      rw binary (loop.0 ∙ omega arith, loop.1 ∙ omega arith)
  | inr other ↦
      let shape = (shape_lem radix lo hi).1 other in
      let loop =
        division_loop_lem n_digits a n_digits (digits_per_limb radix) radix 0 [] c lo hi shape.0
          shape.1 shape.2 (omega arith) in
      rw other (loop.0 ∙ omega arith, loop.1 ∙ omega arith)
]

-- For a compact number and a radix from 2 to 36 `output_digits` writes `n_digits` characters that
-- stand for the number modulo `radix ^ n_digits`, with a dot behind the first `dot_pos` of them
-- unless `dot_pos` is `n_digits`.
pub output_digits_lem :
    (a : Mpb) (radix n_digits dot_pos : ℕ)
    → IsCompact a
    → 2 ≤ radix
    → radix ≤ 36
    → (s : List ℕ) × (length s ≡ n_digits)
      × (of_digits radix 0 s ≡ value a % radix ^ n_digits)
      × (output_digits a radix n_digits dot_pos
          ≡ (if dot_pos == n_digits then s else take dot_pos s ++ (b'.' ∷ drop dot_pos s)))
unfolding output_digits
output_digits_lem a radix n_digits dot_pos c lo hi =
    let all = all_digits_lem a radix n_digits c lo hi in
    (all_digits a radix n_digits, all.1, all.0, refl)
