-- ===== src/Libm/Whole.antt =====
-- The four functions that round a double, against the order of the values.
use mathlib.Core.Path.{subst}
use mquickjs_port.Base.{ℕ, zero, suc, ◌+◌, ◌*◌, ◌^◌, ◌≤◌, ◌<◌, ◌≡◌, sym, arith, if◌then◌else◌, ◌==◌}
use mquickjs_port.Base.Int.{ℤ, pos, ◌+ℤ◌, ◌-ℤ◌, ◌≤ℤ◌, +ℤ_parts, -ℤ_parts}
use mquickjs_port.Libm.{rup, rdn, rtz, rmmup, rint_sf64, js_floor, js_ceil, js_trunc, js_round_inf}
use mquickjs_port.Libm.Value.{sign_of, magnitude, unity, direction, Rounds}
use mquickjs_port.Libm.Rounded.{rint_sf64_lem}

-- The value with its sign, in units of 2^-1074.
abbrev pub signed : ℕ → ℕ → ℤ
signed s x = if s == 0 then pos x else pos 0 -ℤ pos x

abbrev pub value : ℕ → ℤ
value u = signed (sign_of u) (magnitude u)

-- `r` is the largest integer up to `x`; the smallest from `x` on; the nearest, or the upper of two.
abbrev pub IsFloor : ℤ → ℤ → Type 0
IsFloor x r = (r ≤ℤ x) × ((x +ℤ pos 1) ≤ℤ (r +ℤ pos unity))

abbrev pub IsCeil : ℤ → ℤ → Type 0
IsCeil x r = (x ≤ℤ r) × ((r +ℤ pos 1) ≤ℤ (x +ℤ pos unity))

abbrev pub IsNearest : ℤ → ℤ → Type 0
IsNearest x r =
    ((r +ℤ r) ≤ℤ (x +ℤ x +ℤ pos unity))
    × ((x +ℤ x +ℤ pos (suc unity)) ≤ℤ (r +ℤ r +ℤ pos (2 * unity)))

-- An integer.
abbrev pub IsWhole : ℕ → Type 0
IsWhole r = (n : ℕ) × (magnitude r ≡ n * unity)

IsFloor-signed :
    (s x n : ℕ)
    → s ≤ 1
    → Rounds (direction s rdn) x unity n
    → IsFloor (signed s x) (signed s (n * unity))
IsFloor-signed zero x n hs (low, high) = (
  omega (arith, low, high),
  omega (arith, low, high, +ℤ_parts (pos x) (pos 1), +ℤ_parts (pos (n * unity)) (pos unity)),
)
IsFloor-signed (suc zero) x n hs (low, high) = (
  omega (arith, low, high, -ℤ_parts (pos 0) (pos x), -ℤ_parts (pos 0) (pos (n * unity))),
  omega (
    arith,
    low,
    high,
    -ℤ_parts (pos 0) (pos x),
    -ℤ_parts (pos 0) (pos (n * unity)),
    +ℤ_parts (pos 0 -ℤ pos x) (pos 1),
    +ℤ_parts (pos 0 -ℤ pos (n * unity)) (pos unity),
  ),
)
IsFloor-signed (suc (suc s)) x n hs h = absurd (omega (arith, hs))

IsCeil-signed :
    (s x n : ℕ)
    → s ≤ 1
    → Rounds (direction s rup) x unity n
    → IsCeil (signed s x) (signed s (n * unity))
IsCeil-signed zero x n hs (low, high) = (
  omega (arith, low, high),
  omega (arith, low, high, +ℤ_parts (pos (n * unity)) (pos 1), +ℤ_parts (pos x) (pos unity)),
)
IsCeil-signed (suc zero) x n hs (low, high) = (
  omega (arith, low, high, -ℤ_parts (pos 0) (pos x), -ℤ_parts (pos 0) (pos (n * unity))),
  omega (
    arith,
    low,
    high,
    -ℤ_parts (pos 0) (pos x),
    -ℤ_parts (pos 0) (pos (n * unity)),
    +ℤ_parts (pos 0 -ℤ pos (n * unity)) (pos 1),
    +ℤ_parts (pos 0 -ℤ pos x) (pos unity),
  ),
)
IsCeil-signed (suc (suc s)) x n hs h = absurd (omega (arith, hs))

IsNearest-signed :
    (s x n : ℕ)
    → s ≤ 1
    → Rounds (direction s rmmup) x unity n
    → IsNearest (signed s x) (signed s (n * unity))
IsNearest-signed zero x n hs (low, high) = (
  omega (
    arith,
    low,
    high,
    +ℤ_parts (pos (n * unity)) (pos (n * unity)),
    +ℤ_parts (pos x) (pos x),
    +ℤ_parts ((pos x) +ℤ (pos x)) (pos unity),
  ),
  omega (
    arith,
    low,
    high,
    +ℤ_parts (pos x) (pos x),
    +ℤ_parts (pos (n * unity)) (pos (n * unity)),
    +ℤ_parts ((pos x) +ℤ (pos x)) (pos (suc unity)),
    +ℤ_parts ((pos (n * unity)) +ℤ (pos (n * unity))) (pos (2 * unity)),
  ),
)
IsNearest-signed (suc zero) x n hs (low, high) = (
  omega (
    arith,
    low,
    high,
    -ℤ_parts (pos 0) (pos x),
    -ℤ_parts (pos 0) (pos (n * unity)),
    +ℤ_parts (pos 0 -ℤ pos (n * unity)) (pos 0 -ℤ pos (n * unity)),
    +ℤ_parts (pos 0 -ℤ pos x) (pos 0 -ℤ pos x),
    +ℤ_parts ((pos 0 -ℤ pos x) +ℤ (pos 0 -ℤ pos x)) (pos unity),
  ),
  omega (
    arith,
    low,
    high,
    -ℤ_parts (pos 0) (pos x),
    -ℤ_parts (pos 0) (pos (n * unity)),
    +ℤ_parts (pos 0 -ℤ pos x) (pos 0 -ℤ pos x),
    +ℤ_parts (pos 0 -ℤ pos (n * unity)) (pos 0 -ℤ pos (n * unity)),
    +ℤ_parts ((pos 0 -ℤ pos x) +ℤ (pos 0 -ℤ pos x)) (pos (suc unity)),
    +ℤ_parts ((pos 0 -ℤ pos (n * unity)) +ℤ (pos 0 -ℤ pos (n * unity))) (pos (2 * unity)),
  ),
)
IsNearest-signed (suc (suc s)) x n hs h = absurd (omega (arith, hs))

-- The same, for the result of `rint_sf64`.
of_result :
    (P : ℤ → ℤ → Type 0) (u r n : ℕ)
    → P (value u) (signed (sign_of u) (n * unity))
    → sign_of r ≡ sign_of u
    → magnitude r ≡ n * unity
    → P (value u) (value r)
of_result P u r n h sign size =
    subst (λ (t : ℕ). P (value u) (signed t (magnitude r))) (sym sign)
      (subst (λ (t : ℕ). P (value u) (signed (sign_of u) t)) (sym size) h)

-- For every double, given by its bits, `js_floor` returns the largest integer that is not above its
-- value, `js_ceil` the smallest that is not below it, and `js_round_inf` the nearest, or the upper
-- of two that are as near; `js_trunc` keeps the sign and returns the integer part of the absolute
-- value; all four results are integers. Infinities and NaN are read like numbers with the exponent
-- field 2047.
pub js_round_lem :
    (x : ℕ)
    → x < 2 ^ 64
    → IsFloor (value x) (value (js_floor x))
      × IsCeil (value x) (value (js_ceil x))
      × IsNearest (value x) (value (js_round_inf x))
      × (magnitude (js_trunc x) ≤ magnitude x)
      × (magnitude x < magnitude (js_trunc x) + unity)
      × (sign_of (js_trunc x) ≡ sign_of x)
      × IsWhole (js_floor x)
      × IsWhole (js_ceil x)
      × IsWhole (js_round_inf x)
      × IsWhole (js_trunc x)
unfolding js_floor js_ceil js_trunc js_round_inf
js_round_lem x h =
    let s_le : sign_of x ≤ 1 = omega (arith, h) in
    let (n, a, b, c) = rint_sf64_lem x rdn h in
    let (n', a', b', c') = rint_sf64_lem x rup h in
    let (k, d, e, f) = rint_sf64_lem x rmmup h in
    let (k', d', e', f') = rint_sf64_lem x rtz h in
    (
      of_result IsFloor x (rint_sf64 x rdn) n (IsFloor-signed (sign_of x) (magnitude x) n s_le c) a
          b,
      of_result IsCeil x (rint_sf64 x rup) n' (IsCeil-signed (sign_of x) (magnitude x) n' s_le c')
          a' b',
      of_result IsNearest x (rint_sf64 x rmmup) k
          (IsNearest-signed (sign_of x) (magnitude x) k s_le f) d e,
      omega (arith, e', f'.0),
      omega (arith, e', f'.1),
      d',
      (n, b),
      (n', b'),
      (k, e),
      (k', e'),
    )
