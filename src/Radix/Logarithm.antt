-- ===== src/Radix/Logarithm.antt =====
-- `mul_log2_radix` against the logarithm.
use mquickjs_port.Base.{
  ℕ, suc, ◌+◌, ◌-◌, ◌^◌, ◌≤◌, ◌<◌, ltb, leb, ◌&&◌, Bool, true, false, ◌≡◌, refl, arith,
}
use mquickjs_port.Base.Int.{ℤ, pos, negsuc}
use mquickjs_port.Base.Check.{all_below, all_below_sound}
use mquickjs_port.Radix.{mul_log2_radix}

-- Whether `radix ^ q <= 2 ^ a < radix ^ (q + 1)`.
is_floor_log : ℤ → ℕ → ℤ → Bool
is_floor_log (pos n) radix (pos q) = leb (radix ^ q) (2 ^ n) && ltb (2 ^ n) (radix ^ suc q)
is_floor_log (negsuc n) radix (negsuc q) =
    leb (2 ^ suc n) (radix ^ suc q) && ltb (radix ^ q) (2 ^ suc n)
is_floor_log a radix q = false

right_at : ℕ → ℕ → Bool
unfolding mul_log2_radix is_floor_log
right_at radix n =
    is_floor_log (pos n) radix (mul_log2_radix (pos n) radix)
    && is_floor_log (negsuc n) radix (mul_log2_radix (negsuc n) radix)

all_right : all_below 35 (λ i. all_below 2048 (right_at (i + 2))) ≡ true
unfolding all_below right_at
all_right = refl

right_at_all : (radix n : ℕ) → 2 ≤ radix → radix ≤ 36 → n < 2048 → right_at radix n ≡ true
right_at_all radix n lo hi h = rw same at (all_below_sound 2048 (right_at (radix - 2 + 2)) n row h)
  where
    row : all_below 2048 (right_at (radix - 2 + 2)) ≡ true
    row =
        all_below_sound 35 (λ i. all_below 2048 (right_at (i + 2))) (radix - 2) all_right
          (omega arith)

    same : radix - 2 + 2 ≡ radix
    same = omega arith

is_floor_log_pos :
    (n radix : ℕ) (r : ℤ)
    → is_floor_log (pos n) radix r ≡ true
    → (q : ℕ) × (r ≡ pos q) × (radix ^ q ≤ 2 ^ n) × (2 ^ n < radix ^ suc q)
unfolding is_floor_log
is_floor_log_pos n radix (pos q) h = (q, refl, ground arith, ground arith)
is_floor_log_pos n radix (negsuc q) h = cc

is_floor_log_neg :
    (n radix : ℕ) (r : ℤ)
    → is_floor_log (negsuc n) radix r ≡ true
    → (q : ℕ) × (r ≡ negsuc q) × (2 ^ suc n ≤ radix ^ suc q) × (radix ^ q < 2 ^ suc n)
unfolding is_floor_log
is_floor_log_neg n radix (pos q) h = cc
is_floor_log_neg n radix (negsuc q) h = (q, refl, ground arith, ground arith)

both_true : (a b : Bool) → (a && b) ≡ true → (a ≡ true) × (b ≡ true)
both_true a b h = ground arith

-- For every radix from 2 to 36 and every `a` from -2048 to 2047 `mul_log2_radix` returns the
-- largest `q` with `radix ^ q <= 2 ^ a`; a negative `a` is written `-(n + 1)`, and its `q` is `-(q
-- + 1)`.
pub mul_log2_radix_lem :
    (radix n : ℕ)
    → 2 ≤ radix
    → radix ≤ 36
    → n < 2048
    → ((q : ℕ) × (mul_log2_radix (pos n) radix ≡ pos q)
        × (radix ^ q ≤ 2 ^ n)
        × (2 ^ n < radix ^ suc q))
      × ((q : ℕ) × (mul_log2_radix (negsuc n) radix ≡ negsuc q)
          × (2 ^ suc n ≤ radix ^ suc q)
          × (radix ^ q < 2 ^ suc n))
unfolding right_at
mul_log2_radix_lem radix n lo hi h =
    let both = both_true _ _ (right_at_all radix n lo hi h) in
    (is_floor_log_pos n radix _ both.0, is_floor_log_neg n radix _ both.1)
