-- ===== src/Rounding.antt =====
-- The rounding modes of dtoa.c, and the rounded quotient that each of them asks for.
use mquickjs_port.Base.{ℕ, ◌+◌, ◌*◌, ◌/◌, ◌%◌, ltb, leb, ◌==◌, if◌then◌else◌}

-- `JS_RNDN`, `JS_RNDNA` and `JS_RNDZ`.
pub data Rounding : Type 0 where
  rndn rndna rndz : Rounding

-- Whether a quotient `q` with the remainder `r` by `d` is rounded up: to the nearest with ties to
-- even, to the nearest with ties away from zero, or towards zero.
unfoldable pub round_up : Rounding → ℕ → ℕ → ℕ → ℕ
round_up rndn q r d = if ltb d (2 * r) then 1 else if d == 2 * r then q % 2 else 0
round_up rndna q r d = if leb d (2 * r) then 1 else 0
round_up rndz q r d = 0

-- The number `n / d`, rounded to an integer.
unfoldable pub round_div : Rounding → ℕ → ℕ → ℕ
round_div mode n d = n / d + round_up mode (n / d) (n % d) d
