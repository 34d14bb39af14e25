-- ===== src/Output.antt =====
-- `output_digits` of dtoa.c: the digits of a big number in front of and behind a dot.
pub mod Groups
pub mod Rounds
pub mod Written
use mquickjs_port.Base.{
  ℕ, zero, suc, ◌+◌, ◌-◌, ◌*◌, ◌==◌, if◌then◌else◌, List, [], ◌∷◌, ◌++◌, get_or, take, drop,
}
use Prim.Native.Nat.{min}
use mquickjs_port.Base.Int.{ℤ, pos}
use mquickjs_port.Cutils.{clz32}
use mquickjs_port.Digits.{u64toa_bin_len, limb_to_a}
use mquickjs_port.Mp.{mp_div1}
use mquickjs_port.Mpb.{Mpb, mpb_renorm, mpb_shr_round}
use mquickjs_port.Radix.{is_power_of_two}
use mquickjs_port.Radix.Table.{digits_per_limb, radix_base}
use mquickjs_port.Rounding.{rndz}

-- The loop for a radix of `bits` bits, which writes in front of `tail`; each round takes at least
-- one of the `n_digits` digits that are left.
pub binary_loop : ℕ → Mpb → ℕ → ℕ → ℕ → List ℕ → List ℕ
binary_loop zero a n_digits d bits tail = tail
binary_loop (suc fuel) a n_digits d bits tail =
    let n = min n_digits d in
    let tail' = u64toa_bin_len n (get_or a 0 0) bits tail in
    let rest =
      binary_loop fuel (mpb_shr_round a (pos (d * bits)) rndz) (n_digits - n) d bits tail' in
    if n_digits - n == 0 then tail' else rest

-- The loop for the other radixes.
pub division_loop : ℕ → Mpb → ℕ → ℕ → ℕ → List ℕ → List ℕ
division_loop zero a n_digits d radix tail = tail
division_loop (suc fuel) a n_digits d radix tail =
    let n = min n_digits d in
    let quotient = mp_div1 a (radix_base radix) 0 in
    let rest =
      division_loop fuel (mpb_renorm quotient.0) (n_digits - n) d radix
        (limb_to_a quotient.1 radix n ++ tail) in
    if n_digits == 0 then tail else rest

-- The digits before the dot is added.
pub all_digits : Mpb → ℕ → ℕ → List ℕ
unfolding is_power_of_two clz32
all_digits a radix n_digits =
    if is_power_of_two radix
    then binary_loop n_digits a n_digits (digits_per_limb radix) (31 - clz32 radix) []
    else division_loop n_digits a n_digits (digits_per_limb radix) radix []

-- The dot behind `dot_pos` digits, unless it would be the last character.
pub output_digits : Mpb → ℕ → ℕ → ℕ → List ℕ
unfolding all_digits
output_digits a radix n_digits dot_pos =
    let buf = all_digits a radix n_digits in
    if dot_pos == n_digits then buf else take dot_pos buf ++ (b'.' ∷ drop dot_pos buf)
