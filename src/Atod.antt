-- ===== src/Atod.antt =====
-- The accumulation of digits in `js_atod` of dtoa.c.
pub mod Accumulate
use mquickjs_port.Base.{
  ℕ, zero, suc, ◌+◌, ◌*◌, ◌^◌, ◌==◌, ◌&&◌, if◌then◌else◌, List, [], ◌∷◌, ◌++◌, length, get_or,
}
use mquickjs_port.Mp.{mp_mul1}
use mquickjs_port.Mpb.{Mpb, mpb_renorm}

-- `r * radix_base + a`, where a `radix_base` of 0 stands for 2 ^ 32.
pub mpb_mul1_base : Mpb → ℕ → ℕ → Mpb
mpb_mul1_base r radix_base a =
    let (tab, carry) = mp_mul1 r radix_base a in
    if get_or r 0 0 == 0 && length r == 1
    then a ∷ []
    else mpb_renorm (if radix_base == 0 then a ∷ r else tab ++ (carry ∷ []))
