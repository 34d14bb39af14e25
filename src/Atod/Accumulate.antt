-- ===== src/Atod/Accumulate.antt =====
-- `mpb_mul1_base`: one more limb of digits behind a number.
use mquickjs_port.Base.{
  ℕ, zero, suc, ◌+◌, ◌*◌, ◌^◌, ◌<◌, ◌≡◌, refl, ◌∙◌, arith, [], ◌∷◌, ◌++◌, length, get_or, ◌==◌,
  ◌&&◌, if◌then◌else◌, true, Bool-cases, inl, inr, length-append, All-append,
}
use mquickjs_port.Atod.{mpb_mul1_base}
use mquickjs_port.Limbs.{IsLimb, same-weight, value, value-append}
use mquickjs_port.Mp.{mp_mul1}
use mquickjs_port.Mp.Carry.{mp_mul1-value}
use mquickjs_port.Mpb.{Mpb}
use mquickjs_port.Mpb.Compact.{IsCompact, mpb_renorm-IsCompact}

-- For a compact number and limbs `radix_base` and `a`, `mpb_mul1_base` returns a compact number:
-- the number times the base, where 0 stands for 2 ^ 32, plus `a`.
pub mpb_mul1_base_lem :
    (r : Mpb) (radix_base a : ℕ)
    → IsCompact r
    → radix_base < 2 ^ 32
    → a < 2 ^ 32
    → (value (mpb_mul1_base r radix_base a)
        ≡ value r * (if radix_base == 0 then 2 ^ 32 else radix_base) + a)
      × IsCompact (mpb_mul1_base r radix_base a)
unfolding mpb_mul1_base
mpb_mul1_base_lem r radix_base a c hb ha = elim (Bool-cases (get_or r 0 0 == 0 && length r == 1)) [
  | inl empty ↦
      rw empty (first r empty, record { words = (ha, tt); some_limb = omega arith; top = inl refl })
  | inr some_value ↦ elim (Bool-cases (radix_base == 0)) [
    | inl full ↦
        let kept = mpb_renorm-IsCompact (a ∷ r) (ha, c.words) (omega arith) in
        rw (some_value, full) (kept.0 ∙ omega arith, kept.1)
    | inr base ↦
        let product = mp_mul1-value r radix_base a c.words hb ha in
        let longer = (mp_mul1 r radix_base a).0 ++ ((mp_mul1 r radix_base a).1 ∷ []) in
        let kept = mpb_renorm-IsCompact longer (All-append IsLimb _ _ product.1 (product.3, tt)) (
          omega
            (arith, length-append (mp_mul1 r radix_base a).0 ((mp_mul1 r radix_base a).1 ∷ []))) in
        rw (some_value, base)
          (
            kept.0
                ∙ value-append (mp_mul1 r radix_base a).0 _
                ∙ rw (same-weight (mp_mul1 r radix_base a).0 r product.2)
                    (omega (arith, product.0)),
            kept.1,
          )
  ]
]
  where
    first :
        (v : Mpb)
        → (get_or v 0 0 == 0 && length v == 1) ≡ true
        → a + 0 ≡ value v * (if radix_base == 0 then 2 ^ 32 else radix_base) + a
    first [] e = absurd (ground arith)
    first (zero ∷ []) e = ground arith
    first (suc x ∷ []) e = absurd (ground arith)
    first (x ∷ y ∷ v) e = absurd (ground arith)
