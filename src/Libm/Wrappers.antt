-- ===== src/Libm/Wrappers.antt =====
-- The functions of libm.c through which a compiler without floating point uses the soft floats, and
-- js_sqrt, js_lrint and js_fmod.
use mquickjs_port.Base.{
  ℕ, ◌^◌, ◌<◌, ◌≡◌, refl, ◌∙◌, arith, if◌then◌else◌, ◌||◌, Bool, true, false, Option, inl, inr,
  Bool-cases,
}
use mquickjs_port.Base.Int.{ℤ, pos, negsuc, eq_ℤ, ltb_ℤ, leb_ℤ}
use mquickjs_port.Softfp.Format.{float64, isnan_sf}
use mquickjs_port.Softfp.Round.{rne, rtz}
use mquickjs_port.Softfp.Arith.{add_sf, sub_sf, mul_sf, div_sf, sqrt_sf}
use mquickjs_port.Softfp.Compare.{eq_quiet_sf, le_sf, lt_sf, cmp_sf}
use mquickjs_port.Softfp.Compare.Order.{compare_order, value_sf}
use mquickjs_port.Softfp.Convert.{cvt_i_sf, cvt_u_sf, cvt_sf_i, cvt_sf32_sf, cvt_sf_sf32, fmod_sf}

unfoldable pub adddf3 : ℕ → ℕ → ℕ
adddf3 a b = add_sf float64 a b rne

unfoldable pub subdf3 : ℕ → ℕ → ℕ
subdf3 a b = sub_sf float64 a b rne

unfoldable pub muldf3 : ℕ → ℕ → ℕ
muldf3 a b = mul_sf float64 a b rne

unfoldable pub divdf3 : ℕ → ℕ → ℕ
divdf3 a b = div_sf float64 a b rne

-- The comparisons, whose results are compared with 0.
unfoldable pub eqdf2 : ℕ → ℕ → ℤ
eqdf2 a b = cmp_sf float64 a b

unfoldable pub nedf2 : ℕ → ℕ → ℤ
nedf2 a b = let ret = cmp_sf float64 a b in if eq_ℤ ret (pos 2) then pos 0 else ret

unfoldable pub ledf2 : ℕ → ℕ → ℤ
ledf2 a b = cmp_sf float64 a b

unfoldable pub ltdf2 : ℕ → ℕ → ℤ
ltdf2 a b = cmp_sf float64 a b

unfoldable pub gedf2 : ℕ → ℕ → ℤ
gedf2 a b = let ret = cmp_sf float64 a b in if eq_ℤ ret (pos 2) then negsuc 0 else ret

unfoldable pub gtdf2 : ℕ → ℕ → ℤ
gtdf2 a b = let ret = cmp_sf float64 a b in if eq_ℤ ret (pos 2) then negsuc 0 else ret

unfoldable pub unorddf2 : ℕ → ℕ → Bool
unorddf2 a b = isnan_sf float64 a || isnan_sf float64 b

unfoldable pub floatsidf : ℕ → ℕ
floatsidf a = cvt_i_sf 32 float64 a rne

unfoldable pub floatdidf : ℕ → ℕ
floatdidf a = cvt_i_sf 64 float64 a rne

unfoldable pub floatunsidf : ℕ → ℕ
floatunsidf a = cvt_u_sf 32 float64 a rne

unfoldable pub fixdfsi : ℕ → ℕ
fixdfsi a = cvt_sf_i 32 float64 a rtz

unfoldable pub extendsfdf2 : ℕ → ℕ
extendsfdf2 a = cvt_sf32_sf float64 a

unfoldable pub truncdfsf2 : ℕ → ℕ
truncdfsf2 a = cvt_sf_sf32 float64 a rne

unfoldable pub js_sqrt : ℕ → Option ℕ
js_sqrt a = sqrt_sf float64 a rne

unfoldable pub js_lrint : ℕ → ℕ
js_lrint a = cvt_sf_i 32 float64 a rne

unfoldable pub js_fmod : ℕ → ℕ → ℕ
js_fmod a b = fmod_sf float64 a b

unordered :
    (a b : ℕ)
    → unorddf2 a b ≡ true
    → (cmp_sf float64 a b ≡ pos 2)
      × (eq_quiet_sf float64 a b ≡ false)
      × (le_sf float64 a b ≡ false)
      × (lt_sf float64 a b ≡ false)
unfolding cmp_sf eq_quiet_sf le_sf lt_sf unorddf2
unordered a b h = (rw h refl, rw h refl, rw h refl, rw h refl)

unordered_comm : (a b : ℕ) → unorddf2 a b ≡ unorddf2 b a
unfolding unorddf2
unordered_comm a b = ground arith

-- The three results for two values.
order : ℤ → ℤ → ℤ
order v w = if ltb_ℤ v w then negsuc 0 else if eq_ℤ v w then pos 0 else pos 1

without_nan : ℤ → ℤ → ℤ
without_nan ret other = if eq_ℤ ret (pos 2) then other else ret

order_lem :
    (v w : ℤ)
    → (eq_ℤ (order v w) (pos 0) ≡ eq_ℤ v w)
      × (leb_ℤ (order v w) (pos 0) ≡ leb_ℤ v w)
      × (ltb_ℤ (order v w) (pos 0) ≡ ltb_ℤ v w)
      × (leb_ℤ (pos 0) (without_nan (order v w) (negsuc 0)) ≡ leb_ℤ w v)
      × (ltb_ℤ (pos 0) (without_nan (order v w) (negsuc 0)) ≡ ltb_ℤ w v)
      × (eq_ℤ (without_nan (order v w) (pos 0)) (pos 0) ≡ eq_ℤ v w)
unfolding order without_nan
order_lem v w = (ground arith, ground arith, ground arith, ground arith, ground arith, ground arith)

ordered_parts :
    (a b : ℕ) → unorddf2 a b ≡ false → (isnan_sf float64 a ≡ false) × (isnan_sf float64 b ≡ false)
unfolding unorddf2
ordered_parts a b h = (ground (arith, h), ground (arith, h))

-- For two doubles the comparison of the result of `__eqdf2`, `__ledf2`, `__ltdf2`, `__gedf2` or
-- `__gtdf2` with 0 is the comparison of the two doubles, which is false for NaN; but `__nedf2`
-- returns 0 for equal doubles and for NaN, so that NaN counts as equal to every double.
pub compare_lem :
    (a b : ℕ)
    → a < 2 ^ 64
    → b < 2 ^ 64
    → (eq_ℤ (eqdf2 a b) (pos 0) ≡ eq_quiet_sf float64 a b)
      × (leb_ℤ (ledf2 a b) (pos 0) ≡ le_sf float64 a b)
      × (ltb_ℤ (ltdf2 a b) (pos 0) ≡ lt_sf float64 a b)
      × (leb_ℤ (pos 0) (gedf2 a b) ≡ le_sf float64 b a)
      × (ltb_ℤ (pos 0) (gtdf2 a b) ≡ lt_sf float64 b a)
      × (eq_ℤ (nedf2 a b) (pos 0) ≡ (unorddf2 a b || eq_quiet_sf float64 a b))
unfolding eqdf2 ledf2 ltdf2 gedf2 gtdf2 nedf2 order without_nan
compare_lem a b ha hb = elim (Bool-cases (unorddf2 a b)) [
  | inl nan ↦
      let (c, e, l, t) = unordered a b nan in
      let (_, _, l', t') = unordered b a (unordered_comm b a ∙ nan) in
      (
        rw (c, e) refl,
        rw (c, l) refl,
        rw (c, t) refl,
        rw (c, l') refl,
        rw (c, t') refl,
        rw (c, nan) refl,
      )
  | inr ordered ↦
      let (na, nb) = ordered_parts a b ordered in
      let (e, l, t, c) = compare_order a b ha hb na nb in
      let (_, l', t', _) = compare_order b a hb ha nb na in
      let (e0, l0, t0, g0, h0, n0) = order_lem (value_sf a) (value_sf b) in
      (
        rw (c, e) e0,
        rw (c, l) l0,
        rw (c, t) t0,
        rw (c, l') g0,
        rw (c, t') h0,
        rw (c, ordered, e) n0,
      )
]
