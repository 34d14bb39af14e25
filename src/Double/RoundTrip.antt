-- ===== src/Double/RoundTrip.antt =====
-- Packing a normal double and taking it apart.
use mquickjs_port.Base.{
  ℕ, ◌+◌, ◌-◌, ◌*◌, ◌/◌, ◌%◌, ◌^◌, ◌≤◌, ◌<◌, ◌≡◌, refl, ◌∙◌, arith, bit_or, u64, ◌<<<◌, ◌==◌, false,
  ◌⊎◌, inl, inr,
}
use mquickjs_port.Base.Bits.{bit_or_comm, bit_or_fields, bit_and_mask}
use mquickjs_port.Base.Int.{
  ℤ, pos, negsuc, ◌+ℤ◌, ◌-ℤ◌, ltb_ℤ, pos_part, neg_part, +ℤ_parts, -ℤ_parts, eq_of_parts,
}
use mquickjs_port.Double.{finite, magnitude, unpack, pack_magnitude, pack}

-- The exponent with its bias.
biased_lem :
    (e : ℤ)
    → ltb_ℤ e (negsuc 1020) ≡ false
    → ltb_ℤ (pos 1024) e ≡ false
    → (1 ≤ pos_part (e +ℤ pos 1022))
      × (pos_part (e +ℤ pos 1022) ≤ 2046)
      × (pos (pos_part (e +ℤ pos 1022)) -ℤ pos 1022 ≡ e)
      × (ltb_ℤ e (negsuc 1072) ≡ false)
biased_lem e lo hi =
    let parts = +ℤ_parts e (pos 1022) in
    let shape = value_parts (e +ℤ pos 1022) in
    let (least, most, above) = tests e lo hi in
    (
      ground arith,
      ground arith,
      eq_of_parts _ _ (ground (arith, -ℤ_parts (pos (pos_part (e +ℤ pos 1022))) (pos 1022))),
      above,
    )
  where
    value_parts : (x : ℤ) → (pos_part x ≡ 0) ⊎ (neg_part x ≡ 0)
    value_parts (pos n) = inr refl
    value_parts (negsuc n) = inl refl

    tests :
        (x : ℤ)
        → ltb_ℤ x (negsuc 1020) ≡ false
        → ltb_ℤ (pos 1024) x ≡ false
        → (neg_part x ≤ pos_part x + 1021)
          × (pos_part x ≤ 1024 + neg_part x)
          × (ltb_ℤ x (negsuc 1072) ≡ false)
    tests x l h = (ground arith, ground arith, ground arith)

fields :
    (m : ℕ) (e : ℤ)
    → 2 ^ 52 ≤ m
    → m < 2 ^ 53
    → ltb_ℤ e (negsuc 1020) ≡ false
    → ltb_ℤ (pos 1024) e ≡ false
    → pack_magnitude m e ≡ pos_part (e +ℤ pos 1022) * 2 ^ 52 + (m - 2 ^ 52)
unfolding pack_magnitude
fields m e lo hi least most =
    rw
      (
        nonzero,
        most,
        (biased_lem e least most).3,
        least,
        bit_and_mask 52 m,
        bit_or_fields 52 (pos_part (e +ℤ pos 1022)) (m % 2 ^ 52) (omega arith),
      )
      (omega arith)
  where
    nonzero : (m == 0) ≡ false
    nonzero = ground arith

magnitude_lem :
    (k f m : ℕ)
    → 1 ≤ k
    → k ≤ 2046
    → f < 2 ^ 52
    → f + 2 ^ 52 ≡ m
    → magnitude k f ≡ finite m (pos k -ℤ pos 1022)
unfolding magnitude
magnitude_lem k f m lo hi h e = rw (special, subnormal, hidden) refl
  where
    special : (k == 0x7ff) ≡ false
    special = ground arith

    subnormal : (k == 0) ≡ false
    subnormal = ground arith

    hidden : bit_or f (1 <<< 52) ≡ m
    hidden = bit_or_comm f (1 <<< 52) ∙ bit_or_fields 52 1 f h ∙ omega arith

-- For a sign bit, a mantissa from 2 ^ 52 to 2 ^ 53 - 1 and an exponent from -1021 to 1024, the bits
-- that `js_atod` packs are taken apart by `js_dtoa` into that sign, mantissa and exponent.
pub unpack-pack :
    (is_neg m : ℕ) (e : ℤ)
    → is_neg < 2
    → 2 ^ 52 ≤ m
    → m < 2 ^ 53
    → ltb_ℤ e (negsuc 1020) ≡ false
    → ltb_ℤ (pos 1024) e ≡ false
    → unpack (pack is_neg m e) ≡ (is_neg, finite m e)
unfolding unpack pack
unpack-pack is_neg m e sign lo hi least most =
    let k : ℕ = pos_part (e +ℤ pos 1022) in
    let biased = biased_lem e least most in
    let a : ℕ = is_neg * 2 ^ 63 + (k * 2 ^ 52 + (m - 2 ^ 52)) in
    let bits : bit_or (pack_magnitude m e) (u64 (is_neg <<< 63)) ≡ a =
      joined k biased.0 biased.1 (fields m e lo hi least most) in
    let top : a / 2 ^ 63 ≡ is_neg = omega arith in
    let middle : a / 2 ^ 52 % 2 ^ 11 ≡ k = omega arith in
    let low : a % 2 ^ 52 ≡ m - 2 ^ 52 = omega arith in
    rw
      (
        bits,
        bit_and_mask 11 (a / 2 ^ 52),
        bit_and_mask 52 a,
        top,
        middle,
        low,
        magnitude_lem k (m - 2 ^ 52) m biased.0 biased.1 (omega arith) (omega arith),
        biased.2,
      )
      refl
  where
    joined :
        (k : ℕ)
        → 1 ≤ k
        → k ≤ 2046
        → pack_magnitude m e ≡ k * 2 ^ 52 + (m - 2 ^ 52)
        → bit_or (pack_magnitude m e) (u64 (is_neg <<< 63))
          ≡ is_neg * 2 ^ 63 + (k * 2 ^ 52 + (m - 2 ^ 52))
    joined k l h p =
        let whole : u64 (is_neg <<< 63) ≡ is_neg <<< 63 = omega arith in
        rw (p, whole, bit_or_comm (k * 2 ^ 52 + (m - 2 ^ 52)) (is_neg <<< 63))
          (bit_or_fields 63 is_neg (k * 2 ^ 52 + (m - 2 ^ 52)) (omega arith))
