-- ===== src/Mpb/Compact.antt =====
-- Numbers with no zero limb at the top: `mpb_renorm`, `mpb_set_u64` and `mpb_get_u64`.
use mquickjs_port.Base.{
  ℕ, zero, suc, ◌+◌, ◌*◌, ◌/◌, ◌^◌, ◌≤◌, ◌<◌, u32, ◌<<<◌, ◌==◌, ◌≡◌, ◌⊎◌, inl, inr, refl, ap, ◌∙◌,
  arith, List, [], ◌∷◌, ◌++◌, length, Bool-cases, drop, replicate, All-drop, All-append,
  length-drop, length-append, suc-ne-zero,
}
use mquickjs_port.Base.Bits.{bit_or_fields, bit_or_comm}
use mquickjs_port.Limbs.{
  IsLimb, IsLimbs, value, value-append, weight, weight-append, same-weight, weight-pos,
}
use mquickjs_port.Mpb.{
  Mpb, keep_limb, drop_zeros, mpb_renorm, append_carry, mpb_set_u64, mpb_get_u64,
}
use native.Mathlib.Nat.{mod-eq_of_lt, pow-succ'}

-- The top limb is not 0.
abbrev pub HasTop : Mpb → Type 0
HasTop r = weight r ≤ 2 ^ 32 * value r

-- The invariant of `mpb_t`: there is a limb, the limbs are words, and the top one is 0 only where
-- it stands alone.
pub record IsCompact (r : Mpb) : Type 0 where
  pub words : IsLimbs r
  pub some_limb : 1 ≤ length r
  pub top : (length r ≡ 1) ⊎ HasTop r

-- Limbs of which none is left, or the top one is not 0.
abbrev IsTrimmed : List ℕ → Type 0
IsTrimmed r = (r ≡ []) ⊎ ((1 ≤ length r) × HasTop r)

keep_limb_lem :
    (x : ℕ) (xs : List ℕ)
    → IsLimb x
    → IsLimbs xs
    → IsTrimmed xs
    → (value (keep_limb x xs) ≡ x + 2 ^ 32 * value xs)
      × IsLimbs (keep_limb x xs)
      × IsTrimmed (keep_limb x xs)
      × (length (keep_limb x xs) ≤ suc (length xs))
unfolding keep_limb
keep_limb_lem x [] h k t = elim (Bool-cases (x == 0)) [
  | inl none_left ↦ rw none_left (ground arith, tt, inl refl, omega arith)
  | inr kept ↦ rw kept (omega arith, (h, tt), inr (omega arith, ground arith), omega arith)
]
keep_limb_lem x (y ∷ ys) h k (inl e) = absurd (ground arith)
keep_limb_lem x (y ∷ ys) h k (inr t) =
    (refl, (h, k), inr (omega arith, omega (arith, t)), omega arith)

drop_zeros_lem :
    (xs : List ℕ)
    → IsLimbs xs
    → (value (drop_zeros xs) ≡ value xs)
      × IsLimbs (drop_zeros xs)
      × IsTrimmed (drop_zeros xs)
      × (length (drop_zeros xs) ≤ length xs)
unfolding drop_zeros
drop_zeros_lem [] h = (refl, tt, inl refl, omega arith)
drop_zeros_lem (x ∷ xs) h =
    let ih = drop_zeros_lem xs h.1 in
    let now = keep_limb_lem x (drop_zeros xs) h.0 ih.1 ih.2 in
    (omega (arith, now.0, ih.0), now.1, now.2, omega (arith, now.3, ih.3))

-- For at least one limb `mpb_renorm` keeps the number, makes it compact and does not lengthen it.
pub mpb_renorm-IsCompact :
    (r : Mpb)
    → IsLimbs r
    → 1 ≤ length r
    → (value (mpb_renorm r) ≡ value r)
      × IsCompact (mpb_renorm r)
      × (length (mpb_renorm r) ≤ length r)
unfolding mpb_renorm
mpb_renorm-IsCompact [] h k = absurd (omega arith)
mpb_renorm-IsCompact (x ∷ xs) h k =
    let rest = drop_zeros_lem xs h.1 in
    (
      omega (arith, rest.0),
      record { words = (h.0, rest.1); some_limb = omega arith; top = top_of rest.2 },
      omega (arith, rest.3),
    )
  where
    top_of :
        IsTrimmed (drop_zeros xs) → (length (x ∷ drop_zeros xs) ≡ 1) ⊎ HasTop (x ∷ drop_zeros xs)
    top_of (inl e) = inl (rw e)
    top_of (inr t) = inr (omega (arith, t))

-- For a word below 2 ^ 64 `mpb_set_u64` makes a compact number that is the word.
pub mpb_set_u64_lem : (m : ℕ) → m < 2 ^ 64 → (value (mpb_set_u64 m) ≡ m) × IsCompact (mpb_set_u64 m)
unfolding mpb_set_u64
mpb_set_u64_lem m h = elim (Bool-cases (u32 (m / 2 ^ 32) == 0)) [
  | inl one ↦
      rw one (ground arith, record { words = omega arith; some_limb = omega arith; top = inl refl })
  | inr two ↦ rw two (
    omega arith,
    record { words = omega arith; some_limb = omega arith; top = inr (ground arith) },
  )
]

-- For a compact number below 2 ^ 64 `mpb_get_u64` returns the number.
pub mpb_get_u64_lem : (r : Mpb) → IsCompact r → value r < 2 ^ 64 → mpb_get_u64 r ≡ value r
unfolding mpb_get_u64
mpb_get_u64_lem [] c h = absurd (omega (arith, c.some_limb))
mpb_get_u64_lem (x ∷ []) c h = omega arith
mpb_get_u64_lem (x ∷ y ∷ []) c h =
    rw (mod-eq_of_lt wide, bit_or_comm x (y <<< 32), bit_or_fields 32 y x c.words.0) (omega arith)
  where
    wide : y * 2 ^ 32 < 2 ^ 64
    wide = omega (arith, c.words)
mpb_get_u64_lem (x ∷ y ∷ z ∷ r) c h = elim c.top [
  | inl e ↦ absurd (omega arith)
  | inr t ↦ absurd (omega (arith, t, weight-pos r))
]

-- Without its lowest limbs a number still has its top limb.
drop-HasTop : (l : ℕ) (r : Mpb) → IsLimbs r → l < length r → HasTop r → HasTop (drop l r)
drop-HasTop zero r h k t = t
drop-HasTop (suc l) [] h k t = absurd (omega arith)
drop-HasTop (suc l) (x ∷ []) h k t = absurd (omega arith)
drop-HasTop (suc l) (x ∷ y ∷ r) h k t = drop-HasTop l (y ∷ r) h.1 (omega arith) (omega (arith, t))

pub drop-IsCompact : (l : ℕ) (r : Mpb) → IsCompact r → l < length r → IsCompact (drop l r)
drop-IsCompact l r c k = record {
  words = All-drop IsLimb l r c.words;
  some_limb = omega (arith, length-drop l r);
  top = elim c.top [
    | inl e ↦ inl (omega (arith, length-drop l r))
    | inr t ↦ inr (drop-HasTop l r c.words k t)
  ];
}

-- A sum of a number and a small word, with its carry appended.
pub append_carry-IsCompact :
    (r tab : Mpb) (a : ℕ)
    → IsCompact r
    → IsLimbs tab
    → length tab ≡ length r
    → value r ≤ value tab + weight r * a
    → IsLimb a
    → (value (append_carry (tab, a)) ≡ value tab + weight r * a) × IsCompact (append_carry (tab, a))
unfolding append_carry
append_carry-IsCompact r tab zero c h l le k = (
  omega arith,
  record {
    words = h;
    some_limb = omega (arith, c.some_limb);
    top = elim c.top [ inl e ↦ inl (l ∙ e) | inr t ↦ inr (omega (arith, t, same-weight tab r l)) ];
  },
)
append_carry-IsCompact r tab (suc a) c h l le k = rw (suc-ne-zero a) (
  rw (value-append tab (suc a ∷ []), same-weight tab r l) (omega arith),
  record {
    words = All-append IsLimb tab (suc a ∷ []) h (k, tt);
    some_limb = omega (arith, length-append tab (suc a ∷ []));
    top = inr (rw (weight-append tab (suc a ∷ []), value-append tab (suc a ∷ [])) (omega arith));
  },
)

-- A number that is not 0, with zero limbs below.
pub replicate-IsCompact :
    (l : ℕ) (r : Mpb)
    → IsCompact r
    → 0 < value r
    → (value (replicate l 0 ++ r) ≡ value r * (2 ^ 32) ^ l)
      × IsCompact (replicate l 0 ++ r)
      × HasTop (replicate l 0 ++ r)
replicate-IsCompact zero r c p = (omega arith, c, elim c.top [ inl e ↦ alone r e p | inr t ↦ t ])
  where
    alone : (r : Mpb) → length r ≡ 1 → 0 < value r → HasTop r
    alone [] e p = absurd (omega arith)
    alone (x ∷ []) e p = omega arith
    alone (x ∷ y ∷ r) e p = absurd (omega arith)
replicate-IsCompact (suc l) r c p =
    let (v, k, t) = replicate-IsCompact l r c p in
    (
      omega (arith, v, ap (λ (t : ℕ). value r * t) (pow-succ' (2 ^ 32) l)),
      record {
        words = (omega arith, k.words);
        some_limb = omega arith;
        top = inr (omega (arith, t));
      },
      omega (arith, t),
    )
