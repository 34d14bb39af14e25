-- ===== src/Radix/Table.antt =====
-- The tables of limbs in each radix, against the powers that they stand for.
use mquickjs_port.Base.{
  ℕ, suc, ◌+◌, ◌-◌, ◌%◌, ◌^◌, ◌≤◌, ◌<◌, ltb, leb, ◌==◌, ◌&&◌, Bool, true, ◌≡◌, refl, arith, get_or,
}
use mquickjs_port.Base.Check.{all_below, all_below_sound}
use mquickjs_port.Radix.{digits_per_limb_table, radix_base_table}

-- The number of digits that are taken at a time, and the weight of so many digits.
abbrev pub digits_per_limb : ℕ → ℕ
digits_per_limb radix = get_or digits_per_limb_table (radix - 2) 0

abbrev pub radix_base : ℕ → ℕ
radix_base radix = get_or radix_base_table (radix - 2) 0

table_right : ℕ → Bool
table_right radix =
    (radix_base radix == radix ^ digits_per_limb radix % 2 ^ 32)
    && (leb (radix ^ digits_per_limb radix) (2 ^ 32)
        && ltb (2 ^ 32) (radix ^ suc (digits_per_limb radix)))

tables_right : all_below 35 (λ i. table_right (i + 2)) ≡ true
unfolding all_below table_right
tables_right = refl

-- For every radix from 2 to 36 a limb holds as many digits as the one table says and no more, and
-- the other table has the weight of so many digits modulo 2 ^ 32.
pub radix_tables_lem :
    (radix : ℕ)
    → 2 ≤ radix
    → radix ≤ 36
    → (radix_base radix ≡ radix ^ digits_per_limb radix % 2 ^ 32)
      × (radix ^ digits_per_limb radix ≤ 2 ^ 32)
      × (2 ^ 32 < radix ^ suc (digits_per_limb radix))
unfolding table_right
radix_tables_lem radix lo hi = parts _ _ _ _ _ checked
  where
    same : radix - 2 + 2 ≡ radix
    same = omega arith

    checked : table_right radix ≡ true
    checked =
        rw same at
          (all_below_sound 35 (λ i. table_right (i + 2)) (radix - 2) tables_right (omega arith))

    parts :
        (a b c d e : ℕ) → ((a == b) && (leb c d && ltb d e)) ≡ true → (a ≡ b) × (c ≤ d) × (d < e)
    parts a b c d e h = ground arith
