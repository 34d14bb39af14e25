-- ===== src/Parse/Exponents.antt =====
-- About the reading of an exponent.
use mquickjs_port.Base.{
  ℕ, suc, ◌+◌, ◌≤◌, ◌<◌, ◌≡◌, refl, arith, length, true, false, Bool-cases, ◌==◌, leb,
  if◌then◌else◌, ◌||◌, inl, inr,
}
use mquickjs_port.Digits.{to_digit}
use mquickjs_port.Parse.{
  Source, at, ReadExponent, bad_exponent, exponent, read_exponent, has_exponent,
}
use mquickjs_port.Parse.Ends.{EndsWithin, inside, inside_digit, exponent_digits_total}

abbrev pub exponent_place : ReadExponent → ℕ
exponent_place (bad_exponent p) = p
exponent_place (exponent ex) = ex.p

pub read_exponent_total :
    (src : Source) (p : ℕ)
    → p < length src.text
    → EndsWithin exponent_place (length src.text) (read_exponent src p)
unfolding read_exponent
read_exponent_total src p h = elim (Bool-cases (leb 10 c)) [
  | inl no_digit ↦ rw no_digit (bad_exponent p1, refl, sign_end)
  | inr digit ↦
      let (r, e, within) =
        exponent_digits_total (suc (length src.text)) src.text src.sep (suc p1) c false
          (inside_digit src.text p1 (ground arith)) (omega arith) in
      rw (digit, e) (_, refl, within)
]
  where
    p1 : ℕ
    p1 = if at src.text (suc p) == b'+' || at src.text (suc p) == b'-' then p + 2 else suc p

    c : ℕ
    c = to_digit (at src.text p1)

    sign_end : p1 ≤ length src.text
    sign_end = elim (Bool-cases (at src.text (suc p) == b'+' || at src.text (suc p) == b'-')) [
      | inl sign ↦ rw sign (omega (arith, inside src.text (suc p) (ground arith)))
      | inr plain ↦ rw plain h
    ]

pub has_exponent-lt :
    (src : Source) (bits p : ℕ) → has_exponent src bits p ≡ true → p < length src.text
unfolding has_exponent
has_exponent-lt src bits p h = inside src.text p (ground arith)
