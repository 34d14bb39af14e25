-- ===== src/Parse/Start.antt =====
-- About the prefix of a number.
use mquickjs_port.Base.{
  ℕ, suc, ◌+◌, ◌≤◌, ◌<◌, ◌≡◌, refl, arith, List, [], ◌∷◌, length, drop, Bool, true, false,
  Bool-cases, ◌==◌, leb, if◌then◌else◌, ◌&&◌, ◌||◌, not, inl, inr, length-drop,
}
use mquickjs_port.Digits.{to_digit}
use mquickjs_port.Parse.{
  at, Prefix, bad, infinite, start, prefix, digit_after, default_radix, strstart, infinity_text,
  after_octal, has, int_only, accept_bin_oct, accept_legacy_octal,
}
use mquickjs_port.Parse.Ends.{inside}

abbrev pub IsWithin : ℕ → Prefix → Type 0
IsWithin n (bad p) = p ≤ n
IsWithin n (infinite p) = p ≤ n
IsWithin n (start p radix sep) = (p ≤ n) × (radix ≤ 36)

digit_after-IsWithin :
    (s : List ℕ) (p radix sep n : ℕ) → p ≤ n → radix ≤ 36 → IsWithin n (digit_after s p radix sep)
unfolding digit_after
digit_after-IsWithin s p radix sep n h r = elim (Bool-cases (leb radix (to_digit (at s p)))) [
  | inl none_there ↦ rw none_there h
  | inr digit ↦ rw digit (h, r)
]

strstart-length : (str val : List ℕ) → strstart str val ≡ true → length val ≤ length str
unfolding strstart
strstart-length str [] h = omega arith
strstart-length [] (q ∷ val) h = absurd (ground arith)
strstart-length (c ∷ str) (q ∷ val) h = elim (Bool-cases (c == q)) [
  | inl same ↦ omega (arith, strstart-length str val (rw same at h))
  | inr other ↦ absurd (ground arith)
]

plain : (p radix sep n : ℕ) → p ≤ n → radix ≤ 36 → IsWithin n (start p (default_radix radix) sep)
unfolding default_radix
plain p radix sep n h r = ground arith

-- The branches of `prefix` behind a leading 0.
choice :
    (n : ℕ) (test : Bool) (x y : Prefix)
    → (test ≡ true → IsWithin n x)
    → IsWithin n y
    → IsWithin n (if test then x else y)
choice n true x y hx hy = hx refl
choice n false x y hx hy = hy

pub prefix-IsWithin :
    (s : List ℕ) (p radix flags sep : ℕ)
    → p ≤ length s
    → radix ≤ 36
    → IsWithin (length s) (prefix s p radix flags sep)
unfolding prefix
prefix-IsWithin s p radix flags sep h r = elim (Bool-cases (at s p == b'0')) [
  | inl leading ↦ rw leading (
      choice n (marker b'x' b'X' && (radix == 0 || radix == 16)) _ _
        (λ t.
          digit_after-IsWithin s (p + 2) 16 sep n
            (second b'x' b'X' (radix == 0 || radix == 16) (omega arith) (omega arith) t)
            (omega arith))
        (choice n (marker b'o' b'O' && (radix == 0 && has flags accept_bin_oct)) _ _
          (λ t.
            digit_after-IsWithin s (p + 2) 8 sep n
              (second b'o' b'O' (radix == 0 && has flags accept_bin_oct) (omega arith) (omega arith)
                t)
              (omega arith))
          (choice n (marker b'b' b'B' && (radix == 0 && has flags accept_bin_oct)) _ _
            (λ t.
              digit_after-IsWithin s (p + 2) 2 sep n
                (second b'b' b'B' (radix == 0 && has flags accept_bin_oct) (omega arith)
                  (omega arith) t)
                (omega arith))
            (choice n
              (leb b'0' (at s (suc p))
                && leb (at s (suc p)) b'9'
                && (radix == 0 && has flags accept_legacy_octal))
              octal _
              (λ t.
                choice n
                  (after_octal (drop (suc p) s) == b'8' || after_octal (drop (suc p) s) == b'9')
                  (start p (default_radix radix) 256) (digit_after s (suc p) 8 256)
                  (λ u. plain p radix 256 n h r)
                  (digit_after-IsWithin s (suc p) 8 256 n (inside s p (ground arith))
                    (omega arith)))
              (plain p radix sep n h r)))))
  | inr other ↦ rw other (
      choice n (not (has flags int_only) && strstart (drop p s) infinity_text) _ _
        (λ t. long_enough (right _ _ t)) (plain p radix sep n h r))
]
  where
    n : ℕ
    n = length s

    octal : Prefix
    octal =
        if after_octal (drop (suc p) s) == b'8' || after_octal (drop (suc p) s) == b'9'
        then start p (default_radix radix) 256
        else digit_after s (suc p) 8 256

    marker : ℕ → ℕ → Bool
    marker x y = at s (suc p) == x || at s (suc p) == y

    right : (b c : Bool) → (b && c) ≡ true → c ≡ true
    right true c e = e
    right false c e = absurd (ground arith)

    second :
        (x y : ℕ) (more : Bool) → 0 < x → 0 < y → (marker x y && more) ≡ true → p + 2 ≤ length s
    second x y more hx hy t = omega (arith, inside s (suc p) (ground arith))

    long_enough : strstart (drop p s) infinity_text ≡ true → p + 8 ≤ length s
    long_enough t = omega (arith, strstart-length (drop p s) infinity_text t, length-drop p s)
