-- ===== src/Parse/Ends.antt =====
-- About the ends of the loops of `js_atod`.
use mquickjs_port.Base.{
  ℕ, zero, suc, ◌+◌, ◌*◌, ◌≤◌, ◌<◌, ◌≡◌, refl, arith, List, [], ◌∷◌, length, Bool, true, false,
  Bool-cases, Option, some, ◌==◌, ltb, leb, if◌then◌else◌, ◌&&◌, ◌||◌, not, inl, inr,
}
use mquickjs_port.Base.Int.{ℤ, pos, ltb_ℤ}
use mquickjs_port.Digits.{to_digit}
use mquickjs_port.Digits.Reading.{to_digit-pos}
use mquickjs_port.Parse.{
  Source, at, Dot, dot_fail, dot_stop, go_on, dot, Scan, failed, stopped, skip_zeros, skip_sep,
  Digits, Read, unread, read, read_digits, take_digit, exponent_digits, int_only, has,
}

at_end : (s : List ℕ) (p : ℕ) → length s ≤ p → at s p ≡ 0
at_end [] p h = refl
at_end (c ∷ s) zero h = absurd (omega arith)
at_end (c ∷ s) (suc p) h = at_end s p (omega arith)

-- A character that is not the terminating 0 stands in the text.
pub inside : (s : List ℕ) (p : ℕ) → 0 < at s p → p < length s
inside s p h = elim (Bool-cases (ltb p (length s))) [
  | inl lt ↦ ground arith
  | inr ge ↦ absurd (omega (arith, at_end s p (ground arith)))
]

-- Neither is one that reads as a digit.
pub inside_digit : (s : List ℕ) (p : ℕ) → to_digit (at s p) < 36 → p < length s
inside_digit s p h = inside s p (to_digit-pos (at s p) h)

-- What the test for a dot leaves: a place between `p` and the end.
pub data DotCases (src : Source) (p : ℕ) (d : Dot) : Type 0 where
  fails : d ≡ dot_fail → DotCases src p d
  stops : d ≡ dot_stop → DotCases src p d
  goes : (p1 : ℕ) (dot1 : ℤ) → d ≡ go_on p1 dot1 → p ≤ p1 → p1 ≤ length src.text → DotCases src p d

pub dot-cases :
    (src : Source) (p digits : ℕ) (dot_pos : ℤ)
    → p ≤ length src.text
    → DotCases src p (dot src p digits dot_pos)
unfolding dot
dot-cases src p digits dot_pos h =
    elim (Bool-cases (
      at src.text p == b'.'
      && ((ltb src.p_start p || ltb (to_digit (at src.text (suc p))) src.radix)
          && not (has src.flags int_only)))) [
            | inl here ↦ elim (Bool-cases (at src.text p == src.sep)) [
              | inl sep ↦ fails (rw (here, sep))
              | inr free ↦ elim (Bool-cases (not (ltb_ℤ dot_pos (pos 0)))) [
                | inl second ↦ stops (rw (here, free, second))
                | inr first ↦
                    goes (suc p) (pos digits) (rw (here, free, first)) (omega arith)
                      (inside src.text p (ground arith))
              ]
            ]
            | inr not_here ↦ goes p dot_pos (rw not_here) (omega arith) h
          ]

-- A separator that is skipped has a digit behind it.
pub skip_sep_lem :
    (src : Source) (p : ℕ) (digit : Bool)
    → p ≤ length src.text
    → (digit ≡ true → suc p < length src.text)
    → (p ≤ skip_sep src p digit) × (skip_sep src p digit ≤ length src.text)
skip_sep_lem src p digit h inner =
    elim (Bool-cases (at src.text p == src.sep && (ltb src.p_start p && digit))) [
      | inl skip ↦ rw skip (omega arith, omega (arith, inner (ground arith)))
      | inr stay ↦ rw stay (omega arith, h)
    ]

-- A loop ends at a place within the text.
abbrev pub EndsWithin : {A : Type 0} → (A → ℕ) → ℕ → Option A → Type 0
EndsWithin {A} place n out = (r : A) × (out ≡ some r) × (place r ≤ n)

either :
    {A : Type 0} (place : A → ℕ) (n : ℕ) (test : Bool) (again : Option A) (last : A)
    → (test ≡ true → EndsWithin place n again)
    → place last ≤ n
    → EndsWithin place n (if test then again else some last)
either place n true again last more h = more refl
either place n false again last more h = (last, refl, h)

either_last :
    {A : Type 0} (place : A → ℕ) (n : ℕ) (test : Bool) (again : Option A) (last : A)
    → (test ≡ false → EndsWithin place n again)
    → place last ≤ n
    → EndsWithin place n (if test then some last else again)
either_last place n true again last more h = (last, refl, h)
either_last place n false again last more h = more refl

abbrev pub scan_place : Scan → ℕ
scan_place (failed p) = p
scan_place (stopped p digits dot_pos) = p

pub skip_zeros_total :
    (fuel : ℕ) (src : Source) (p digits : ℕ) (dot_pos : ℤ)
    → p ≤ length src.text
    → length src.text < fuel + p
    → EndsWithin scan_place (length src.text) (skip_zeros fuel src p digits dot_pos)
unfolding skip_zeros
skip_zeros_total zero src p digits dot_pos h k = absurd (omega arith)
skip_zeros_total (suc fuel) src p digits dot_pos h k = elim (dot-cases src p digits dot_pos h) [
  | fails e ↦ rw (e, skip_zeros) (failed p, refl, h)
  | stops e ↦ rw (e, skip_zeros) (stopped p digits dot_pos, refl, h)
  | goes p1 dot1 e lo hi ↦
      let p2 : ℕ = skip_sep src p1 (at src.text (suc p1) == b'0') in
      let place =
        skip_sep_lem src p1 (at src.text (suc p1) == b'0') hi
          (λ t. inside src.text (suc p1) (ground arith)) in
      rw (e, skip_zeros)
        (either scan_place (length src.text) (at src.text p2 == b'0')
          (skip_zeros fuel src (suc p2) (suc digits) dot1) (stopped p2 digits dot1)
          (λ t.
            skip_zeros_total fuel src (suc p2) (suc digits) dot1 (inside src.text p2 (ground arith))
              (omega (arith, place.0)))
          place.1)
]

abbrev pub read_place : Read → ℕ
read_place (unread p) = p
read_place (read st) = st.p

take_digit-p : (radix : ℕ) (st : Digits) (c : ℕ) → (take_digit radix st c).p ≡ st.p
unfolding take_digit
take_digit-p radix st c = ground arith

pub read_digits_total :
    (fuel : ℕ) (src : Source) (st : Digits)
    → src.radix ≤ 36
    → st.p ≤ length src.text
    → length src.text < fuel + st.p
    → EndsWithin read_place (length src.text) (read_digits fuel src st)
unfolding read_digits
read_digits_total zero src st r h k = absurd (omega arith)
read_digits_total (suc fuel) src st r h k = elim (dot-cases src st.p st.digits st.dot_pos h) [
  | fails e ↦ rw (e, read_digits) (unread st.p, refl, h)
  | stops e ↦ rw (e, read_digits) (read st, refl, h)
  | goes p1 dot1 e lo hi ↦
      let digit : Bool = ltb (to_digit (at src.text (suc p1))) src.radix in
      let p2 : ℕ = skip_sep src p1 digit in
      let place =
        skip_sep_lem src p1 digit hi (λ t. inside_digit src.text (suc p1) (ground arith)) in
      let c : ℕ = to_digit (at src.text p2) in
      let st' : Digits =
        take_digit src.radix (record st { p = suc p2; digits = suc st.digits; dot_pos = dot1 }) c in
      rw (e, read_digits)
        (either_last read_place (length src.text) (leb src.radix c) (read_digits fuel src st')
          (read (record st { p = p2; dot_pos = dot1 }))
          (λ t.
            read_digits_total fuel src st' r
              (rw
                (take_digit-p src.radix
                  (record st { p = suc p2; digits = suc st.digits; dot_pos = dot1 }) c)
                (inside_digit src.text p2 (ground arith)))
              (rw
                (take_digit-p src.radix
                  (record st { p = suc p2; digits = suc st.digits; dot_pos = dot1 }) c)
                (omega (arith, place.0))))
          place.1)
]

separator :
    (s : List ℕ) (p sep : ℕ)
    → p ≤ length s
    → (p ≤ (if at s p == sep && ltb (to_digit (at s (suc p))) 10 then suc p else p))
      × ((if at s p == sep && ltb (to_digit (at s (suc p))) 10 then suc p else p) ≤ length s)
separator s p sep h = elim (Bool-cases (at s p == sep && ltb (to_digit (at s (suc p))) 10)) [
  | inl skip ↦ rw skip (omega arith, omega (arith, inside_digit s (suc p) (ground arith)))
  | inr stay ↦ rw stay (omega arith, h)
]

pub exponent_digits_total :
    (fuel : ℕ) (s : List ℕ) (sep p expn : ℕ) (overflow : Bool)
    → p ≤ length s
    → length s < fuel + p
    → EndsWithin (λ (r : ℕ × ℕ × Bool). r.0) (length s) (exponent_digits fuel s sep p expn overflow)
unfolding exponent_digits
exponent_digits_total zero s sep p expn overflow h k = absurd (omega arith)
exponent_digits_total (suc fuel) s sep p expn overflow h k =
    let p' : ℕ = if at s p == sep && ltb (to_digit (at s (suc p))) 10 then suc p else p in
    let c : ℕ = to_digit (at s p') in
    let over : Bool = overflow || ltb 214748363 expn in
    let place = separator s p sep h in
    either_last (λ (r : ℕ × ℕ × Bool). r.0) (length s) (leb 10 c)
      (exponent_digits fuel s sep (suc p') (if over then expn else expn * 10 + c) over)
      (p', expn, overflow)
      (λ t.
        exponent_digits_total fuel s sep (suc p') (if over then expn else expn * 10 + c) over
          (inside_digit s p' (ground arith)) (omega (arith, place.0)))
      place.1
