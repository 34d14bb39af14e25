-- ===== src/JsAtod/Total.antt =====
-- About the end of `js_atod`.
use mquickjs_port.Base.{
  ◌⊎◌, ℕ, suc, ◌≤◌, ◌≡◌, refl, arith, List, length, Bool-cases, some, ◌==◌, if◌then◌else◌, ◌||◌,
  inl, inr,
}
use mquickjs_port.Base.Int.{negsuc}
use mquickjs_port.JsAtod.{
  Outcome, nan, double, js_atod, digits_from, significant, start_state, finish, no_exponent,
  with_sign, convert, radix_bits, infinity_bits,
}
use mquickjs_port.Parse.{
  Source, at, Scan, failed, stopped, Digits, Read, unread, read, ReadExponent, bad_exponent,
  exponent, has_exponent, Prefix, bad, infinite, start, prefix, has, accept_underscores,
}
use mquickjs_port.Parse.Ends.{
  EndsWithin, scan_place, read_place, inside, skip_zeros_total, read_digits_total,
}
use mquickjs_port.Parse.Exponents.{exponent_place, read_exponent_total, has_exponent-lt}
use mquickjs_port.Parse.Start.{IsWithin, prefix-IsWithin}

abbrev pub place : Outcome → ℕ
place (nan p) = p
place (double bits p) = p

finish_total :
    (src : Source) (is_neg sig_pos : ℕ) (st : Digits)
    → st.p ≤ length src.text
    → EndsWithin place (length src.text) (finish src is_neg sig_pos st)
unfolding finish no_exponent
finish_total src is_neg sig_pos st h =
    elim (Bool-cases (has_exponent src (radix_bits src.radix) st.p)) [
      | inl more ↦
          let (r, e, within) =
            read_exponent_total src st.p (has_exponent-lt src (radix_bits src.radix) st.p more) in
          rw (more, e) (after r within)
      | inr no_more ↦ elim (Bool-cases (st.p == src.p_start)) [
        | inl empty ↦ rw (no_more, empty) (_, refl, h)
        | inr some_digits ↦ rw (no_more, some_digits) (_, refl, h)
      ]
    ]
  where
    after :
        (r : ReadExponent)
        → exponent_place r ≤ length src.text
        → EndsWithin place (length src.text) (elim r [
          | bad_exponent p ↦ some (nan p)
          | exponent ex ↦ some (double (with_sign is_neg (convert src.radix st sig_pos ex)) ex.p)
        ])
    after (bad_exponent p) within = (_, refl, within)
    after (exponent ex) within = (_, refl, within)

significant_total :
    (src : Source) (is_neg : ℕ) (r : Scan)
    → src.radix ≤ 36
    → scan_place r ≤ length src.text
    → EndsWithin place (length src.text) (significant src is_neg r)
unfolding significant start_state
significant_total src is_neg (failed p) h within = (_, refl, within)
significant_total src is_neg (stopped p digits dot_pos) h within =
    let (r, e, last) =
      read_digits_total (suc (length src.text)) src (start_state p digits dot_pos) h within
        (omega arith) in
    rw (e, significant) (reads r last)
  where
    reads :
        (r : Read)
        → read_place r ≤ length src.text
        → EndsWithin place
            (length src.text)
            (elim r [ unread p2 ↦ some (nan p2) | read st ↦ finish src is_neg digits st ])
    reads (unread p2) last = (_, refl, last)
    reads (read st) last = finish_total src is_neg digits st last

digits_from_total :
    (src : Source) (is_neg p : ℕ)
    → src.radix ≤ 36
    → p ≤ length src.text
    → EndsWithin place (length src.text) (digits_from src is_neg p)
unfolding digits_from
digits_from_total src is_neg p h k =
    let (r, e, within) =
      skip_zeros_total (suc (length src.text)) src p 0 (negsuc 0) k (omega arith) in
    rw e (significant_total src is_neg r h within)

-- For every text, every set of flags and a radix from 2 to 36, or 0, `js_atod` returns a number or
-- NaN, and the place where it stops is not behind the end of the text.
pub js_atod_total :
    (s : List ℕ) (radix flags : ℕ)
    → (radix ≡ 0) ⊎ (2 ≤ radix)
    → radix ≤ 36
    → (r : Outcome) × (js_atod s radix flags ≡ some r) × (place r ≤ length s)
unfolding js_atod
js_atod_total s radix flags _ h =
    from_prefix (prefix s p_start radix flags sep)
      (prefix-IsWithin s p_start radix flags sep sign_end h)
  where
    is_neg : ℕ
    is_neg = if at s 0 == b'-' then 1 else 0

    p_start : ℕ
    p_start = if at s 0 == b'+' || at s 0 == b'-' then 1 else 0

    sign_end : p_start ≤ length s
    sign_end = elim (Bool-cases (at s 0 == b'+' || at s 0 == b'-')) [
      | inl sign ↦ rw sign (inside s 0 (ground arith))
      | inr no_sign ↦ rw no_sign (omega arith)
    ]

    sep : ℕ
    sep = if has flags accept_underscores then b'_' else 256

    from_prefix :
        (r : Prefix)
        → IsWithin (length s) r
        → EndsWithin place (length s) (elim r [
          | bad p ↦ some (nan p)
          | infinite p ↦ some (double (with_sign is_neg infinity_bits) p)
          | start p radix' sep' ↦
              digits_from
                (record { text = s; p_start = p_start; radix = radix'; sep = sep'; flags = flags })
                is_neg
                p
        ])
    from_prefix (bad p) within = (_, refl, within)
    from_prefix (infinite p) within = (_, refl, within)
    from_prefix (start p radix' sep') within = digits_from_total _ is_neg p within.1 within.0
