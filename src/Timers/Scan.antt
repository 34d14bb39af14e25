-- ===== src/Timers/Scan.antt =====
-- What one pass over the table of timers finds.
use mquickjs_port.Base.{
  ℕ, suc, ◌+◌, ◌<◌, ◌≡◌, refl, ap, ◌∙◌, arith, if◌then◌else◌, not, Bool, true, false, List, [], ◌∷◌,
  take, All, some, ◌⊎◌, inl, inr, Bool-cases,
}
use mquickjs_port.Base.Int.{ℤ, pos, ◌+ℤ◌, ◌-ℤ◌, ◌≤ℤ◌, leb_ℤ, ltb_ℤ, +ℤ_parts, -ℤ_parts}
use mquickjs_port.Timers.{Timer, Found, expired, waiting, scan}
use mquickjs_port.Timers.Table.{place, active}

min_delay : ℤ → ℤ → ℤ
min_delay delay md = if ltb_ℤ delay md then delay else md

min_delay_le : (delay md : ℤ) → (min_delay delay md ≤ℤ delay) × (min_delay delay md ≤ℤ md)
unfolding min_delay
min_delay_le delay md = (ground arith, ground arith)

min_delay_pos :
    (delay md : ℤ) → pos 1 ≤ℤ md → leb_ℤ delay (pos 0) ≡ false → pos 1 ≤ℤ min_delay delay md
unfolding min_delay
min_delay_pos delay md h h' = ground arith

due_from : (now : ℕ) (t delay md : ℤ) → delay ≤ℤ md → md ≤ℤ (t -ℤ pos now) → (pos now +ℤ delay) ≤ℤ t
due_from now t delay md h h' = omega (arith, h, h', +ℤ_parts (pos now) delay, -ℤ_parts t (pos now))

due_now : (now : ℕ) (t : ℤ) → leb_ℤ (t -ℤ pos now) (pos 0) ≡ true → t ≤ℤ pos now
due_now now t h = ground (arith, -ℤ_parts t (pos now))

due_later : (now : ℕ) (t : ℤ) → leb_ℤ (t -ℤ pos now) (pos 0) ≡ false → pos (suc now) ≤ℤ t
due_later now t h = ground (arith, -ℤ_parts t (pos now))

module _ {V : Type 0} where
  -- A timer that is not set, or is due at `t` at the earliest.
  abbrev pub IsDueFrom : ℤ → Timer V → Type 0
  IsDueFrom t th = (th.allocated ≡ false) ⊎ (t ≤ℤ th.timeout)

  -- A timer that expired, the first in the table; or a delay with which no timer is missed.
  abbrev pub FindsNext : List (Timer V) → ℕ → ℤ → Bool → ℕ → Found V → Type 0
  FindsNext timers now md has i found =
      ((k : ℕ) × (th : Timer V) × (found ≡ expired (i + k) th)
        × (place k timers ≡ some th)
        × (th.allocated ≡ true)
        × (th.timeout ≤ℤ pos now)
        × All (IsDueFrom (pos (suc now))) (take k timers))
      ⊎ ((has' : Bool) × (delay : ℤ) × (found ≡ waiting has' delay)
          × (delay ≤ℤ md)
          × (pos 1 ≤ℤ delay)
          × All (IsDueFrom (pos now +ℤ delay)) timers
          × (((has' ≡ true) × ((has ≡ true) ⊎ (0 < active timers)))
              ⊎ ((has' ≡ has) × (active timers ≡ 0))))

  -- The test of one timer.
  scan_if : Timer V → Bool → Bool → ℕ → Found V → Found V → Found V
  scan_if th set due i free later = if not set then free else if due then expired i th else later

  scan_cons :
      (th : Timer V) (timers : List (Timer V)) (now : ℕ) (md : ℤ) (has : Bool) (i : ℕ)
      (set due : Bool)
      → th.allocated ≡ set
      → leb_ℤ (th.timeout -ℤ pos now) (pos 0) ≡ due
      → scan i (th ∷ timers) now md has
        ≡ scan_if th set due i
            (scan (suc i) timers now md has)
            (scan (suc i) timers now (min_delay (th.timeout -ℤ pos now) md) true)
  unfolding scan scan_if min_delay
  scan_cons th timers now md has i set due h h' =
      let free = scan (suc i) timers now md has in
      let later = scan (suc i) timers now (min_delay (th.timeout -ℤ pos now) md) true in
      ap (λ (t : Bool). scan_if th t (leb_ℤ (th.timeout -ℤ pos now) (pos 0)) i free later) h
      ∙ ap (λ (t : Bool). scan_if th set t i free later) h'

  next_free :
      (th : Timer V) (timers : List (Timer V)) (now : ℕ) (md : ℤ) (has : Bool) (i : ℕ)
      (found : Found V)
      → th.allocated ≡ false
      → FindsNext timers now md has (suc i) found
      → FindsNext (th ∷ timers) now md has i found
  next_free th timers now md has i found h (inl (k, th', e, here, set, due, before)) =
      let next : suc i + k ≡ i + suc k = omega arith in
      inl (suc k, th', e ∙ ap (λ (t : ℕ). expired t th') next, here, set, due, (inl h, before))
  next_free th timers now md has i found h (inr (has', delay, e, le, one, all, some_set)) = inr (
    has',
    delay,
    e,
    le,
    one,
    (inl h, all),
    elim some_set [
      | inl (t, inl t') ↦ inl (t, inl t')
      | inl (t, inr t') ↦ inl (t, inr (rw h t'))
      | inr (t, none_set) ↦ inr (t, rw h none_set)
    ],
  )

  next_set :
      (th : Timer V) (timers : List (Timer V)) (now : ℕ) (md md' : ℤ) (has : Bool) (i : ℕ)
      (found : Found V)
      → th.allocated ≡ true
      → md' ≤ℤ md
      → md' ≤ℤ (th.timeout -ℤ pos now)
      → pos (suc now) ≤ℤ th.timeout
      → FindsNext timers now md' true (suc i) found
      → FindsNext (th ∷ timers) now md has i found
  next_set th timers now md md' has i found set_th le le' future
        (inl (k, th', e, here, set, due, before)) =
      let next : suc i + k ≡ i + suc k = omega arith in
      inl (suc k, th', e ∙ ap (λ (t : ℕ). expired t th') next, here, set, due, (inr future, before))
  next_set th timers now md md' has i found set_th le le' future
        (inr (has', delay, e, le_delay, one, all, some_set)) =
      inr (
        has',
        delay,
        e,
        omega (arith, le, le_delay),
        one,
        (inr (due_from now th.timeout delay md' le_delay le'), all),
        elim some_set [
          | inl (t, _) ↦ inl (t, inr (rw set_th (omega arith)))
          | inr (t, _) ↦ inl (t, inr (rw set_th (omega arith)))
        ],
      )

  pub scan_lem :
      (timers : List (Timer V)) (now : ℕ) (md : ℤ) (has : Bool) (i : ℕ)
      → pos 1 ≤ℤ md
      → FindsNext timers now md has i (scan i timers now md has)
  unfolding scan scan_if
  scan_lem [] now md has i h = inr (has, md, refl, omega arith, h, tt, inr (refl, refl))
  scan_lem (th ∷ timers) now md has i h = elim (Bool-cases th.allocated) [
    | inl set ↦ elim (Bool-cases (leb_ℤ (th.timeout -ℤ pos now) (pos 0))) [
      | inl due ↦
          let here : i ≡ i + 0 = omega arith in
          inl (
            0,
            th,
            scan_cons th timers now md has i true true set due ∙ ap (λ (t : ℕ). expired t th) here,
            refl,
            set,
            due_now now th.timeout due,
            tt,
          )
      | inr due ↦
          let md' = min_delay (th.timeout -ℤ pos now) md in
          let le = min_delay_le (th.timeout -ℤ pos now) md in
          rw (scan_cons th timers now md has i true false set due) (
            next_set th timers now md md' has i (scan (suc i) timers now md' true) set le.1 le.0
              (due_later now th.timeout due)
              (scan_lem timers now md' true (suc i)
                (min_delay_pos (th.timeout -ℤ pos now) md h due)))
    ]
    | inr free ↦
        rw
          (scan_cons th timers now md has i false (leb_ℤ (th.timeout -ℤ pos now) (pos 0)) free refl)
          (next_free th timers now md has i (scan (suc i) timers now md has) free
            (scan_lem timers now md has (suc i) h))
  ]
