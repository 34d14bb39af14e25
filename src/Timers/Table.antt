-- ===== src/Timers/Table.antt =====
-- The table of timers: what a new timer and a cleared one change.
use mquickjs_port.Base.{
  ℕ, zero, suc, ◌+◌, ◌≤◌, ◌<◌, ◌≡◌, refl, ap, ◌∙◌, arith, if◌then◌else◌, Bool, true, false, List,
  [], ◌∷◌, length, Option, none, some, ◌⊎◌, inl, inr, Bool-cases,
}
use mquickjs_port.Base.Int.{ℤ, pos, ◌+ℤ◌}
use mquickjs_port.Timers.{Timer, insert, too_many_timers, new_timer, js_set_timeout}

module _ {V : Type 0} where
  -- The timer at a place, and the table with another one there.
  abbrev pub place : ℕ → List (Timer V) → Option (Timer V)
  place i [] = none
  place zero (th ∷ timers) = some th
  place (suc i) (th ∷ timers) = place i timers

  abbrev pub put : ℕ → Timer V → List (Timer V) → List (Timer V)
  put i timer [] = []
  put zero timer (th ∷ timers) = timer ∷ timers
  put (suc i) timer (th ∷ timers) = th ∷ put i timer timers

  -- The number of timers that are set.
  abbrev pub active : List (Timer V) → ℕ
  active [] = 0
  active (th ∷ timers) = if th.allocated then suc (active timers) else active timers

  consed : Timer V → Option (ℕ × List (Timer V)) → Option (ℕ × List (Timer V))
  consed th r = elim r [ none ↦ none | some (id, timers) ↦ some (id, th ∷ timers) ]

  taken_place :
      (i : ℕ) (th : Timer V) (r : Option (ℕ × List (Timer V))) (timer : Timer V)
      (timers : List (Timer V))
      → th.allocated ≡ true
      → (if th.allocated then consed th r else some (i, timer ∷ timers)) ≡ consed th r
  taken_place i th r timer timers h =
      ap (λ (t : Bool). if t then consed th r else some (i, timer ∷ timers)) h

  free_place :
      (i : ℕ) (th timer : Timer V) (timers : List (Timer V))
      → th.allocated ≡ false
      → insert i (th ∷ timers) timer ≡ some (i + 0, timer ∷ timers)
  unfolding insert consed
  free_place i th timer timers h =
      let here : i ≡ i + 0 = omega arith in
      ap
        (λ (t : Bool).
          if t then consed th (insert (suc i) timers timer) else some (i, timer ∷ timers))
        h
      ∙ ap (λ (t : ℕ). some (t, timer ∷ timers)) here

  -- A free place takes the timer, and the first free one does.
  abbrev pub Takes : ℕ → List (Timer V) → Timer V → Option (ℕ × List (Timer V)) → Type 0
  Takes i timers timer r =
      ((active timers ≡ length timers) × (r ≡ none))
      ⊎ ((k : ℕ) × (th : Timer V) × (place k timers ≡ some th)
          × (th.allocated ≡ false)
          × (r ≡ some (i + k, put k timer timers))
          × (active timers < length timers))

  active-le : (timers : List (Timer V)) → active timers ≤ length timers
  active-le [] = omega arith
  active-le (th ∷ timers) = ground (arith, active-le timers)

  insert_lem :
      (i : ℕ) (timers : List (Timer V)) (timer : Timer V)
      → Takes i timers timer (insert i timers timer)
  unfolding insert consed
  insert_lem i [] timer = inl (refl, refl)
  insert_lem i (th ∷ timers) timer = elim (Bool-cases th.allocated) [
    | inl taken ↦ elim (insert_lem (suc i) timers timer) [
      | inl (full, e) ↦ inl (rw taken (ap suc full), rw (taken, e) refl)
      | inr (k, th', h, free, e, some_free) ↦
          let next : suc i + k ≡ i + suc k = omega arith in
          inr (
            suc k,
            th',
            h,
            free,
            taken_place i th (insert (suc i) timers timer) timer timers taken
                ∙ ap (consed th) (e ∙ ap (λ (t : ℕ). some (t, put k timer timers)) next),
            rw taken (omega (arith, some_free)),
          )
    ]
    | inr free ↦ inr (
      0,
      th,
      refl,
      free,
      free_place i th timer timers free,
      rw free (omega (arith, active-le timers)),
    )
  ]

  -- For a function `setTimeout` changes nothing and reports too many timers if every place is
  -- taken; otherwise it returns the number of a place that was free and puts there a timer with the
  -- function and the time, and changes no other place.
  pub js_set_timeout_lem :
      (is_function : V → Bool) (now : ℕ) (func : V) (ms : ℤ) (timers : List (Timer V))
      → is_function func ≡ true
      → ((active timers ≡ length timers)
          × (js_set_timeout is_function now func (some ms) timers ≡ (too_many_timers, timers)))
        ⊎ ((id : ℕ) × (th : Timer V) × (place id timers ≡ some th)
            × (th.allocated ≡ false)
            × (active timers < length timers)
            × (js_set_timeout is_function now func (some ms) timers ≡ (
              new_timer id,
              put id (record { allocated = true; func = func; timeout = pos now +ℤ ms }) timers,
            )))
  unfolding js_set_timeout
  js_set_timeout_lem is_function now func ms timers h =
      let timer : Timer V = record { allocated = true; func = func; timeout = pos now +ℤ ms } in
      elim (insert_lem 0 timers timer) [
        | inl (full, e) ↦ inl (full, rw (h, e) refl)
        | inr (id, th, here, free, e, some_free) ↦
            let first : 0 + id ≡ id = omega arith in
            inr (id, th, here, free, some_free, rw (h, e, first) refl)
      ]
