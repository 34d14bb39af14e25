-- ===== src/Timers/Rounds.antt =====
-- About one round of `run_timers`.
use mquickjs_port.Base.{
  ℕ, suc, ◌+◌, ◌≤◌, ◌<◌, ◌≡◌, refl, ap, ◌∙◌, arith, if◌then◌else◌, not, Bool, true, false, List, [],
  ◌∷◌, take, All, some, ◌⊎◌, inl, inr,
}
use mquickjs_port.Base.Int.{ℤ, pos, negsuc, ◌+ℤ◌, ◌≤ℤ◌, ltb_ℤ, +ℤ_parts, pos_part}
use mquickjs_port.Timers.{
  Timer, Found, expired, waiting, scan, Engine, Machine, Round, finished, again, round, fire,
}
use mquickjs_port.Timers.Table.{place, active}
use mquickjs_port.Timers.Scan.{IsDueFrom, scan_lem}

sleep_until :
    (now : ℕ) (delay t : ℤ)
    → pos 1 ≤ℤ delay
    → (pos now +ℤ delay) ≤ℤ t
    → pos (now + pos_part delay) ≤ℤ t
sleep_until now (pos d) t h due = omega (arith, due, +ℤ_parts (pos now) (pos d))
sleep_until now (negsuc d) t h due = omega (arith, h)

module _ {V : Type 0} where
  due_at :
      (now : ℕ) (delay : ℤ) (timers : List (Timer V))
      → pos 1 ≤ℤ delay
      → All (IsDueFrom (pos now +ℤ delay)) timers
      → All (IsDueFrom (pos (now + pos_part delay))) timers
  due_at now delay [] h all = tt
  due_at now delay (th ∷ timers) h (first, all) = (
    elim first [ inl free ↦ inl free | inr due ↦ inr (sleep_until now delay th.timeout h due) ],
    due_at now delay timers h all,
  )

module _ {V W : Type 0} where
  -- A round, from what the pass over the table finds.
  round_of : Engine V W → Machine V W → Found V → Round V W
  round_of engine m found = elim found [
    | expired i th ↦ fire engine i th m
    | waiting has_timer min_delay ↦
        if not has_timer
        then finished
        else again (record m {
          world =
              if ltb_ℤ (pos 0) min_delay
              then engine.nanosleep (pos_part min_delay) m.world
              else m.world;
        })
  ]

  round-round_of :
      (engine : Engine V W) (m : Machine V W)
      → round engine m
        ≡ round_of engine m (scan 0 m.timers (engine.get_time_ms m.world) (pos 1000) false)
  unfolding round round_of
  round-round_of engine m = refl

  sleep_of :
      (engine : Engine V W) (m : Machine V W) (delay : ℤ)
      → pos 1 ≤ℤ delay
      → round_of engine m (waiting true delay)
        ≡ again (record m { world = engine.nanosleep (pos_part delay) m.world })
  unfolding round_of
  sleep_of engine m delay h =
      let late : ltb_ℤ (pos 0) delay ≡ true = ground arith in
      ap
        (λ (t : Bool).
          again
            (record m { world = if t then engine.nanosleep (pos_part delay) m.world else m.world }))
        late

  -- A round of `run_timers` ends the loop only if no timer is set; or it calls the first timer of
  -- the table that is due, which is set, and no timer before it is due; or there is a timer, and it
  -- sleeps for 1 to 1000 ms, but not past the time of any timer that is set.
  pub round_lem :
      (engine : Engine V W) (m : Machine V W)
      → ((round engine m ≡ finished) × (active m.timers ≡ 0))
        ⊎ ((i : ℕ) × (th : Timer V) × (round engine m ≡ fire engine i th m)
            × (place i m.timers ≡ some th)
            × (th.allocated ≡ true)
            × (th.timeout ≤ℤ pos (engine.get_time_ms m.world))
            × All (IsDueFrom (pos (suc (engine.get_time_ms m.world)))) (take i m.timers))
        ⊎ ((delay : ℕ) × (round engine m
              ≡ again (record m { world = engine.nanosleep delay m.world }))
            × (1 ≤ delay)
            × (delay ≤ 1000)
            × (0 < active m.timers)
            × All (IsDueFrom (pos (engine.get_time_ms m.world + delay))) m.timers)
  unfolding round_of
  round_lem engine m =
      elim (scan_lem m.timers (engine.get_time_ms m.world) (pos 1000) false 0 (omega arith)) [
        | inl (k, th, e, here, set, due, before) ↦
            let first : 0 + k ≡ k = omega arith in
            inr (
              inl (
                k,
                th,
                round-round_of engine m
                    ∙ ap (round_of engine m) (e ∙ ap (λ (t : ℕ). expired t th) first),
                here,
                set,
                due,
                before,
              ))
        | inr (has, delay, e, le, one, all, inl (is_set, inl never)) ↦ absurd (ground arith)
        | inr (has, delay, e, le, one, all, inl (is_set, inr some_set)) ↦ inr (
            inr (
              pos_part delay,
              round-round_of engine m
                  ∙ ap (round_of engine m) (e ∙ ap (λ (t : Bool). waiting t delay) is_set)
                  ∙ sleep_of engine m delay one,
              omega (arith, one),
              ground (arith, le, one),
              some_set,
              due_at (engine.get_time_ms m.world) delay m.timers one all,
            ))
        | inr (has, delay, e, le, one, all, inr (none_set, empty)) ↦ inl (
          round-round_of engine m
              ∙ ap (round_of engine m) (e ∙ ap (λ (t : Bool). waiting t delay) none_set),
          empty,
        )
      ]
