-- ===== src/Timers/Ends.antt =====
-- About the end of `run_timers`.
use mquickjs_port.Base.{
  ℕ, zero, suc, ◌+◌, ◌-◌, ◌≤◌, ◌<◌, ◌≡◌, refl, ap, ◌∙◌, arith, if◌then◌else◌, Bool, true, false,
  List, [], ◌∷◌, All, Option, none, some, ◌⊎◌, inl, inr, Bool-cases,
}
use mquickjs_port.Base.Int.{pos, ◌≤ℤ◌}
use mquickjs_port.Timers.{
  Timer, release, exits, run_timers, Engine, Machine, Round, finished, again, round, fire,
}
use mquickjs_port.Timers.Table.{place, active}
use mquickjs_port.Timers.Scan.{IsDueFrom}
use mquickjs_port.Timers.Rounds.{round_lem}

module _ {V : Type 0} where
  -- A timer that is not set, or is due at `t` at the latest.
  abbrev pub IsDueBy : ℕ → Timer V → Type 0
  IsDueBy t th = (th.allocated ≡ false) ⊎ (th.timeout ≤ℤ pos t)

  fewer :
      (th : Timer V) (n : ℕ)
      → th.allocated ≡ false
      → 0 < (if th.allocated then suc n else n)
      → 0 < n
  fewer th n free h = ground arith

  is_set : Option (Timer V) → Bool
  is_set none = false
  is_set (some th) = th.allocated

  -- A timer is left, so the clock has not come to the horizon.
  before_horizon :
      (t horizon : ℕ) (timers : List (Timer V))
      → 0 < active timers
      → All (IsDueFrom (pos t)) timers
      → All (IsDueBy horizon) timers
      → t ≤ horizon
  before_horizon t horizon [] some_set from by = ground arith
  before_horizon t horizon (th ∷ timers) some_set (from, froms) (by, bys) =
      elim (Bool-cases th.allocated) [
        | inl set ↦ elim from [
          | inl free ↦ absurd (ground arith)
          | inr le ↦ elim by [ inl free ↦ absurd (ground arith) | inr le' ↦ omega (arith, le, le') ]
        ]
        | inr free ↦
            before_horizon t horizon timers (fewer th (active timers) free some_set) froms bys
      ]

  release-active :
      (i : ℕ) (th : Timer V) (timers : List (Timer V))
      → place i timers ≡ some th
      → th.allocated ≡ true
      → suc (active (release i timers)) ≡ active timers
  unfolding release is_set
  release-active i th [] h set = ground arith
  release-active zero th (th' ∷ timers) h set =
      let set' : th'.allocated ≡ true = ap is_set h ∙ set in rw set' refl
  release-active (suc i) th (th' ∷ timers) h set = elim (Bool-cases th'.allocated) [
    | inl set' ↦ rw set' (ap suc (release-active i th timers h set))
    | inr free ↦ rw free (release-active i th timers h set)
  ]

  release-IsDueBy :
      (t i : ℕ) (timers : List (Timer V))
      → All (IsDueBy t) timers
      → All (IsDueBy t) (release i timers)
  unfolding release
  release-IsDueBy t i [] h = h
  release-IsDueBy t zero (th ∷ timers) (h, hs) = (inl refl, hs)
  release-IsDueBy t (suc i) (th ∷ timers) (h, hs) = (h, release-IsDueBy t i timers hs)

-- An engine whose timer functions end without an exception and set no more timers than they clear,
-- none due behind the horizon; its clock does not go back, and a sleep is not cut short.
pub record IsQuiet {V W : Type 0} (engine : Engine V W) (horizon : ℕ) : Type 0 where
  pub room : (w : W) → engine.stack_check w ≡ false
  pub calls : (f : V) (w : W) (ts : List (Timer V)) → (engine.call f w ts).0 ≡ false
  pub clock :
      (f : V) (w : W) (ts : List (Timer V))
      → engine.get_time_ms w ≤ engine.get_time_ms (engine.call f w ts).1
  pub sets : (f : V) (w : W) (ts : List (Timer V)) → active (engine.call f w ts).2 ≤ active ts
  pub due :
      (f : V) (w : W) (ts : List (Timer V))
      → All (IsDueBy horizon) ts
      → All (IsDueBy horizon) (engine.call f w ts).2
  pub sleeps :
      (ms : ℕ) (w : W) → engine.get_time_ms w + ms ≤ engine.get_time_ms (engine.nanosleep ms w)

module _ {V W : Type 0} where
  fire_quiet :
      (engine : Engine V W) (horizon : ℕ) (q : IsQuiet engine horizon) (i : ℕ) (th : Timer V)
      (m : Machine V W)
      → fire engine i th m
        ≡ again (record {
          world = (engine.call th.func m.world (release i m.timers)).1;
          timers = (engine.call th.func m.world (release i m.timers)).2;
        })
  unfolding fire
  fire_quiet engine horizon q i th m =
      let next : Machine V W = record {
        world = (engine.call th.func m.world (release i m.timers)).1;
        timers = (engine.call th.func m.world (release i m.timers)).2;
      } in
      ap
        (λ (t : Bool).
          if t
          then exits
          else if (engine.call th.func m.world (release i m.timers)).0
          then exits
          else again next)
        (q.room m.world)
      ∙ ap (λ (t : Bool). if t then exits else again next)
          (q.calls th.func m.world (release i m.timers))

  -- A round of `run_timers`, when its outcome is known.
  run_of : Engine V W → ℕ → Machine V W → Round V W → Option (Bool × Machine V W)
  run_of engine fuel m r = elim r [
    | finished ↦ some (true, m)
    | exits ↦ some (false, m)
    | again m' ↦ run_timers engine fuel m'
  ]

  run_step :
      (engine : Engine V W) (fuel : ℕ) (m : Machine V W) (r : Round V W)
      → round engine m ≡ r
      → run_timers engine (suc fuel) m ≡ run_of engine fuel m r
  unfolding run_timers run_of
  run_step engine fuel m r h = ap (run_of engine fuel m) h

  -- For an engine whose timer functions throw no exception, set no more timers than they clear and
  -- none that is due behind the horizon, whose clock does not go back, and whose sleeps are not cut
  -- short, `run_timers` ends with no timer left, within as many rounds as there are timers and ms
  -- up to the horizon, and one more.
  pub run_timers_lem :
      (engine : Engine V W) (horizon fuel : ℕ) (m : Machine V W)
      → IsQuiet engine horizon
      → All (IsDueBy horizon) m.timers
      → active m.timers + (horizon - engine.get_time_ms m.world) < fuel
      → (m' : Machine V W) × (run_timers engine fuel m ≡ some (true, m')) × (active m'.timers ≡ 0)
  unfolding run_of
  run_timers_lem engine horizon zero m q by h = absurd (ground arith)
  run_timers_lem engine horizon (suc fuel) m q by h = elim (round_lem engine m) [
    | inl (e, none_set) ↦ (m, run_step engine fuel m finished e, none_set)
    | inr (inl (i, th, e, here, set, _, _)) ↦
        let next : Machine V W = record {
          world = (engine.call th.func m.world (release i m.timers)).1;
          timers = (engine.call th.func m.world (release i m.timers)).2;
        } in
        let one_less = release-active i th m.timers here set in
        let fewer_left = q.sets th.func m.world (release i m.timers) in
        let on = q.clock th.func m.world (release i m.timers) in
        let (m', e', done) =
          run_timers_lem engine horizon fuel next q
            (q.due th.func m.world (release i m.timers) (release-IsDueBy horizon i m.timers by))
            (omega (arith, h, one_less, fewer_left, on)) in
        (
          m',
          run_step engine fuel m (again next) (e ∙ fire_quiet engine horizon q i th m) ∙ e',
          done,
        )
    | inr (inr (delay, e, one, _, some_set, from)) ↦
        let next : Machine V W = record m { world = engine.nanosleep delay m.world } in
        let late : engine.get_time_ms m.world + delay ≤ horizon =
          before_horizon (engine.get_time_ms m.world + delay) horizon m.timers some_set from by in
        let (m', e', done) =
          run_timers_lem engine horizon fuel next q by
            (omega (arith, h, late, one, q.sleeps delay m.world)) in
        (m', run_step engine fuel m (again next) e ∙ e', done)
  ]
