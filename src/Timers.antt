-- ===== src/Timers.antt =====
-- The timers of mqjs.c: the table, `run_timers`, and js_setTimeout and js_clearTimeout of
-- ae/cli_host.ae, which change the table for the scripts.
pub mod Table
pub mod Cleared
pub mod Scan
pub mod Rounds
pub mod Ends
use mquickjs_port.Base.{
  ℕ, zero, suc, ◌-◌, ◌==◌, ltb, leb, if◌then◌else◌, not, ◌&&◌, Bool, true, false, List, [], ◌∷◌,
  Option, none, some,
}
use mquickjs_port.Base.Int.{ℤ, pos, ◌+ℤ◌, ◌-ℤ◌, ltb_ℤ, leb_ℤ, pos_part}

-- `JSTimer`, with the type `V` of script values; times are in ms.
pub record Timer (V : Type 0) : Type 0 where
  pub allocated : Bool
  pub func : V
  pub timeout : ℤ

-- `MAX_TIMERS`.
abbrev pub max_timers : ℕ
max_timers = 16

-- What a call of a timer function returns to the script.
pub data Reply : Type 0 where
  type_error too_many_timers exception undefined : Reply
  new_timer : ℕ → Reply

-- What the loop over the table finds: a timer that expired, at its place, or the shortest delay and
-- whether there is a timer at all.
pub data Found (V : Type 0) : Type 0 where
  expired : (i : ℕ) (th : Timer V) → Found V
  waiting : (has_timer : Bool) (min_delay : ℤ) → Found V

module _ {V : Type 0} where
  -- The first free place, from place `i` on, takes the timer.
  pub insert : ℕ → List (Timer V) → Timer V → Option (ℕ × List (Timer V))
  insert i [] timer = none
  insert i (th ∷ timers) timer =
      let rest = insert (suc i) timers timer in
      if th.allocated
      then elim rest [ none ↦ none | some (id, timers') ↦ some (id, th ∷ timers') ]
      else some (i, timer ∷ timers)

  -- A place is freed.
  unfoldable pub release : ℕ → List (Timer V) → List (Timer V)
  release i [] = []
  release zero (th ∷ timers) = record th { allocated = false } ∷ timers
  release (suc i) (th ∷ timers) = th ∷ release i timers

  -- `js_setTimeout` for the value `func` at the time `now`; `delay` is what JS_ToInt32 returns.
  unfoldable pub js_set_timeout :
      (V → Bool) → ℕ → V → Option ℤ → List (Timer V) → Reply × List (Timer V)
  unfolding insert
  js_set_timeout is_function now func delay timers =
      if not (is_function func) then (type_error, timers) else elim delay [
        | none ↦ (exception, timers)
        | some ms ↦
            elim (insert 0 timers
              (record { allocated = true; func = func; timeout = pos now +ℤ ms })) [
                | none ↦ (too_many_timers, timers)
                | some (id, timers') ↦ (new_timer id, timers')
              ]
      ]

  -- `js_clearTimeout`; an id that is out of range or free does nothing.
  unfoldable pub js_clear_timeout : Option ℤ → List (Timer V) → Reply × List (Timer V)
  js_clear_timeout none timers = (exception, timers)
  js_clear_timeout (some timer_id) timers = (
    undefined,
    if leb_ℤ (pos 0) timer_id && ltb_ℤ timer_id (pos max_timers)
        then release (pos_part timer_id) timers
        else timers,
  )

  pub scan : ℕ → List (Timer V) → ℕ → ℤ → Bool → Found V
  scan i [] cur_time min_delay has_timer = waiting has_timer min_delay
  scan i (th ∷ timers) cur_time min_delay has_timer =
      let delay = th.timeout -ℤ pos cur_time in
      let free = scan (suc i) timers cur_time min_delay has_timer in
      let later =
        scan (suc i) timers cur_time (if ltb_ℤ delay min_delay then delay else min_delay) true in
      if not th.allocated then free else if leb_ℤ delay (pos 0) then expired i th else later

-- What the loop uses of the engine and of the system, which keep their own state `W`. A called
-- function may change the table through the two functions above.
pub record Engine (V W : Type 0) : Type 0 where
  pub stack_check : W → Bool
  pub call : V → W → List (Timer V) → Bool × W × List (Timer V)
  pub get_time_ms : W → ℕ
  pub nanosleep : ℕ → W → W

pub record Machine (V W : Type 0) : Type 0 where
  pub world : W
  pub timers : List (Timer V)

-- The end of a round of `run_timers`: no timer is left, the process exits with an error, or there is
-- another round.
pub data Round (V W : Type 0) : Type 0 where
  finished exits : Round V W
  again : Machine V W → Round V W

module _ {V W : Type 0} (engine : Engine V W) where
  -- The timer at place `i` is freed and called.
  pub fire : ℕ → Timer V → Machine V W → Round V W
  fire i th m =
      let (is_exception, world, timers) = engine.call th.func m.world (release i m.timers) in
      if engine.stack_check m.world
      then exits
      else if is_exception
      then exits
      else again (record { world = world; timers = timers })

  -- One round; there is no sleep behind a call.
  pub round : Machine V W → Round V W
  unfolding scan fire
  round m = elim (scan 0 m.timers (engine.get_time_ms m.world) (pos 1000) false) [
    | expired i th ↦ fire i th m
    | waiting has_timer min_delay ↦
        if not has_timer
        then finished
        else again (record m {
          world =
              if ltb_ℤ (pos 0) min_delay
              then engine.nanosleep (pos_part min_delay) m.world
              else m.world;
        })
  ]

  -- The rounds, until no timer is left (`true`) or the process exits (`false`). `none` means that
  -- the fuel ran out.
  pub run_timers : ℕ → Machine V W → Option (Bool × Machine V W)
  unfolding round
  run_timers zero m = none
  run_timers (suc fuel) m = elim (round m) [
    | finished ↦ some (true, m)
    | exits ↦ some (false, m)
    | again m' ↦ run_timers fuel m'
  ]
