-- ===== src/Launch/Build.antt =====
-- The builders: the limits of a RunSpec, and what a block of builders means.
use mquickjs_port.Base.{
  ℕ, suc, ◌+◌, ◌≤◌, ◌≡◌, refl, ap, arith, if◌then◌else◌, ◌==◌, leb, ltb, Bool, true, false, List,
  [], ◌∷◌, ◌++◌, length, length-append, All, All-append, Option, none, some,
}
use mathlib.Core.Path.{subst}
use mquickjs_port.Launch.{
  step_include, step_eval, step_script, step_compile, step_interactive, Step, RunSpec, Builder,
  memory_limit_mb, dump_memory_level, no_column, allow_the_bytecode, compile, interactive,
  force_the_32bit, include, eval, script, arg, input, output, spec_new, new_step, fresh, on_last,
  cur_step, add_arg, apply, build, max_steps, max_args,
}

module _ {S : Type 0} where
  abbrev pub HasRoom : Step S → Type 0
  HasRoom s = length s.args ≤ max_args

  -- The limits of the two arrays.
  abbrev pub IsBounded : List (Step S) → Type 0
  IsBounded steps = (length steps ≤ max_steps) × All HasRoom steps

  -- The number of steps that a builder appends.
  abbrev pub appends : Builder S → ℕ
  appends (include path) = 1
  appends (eval source) = 1
  appends (script path) = 1
  appends compile = 1
  appends interactive = 1
  appends _ = 0

  abbrev pub step_count : List (Builder S) → ℕ
  step_count [] = 0
  step_count (call ∷ calls) = appends call + step_count calls

  -- What holds of the RunSpec, when the process did not exit.
  Ensures : (RunSpec S → Type 0) → Option (RunSpec S) → Type 0
  Ensures P none = Unit
  Ensures P (some spec) = P spec

  -- Bounded, with `n` steps more than before.
  abbrev Adds : ℕ → RunSpec S → RunSpec S → Type 0
  Adds n spec spec' = IsBounded spec'.steps × (length spec'.steps ≡ length spec.steps + n)

  guarded :
      (P : RunSpec S → Type 0) (b : Bool) (spec : RunSpec S)
      → (b ≡ false → P spec)
      → Ensures P (elim b [ true ↦ none | false ↦ some spec ])
  unfolding Ensures
  guarded P true spec h = tt
  guarded P false spec h = h refl

  new_step_bounded :
      (step : Step S) (spec : RunSpec S)
      → HasRoom step
      → IsBounded spec.steps
      → Ensures (Adds 1 spec) (new_step step spec)
  unfolding new_step
  new_step_bounded step spec room (few, rooms) =
      guarded (Adds 1 spec) (leb max_steps (length spec.steps))
        (record spec { steps = spec.steps ++ step ∷ [] })
        (λ (free : leb max_steps (length spec.steps) ≡ false). (
          (
            ground (arith, length-append spec.steps (step ∷ []), free),
            All-append HasRoom spec.steps (step ∷ []) rooms (room, tt),
          ),
          length-append spec.steps (step ∷ []),
        ))

  on_last_bounded :
      (f : Step S → Step S) (steps : List (Step S))
      → ((s : Step S) → HasRoom s → HasRoom (f s))
      → All HasRoom steps
      → (length (on_last f steps) ≡ length steps) × All HasRoom (on_last f steps)
  on_last_bounded f [] h rooms = (refl, rooms)
  on_last_bounded f (s ∷ []) h (room, rooms) = (refl, (h s room, rooms))
  on_last_bounded f (s ∷ s' ∷ steps) h (room, rooms) =
      let (same, rooms') = on_last_bounded f (s' ∷ steps) h rooms in (ap suc same, (room, rooms'))

  cur_step_bounded :
      (f : Step S → Step S) (spec : RunSpec S)
      → ((s : Step S) → HasRoom s → HasRoom (f s))
      → IsBounded spec.steps
      → Ensures (Adds 0 spec) (cur_step f spec)
  unfolding cur_step
  cur_step_bounded f spec h (few, rooms) =
      let (same, rooms') = on_last_bounded f spec.steps h rooms in
      guarded (Adds 0 spec) (length spec.steps == 0) (record spec { steps = on_last f spec.steps })
        (λ (_ : (length spec.steps == 0) ≡ false).
          ((omega (arith, same, few), rooms'), omega (arith, same)))

  room_if :
      (value : S) (s : Step S) (b : Bool)
      → ltb (length s.args) max_args ≡ b
      → HasRoom s
      → HasRoom (if b then record s { args = s.args ++ value ∷ [] } else s)
  room_if value s true h room = ground (arith, h, length-append s.args (value ∷ []))
  room_if value s false h room = room

  add_arg_room : (value : S) (s : Step S) → HasRoom s → HasRoom (add_arg value s)
  unfolding add_arg
  add_arg_room value s room = room_if value s (ltb (length s.args) max_args) refl room

  apply_bounded :
      (call : Builder S) (spec : RunSpec S)
      → IsBounded spec.steps
      → Ensures (Adds (appends call) spec) (apply call spec)
  unfolding apply Ensures
  apply_bounded (memory_limit_mb mb) spec h = (h, omega arith)
  apply_bounded (dump_memory_level level) spec h = (h, omega arith)
  apply_bounded no_column spec h = (h, omega arith)
  apply_bounded allow_the_bytecode spec h = (h, omega arith)
  apply_bounded (include path) spec h =
      new_step_bounded (fresh step_include (some path)) spec (omega arith) h
  apply_bounded (eval source) spec h =
      new_step_bounded (fresh step_eval (some source)) spec (omega arith) h
  apply_bounded (script path) spec h =
      new_step_bounded (fresh step_script (some path)) spec (omega arith) h
  apply_bounded compile spec h = new_step_bounded (fresh step_compile none) spec (omega arith) h
  apply_bounded interactive spec h =
      new_step_bounded (fresh step_interactive none) spec (omega arith) h
  apply_bounded (arg value) spec h =
      cur_step_bounded (add_arg value) spec (λ s. add_arg_room value s) h
  apply_bounded (input path) spec h =
      cur_step_bounded (λ s. record s { source = some path }) spec (λ s k. k) h
  apply_bounded (output path) spec h =
      cur_step_bounded (λ s. record s { out_path = some path }) spec (λ s k. k) h
  apply_bounded force_the_32bit spec h =
      cur_step_bounded (λ s. record s { force_32bit = true }) spec (λ s k. k) h

  more_steps :
      (n k : ℕ) (spec spec' : RunSpec S) (r : Option (RunSpec S))
      → length spec'.steps ≡ length spec.steps + n
      → Ensures (Adds k spec') r
      → Ensures (Adds (n + k) spec) r
  unfolding Ensures
  more_steps n k spec spec' none more h = h
  more_steps n k spec spec' (some spec'') more (h, more') = (h, omega (arith, more, more'))

  build_of :
      (calls : List (Builder S)) (n k : ℕ) (spec : RunSpec S) (r : Option (RunSpec S))
      → ((spec' : RunSpec S) → IsBounded spec'.steps → Ensures (Adds k spec') (build calls spec'))
      → Ensures (Adds n spec) r
      → Ensures (Adds (n + k) spec) (elim r [ none ↦ none | some spec' ↦ build calls spec' ])
  unfolding Ensures
  build_of calls n k spec none ih h = h
  build_of calls n k spec (some spec') ih (h, more) =
      more_steps n k spec spec' (build calls spec') more (ih spec' h)

  build_bounded :
      (calls : List (Builder S)) (spec : RunSpec S)
      → IsBounded spec.steps
      → Ensures (Adds (step_count calls) spec) (build calls spec)
  unfolding build Ensures
  build_bounded [] spec h = (h, omega arith)
  build_bounded (call ∷ calls) spec h =
      build_of calls (appends call) (step_count calls) spec (apply call spec)
        (λ spec' h'. build_bounded calls spec' h') (apply_bounded call spec h)

  of_ensures :
      (P : RunSpec S → Type 0) (r : Option (RunSpec S)) (spec : RunSpec S)
      → Ensures P r
      → r ≡ some spec
      → P spec
  unfolding Ensures
  of_ensures P r spec h e = subst (Ensures P) e h

  -- When the builders of a block do not end the process, the RunSpec has as many steps as the block
  -- has step builders, these are at most 64, and each has at most 32 arguments.
  pub build-IsBounded :
      (calls : List (Builder S)) (spec : RunSpec S)
      → build calls spec_new ≡ some spec
      → IsBounded spec.steps × (length spec.steps ≡ step_count calls)
  unfolding spec_new
  build-IsBounded calls spec h =
      let (h', n) =
        of_ensures (Adds (step_count calls) spec_new) (build calls spec_new) spec
          (build_bounded calls spec_new (omega arith, tt)) h in
      (h', omega (arith, n))
