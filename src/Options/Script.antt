-- ===== src/Options/Script.antt =====
-- The included files, the script and the end of `main`, as commands of a launch.
use mquickjs_port.Base.{
  ℕ, ◌+◌, leb, ◌==◌, ◌≡◌, refl, ap, sym, ◌∙◌, arith, if◌then◌else◌, not, Bool, true, false, List,
  [], ◌∷◌, ◌++◌, map, Option, none, some, bit_or,
}
use mquickjs_port.Base.Int.{pos, eq_ℤ, leb_ℤ}
use mquickjs_port.Launch.{Host, js_eval_repl, Step, RunSpec}
use mquickjs_port.Launch.Order.{Command, dumps, after, succeeds, perform, perform_all, closes}
use mquickjs_port.Options.{Text, Options}
use mquickjs_port.Options.Main.{run_includes, run_script, run_end}
use mquickjs_port.Options.Steps.{load, with_steps, script_commands}

module _ {W : Type 0} (host : Host Text W) (o : Options) where
  unfoldable pub after_includes :
      RunSpec Text → List (Command Text) → Option (Bool × W) → Option (Bool × W)
  after_includes spec commands r = elim r [
    | none ↦ none
    | some (true, w) ↦ some (true, w)
    | some (false, w) ↦ perform_all host spec commands w
  ]

  includes_of :
      (spec : RunSpec Text) (files : List Text) (commands : List (Command Text))
      (r : Option (Bool × W))
      → ((w : W)
          → perform_all host spec (map load files ++ commands) w
            ≡ after_includes spec commands (run_includes host o files w))
      → (elim r [
        | none ↦ none
        | some (true, w') ↦ some (true, w')
        | some (false, w') ↦ perform_all host spec (map load files ++ commands) w'
      ])
        ≡ after_includes spec commands (elim r [
          | none ↦ none
          | some (true, w') ↦ some (true, w')
          | some (false, w') ↦ run_includes host o files w'
        ])
  unfolding after_includes
  includes_of spec files commands none ih = refl
  includes_of spec files commands (some (true, w)) ih = refl
  includes_of spec files commands (some (false, w)) ih = ih w

  pub includes_lem :
      (steps : List (Step Text)) (files : List Text) (commands : List (Command Text)) (w : W)
      → perform_all host (with_steps o steps) (map load files ++ commands) w
        ≡ after_includes (with_steps o steps) commands (run_includes host o files w)
  unfolding perform_all perform after_includes run_includes
  includes_lem steps [] commands w = refl
  includes_lem steps (f ∷ files) commands w =
      includes_of (with_steps o steps) files commands
        (host.eval_file (some f) [] o.parse_flags o.allow_bytecode w)
        (λ w'. includes_lem steps files commands w')

  -- The end of `run_main`, behind the script.
  unfoldable pub ended : Bool → W → Option (ℕ × W)
  ended interactive w = elim (run_end host o interactive w) [
    | none ↦ none
    | some w3 ↦ some (0, host.free_context w3)
  ]

  dump_if :
      (steps : List (Step Text)) (w : W) (b : Bool)
      → leb_ℤ (pos 2) (pos o.dump_memory) ≡ leb 2 o.dump_memory
      → some (0, host.free_context (if not b then host.dump_engine (leb 2 o.dump_memory) w else w))
        ≡ closes host (perform_all host (with_steps o steps) (if b then [] else dumps ∷ []) w)
  unfolding perform_all perform
  dump_if steps w true h = refl
  dump_if steps w false h =
      ap (λ (b : Bool). some (0, host.free_context (host.dump_engine b w))) (sym h)

  dump_lem :
      (steps : List (Step Text)) (w : W)
      → some (
        0,
        host.free_context
            (if not (o.dump_memory == 0) then host.dump_engine (leb 2 o.dump_memory) w else w),
      )
        ≡ closes host (
            perform_all host
              (with_steps o steps)
              (if eq_ℤ (pos o.dump_memory) (pos 0) then [] else dumps ∷ [])
              w)
  dump_lem steps w =
      let same : o.dump_memory + 0 ≡ o.dump_memory = omega arith in
      let test : eq_ℤ (pos o.dump_memory) (pos 0) ≡ (o.dump_memory == 0) =
        ap (λ (t : ℕ). t == 0) same in
      let long : leb_ℤ (pos 2) (pos o.dump_memory) ≡ leb 2 o.dump_memory =
        ap (λ (t : ℕ). leb 2 t) same in
      dump_if steps w (o.dump_memory == 0) long
      ∙ ap
          (λ (b : Bool).
            closes host (perform_all host (with_steps o steps) (if b then [] else dumps ∷ []) w))
          (sym test)

  last_of : Option W → Option W
  last_of r = elim r [
    | none ↦ none
    | some w' ↦
        some (if not (o.dump_memory == 0) then host.dump_engine (leb 2 o.dump_memory) w' else w')
  ]

  returned : Option W → Option (ℕ × W)
  returned r = elim r [ none ↦ none | some w3 ↦ some (0, host.free_context w3) ]

  end_of :
      (steps : List (Step Text)) (r : Option W)
      → returned (last_of r)
        ≡ closes host (elim (succeeds r) [
          | none ↦ none
          | some (true, w') ↦ some (true, w')
          | some (false, w') ↦
              perform_all host
                (with_steps o steps)
                (if eq_ℤ (pos o.dump_memory) (pos 0) then [] else dumps ∷ [])
                w'
        ])
  unfolding succeeds returned last_of
  end_of steps none = refl
  end_of steps (some w) = dump_lem steps w

  pub end_lem :
      (steps : List (Step Text)) (interactive : Bool) (w : W)
      → ended interactive w
        ≡ closes host
            (perform_all host (with_steps o steps) (after (with_steps o steps) interactive) w)
  unfolding ended run_end perform_all perform returned last_of
  end_lem steps true w = end_of steps (host.repl_run w)
  end_lem steps false w = end_of steps (host.run_timers w)

  -- The script and what follows it.
  unfoldable pub scripted : Bool → Option (Bool × W) → Option (ℕ × W)
  scripted interactive r = elim r [
    | none ↦ none
    | some (true, w2) ↦ some (1, host.free_context w2)
    | some (false, w2) ↦ ended interactive w2
  ]

  script_of :
      (steps : List (Step Text)) (interactive : Bool) (r : Option (Bool × W))
      → scripted interactive r
        ≡ closes host (elim r [
          | none ↦ none
          | some (true, w') ↦ some (true, w')
          | some (false, w') ↦
              perform_all host (with_steps o steps) (after (with_steps o steps) interactive) w'
        ])
  unfolding scripted
  script_of steps interactive none = refl
  script_of steps interactive (some (true, w)) = refl
  script_of steps interactive (some (false, w)) = end_lem steps interactive w

  pub script_lem :
      (steps : List (Step Text)) (expr : Option Text) (rest : List Text) (interactive : Bool)
      (w : W)
      → scripted interactive (run_script host o expr rest w)
        ≡ closes host (
            perform_all host
              (with_steps o steps)
              (script_commands expr rest interactive ++ after (with_steps o steps) interactive)
              w)
  unfolding run_script perform_all perform
  script_lem steps (some expr) rest true w =
      script_of steps true (host.eval_buf (some expr) (bit_or o.parse_flags js_eval_repl) w)
  script_lem steps (some expr) rest false w =
      script_of steps false (host.eval_buf (some expr) (bit_or o.parse_flags js_eval_repl) w)
  script_lem steps none [] true w = script_of steps true (some (false, w))
  script_lem steps none [] false w = script_of steps false (some (false, w))
  script_lem steps none (f ∷ args) true w =
      script_of steps true (host.eval_file (some f) (f ∷ args) o.parse_flags o.allow_bytecode w)
  script_lem steps none (f ∷ args) false w =
      script_of steps false (host.eval_file (some f) (f ∷ args) o.parse_flags o.allow_bytecode w)
