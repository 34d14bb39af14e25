-- ===== src/Options/Launching.antt =====
-- The command line against the declarative launch.
use mquickjs_port.Base.{
  ℕ, ◌≡◌, refl, ap, sym, ◌∙◌, if◌then◌else◌, ◌||◌, Bool, true, false, List, [], ◌∷◌, ◌++◌, map,
  Option, none, some,
}
use mquickjs_port.Base.Int.{pos}
use mquickjs_port.Launch.{Host, Step, step_compile, launch}
use mquickjs_port.Launch.Order.{
  Command, before, inside, wants_interactive, after, succeeds, perform, perform_all, closes,
  in_order_of, in_order,
}
use mquickjs_port.Launch.Steps.{launch_lem}
use mquickjs_port.Options.{Text, Options}
use mquickjs_port.Options.Main.{run_includes, run_script, wants_repl, run_main}
use mquickjs_port.Options.Steps.{
  script_steps, included, load, end_steps, with_steps, steps_of, before-included, inside-included,
  wants_included, not_only, wants_tail, before_tail, tail_only, append_assoc, script_commands,
}
use mquickjs_port.Options.Script.{after_includes, includes_lem, ended, scripted, script_lem}

module _ {W : Type 0} (host : Host Text W) (o : Options) where
  main_of : Option Text → List Text → Bool → Option (Bool × W) → Option (ℕ × W)
  main_of expr rest interactive r = elim r [
    | none ↦ none
    | some (true, w1) ↦ some (1, host.free_context w1)
    | some (false, w1) ↦ scripted host o interactive (run_script host o expr rest w1)
  ]

  whole_of :
      (steps : List (Step Text)) (expr : Option Text) (rest : List Text) (interactive : Bool)
      (r : Option (Bool × W))
      → main_of expr rest interactive r
        ≡ closes host (
            after_includes host o
              (with_steps o steps)
              (script_commands expr rest interactive ++ after (with_steps o steps) interactive)
              r)
  unfolding after_includes main_of
  whole_of steps expr rest interactive none = refl
  whole_of steps expr rest interactive (some (true, w)) = refl
  whole_of steps expr rest interactive (some (false, w)) =
      script_lem host o steps expr rest interactive w

  -- The steps of the options, and the commands that they are.
  all_steps : Option Text → List Text → Bool → List (Step Text)
  all_steps expr rest interactive =
      map included o.include_list ++ (script_steps expr rest ++ end_steps interactive)

  commands_lem :
      (steps : List (Step Text)) (expr : Option Text) (rest : List Text) (interactive : Bool)
      → inside (all_steps expr rest interactive)
          ++ after
              (with_steps o steps)
              (wants_interactive (all_steps expr rest interactive) || false)
        ≡ map load o.include_list
          ++ (script_commands expr rest interactive ++ after (with_steps o steps) interactive)
  unfolding all_steps
  commands_lem steps expr rest interactive =
      let tail = script_steps expr rest ++ end_steps interactive in
      ap
        (λ (t : List (Command Text)).
          t
          ++ after (with_steps o steps)
              (wants_interactive (map included o.include_list ++ tail) || false))
        (inside-included o.include_list tail)
      ∙ ap
          (λ (b : Bool).
            (map load o.include_list ++ inside tail) ++ after (with_steps o steps) (b || false))
          (wants_included o.include_list tail)
      ∙ ap (λ (b : Bool). (map load o.include_list ++ inside tail) ++ after (with_steps o steps) b)
          (wants_tail expr rest interactive)
      ∙ append_assoc (map load o.include_list) (inside tail)
          (after (with_steps o steps) interactive)

  run_lem :
      (steps : List (Step Text)) (expr : Option Text) (rest : List Text) (interactive : Bool)
      (w : W)
      → main_of expr rest interactive (run_includes host o o.include_list w)
        ≡ closes host (
            perform_all host
              (with_steps o steps)
              (inside (all_steps expr rest interactive)
                ++ after
                    (with_steps o steps)
                    (wants_interactive (all_steps expr rest interactive) || false))
              w)
  run_lem steps expr rest interactive w =
      whole_of steps expr rest interactive (run_includes host o o.include_list w)
      ∙ ap (closes host) (
          sym (
            includes_lem host o steps o.include_list
              (script_commands expr rest interactive ++ after (with_steps o steps) interactive) w)
          ∙ ap (λ (t : List (Command Text)). perform_all host (with_steps o steps) t w)
              (sym (commands_lem steps expr rest interactive)))

  in_order_run :
      (expr : Option Text) (rest : List Text) (w : W)
      → main_of expr rest
          (wants_repl o expr rest)
          (run_includes host o o.include_list (host.new_context o.mem_size w))
        ≡ in_order host (with_steps o (all_steps expr rest (wants_repl o expr rest))) w
  unfolding in_order in_order_of perform_all all_steps
  in_order_run expr rest w =
      let interactive = wants_repl o expr rest in
      let tail = script_steps expr rest ++ end_steps interactive in
      let steps = map included o.include_list ++ tail in
      let first : perform_all host (with_steps o steps) (before steps) w ≡ some (false, w) =
        ap (λ (t : List (Command Text)). perform_all host (with_steps o steps) t w)
          (before-included o.include_list tail ∙ before_tail expr rest interactive) in
      let closed = closes host (
        perform_all host (with_steps o steps)
          (inside steps ++ after (with_steps o steps) (wants_interactive steps || false))
          (host.new_context o.mem_size w)) in
      run_lem steps expr rest interactive (host.new_context o.mem_size w)
      ∙ ap (λ (b : Bool). if b then some (0, w) else closed)
          (sym (not_only o.include_list tail (tail_only o expr rest)))
      ∙ ap (in_order_of host (with_steps o steps)) (sym first)

  compile_only : Text → Text → List (Step Text)
  compile_only f out_filename =
      record {
        kind = step_compile;
        source = some f;
        out_path = some out_filename;
        force_32bit = o.force_32bit;
        args = [];
      }
      ∷ []

  compile_of :
      (f out_filename : Text) (r : Option W)
      → (elim r [ none ↦ none | some w' ↦ some (0, w') ])
        ≡ in_order_of host (with_steps o (compile_only f out_filename)) (elim (succeeds r) [
          | none ↦ none
          | some (true, w') ↦ some (true, w')
          | some (false, w') ↦ some (false, w')
        ])
  unfolding succeeds in_order_of compile_only
  compile_of f out_filename none = refl
  compile_of f out_filename (some w) = refl

  launched : Option (List (Step Text)) → W → Option (ℕ × W)
  launched steps w = elim steps [ none ↦ none | some steps ↦ launch host (with_steps o steps) w ]

  main_cases :
      (out_filename : Option Text) (rest : List Text) (w : W)
      → run_main host o out_filename rest w ≡ launched (steps_of o out_filename rest) w
  unfolding run_main launched main_of scripted ended all_steps compile_only in_order perform_all
      perform
  main_cases (some out_filename) [] w = refl
  main_cases (some out_filename) (f ∷ args) w =
      compile_of f out_filename (
        host.compile_file (some f) (some out_filename) o.mem_size (pos o.dump_memory) o.parse_flags
          o.force_32bit w)
      ∙ sym (launch_lem host (with_steps o (compile_only f out_filename)) w)
  main_cases none rest w =
      in_order_run o.expr rest w
      ∙ sym (launch_lem host (with_steps o (all_steps o.expr rest (wants_repl o o.expr rest))) w)

  -- `main` behind its options returns and leaves what a launch does whose steps are the included
  -- files, the expression or else the script with its arguments, and an interactive step if -i is
  -- given or there is neither of the two; or the one compile step of -o; and with -o and no input
  -- file the process exits.
  pub run_main_lem :
      (rest : List Text) (w : W)
      → run_main host o o.out_filename rest w ≡ (elim (steps_of o o.out_filename rest) [
        | none ↦ none
        | some steps ↦ launch host (with_steps o steps) w
      ])
  unfolding launched
  run_main_lem rest w = main_cases o.out_filename rest w
