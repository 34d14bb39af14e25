-- ===== src/Launch/Steps.antt =====
-- The loops over the steps against the commands of the steps.
use mquickjs_port.Base.{
  ℕ, ◌≡◌, refl, ap, sym, ◌∙◌, arith, if◌then◌else◌, not, ◌&&◌, ◌||◌, Bool, true, false, List, [],
  ◌∷◌, ◌++◌, length, Option, none, some, bit_or, ltb,
}
use mquickjs_port.Base.Int.{pos, leb_ℤ, eq_ℤ}
use mquickjs_port.Launch.{
  Kind, step_include, step_eval, step_script, step_compile, step_interactive, Step, RunSpec, Host,
  compile_steps, only_compiles, eval_step, eval_steps, evaluated, finish_launch, launch, is_compile,
  js_eval_repl,
}
use mquickjs_port.Launch.Order.{
  Command, compiles, dumps, before, command, inside, is_interactive, wants_interactive, after,
  all_compile, succeeds, perform, perform_all, closes, in_order_of, in_order,
}

module _ {S W : Type 0} (host : Host S W) where
  compile_step :
      (spec : RunSpec S) (steps : List (Step S)) (r : Option W)
      → ((w : W)
          → perform_all host spec (before steps) w ≡ succeeds (compile_steps host spec steps w))
      → (elim (succeeds r) [
        | none ↦ none
        | some (true, w') ↦ some (true, w')
        | some (false, w') ↦ perform_all host spec (before steps) w'
      ])
        ≡ succeeds (elim r [ none ↦ none | some w' ↦ compile_steps host spec steps w' ])
  unfolding succeeds
  compile_step spec steps none ih = refl
  compile_step spec steps (some w) ih = ih w

  compile_steps_lem :
      (spec : RunSpec S) (steps : List (Step S)) (w : W)
      → perform_all host spec (before steps) w ≡ succeeds (compile_steps host spec steps w)
  unfolding perform_all compile_steps succeeds perform
  compile_steps_lem spec [] w = refl
  compile_steps_lem spec (s ∷ steps) w =
      elim s.kind
        as (λ (k : Kind).
          perform_all host spec
            (if is_compile k
              then compiles s.source s.out_path s.force_32bit ∷ before steps
              else before steps)
            w
          ≡ succeeds
              (elim (if is_compile k
                then host.compile_file s.source s.out_path spec.mem_size spec.dump_memory
                    spec.parse_flags s.force_32bit w
                else some w) [ none ↦ none | some w' ↦ compile_steps host spec steps w' ])) [
                  | step_include ↦ compile_steps_lem spec steps w
                  | step_eval ↦ compile_steps_lem spec steps w
                  | step_script ↦ compile_steps_lem spec steps w
                  | step_interactive ↦ compile_steps_lem spec steps w
                  | step_compile ↦
                      compile_step spec steps
                        (host.compile_file s.source s.out_path spec.mem_size spec.dump_memory
                          spec.parse_flags s.force_32bit w)
                        (λ w'. compile_steps_lem spec steps w')
                ]

  -- The end of a launch, from what the loop over the other steps returns.
  ends : RunSpec S → Option (Bool × Bool × W) → Option (ℕ × W)
  ends spec none = none
  ends spec (some (true, want, w)) = some (1, host.free_context w)
  ends spec (some (false, want, w)) = elim (finish_launch host spec want w) [
    | none ↦ none
    | some w' ↦ some (0, host.free_context w')
  ]

  dump_lem :
      (spec : RunSpec S) (w : W)
      → some (
        0,
        host.free_context (
            if not (eq_ℤ spec.dump_memory (pos 0))
            then host.dump_engine (leb_ℤ (pos 2) spec.dump_memory) w
            else w),
      )
        ≡ closes host
            (perform_all host spec (if eq_ℤ spec.dump_memory (pos 0) then [] else dumps ∷ []) w)
  unfolding perform_all perform
  dump_lem spec w =
      elim (eq_ℤ spec.dump_memory (pos 0))
        as (λ (b : Bool).
          some (
            0,
            host.free_context
                (if not b then host.dump_engine (leb_ℤ (pos 2) spec.dump_memory) w else w),
          )
          ≡ closes host (perform_all host spec (if b then [] else dumps ∷ []) w)) [
            | true ↦ refl
            | false ↦ refl
          ]

  last_of : RunSpec S → Option W → Option W
  last_of spec r = elim r [
    | none ↦ none
    | some w ↦ some (
        if not (eq_ℤ spec.dump_memory (pos 0))
        then host.dump_engine (leb_ℤ (pos 2) spec.dump_memory) w
        else w)
  ]

  finish_of :
      (spec : RunSpec S) (r : Option W)
      → (elim (last_of spec r) [ none ↦ none | some w' ↦ some (0, host.free_context w') ])
        ≡ closes host (elim (succeeds r) [
          | none ↦ none
          | some (true, w') ↦ some (true, w')
          | some (false, w') ↦
              perform_all host spec (if eq_ℤ spec.dump_memory (pos 0) then [] else dumps ∷ []) w'
        ])
  unfolding succeeds last_of
  finish_of spec none = refl
  finish_of spec (some w) = dump_lem spec w

  finish_lem :
      (spec : RunSpec S) (want : Bool) (w : W)
      → ends spec (some (false, want, w)) ≡ closes host (perform_all host spec (after spec want) w)
  unfolding ends perform_all succeeds finish_launch last_of perform
  finish_lem spec true w = finish_of spec (host.repl_run w)
  finish_lem spec false w = finish_of spec (host.run_timers w)

  evaluated_lem :
      (spec : RunSpec S) (steps : List (Step S)) (want : Bool) (commands : List (Command S))
      (r : Option (Bool × W))
      → ((w : W)
          → ends spec (eval_steps host spec steps want w)
            ≡ closes host (perform_all host spec commands w))
      → ends spec (elim (evaluated host want r) [
        | none ↦ none
        | some (true, want', w') ↦ some (true, want', w')
        | some (false, want', w') ↦ eval_steps host spec steps want' w'
      ])
        ≡ closes host (elim r [
          | none ↦ none
          | some (true, w') ↦ some (true, w')
          | some (false, w') ↦ perform_all host spec commands w'
        ])
  unfolding ends
  evaluated_lem spec steps want commands none ih = refl
  evaluated_lem spec steps want commands (some (true, w)) ih = refl
  evaluated_lem spec steps want commands (some (false, w)) ih = ih w

  or_true : (b : Bool) → (b || true) ≡ true
  or_true b = ground arith

  eval_steps_lem :
      (spec : RunSpec S) (steps : List (Step S)) (want : Bool) (w : W)
      → ends spec (eval_steps host spec steps want w)
        ≡ closes host
            (perform_all host spec (inside steps ++ after spec (wants_interactive steps || want)) w)
  unfolding eval_steps eval_step perform_all perform
  eval_steps_lem spec [] want w = finish_lem spec want w
  eval_steps_lem spec (s ∷ steps) want w =
      elim s.kind
        as (λ (k : Kind).
          ends spec (elim (eval_step host spec s k want w) [
            | none ↦ none
            | some (true, want', w') ↦ some (true, want', w')
            | some (false, want', w') ↦ eval_steps host spec steps want' w'
          ])
          ≡ closes host (
              perform_all host spec
                (command s k (inside steps)
                  ++ after spec ((is_interactive k || wants_interactive steps) || want))
                w)) [
                  | step_include ↦
                      evaluated_lem spec steps want
                        (inside steps ++ after spec (wants_interactive steps || want))
                        (host.eval_file s.source [] spec.parse_flags spec.allow_bytecode w)
                        (λ w'. eval_steps_lem spec steps want w')
                  | step_eval ↦
                      evaluated_lem spec steps want
                        (inside steps ++ after spec (wants_interactive steps || want))
                        (host.eval_buf s.source (bit_or spec.parse_flags js_eval_repl) w)
                        (λ w'. eval_steps_lem spec steps want w')
                  | step_script ↦
                      evaluated_lem spec steps want
                        (inside steps ++ after spec (wants_interactive steps || want))
                        (host.eval_file s.source s.args spec.parse_flags spec.allow_bytecode w)
                        (λ w'. eval_steps_lem spec steps want w')
                  | step_interactive ↦
                      eval_steps_lem spec steps true w
                      ∙ ap
                          (λ (b : Bool).
                            closes host (perform_all host spec (inside steps ++ after spec b) w))
                          (or_true (wants_interactive steps))
                  | step_compile ↦ eval_steps_lem spec steps want w
                ]

  and_false : (b : Bool) → false ≡ (b && false)
  and_false b = ground arith

  only_lem :
      (steps : List (Step S)) (only : Bool) → only_compiles steps only ≡ (only && all_compile steps)
  unfolding only_compiles
  only_lem [] only = ground arith
  only_lem (s ∷ steps) only =
      elim s.kind
        as (λ (k : Kind).
          only_compiles steps (if not (is_compile k) then false else only)
          ≡ (only && (is_compile k && all_compile steps))) [
            | step_include ↦ only_lem steps false ∙ and_false only
            | step_eval ↦ only_lem steps false ∙ and_false only
            | step_script ↦ only_lem steps false ∙ and_false only
            | step_interactive ↦ only_lem steps false ∙ and_false only
            | step_compile ↦ only_lem steps only
          ]

  closing : RunSpec S → Option (Bool × Bool × W) → Option (ℕ × W)
  closing spec r = elim r [
    | none ↦ none
    | some (true, want, w2) ↦ some (1, host.free_context w2)
    | some (false, want, w2) ↦ elim (finish_launch host spec want w2) [
      | none ↦ none
      | some w3 ↦ some (0, host.free_context w3)
    ]
  ]

  closing-ends : (spec : RunSpec S) (r : Option (Bool × Bool × W)) → closing spec r ≡ ends spec r
  unfolding closing ends
  closing-ends spec none = refl
  closing-ends spec (some (true, want, w)) = refl
  closing-ends spec (some (false, want, w)) = refl

  launch_of :
      (spec : RunSpec S) (r : Option W)
      → (elim r [
        | none ↦ none
        | some w1 ↦
            if ltb 0 (length spec.steps) && only_compiles spec.steps true
            then some (0, w1)
            else closing spec
                (eval_steps host spec spec.steps false (host.new_context spec.mem_size w1))
      ])
        ≡ in_order_of host spec (succeeds r)
  unfolding succeeds in_order_of
  launch_of spec none = refl
  launch_of spec (some w1) =
      let all : (ltb 0 (length spec.steps) && only_compiles spec.steps true)
          ≡ (ltb 0 (length spec.steps) && all_compile spec.steps) =
        ap (λ (t : Bool). ltb 0 (length spec.steps) && t) (only_lem spec.steps true) in
      let evals = eval_steps host spec spec.steps false (host.new_context spec.mem_size w1) in
      ap (λ (t : Bool). if t then some (0, w1) else closing spec evals) all
      ∙ ap
          (λ (t : Option (ℕ × W)).
            if ltb 0 (length spec.steps) && all_compile spec.steps then some (0, w1) else t)
          (closing-ends spec evals
            ∙ eval_steps_lem spec spec.steps false (host.new_context spec.mem_size w1))

  -- A launch performs the compile steps in their order; if there are steps and all are compile
  -- steps, that is all; else it makes a context and performs the other steps in their order up to
  -- the first that fails, and behind the last of them the REPL, if a step asks for it, or the
  -- timers, and then the memory dump; it returns 1 for a step that fails and 0 otherwise, and exits
  -- when a step does.
  pub launch_lem : (spec : RunSpec S) (w : W) → launch host spec w ≡ in_order host spec w
  unfolding launch in_order in_order_of closing
  launch_lem spec w =
      launch_of spec (compile_steps host spec spec.steps w)
      ∙ ap (in_order_of host spec) (sym (compile_steps_lem spec spec.steps w))
