-- ===== src/Options/Main.antt =====
-- What `main` in mqjs.c does with the options, behind their reading.
use mquickjs_port.Base.{
  ℕ, leb, ◌==◌, if◌then◌else◌, not, Bool, true, false, List, [], ◌∷◌, Option, none, some, bit_or,
}
use mquickjs_port.Base.Int.{pos}
use mquickjs_port.Launch.{Host, js_eval_repl}
use mquickjs_port.Options.{Text, Options}

-- `interactive`, which is set when there is neither.
unfoldable pub wants_repl : Options → Option Text → List Text → Bool
wants_repl o none [] = true
wants_repl o _ _ = not (o.interactive == 0)

module _ {W : Type 0} (host : Host Text W) (o : Options) where
  -- The loop over the included files.
  unfoldable pub run_includes : List Text → W → Option (Bool × W)
  run_includes [] w = some (false, w)
  run_includes (f ∷ files) w = elim (host.eval_file (some f) [] o.parse_flags o.allow_bytecode w) [
    | none ↦ none
    | some (true, w') ↦ some (true, w')
    | some (false, w') ↦ run_includes files w'
  ]

  -- The expression, or the script with its arguments, the first of which is the script.
  unfoldable pub run_script : Option Text → List Text → W → Option (Bool × W)
  run_script (some expr) rest w = host.eval_buf (some expr) (bit_or o.parse_flags js_eval_repl) w
  run_script none [] w = some (false, w)
  run_script none (f ∷ args) w = host.eval_file (some f) (f ∷ args) o.parse_flags o.allow_bytecode w

  -- The REPL or the timers, and the dump of the memory.
  unfoldable pub run_end : Bool → W → Option W
  run_end interactive w = elim (if interactive then host.repl_run w else host.run_timers w) [
    | none ↦ none
    | some w' ↦
        some (if not (o.dump_memory == 0) then host.dump_engine (leb 2 o.dump_memory) w' else w')
  ]

  -- The part of `main` behind the options: the exit code, and the state; `none` means that the process
  -- exits before.
  unfoldable pub run_main : Option Text → List Text → W → Option (ℕ × W)
  run_main (some out_filename) [] w = none
  run_main (some out_filename) (f ∷ args) w =
      elim (host.compile_file (some f) (some out_filename) o.mem_size (pos o.dump_memory)
        o.parse_flags o.force_32bit w) [ none ↦ none | some w' ↦ some (0, w') ]
  run_main none rest w = elim (run_includes o.include_list (host.new_context o.mem_size w)) [
    | none ↦ none
    | some (true, w1) ↦ some (1, host.free_context w1)
    | some (false, w1) ↦ elim (run_script o.expr rest w1) [
      | none ↦ none
      | some (true, w2) ↦ some (1, host.free_context w2)
      | some (false, w2) ↦ elim (run_end (wants_repl o o.expr rest) w2) [
        | none ↦ none
        | some w3 ↦ some (0, host.free_context w3)
      ]
    ]
  ]
