-- ===== src/Launch/Order.antt =====
-- The order of a launch: the compile steps, then the other steps, then the REPL or the timers.
use mquickjs_port.Base.{
  ℕ, if◌then◌else◌, ◌&&◌, ◌||◌, Bool, true, false, List, [], ◌∷◌, ◌++◌, length, Option, none, some,
  bit_or, ltb,
}
use mquickjs_port.Base.Int.{pos, leb_ℤ, eq_ℤ}
use mquickjs_port.Launch.{
  Kind, step_include, step_eval, step_script, step_compile, step_interactive, Step, RunSpec, Host,
  is_compile, js_eval_repl,
}

-- What a launch asks of the other parts of the program, after the context is made.
pub data Command (S : Type 0) : Type 0 where
  compiles : Option S → Option S → Bool → Command S
  loads : Option S → List S → Command S
  evaluates : Option S → Command S
  reads waits dumps : Command S

abbrev pub is_interactive : Kind → Bool
is_interactive step_interactive = true
is_interactive _ = false

module _ {S : Type 0} where
  -- The compile steps; the include, eval and script steps; and what follows them.
  abbrev pub before : List (Step S) → List (Command S)
  before [] = []
  before (s ∷ steps) =
      if is_compile s.kind
      then compiles s.source s.out_path s.force_32bit ∷ before steps
      else before steps

  abbrev pub command : Step S → Kind → List (Command S) → List (Command S)
  command s step_include commands = loads s.source [] ∷ commands
  command s step_eval commands = evaluates s.source ∷ commands
  command s step_script commands = loads s.source s.args ∷ commands
  command s step_compile commands = commands
  command s step_interactive commands = commands

  abbrev pub inside : List (Step S) → List (Command S)
  inside [] = []
  inside (s ∷ steps) = command s s.kind (inside steps)

  abbrev pub wants_interactive : List (Step S) → Bool
  wants_interactive [] = false
  wants_interactive (s ∷ steps) = is_interactive s.kind || wants_interactive steps

  abbrev pub after : RunSpec S → Bool → List (Command S)
  after spec want =
      (if want then reads else waits) ∷ (if eq_ℤ spec.dump_memory (pos 0) then [] else dumps ∷ [])

  abbrev pub all_compile : List (Step S) → Bool
  all_compile [] = true
  all_compile (s ∷ steps) = is_compile s.kind && all_compile steps

module _ {W : Type 0} where
  unfoldable pub succeeds : Option W → Option (Bool × W)
  succeeds none = none
  succeeds (some w) = some (false, w)

module _ {S W : Type 0} (host : Host S W) where
  unfoldable pub perform : RunSpec S → Command S → W → Option (Bool × W)
  perform spec (compiles source out_path force_32bit) w = succeeds (
      host.compile_file source out_path spec.mem_size spec.dump_memory spec.parse_flags force_32bit
        w)
  perform spec (loads source args) w =
      host.eval_file source args spec.parse_flags spec.allow_bytecode w
  perform spec (evaluates source) w = host.eval_buf source (bit_or spec.parse_flags js_eval_repl) w
  perform spec reads w = succeeds (host.repl_run w)
  perform spec waits w = succeeds (host.run_timers w)
  perform spec dumps w = some (false, host.dump_engine (leb_ℤ (pos 2) spec.dump_memory) w)

  -- The commands in their order, up to the first that fails (`true`) or exits.
  unfoldable pub perform_all : RunSpec S → List (Command S) → W → Option (Bool × W)
  perform_all spec [] w = some (false, w)
  perform_all spec (c ∷ commands) w = elim (perform spec c w) [
    | none ↦ none
    | some (true, w') ↦ some (true, w')
    | some (false, w') ↦ perform_all spec commands w'
  ]

  abbrev pub closes : Option (Bool × W) → Option (ℕ × W)
  closes none = none
  closes (some (true, w)) = some (1, host.free_context w)
  closes (some (false, w)) = some (0, host.free_context w)

  -- A launch as a list of commands: first the compile steps; when there are no others, that is all;
  -- else the other steps up to the first that fails, and the REPL or the timers behind the last.
  unfoldable pub in_order_of : RunSpec S → Option (Bool × W) → Option (ℕ × W)
  in_order_of spec r = elim r [
    | none ↦ none
    | some (_, w1) ↦
        if ltb 0 (length spec.steps) && all_compile spec.steps
        then some (0, w1)
        else closes (
            perform_all spec
              (inside spec.steps ++ after spec (wants_interactive spec.steps || false))
              (host.new_context spec.mem_size w1))
  ]

  unfoldable pub in_order : RunSpec S → W → Option (ℕ × W)
  in_order spec w = in_order_of spec (perform_all spec (before spec.steps) w)
