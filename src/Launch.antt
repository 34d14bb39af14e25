-- ===== src/Launch.antt =====
-- The declarative launch of mqjs.c: the RunSpec that the builders of ae/mqjs_dsl fill, and
-- `aether_mqjs_launch`, which runs it.
pub mod Build
pub mod Order
pub mod Steps
pub mod Blocks
use mquickjs_port.Base.{
  ℕ, zero, suc, ◌-◌, ◌%◌, ◌^◌, ltb, leb, ◌==◌, if◌then◌else◌, not, ◌&&◌, ◌||◌, Bool, true, false,
  List, [], ◌∷◌, ◌++◌, length, Option, none, some, bit_or, u64, ◌<<<◌,
}
use mquickjs_port.Base.Int.{ℤ, pos, negsuc, ltb_ℤ, leb_ℤ, eq_ℤ}

-- `MQJS_DSL_MAX_STEPS` and `MQJS_DSL_MAX_ARGS`.
abbrev pub max_steps : ℕ
max_steps = 64

abbrev pub max_args : ℕ
max_args = 32

-- `JS_EVAL_REPL` and `JS_EVAL_STRIP_COL`.
abbrev pub js_eval_repl : ℕ
js_eval_repl = 2

abbrev pub js_eval_strip_col : ℕ
js_eval_strip_col = 4

-- The enum of the steps.
pub data Kind : Type 0 where
  step_include step_eval step_script step_compile step_interactive : Kind

abbrev pub is_compile : Kind → Bool
is_compile step_compile = true
is_compile _ = false

-- `MqjsStep`, with the type `S` of C strings; `args_n` is the length of `args`.
pub record Step (S : Type 0) : Type 0 where
  pub kind : Kind
  pub source : Option S
  pub out_path : Option S
  pub force_32bit : Bool
  pub args : List S

-- `MqjsRunSpec`; `steps_n` is the length of `steps`, and the places behind it are zero.
pub record RunSpec (S : Type 0) : Type 0 where
  pub mem_size : ℕ
  pub parse_flags : ℕ
  pub dump_memory : ℤ
  pub allow_bytecode : Bool
  pub steps : List (Step S)

-- A call of a builder.
pub data Builder (S : Type 0) : Type 0 where
  memory_limit_mb dump_memory_level : ℤ → Builder S
  no_column allow_the_bytecode compile interactive force_the_32bit : Builder S
  include eval script arg input output : S → Builder S

-- `(size_t)mb`.
abbrev pub size_of_int : ℤ → ℕ
size_of_int (pos n) = u64 n
size_of_int (negsuc n) = 2 ^ 64 - u64 (suc n)

module _ {S : Type 0} where
  -- `aether_mqjs_spec_reset` and `aether_mqjs_spec_new`.
  unfoldable pub spec_new : RunSpec S
  spec_new = record {
    mem_size = 16 <<< 20;
    parse_flags = 0;
    dump_memory = pos 0;
    allow_bytecode = false;
    steps = [];
  }

  -- `mqjs_dsl_new_step`; `none` means that the process exits.
  unfoldable pub new_step : Step S → RunSpec S → Option (RunSpec S)
  new_step step spec = elim (leb max_steps (length spec.steps)) [
    | true ↦ none
    | false ↦ some (record spec { steps = spec.steps ++ step ∷ [] })
  ]

  -- A step with its `source`, in a place that was zero.
  abbrev pub fresh : Kind → Option S → Step S
  fresh kind source = record {
    kind = kind;
    source = source;
    out_path = none;
    force_32bit = false;
    args = [];
  }

  abbrev pub on_last : (Step S → Step S) → List (Step S) → List (Step S)
  on_last f [] = []
  on_last f (step ∷ []) = f step ∷ []
  on_last f (step ∷ step' ∷ steps) = step ∷ on_last f (step' ∷ steps)

  -- A change of the step that `mqjs_dsl_cur_step` returns.
  unfoldable pub cur_step : (Step S → Step S) → RunSpec S → Option (RunSpec S)
  cur_step f spec = elim (length spec.steps == 0) [
    | true ↦ none
    | false ↦ some (record spec { steps = on_last f spec.steps })
  ]

  -- The change of `aether_mqjs_arg`.
  unfoldable pub add_arg : S → Step S → Step S
  add_arg value s =
      if ltb (length s.args) max_args then record s { args = s.args ++ value ∷ [] } else s

  -- The effect of a builder.
  unfoldable pub apply : Builder S → RunSpec S → Option (RunSpec S)
  apply (memory_limit_mb mb) spec = some (record spec { mem_size = u64 (size_of_int mb <<< 20) })
  apply (dump_memory_level level) spec = some (record spec { dump_memory = level })
  apply no_column spec =
      some (record spec { parse_flags = bit_or spec.parse_flags js_eval_strip_col })
  apply allow_the_bytecode spec = some (record spec { allow_bytecode = true })
  apply (include path) spec = new_step (fresh step_include (some path)) spec
  apply (eval source) spec = new_step (fresh step_eval (some source)) spec
  apply (script path) spec = new_step (fresh step_script (some path)) spec
  apply compile spec = new_step (fresh step_compile none) spec
  apply interactive spec = new_step (fresh step_interactive none) spec
  apply (arg value) spec = cur_step (add_arg value) spec
  apply (input path) spec = cur_step (λ s. record s { source = some path }) spec
  apply (output path) spec = cur_step (λ s. record s { out_path = some path }) spec
  apply force_the_32bit spec = cur_step (λ s. record s { force_32bit = true }) spec

  -- The builders of a block, in their order.
  unfoldable pub build : List (Builder S) → RunSpec S → Option (RunSpec S)
  build [] spec = some spec
  build (call ∷ calls) spec = elim (apply call spec) [
    | none ↦ none
    | some spec' ↦ build calls spec'
  ]

  -- The loop that sets the flag of the same name to 0 at a step of another kind.
  pub only_compiles : List (Step S) → Bool → Bool
  only_compiles [] only = only
  only_compiles (s ∷ steps) only =
      only_compiles steps (if not (is_compile s.kind) then false else only)

-- What the launch uses of the engine and of the other parts of the program, with the state `W` of the
-- process; `none` means that the process exits, and `true` that the evaluation failed.
pub record Host (S W : Type 0) : Type 0 where
  pub compile_file : Option S → Option S → ℕ → ℤ → ℕ → Bool → W → Option W
  pub new_context : ℕ → W → W
  pub eval_file : Option S → List S → ℕ → Bool → W → Option (Bool × W)
  pub eval_buf : Option S → ℕ → W → Option (Bool × W)
  pub repl_run : W → Option W
  pub run_timers : W → Option W
  pub dump_engine : Bool → W → W
  pub free_context : W → W

module _ {S W : Type 0} (host : Host S W) where
  -- The loop over the compile steps.
  pub compile_steps : RunSpec S → List (Step S) → W → Option W
  compile_steps spec [] w = some w
  compile_steps spec (s ∷ steps) w =
      let next : Option W =
        if is_compile s.kind
        then host.compile_file s.source s.out_path spec.mem_size spec.dump_memory spec.parse_flags
            s.force_32bit w
        else some w in
      elim next [ none ↦ none | some w' ↦ compile_steps spec steps w' ]

  -- An evaluation in the loop over the other steps; `want_interactive` is kept.
  abbrev pub evaluated : Bool → Option (Bool × W) → Option (Bool × Bool × W)
  evaluated want_interactive none = none
  evaluated want_interactive (some (rc, w)) = some (rc, want_interactive, w)

  -- The switch of that loop: `rc`, `want_interactive` and the state.
  unfoldable pub eval_step : RunSpec S → Step S → Kind → Bool → W → Option (Bool × Bool × W)
  eval_step spec s step_include want_interactive w =
      evaluated want_interactive (host.eval_file s.source [] spec.parse_flags spec.allow_bytecode w)
  eval_step spec s step_eval want_interactive w =
      evaluated want_interactive (host.eval_buf s.source (bit_or spec.parse_flags js_eval_repl) w)
  eval_step spec s step_script want_interactive w =
      evaluated want_interactive
        (host.eval_file s.source s.args spec.parse_flags spec.allow_bytecode w)
  eval_step spec s step_interactive want_interactive w = some (false, true, w)
  eval_step spec s step_compile want_interactive w = some (false, want_interactive, w)

  -- The loop over the other steps, up to the first that fails.
  pub eval_steps : RunSpec S → List (Step S) → Bool → W → Option (Bool × Bool × W)
  eval_steps spec [] want_interactive w = some (false, want_interactive, w)
  eval_steps spec (s ∷ steps) want_interactive w =
      elim (eval_step spec s s.kind want_interactive w) [
        | none ↦ none
        | some (true, want, w') ↦ some (true, want, w')
        | some (false, want, w') ↦ eval_steps spec steps want w'
      ]

  -- The end of a launch in which no step failed.
  pub finish_launch : RunSpec S → Bool → W → Option W
  finish_launch spec want_interactive w =
      elim (if want_interactive then host.repl_run w else host.run_timers w) [
        | none ↦ none
        | some w' ↦ some (
            if not (eq_ℤ spec.dump_memory (pos 0))
            then host.dump_engine (leb_ℤ (pos 2) spec.dump_memory) w'
            else w')
      ]

  -- `aether_mqjs_launch`: its return code, and the state.
  unfoldable pub launch : RunSpec S → W → Option (ℕ × W)
  launch spec w = elim (compile_steps spec spec.steps w) [
    | none ↦ none
    | some w1 ↦
        if ltb 0 (length spec.steps) && only_compiles spec.steps true
        then some (0, w1)
        else elim (eval_steps spec spec.steps false (host.new_context spec.mem_size w1)) [
          | none ↦ none
          | some (true, want, w2) ↦ some (1, host.free_context w2)
          | some (false, want, w2) ↦ elim (finish_launch spec want w2) [
            | none ↦ none
            | some w3 ↦ some (0, host.free_context w3)
          ]
        ]
  ]
