-- ===== src/HostRuns.antt =====
-- Runs of the theorems on the timers, the launch, the command line, Ctrl-C and libm.c at concrete inputs.
use mquickjs_port.Base.{
  ◌*◌, ◌==◌, if◌then◌else◌, ℕ, suc, ◌+◌, ◌≤◌, ◌<◌, ◌≡◌, refl, arith, Bool, true, false, ◌||◌, List,
  [], ◌∷◌, map, length, replicate, take, All, none, some, ◌⊎◌, inl, inr,
}
use mquickjs_port.Base.Int.{pos, ◌+ℤ◌, ◌≤ℤ◌, eq_ℤ, leb_ℤ, ltb_ℤ}
use mquickjs_port.Timers.{
  Timer, Engine, Machine, finished, again, round, fire, run_timers, too_many_timers, undefined,
  new_timer, js_set_timeout, js_clear_timeout,
}
use mquickjs_port.Timers.Table.{place, put, active, js_set_timeout_lem}
use mquickjs_port.Timers.Cleared.{pending, clear_of_set}
use mquickjs_port.Timers.Scan.{IsDueFrom}
use mquickjs_port.Timers.Rounds.{round_lem}
use mquickjs_port.Timers.Ends.{IsQuiet, run_timers_lem}
use mquickjs_port.Launch.{
  step_script, step_compile, RunSpec, Host, Builder, script, arg, fresh, spec_new, new_step,
  cur_step, add_arg, apply, build, launch,
}
use mquickjs_port.Launch.Order.{in_order}
use mquickjs_port.Launch.Steps.{launch_lem}
use mquickjs_port.Launch.Build.{IsBounded, build-IsBounded}
use mquickjs_port.Launch.Blocks.{Block, scripts, compiles, interacts, step, all_builders, build_lem}
use mquickjs_port.Readline.{
  Handled, not_handled, accepted, ReadResult, failed, bytes, press_again, exiting, readline_tty,
  read_loop, handle_bytes, check_ctrl_c, signals, sigint_handler,
}
use mquickjs_port.Readline.Interrupts.{PressedTwice, ctrl_c_twice}
use mquickjs_port.Options.{Text, Numbers, Parsed, memory_limit, spelling, no_options, read_options}
use mquickjs_port.Options.Kept.{Consumes}
use mquickjs_port.Options.Reading.{read_options_total}
use mquickjs_port.Options.{Options}
use mquickjs_port.Options.Main.{run_main, wants_repl}
use mquickjs_port.Options.Steps.{with_steps, included, script_steps}
use mquickjs_port.Options.Launching.{run_main_lem}
use mquickjs_port.Libm.{js_floor, js_ceil, js_trunc, js_round_inf}
use mquickjs_port.Libm.Value.{magnitude, sign_of, unity}
use mquickjs_port.Libm.Whole.{value, IsFloor, IsCeil, IsNearest, IsWhole, js_round_lem}
use mquickjs_port.Libm.Wrappers.{eqdf2, nedf2, ledf2, ltdf2, gedf2, gtdf2, unorddf2, compare_lem}
use mquickjs_port.Softfp.Compare.{eq_quiet_sf, le_sf, lt_sf}
use mquickjs_port.Softfp.Format.{float64}

abbrev free_timer : Timer ℕ
free_timer = record { allocated = false; func = 0; timeout = pos 0 }

abbrev soon : Timer ℕ
soon = record { allocated = true; func = 7; timeout = pos 25 }

abbrev two_timers : List (Timer ℕ)
two_timers = soon ∷ free_timer ∷ []

abbrev is_function : ℕ → Bool
is_function v = true

-- Functions that do nothing, and a clock that only moves in a sleep.
abbrev clock_engine : Engine ℕ ℕ
clock_engine = record {
  stack_check = λ w. false;
  call = λ f w timers. (false, w, timers);
  get_time_ms = λ w. w;
  nanosleep = λ ms w. w + ms;
}

abbrev machine : Machine ℕ ℕ
machine = record { world = 5; timers = two_timers }

clock_engine-IsQuiet : IsQuiet clock_engine 40
clock_engine-IsQuiet = record {
  room = λ w. refl;
  calls = λ f w ts. refl;
  clock = λ f w ts. omega arith;
  sets = λ f w ts. omega arith;
  due = λ f w ts h. h;
  sleeps = λ ms w. omega arith;
}

js_set_timeout_lem_example :
    ((active two_timers ≡ 2)
      × (js_set_timeout is_function 5 8 (some (pos 20)) two_timers ≡ (too_many_timers, two_timers)))
    ⊎ ((id : ℕ) × (th : Timer ℕ) × (place id two_timers ≡ some th)
        × (th.allocated ≡ false)
        × (active two_timers < 2)
        × (js_set_timeout is_function 5 8 (some (pos 20)) two_timers ≡ (
          new_timer id,
          put id (record { allocated = true; func = 8; timeout = pos 5 +ℤ pos 20 }) two_timers,
        )))
js_set_timeout_lem_example = js_set_timeout_lem is_function 5 8 (pos 20) two_timers refl

abbrev empty_table : List (Timer ℕ)
empty_table = replicate 16 free_timer

abbrev one_set : List (Timer ℕ)
one_set = record { allocated = true; func = 8; timeout = pos 25 } ∷ replicate 15 free_timer

clear_of_set_example :
    ((js_clear_timeout (some (pos 0)) one_set).0 ≡ undefined)
    × (pending 0 (js_clear_timeout (some (pos 0)) one_set).1 ≡ [])
unfolding js_set_timeout ◌+ℤ◌
clear_of_set_example = clear_of_set is_function 5 8 (pos 20) empty_table one_set 0 refl refl refl

round_lem_example :
    ((round clock_engine machine ≡ finished) × (active two_timers ≡ 0))
    ⊎ ((i : ℕ) × (th : Timer ℕ) × (round clock_engine machine ≡ fire clock_engine i th machine)
        × (place i two_timers ≡ some th)
        × (th.allocated ≡ true)
        × (th.timeout ≤ℤ pos 5)
        × All (IsDueFrom (pos 6)) (take i two_timers))
    ⊎ ((delay : ℕ) × (round clock_engine machine ≡ again (record machine { world = 5 + delay }))
        × (1 ≤ delay)
        × (delay ≤ 1000)
        × (0 < active two_timers)
        × All (IsDueFrom (pos (5 + delay))) two_timers)
round_lem_example = round_lem clock_engine machine

run_timers_lem_example :
    (m : Machine ℕ ℕ) × (run_timers clock_engine 37 machine ≡ some (true, m))
    × (active m.timers ≡ 0)
run_timers_lem_example =
    run_timers_lem clock_engine 40 37 machine clock_engine-IsQuiet
      (inr (omega arith), (inl refl, tt)) (omega arith)

-- A process that counts what it is asked for.
abbrev counting : Host ℕ ℕ
counting = record {
  compile_file = λ source out_path mem_size dump flags force w. some (suc w);
  new_context = λ mem_size w. suc w;
  eval_file = λ source args flags allow w. some (false, suc w);
  eval_buf = λ source flags w. some (false, suc w);
  repl_run = λ w. some (suc w);
  run_timers = λ w. some (suc w);
  dump_engine = λ long w. suc w;
  free_context = λ w. suc w;
}

abbrev two_steps : RunSpec ℕ
two_steps = record {
  mem_size = 100;
  parse_flags = 0;
  dump_memory = pos 0;
  allow_bytecode = false;
  steps = fresh step_script (some 3) ∷ fresh step_compile (some 4) ∷ [];
}

launch_lem_example : launch counting two_steps 0 ≡ in_order counting two_steps 0
launch_lem_example = launch_lem counting two_steps 0

abbrev script_calls : List (Builder ℕ)
script_calls = script 3 ∷ arg 4 ∷ []

abbrev scripted : RunSpec ℕ
scripted = record spec_new {
  steps =
      record {
        kind = step_script;
        source = some 3;
        out_path = none;
        force_32bit = false;
        args = 4 ∷ [];
      }
      ∷ [];
}

build-IsBounded_example : IsBounded scripted.steps × (length scripted.steps ≡ 1)
unfolding build apply new_step cur_step add_arg spec_new
build-IsBounded_example = build-IsBounded script_calls scripted refl

abbrev blocks : List (Block ℕ)
blocks = scripts 3 (4 ∷ 5 ∷ []) ∷ compiles 6 7 true ∷ interacts ∷ []

build_lem_example :
    build (all_builders blocks) spec_new ≡ some (record spec_new { steps = map step blocks })
build_lem_example = build_lem blocks (omega arith) (omega arith, (omega arith, (omega arith, tt)))

-- -2.5.
abbrev minus_two_and_half : ℕ
minus_two_and_half = 0xc004000000000000

js_round_lem_example :
    IsFloor (value minus_two_and_half) (value (js_floor minus_two_and_half))
    × IsCeil (value minus_two_and_half) (value (js_ceil minus_two_and_half))
    × IsNearest (value minus_two_and_half) (value (js_round_inf minus_two_and_half))
    × (magnitude (js_trunc minus_two_and_half) ≤ magnitude minus_two_and_half)
    × (magnitude minus_two_and_half < magnitude (js_trunc minus_two_and_half) + unity)
    × (sign_of (js_trunc minus_two_and_half) ≡ sign_of minus_two_and_half)
    × IsWhole (js_floor minus_two_and_half)
    × IsWhole (js_ceil minus_two_and_half)
    × IsWhole (js_round_inf minus_two_and_half)
    × IsWhole (js_trunc minus_two_and_half)
js_round_lem_example = js_round_lem minus_two_and_half (omega arith)

abbrev nan : ℕ
nan = 0x7ff8000000000000

compare_lem_example :
    (eq_ℤ (eqdf2 nan nan) (pos 0) ≡ eq_quiet_sf float64 nan nan)
    × (leb_ℤ (ledf2 nan nan) (pos 0) ≡ le_sf float64 nan nan)
    × (ltb_ℤ (ltdf2 nan nan) (pos 0) ≡ lt_sf float64 nan nan)
    × (leb_ℤ (pos 0) (gedf2 nan nan) ≡ le_sf float64 nan nan)
    × (ltb_ℤ (pos 0) (gtdf2 nan nan) ≡ lt_sf float64 nan nan)
    × (eq_ℤ (nedf2 nan nan) (pos 0) ≡ (unorddf2 nan nan || eq_quiet_sf float64 nan nan))
compare_lem_example = compare_lem nan nan (omega arith) (omega arith)

-- An editor that accepts the line at byte 10.
abbrev line_editor : ℕ → ℕ → Handled × ℕ
line_editor s c = if c == 10 then (accepted, s) else (not_handled, suc s)

abbrev two_presses : List ReadResult
two_presses = bytes 1 97 [] ∷ failed 0 ∷ failed 1 ∷ []

ctrl_c_twice_example : PressedTwice two_presses
unfolding readline_tty read_loop handle_bytes check_ctrl_c signals sigint_handler
ctrl_c_twice_example =
    ctrl_c_twice line_editor 0 two_presses
      (record {
        editor = 1;
        ctrl_c_pressed = 0;
        ctrl_c_count = 1;
        printed = exiting ∷ press_again ∷ [];
      })
      refl

-- Numbers without fractions.
abbrev whole_numbers : Numbers ℕ
whole_numbers = record {
  strtod = λ t. (64, b'M' ∷ []);
  times_1024 = λ d. d * 1024;
  to_size = λ d. d;
  tolower = λ c. c + 32;
}

-- --memory-limit 64M -d file x.
abbrev command_line : List Text
command_line =
    (b'-' ∷ b'-' ∷ spelling memory_limit)
    ∷ (b'6' ∷ b'4' ∷ b'M' ∷ [])
    ∷ (b'-' ∷ b'd' ∷ [])
    ∷ (b'f' ∷ [])
    ∷ (b'x' ∷ [])
    ∷ []

read_options_total_example :
    (p : Parsed) × (read_options whole_numbers 6 command_line no_options ≡ some p)
    × Consumes command_line p
read_options_total_example = read_options_total whole_numbers command_line

-- -I 5 3 4, with texts of one byte.
abbrev with_include : Options
with_include = record no_options {
  include_list = (5 ∷ []) ∷ [];
  out_filename = none;
  expr = none;
  interactive = 0;
}

-- A process that counts what it is asked for.
abbrev counting_texts : Host Text ℕ
counting_texts = record {
  compile_file = λ source out_path mem_size dump flags force w. some (suc w);
  new_context = λ mem_size w. suc w;
  eval_file = λ source args flags allow w. some (false, suc w);
  eval_buf = λ source flags w. some (false, suc w);
  repl_run = λ w. some (suc w);
  run_timers = λ w. some (suc w);
  dump_engine = λ long w. suc w;
  free_context = λ w. suc w;
}

run_main_lem_example :
    run_main counting_texts with_include none ((3 ∷ []) ∷ (4 ∷ []) ∷ []) 0
    ≡ launch counting_texts
        (with_steps with_include (included (5 ∷ []) ∷ script_steps none ((3 ∷ []) ∷ (4 ∷ []) ∷ [])))
        0
unfolding wants_repl
run_main_lem_example = run_main_lem counting_texts with_include ((3 ∷ []) ∷ (4 ∷ []) ∷ []) 0
