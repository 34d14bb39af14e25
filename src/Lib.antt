-- ===== src/Lib.antt =====
-- Doubles in mquickjs: their conversion to text and back in dtoa.c, their arithmetic without
-- hardware in softfp_template.h, and their rounding to integers in libm.c; and the program mqjs:
-- its timers, its declarative launch, its command line and the loop that reads a line.
--
-- dtoa.c prints and reads floating point numbers in every radix from 2 to 36. It stands on big
-- numbers of its own, `mpb_t`, which are arrays of 32-bit limbs, lowest first. The routines `mp_*`
-- work on the arrays, the routines `mpb_*` on the numbers; `mul_pow` scales a number by a power of
-- the radix and keeps enough bits for the one rounding that follows, and `output_digits` and
-- `mpb_mul1_base` turn a number into digits and back. `js_dtoa` takes a double apart, searches for
-- the shortest digits that give it back and writes them; `js_atod` reads a text into a big number
-- and rounds it once.
--
-- softfp_template.h is a template: each operation is written for a format, with its width and the
-- sizes of its fields as macros. An operation takes its operands apart, computes with a few more
-- bits and a sticky bit, and leaves the one rounding to `normalize_sf` and `round_pack_sf`.
--
-- libm.c rounds doubles to integers by the fields of their bits, and has the functions through
-- which a compiler without floating point uses the soft floats.
--
-- mqjs.c keeps a table of 16 timers, which the scripts change through js_setTimeout and
-- js_clearTimeout of ae/cli_host.ae. Behind a script, `run_timers` calls the timers that are due
-- and sleeps in between, until none is left. The builders of ae/mqjs_dsl fill a RunSpec with steps,
-- and `aether_mqjs_launch` performs them and ends with the REPL or the timers. `main` reads the
-- options of the command line and does the same without a RunSpec. The REPL reads a line with
-- `readline_tty`, and Ctrl-C, which a signal handler counts, ends it at the second time.
--
-- The files and the code:
--   Base       numbers, bits, lists and integers that the others share
--   Limbs      limbs, and the number that an array of them stands for
--   Rounding   the rounding modes of dtoa.c, and rounding of a fraction as it is meant
--   Cutils     cutils.h: min_int, max_int, clz32, clz64, ctz32
--   Mp         dtoa.c: mp_add_ui, mp_mul1, udiv1norm_init, udiv1norm, mp_div1, mp_shr, mp_shl,
--              mp_div1norm; Mp/Carry, Shift, Divide, Reciprocal and Normalised have their proofs
--   Mpb        dtoa.c: mpb_renorm, mpb_get_bit, mpb_shr_round, mpb_cmp, mpb_set_u64, mpb_get_u64,
--              mpb_floor_log2; Mpb/Compact has the invariant, Mpb/Bit, AddOne, Round and Order the
--              rest of their proofs
--   Radix      dtoa.c: pow_ui, pow_ui_inv, mul_log2_radix and the tables for each radix
--   Scale      dtoa.c: mul_pow, mul_pow_round, round_to_d, mul_pow_round_to_d; Scale/Sticky is about
--              rounding behind a division with a sticky bit, Scale/Double about round_to_d
--   Digits     dtoa.c: u32toa_len, u64toa_bin_len, limb_to_a, u64toa, i64toa, u64toa_radix,
--              i64toa_radix, to_digit, and u32toa of ae/dtoa.ae. Digits/Reading and Numeral say
--              what digits stand for and what a numeral is, Fixed, Decimal, Binary and AnyRadix have
--              the proofs
--   Output     dtoa.c: output_digits
--   Atod       dtoa.c: mpb_mul1_base
--   Double     dtoa.c: the part of js_dtoa that takes a double apart, the part of js_atod that packs one
--   Search     dtoa.c: the loops of js_dtoa that look for the digits
--   Dtoa       dtoa.c: js_dtoa, js_dtoa_max_len; Dtoa/Integers is about integers
--   Parse      dtoa.c: the part of js_atod that reads the text, and strstart of ae/cutils.ae;
--              Parse/Start, Ends and Exponents are about where reading stops
--   JsAtod     dtoa.c: js_atod; JsAtod/Total is about its end
--   Softfp     softfp_template.h and softfp_template_icvt.h. Softfp/Format: the macros and pack_sf,
--              unpack_sf, isnan_sf; Softfp/Round: rshift_rnd, round_pack_sf, normalize_sf,
--              normalize_subnormal_sf; Softfp/Wide: mul_u, divrem_u, sqrtrem_u; Softfp/Arith: add_sf,
--              sub_sf, mul_sf, div_sf, sqrt_sf; Softfp/Compare: eq_quiet_sf, le_sf, lt_sf, cmp_sf;
--              Softfp/Convert: the conversions and fmod_sf. Their child modules have the proofs, all
--              at the format of doubles
--   Libm       libm.c: rint_sf64, js_floor, js_ceil, js_trunc, js_round_inf, js_fabs and the words of a
--              double; Libm/Wrappers: __adddf3 and its kin, js_sqrt, js_lrint, js_fmod. Libm/Value
--              reads the value of a double, Libm/Rint, Small, Rounded and Whole have the proofs
--   Timers     mqjs.c: JSTimer, run_timers; ae/cli_host.ae: js_setTimeout, js_clearTimeout. Timers/Table
--              and Cleared are about the table, Scan, Rounds and Ends about run_timers
--   Launch     mqjs.c: MqjsRunSpec, aether_mqjs_spec_new and the other builders, aether_mqjs_launch.
--              Launch/Build and Blocks are about the builders, Launch/Order is the order of a launch
--              as a list of commands, Launch/Steps its proof
--   Options    mqjs.c: the options of main; Options/Main: what main does with them. Options/Kept and
--              Reading are about the reading; Options/Steps, Script and Launching compare main with a
--              launch
--   Readline   readline_tty.c: sigint_handler, readline_tty, readline_is_interrupted;
--              Readline/Interrupts is about Ctrl-C
--   Runs, SoftRuns, HostRuns
--              runs of the theorems at concrete inputs
--
-- How the code is modelled. A limb and a word is a natural number, with the wrap-around of the C
-- type written out where an operation has one (`u32`, `u64`, `% 2 ^ 32`, `word`). An `mpb_t` is the
-- list of its `len` limbs, and a routine that changes an array returns it. The invariant is
-- `IsCompact`: there is a limb, all are below 2 ^ 32, and the top one is 0 only where it stands
-- alone. A signed `int` is an integer; the exponents that occur are far from its limits, but for
-- the exponent that js_atod reads, where an overflow wraps. The count of the zeros above the
-- highest bit of 0, which cutils.h leaves undefined, is the width of the word; sqrtrem_u asks for
-- it where the word that it counts in is 1, and normalize_sf where the mantissa is 0. The tables
-- for a radix are read at `radix - 2`, which for natural numbers stops at 0, so for the radix 1,
-- where js_atod reads in front of its tables, the model is not the code. A character buffer is the
-- list of the bytes that are written, and what is written from the last place down is put in front
-- of a tail.
--
-- The engine, the clock, the sleep and the functions that compile and evaluate are fields of a
-- record that the timers (`Engine`), and the launch and main (`Host`), take as a parameter, with a
-- state of their own; a function that a timer calls may change the table. The value `none` of a
-- launch means that the process exits. The times are integers, without the limits of int64_t. The
-- steps of a RunSpec are the list of those in use, since the places behind them are zero. What read
-- returns for readline_tty is a list, with the signals that come before it.
--
-- Loops that are not structural recursion take fuel. In `mul_loop` and `div_loop` it is the
-- exponent, since each round takes at least one factor; in the loops of `output_digits` it is the
-- number of digits, for the same reason; in `pow_ui` and the bit scans it is the width of the word;
-- the loops of `u32toa` and `u64toa_radix` have the 10 and the 41 characters of their scratch. The
-- theorems on these loops say what they return without a condition on the fuel, so it is enough.
-- The loops of js_atod take one round for each character and one more, and sqrtrem_u takes as many
-- steps as the word has bits, since each step halves the distance to the root; both are proved to
-- be enough. In js_dtoa the exponent is raised 4 times at most, up to 64 zeros are taken off, and
-- there is one round for each digit and one more; for the free format and the fixed one it is not
-- proved that this is enough. The rounds of run_timers are bounded only if the scripts stop to set
-- timers: with a horizon, the timers that are set and the ms up to the horizon are enough. The
-- options take one round for each argument and one more, which is proved to be enough. The
-- doublings of fmod_sf are as many as the exponents are apart.
--
-- What is not modelled. The capacity of the buffers of an `mpb_t`; the exception flags of the soft
-- floating point, which are switched off, and its 128-bit format; the elementary functions of
-- libm.c, a copy of another library; the REPL and the files in mqjs.c, and the output and the modes
-- of the terminal in readline_tty.c; the default action of SIGINT, which sigint_handler sets again
-- at the fourth pending signal, so that one more ends the process; js_atod for the radix 1; list.h,
-- which no file includes; the engine in ae/, which is not C.
pub mod Base
pub mod Limbs
pub mod Rounding
pub mod Cutils
pub mod Mp
pub mod Mpb
pub mod Radix
pub mod Scale
pub mod Digits
pub mod Output
pub mod Atod
pub mod Search
pub mod Dtoa
pub mod Parse
pub mod JsAtod
pub mod Double
pub mod Softfp
pub mod Timers
pub mod Launch
pub mod Libm
pub mod Readline
pub mod Options
pub mod HostRuns
pub mod SoftRuns
pub mod Runs
