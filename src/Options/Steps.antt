-- ===== src/Options/Steps.antt =====
-- The steps of a launch that say the same as the options of a command line.
use mquickjs_port.Base.{
  ltb, ◌≡◌, refl, ap, arith, if◌then◌else◌, ◌&&◌, ◌||◌, Bool, true, false, List, [], ◌∷◌, ◌++◌, map,
  length, Option, none, some,
}
use mquickjs_port.Base.Int.{pos}
use mquickjs_port.Launch.{
  Step, RunSpec, fresh, step_include, step_eval, step_script, step_compile, step_interactive,
}
use mquickjs_port.Launch.Order.{Command, loads, before, inside, wants_interactive, all_compile}
use mquickjs_port.Options.{Text, Options}
use mquickjs_port.Options.Main.{wants_repl}

-- The steps that say the same as an expression or a script.
abbrev pub script_steps : Option Text → List Text → List (Step Text)
script_steps (some expr) rest = fresh step_eval (some expr) ∷ []
script_steps none [] = []
script_steps none (f ∷ args) = record (fresh step_script (some f)) { args = f ∷ args } ∷ []

abbrev pub included : Text → Step Text
included f = fresh step_include (some f)

abbrev pub load : Text → Command Text
load f = loads (some f) []

abbrev pub end_steps : Bool → List (Step Text)
end_steps interactive = if interactive then fresh step_interactive none ∷ [] else []

-- The RunSpec that says the same as the options.
abbrev pub with_steps : Options → List (Step Text) → RunSpec Text
with_steps o steps = record {
  mem_size = o.mem_size;
  parse_flags = o.parse_flags;
  dump_memory = pos o.dump_memory;
  allow_bytecode = o.allow_bytecode;
  steps = steps;
}

abbrev pub steps_of : Options → Option Text → List Text → Option (List (Step Text))
steps_of o (some out_filename) [] = none
steps_of o (some out_filename) (f ∷ args) = some (
    record {
      kind = step_compile;
      source = some f;
      out_path = some out_filename;
      force_32bit = o.force_32bit;
      args = [];
    }
    ∷ [])
steps_of o none rest = some (
    map included o.include_list
    ++ (script_steps o.expr rest ++ end_steps (wants_repl o o.expr rest)))

pub before-included :
    (files : List Text) (steps : List (Step Text))
    → before (map included files ++ steps) ≡ before steps
before-included [] steps = refl
before-included (f ∷ files) steps = before-included files steps

pub inside-included :
    (files : List Text) (steps : List (Step Text))
    → inside (map included files ++ steps) ≡ map load files ++ inside steps
inside-included [] steps = refl
inside-included (f ∷ files) steps =
    ap (λ (t : List (Command Text)). load f ∷ t) (inside-included files steps)

pub wants_included :
    (files : List Text) (steps : List (Step Text))
    → wants_interactive (map included files ++ steps) ≡ wants_interactive steps
wants_included [] steps = refl
wants_included (f ∷ files) steps = wants_included files steps

pub not_only :
    (files : List Text) (steps : List (Step Text))
    → all_compile steps ≡ false
    → (ltb 0 (length (map included files ++ steps)) && all_compile (map included files ++ steps))
      ≡ false
not_only [] steps h = ground (arith, h)
not_only (f ∷ files) steps h = ground arith

-- The steps behind the included files.
pub wants_tail :
    (expr : Option Text) (rest : List Text) (b : Bool)
    → (wants_interactive (script_steps expr rest ++ end_steps b) || false) ≡ b
wants_tail (some expr) rest true = refl
wants_tail (some expr) rest false = refl
wants_tail none [] true = refl
wants_tail none [] false = refl
wants_tail none (f ∷ args) true = refl
wants_tail none (f ∷ args) false = refl

pub before_tail :
    (expr : Option Text) (rest : List Text) (b : Bool)
    → before (script_steps expr rest ++ end_steps b) ≡ []
before_tail (some expr) rest true = refl
before_tail (some expr) rest false = refl
before_tail none [] true = refl
before_tail none [] false = refl
before_tail none (f ∷ args) true = refl
before_tail none (f ∷ args) false = refl

pub tail_only :
    (o : Options) (expr : Option Text) (rest : List Text)
    → all_compile (script_steps expr rest ++ end_steps (wants_repl o expr rest)) ≡ false
unfolding wants_repl
tail_only o (some expr) rest = refl
tail_only o none [] = refl
tail_only o none (f ∷ args) = refl

pub append_assoc : (xs ys zs : List (Command Text)) → (xs ++ ys) ++ zs ≡ xs ++ (ys ++ zs)
append_assoc [] ys zs = refl
append_assoc (x ∷ xs) ys zs = ap (λ (t : List (Command Text)). x ∷ t) (append_assoc xs ys zs)

-- The commands of the script and of an interactive step.
abbrev pub script_commands : Option Text → List Text → Bool → List (Command Text)
script_commands expr rest interactive = inside (script_steps expr rest ++ end_steps interactive)
