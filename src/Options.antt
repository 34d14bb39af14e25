-- ===== src/Options.antt =====
-- The options of the command line, as `main` in mqjs.c reads them.
pub mod Kept
pub mod Reading
pub mod Main
pub mod Steps
pub mod Script
pub mod Launching
use mquickjs_port.Base.{
  ℕ, zero, suc, ltb, leb, ◌==◌, if◌then◌else◌, not, ◌&&◌, ◌||◌, Bool, true, false, List, [], ◌∷◌,
  ◌++◌, length, Option, none, some, bit_or, ◌<<<◌,
}
use mquickjs_port.Launch.{js_eval_strip_col}

-- A C string, without the zero at its end.
abbrev pub Text : Type 0
Text = List ℕ

-- `!strcmp(a, b)`.
abbrev pub same_text : Text → Text → Bool
same_text [] [] = true
same_text [] (d ∷ b) = false
same_text (c ∷ a) [] = false
same_text (c ∷ a) (d ∷ b) = c == d && same_text a b

-- The variables that the options set.
pub record Options : Type 0 where
  pub mem_size : ℕ
  pub dump_memory : ℕ
  pub interactive : ℕ
  pub expr : Option Text
  pub out_filename : Option Text
  pub include_list : List Text
  pub parse_flags : ℕ
  pub force_32bit : Bool
  pub allow_bytecode : Bool

unfoldable pub no_options : Options
no_options = record {
  mem_size = 16 <<< 20;
  dump_memory = 0;
  interactive = 0;
  expr = none;
  out_filename = none;
  include_list = [];
  parse_flags = 0;
  force_32bit = false;
  allow_bytecode = false;
}

-- `countof(include_list)`.
abbrev pub max_includes : ℕ
max_includes = 32

-- What an option does: the process exits with a code; the loop over an argument ends; or it goes on,
-- behind `arg` or, where `arg` is read to its end, with nothing. Both keep the arguments that are left.
pub data Next : Type 0 where
  exits : (code : ℕ) → Next
  breaks : (args : List Text) (o : Options) → Next
  continues : (at_end : Bool) (args : List Text) (o : Options) → Next

-- The end of the options: the process exits, or the arguments that are left.
pub data Parsed : Type 0 where
  exits_with : (code : ℕ) → Parsed
  arguments : (args : List Text) (o : Options) → Parsed

-- The names of the long options.
pub data LongName : Type 0 where
  help eval memory_limit dump interact include no_column allow : LongName

abbrev pub spelling : LongName → Text
spelling help = b'h' ∷ b'e' ∷ b'l' ∷ b'p' ∷ []
spelling eval = b'e' ∷ b'v' ∷ b'a' ∷ b'l' ∷ []
spelling memory_limit =
    b'm' ∷ b'e' ∷ b'm' ∷ b'o' ∷ b'r' ∷ b'y' ∷ b'-' ∷ b'l' ∷ b'i' ∷ b'm' ∷ b'i' ∷ b't' ∷ []
spelling dump = b'd' ∷ b'u' ∷ b'm' ∷ b'p' ∷ []
spelling interact = b'i' ∷ b'n' ∷ b't' ∷ b'e' ∷ b'r' ∷ b'a' ∷ b'c' ∷ b't' ∷ b'i' ∷ b'v' ∷ b'e' ∷ []
spelling include = b'i' ∷ b'n' ∷ b'c' ∷ b'l' ∷ b'u' ∷ b'd' ∷ b'e' ∷ []
spelling no_column = b'n' ∷ b'o' ∷ b'-' ∷ b'c' ∷ b'o' ∷ b'l' ∷ b'u' ∷ b'm' ∷ b'n' ∷ []
spelling allow =
    b'a' ∷ b'l' ∷ b'l' ∷ b'o' ∷ b'w' ∷ b'-' ∷ b'b' ∷ b'y' ∷ b't' ∷ b'e' ∷ b'c' ∷ b'o' ∷ b'd' ∷ b'e'
    ∷ []

-- `strtod`, which returns a number of type `D` and the rest of the text, and the operations on it.
pub record Numbers (D : Type 0) : Type 0 where
  pub strtod : Text → D × Text
  pub times_1024 : D → D
  pub to_size : D → ℕ
  pub tolower : ℕ → ℕ

-- The rest of the argument, or the next one: the value of -e and of -o.
pub value_of : (Text → Options) → Text → List Text → Next
value_of set (c ∷ arg) args = breaks args (set (c ∷ arg))
value_of set [] (a ∷ args) = breaks args (set a)
value_of set [] [] = exits 2

pub add_include : List Text → Options → Next
add_include [] o = exits 1
add_include (a ∷ args) o =
    if leb max_includes (length o.include_list)
    then exits 1
    else continues false args (record o { include_list = o.include_list ++ a ∷ [] })

module _ {D : Type 0} (n : Numbers D) where
  -- The switch on the unit of --memory-limit, whose cases fall through.
  pub scaled_count : Text → D → D
  scaled_count [] count = count
  scaled_count (c ∷ _) count =
      let unit = n.tolower c in
      if unit == b'g'
      then n.times_1024 (n.times_1024 (n.times_1024 count))
      else if unit == b'm'
      then n.times_1024 (n.times_1024 count)
      else if unit == b'k'
      then n.times_1024 count
      else count

  pub set_memory_limit : List Text → Options → Next
  set_memory_limit [] o = exits 1
  set_memory_limit (a ∷ args) o =
      let (count, p) = n.strtod a in
      continues false args (record o { mem_size = n.to_size (scaled_count p count) })

  -- The body of the loop over an argument, with the letter `opt`, which is 0 for a long option, and
  -- the rest `arg` of the argument behind it.
  pub option : ℕ → Text → Text → List Text → Options → Next
  option opt longopt arg args o =
      if opt == b'h' || (opt == b'?' || same_text longopt (spelling help))
      then exits 1
      else if opt == b'e' || same_text longopt (spelling eval)
      then value_of (λ t. record o { expr = some t }) arg args
      else if same_text longopt (spelling memory_limit)
      then set_memory_limit args o
      else if opt == b'd' || same_text longopt (spelling dump)
      then continues false args (record o { dump_memory = suc o.dump_memory })
      else if opt == b'i' || same_text longopt (spelling interact)
      then continues false args (record o { interactive = suc o.interactive })
      else if opt == b'o'
      then value_of (λ t. record o { out_filename = some t }) arg args
      else if opt == b'I' || same_text longopt (spelling include)
      then add_include args o
      else if same_text longopt (spelling no_column)
      then continues false args (record o { parse_flags = bit_or o.parse_flags js_eval_strip_col })
      else if opt == b'm' && same_text arg (b'3' ∷ b'2' ∷ [])
      then continues true args (record o { force_32bit = true })
      else if opt == b'b' || same_text longopt (spelling allow)
      then continues false args (record o { allow_bytecode = true })
      else exits 1

  -- The loop over the letters of an argument.
  pub letters : Text → List Text → Options → Next
  letters [] args o = continues true args o
  letters (opt ∷ arg) args o = elim (option opt [] arg args o) [
    | exits code ↦ exits code
    | breaks args' o' ↦ breaks args' o'
    | continues at_end args' o' ↦ elim at_end [
      | true ↦ continues true args' o'
      | false ↦ letters arg args' o'
    ]
  ]

  -- An argument behind its first dash; `none` for `--`, which ends the options.
  pub argument : Text → List Text → Options → Option Next
  argument [] args o = none
  argument (d ∷ longopt) args o =
      let letter = some (letters (d ∷ longopt) args o) in
      if d == b'-'
      then elim longopt [ [] ↦ none | (e ∷ name) ↦ some (option 0 (e ∷ name) [] args o) ]
      else letter

  -- The loop over the arguments; the fuel bounds its rounds.
  pub read_options : ℕ → List Text → Options → Option Parsed
  read_options zero args o = none
  read_options (suc fuel) [] o = some (arguments [] o)
  read_options (suc fuel) ([] ∷ args) o = some (arguments ([] ∷ args) o)
  read_options (suc fuel) ((c ∷ []) ∷ args) o = some (arguments ((c ∷ []) ∷ args) o)
  read_options (suc fuel) ((c ∷ d ∷ arg) ∷ args) o = elim (not (c == b'-')) [
    | true ↦ some (arguments ((c ∷ d ∷ arg) ∷ args) o)
    | false ↦ elim (argument (d ∷ arg) args o) [
      | none ↦ some (arguments args o)
      | some (exits code) ↦ some (exits_with code)
      | some (breaks args' o') ↦ read_options fuel args' o'
      | some (continues _ args' o') ↦ read_options fuel args' o'
    ]
  ]
