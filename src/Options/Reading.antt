-- ===== src/Options/Reading.antt =====
-- About the loop that reads the options: its end, and the arguments that are left.
use mquickjs_port.Base.{
  ℕ, zero, suc, ◌≤◌, ◌<◌, ◌≡◌, refl, ap, arith, ◌==◌, not, Bool, true, false, List, [], ◌∷◌, length,
  length-append, Option, none, some,
}
use mquickjs_port.Options.{
  Text, no_options, Options, max_includes, Next, exits, breaks, continues, Parsed, exits_with,
  arguments, Numbers, argument, read_options,
}
use mquickjs_port.Options.Kept.{
  IsSuffix, Consumes, KeepsRest, OptionKeepsRest, read_trans, argument_good,
}

module _ {D : Type 0} (n : Numbers D) where
  -- The arguments are read: the result, and what is left of them.
  HasResult : ℕ → List Text → Option Parsed → Type 0
  HasResult fuel args r = (p : Parsed) × (r ≡ some p) × Consumes args p

  Continues : ℕ → Type 0
  Continues fuel =
      (args : List Text) (o : Options)
      → length args < fuel
      → length o.include_list ≤ max_includes
      → HasResult fuel args (read_options n fuel args o)

  behind :
      (fuel : ℕ) (a : Text) (args left : List Text) (o : Options)
      → Continues fuel
      → length args < fuel
      → IsSuffix args left o
      → HasResult fuel (a ∷ args) (read_options n fuel left o)
  unfolding HasResult Continues
  behind fuel a args left o ih h ((taken, e), few) =
      let less : length left < fuel =
        omega (arith, h, ap (λ (t : List Text). length t) e, length-append taken left) in
      let (p, r, read) = ih left o less few in
      (
        p,
        r,
        read_trans (a ∷ args) left o p ((a ∷ taken, ap (λ (t : List Text). a ∷ t) e), few) read,
      )

  next_of :
      (fuel : ℕ) (a : Text) (args : List Text) (o : Options) (next : Option Next)
      → Continues fuel
      → length args < fuel
      → OptionKeepsRest args o next
      → HasResult fuel (a ∷ args) (elim next [
        | none ↦ some (arguments args o)
        | some (exits code) ↦ some (exits_with code)
        | some (breaks args' o') ↦ read_options n fuel args' o'
        | some (continues _ args' o') ↦ read_options n fuel args' o'
      ])
  unfolding HasResult OptionKeepsRest KeepsRest
  next_of fuel a args o none ih h g = (arguments args o, refl, ((a ∷ [], refl), g.1))
  next_of fuel a args o (some (exits code)) ih h g = (exits_with code, refl, tt)
  next_of fuel a args o (some (breaks left o')) ih h g = behind fuel a args left o' ih h g
  next_of fuel a args o (some (continues _ left o')) ih h g = behind fuel a args left o' ih h g

  dash_of :
      (fuel : ℕ) (b : Bool) (a : Text) (args : List Text) (o : Options) (next : Option Next)
      → length o.include_list ≤ max_includes
      → HasResult fuel (a ∷ args) (elim next [
        | none ↦ some (arguments args o)
        | some (exits code) ↦ some (exits_with code)
        | some (breaks args' o') ↦ read_options n fuel args' o'
        | some (continues _ args' o') ↦ read_options n fuel args' o'
      ])
      → HasResult fuel (a ∷ args) (elim b [
        | true ↦ some (arguments (a ∷ args) o)
        | false ↦ elim next [
          | none ↦ some (arguments args o)
          | some (exits code) ↦ some (exits_with code)
          | some (breaks args' o') ↦ read_options n fuel args' o'
          | some (continues _ args' o') ↦ read_options n fuel args' o'
        ]
      ])
  unfolding HasResult
  dash_of fuel true a args o next few r = (arguments (a ∷ args) o, refl, (([], refl), few))
  dash_of fuel false a args o next few r = r

  read_lem : (fuel : ℕ) → Continues fuel
  unfolding read_options HasResult Continues
  read_lem zero args o h few = absurd (ground (arith, h))
  read_lem (suc fuel) [] o h few = (arguments [] o, refl, (([], refl), few))
  read_lem (suc fuel) ([] ∷ args) o h few = (arguments ([] ∷ args) o, refl, (([], refl), few))
  read_lem (suc fuel) ((c ∷ []) ∷ args) o h few =
      (arguments ((c ∷ []) ∷ args) o, refl, (([], refl), few))
  read_lem (suc fuel) ((c ∷ d ∷ arg) ∷ args) o h few =
      let less : length args < fuel = omega (arith, h) in
      dash_of fuel (not (c == b'-')) (c ∷ d ∷ arg) args o (argument n (d ∷ arg) args o) few (
        next_of fuel (c ∷ d ∷ arg) args o (argument n (d ∷ arg) args o) (read_lem fuel) less
          (argument_good n (d ∷ arg) args o few))

  -- For every command line the reading of the options ends, within as many rounds as there are
  -- arguments and one more: the process exits, or what is left is an end of the arguments, as they
  -- were, and at most 32 files are included.
  pub read_options_total :
      (args : List Text)
      → (p : Parsed) × (read_options n (suc (length args)) args no_options ≡ some p)
        × Consumes args p
  unfolding no_options Continues HasResult
  read_options_total args = read_lem (suc (length args)) args no_options (omega arith) (omega arith)
