-- ===== src/Options/Kept.antt =====
-- What an option leaves of the arguments and of the included files.
use mquickjs_port.Base.{
  ℕ, suc, ◌≤◌, ◌≡◌, refl, ap, sym, ◌∙◌, arith, if◌then◌else◌, ◌==◌, leb, Bool, true, false, List,
  [], ◌∷◌, ◌++◌, length, length-append, Option, none, some, bit_or,
}
use mquickjs_port.Launch.{js_eval_strip_col}
use mquickjs_port.Options.{
  Text, Options, max_includes, Next, exits, breaks, continues, Parsed, exits_with, arguments,
  Numbers, value_of, add_include, set_memory_limit, option, letters, argument,
}

-- The arguments end with the ones that are left, and the array of the included files is not overrun.
abbrev pub IsSuffix : List Text → List Text → Options → Type 0
IsSuffix args left o =
    ((taken : List Text) × (args ≡ taken ++ left)) × (length o.include_list ≤ max_includes)

unfoldable pub KeepsRest : List Text → Next → Type 0
KeepsRest args (exits code) = Unit
KeepsRest args (breaks left o) = IsSuffix args left o
KeepsRest args (continues at_end left o) = IsSuffix args left o

abbrev pub Consumes : List Text → Parsed → Type 0
Consumes args (exits_with code) = Unit
Consumes args (arguments left o) = IsSuffix args left o

append_assoc : (xs ys zs : List Text) → (xs ++ ys) ++ zs ≡ xs ++ (ys ++ zs)
append_assoc [] ys zs = refl
append_assoc (x ∷ xs) ys zs = ap (λ (t : List Text). x ∷ t) (append_assoc xs ys zs)

-- What is left of what was left.
pub left_trans :
    (args left rest : List Text) (o o' : Options)
    → IsSuffix args left o
    → IsSuffix left rest o'
    → IsSuffix args rest o'
left_trans args left rest o o' ((taken, e), _) ((taken', e'), few) = (
  (
    taken ++ taken',
    e ∙ ap (λ (t : List Text). taken ++ t) e' ∙ sym (append_assoc taken taken' rest),
  ),
  few,
)

good_trans :
    (args left : List Text) (o : Options) (next : Next)
    → IsSuffix args left o
    → KeepsRest left next
    → KeepsRest args next
unfolding KeepsRest
good_trans args left o (exits code) h g = tt
good_trans args left o (breaks rest o') h g = left_trans args left rest o o' h g
good_trans args left o (continues at_end rest o') h g = left_trans args left rest o o' h g

pub read_trans :
    (args left : List Text) (o : Options) (p : Parsed)
    → IsSuffix args left o
    → Consumes left p
    → Consumes args p
read_trans args left o (exits_with code) h g = tt
read_trans args left o (arguments rest o') h g = left_trans args left rest o o' h g

unfoldable pub OptionKeepsRest : List Text → Options → Option Next → Type 0
OptionKeepsRest args o none = IsSuffix args args o
OptionKeepsRest args o (some next) = KeepsRest args next

exits_good : (args : List Text) (code : ℕ) → KeepsRest args (exits code)
unfolding KeepsRest
exits_good args code = tt

goes_on :
    (at_end : Bool) (args : List Text) (o : Options)
    → length o.include_list ≤ max_includes
    → KeepsRest args (continues at_end args o)
unfolding KeepsRest
goes_on at_end args o h = (([], refl), h)

either : (P : Next → Type 0) (b : Bool) (x y : Next) → P x → P y → P (if b then x else y)
either P true x y h h' = h
either P false x y h h' = h'

value_good :
    (set : Text → Options) (arg : Text) (args : List Text)
    → ((t : Text) → length (set t).include_list ≤ max_includes)
    → KeepsRest args (value_of set arg args)
unfolding value_of KeepsRest
value_good set (c ∷ arg) args h = (([], refl), h (c ∷ arg))
value_good set [] (a ∷ args) h = ((a ∷ [], refl), h a)
value_good set [] [] h = tt

include_if :
    (a : Text) (args : List Text) (o : Options) (b : Bool)
    → leb max_includes (length o.include_list) ≡ b
    → KeepsRest (a ∷ args) (
        if b
        then exits 1
        else continues false args (record o { include_list = o.include_list ++ a ∷ [] }))
unfolding KeepsRest
include_if a args o true h = tt
include_if a args o false h =
    ((a ∷ [], refl), ground (arith, h, length-append o.include_list (a ∷ [])))

include_good : (args : List Text) (o : Options) → KeepsRest args (add_include args o)
unfolding add_include KeepsRest
include_good [] o = tt
include_good (a ∷ args) o = include_if a args o (leb max_includes (length o.include_list)) refl

module _ {D : Type 0} (n : Numbers D) where
  memory_good :
      (args : List Text) (o : Options)
      → length o.include_list ≤ max_includes
      → KeepsRest args (set_memory_limit n args o)
  unfolding set_memory_limit KeepsRest
  memory_good [] o h = tt
  memory_good (a ∷ args) o h = ((a ∷ [], refl), h)

  option_good :
      (opt : ℕ) (longopt arg : Text) (args : List Text) (o : Options)
      → length o.include_list ≤ max_includes
      → KeepsRest args (option n opt longopt arg args o)
  unfolding option
  option_good opt longopt arg args o h = either (KeepsRest args) _ _ _ (exits_good args 1) (
      either (KeepsRest args) _ _ _ (value_good (λ t. record o { expr = some t }) arg args (λ t. h))
        (either (KeepsRest args) _ _ _ (memory_good args o h) (
          either (KeepsRest args) _ _ _
            (goes_on false args (record o { dump_memory = suc o.dump_memory }) h)
            (either (KeepsRest args) _ _ _
              (goes_on false args (record o { interactive = suc o.interactive }) h)
              (either (KeepsRest args) _ _ _
                (value_good (λ t. record o { out_filename = some t }) arg args (λ t. h))
                (either (KeepsRest args) _ _ _ (include_good args o) (
                  either (KeepsRest args) _ _ _
                    (goes_on false args
                      (record o { parse_flags = bit_or o.parse_flags js_eval_strip_col }) h)
                    (either (KeepsRest args) _ _ _
                      (goes_on true args (record o { force_32bit = true }) h)
                      (either (KeepsRest args) _ _ _
                        (goes_on false args (record o { allow_bytecode = true }) h)
                        (exits_good args 1))))))))))

  letters_of :
      (arg : Text) (args : List Text) (next : Next)
      → ((left : List Text) (o : Options)
          → length o.include_list ≤ max_includes
          → KeepsRest left (letters n arg left o))
      → KeepsRest args next
      → KeepsRest args (elim next [
        | exits code ↦ exits code
        | breaks args' o' ↦ breaks args' o'
        | continues at_end args' o' ↦ elim at_end [
          | true ↦ continues true args' o'
          | false ↦ letters n arg args' o'
        ]
      ])
  unfolding KeepsRest
  letters_of arg args (exits code) ih h = tt
  letters_of arg args (breaks left o) ih h = h
  letters_of arg args (continues true left o) ih h = h
  letters_of arg args (continues false left o) ih h =
      good_trans args left o (letters n arg left o) h (ih left o h.1)

  letters_good :
      (arg : Text) (args : List Text) (o : Options)
      → length o.include_list ≤ max_includes
      → KeepsRest args (letters n arg args o)
  unfolding letters KeepsRest
  letters_good [] args o h = (([], refl), h)
  letters_good (opt ∷ arg) args o h =
      letters_of arg args (option n opt [] arg args o) (λ left o' h'. letters_good arg left o' h')
        (option_good opt [] arg args o h)

  argument_if :
      (b : Bool) (longopt : Text) (args : List Text) (o : Options) (letter : Next)
      → length o.include_list ≤ max_includes
      → KeepsRest args letter
      → OptionKeepsRest args o (
          if b
          then elim longopt [ [] ↦ none | (e ∷ name) ↦ some (option n 0 (e ∷ name) [] args o) ]
          else some letter)
  unfolding OptionKeepsRest
  argument_if true [] args o letter h g = (([], refl), h)
  argument_if true (e ∷ name) args o letter h g = option_good 0 (e ∷ name) [] args o h
  argument_if false longopt args o letter h g = g

  pub argument_good :
      (arg : Text) (args : List Text) (o : Options)
      → length o.include_list ≤ max_includes
      → OptionKeepsRest args o (argument n arg args o)
  unfolding argument OptionKeepsRest
  argument_good [] args o h = (([], refl), h)
  argument_good (d ∷ longopt) args o h =
      argument_if (d == b'-') longopt args o (letters n (d ∷ longopt) args o) h
        (letters_good (d ∷ longopt) args o h)
