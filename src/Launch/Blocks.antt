-- ===== src/Launch/Blocks.antt =====
-- A block of builders and the steps that it describes.
use mquickjs_port.Base.{
  ◌+◌, ◌≤◌, ◌<◌, ◌≡◌, refl, ap, sym, ◌∙◌, arith, if◌then◌else◌, ◌==◌, leb, ltb, Bool, true, false,
  List, [], ◌∷◌, ◌++◌, map, length, length-append, All, Option, none, some,
}
use mquickjs_port.Launch.{
  step_include, step_eval, step_script, step_compile, step_interactive, Step, RunSpec, Builder,
  compile, interactive, force_the_32bit, include, eval, script, arg, input, output, spec_new,
  new_step, fresh, on_last, cur_step, add_arg, apply, build, max_steps, max_args,
}

-- A step as the builders write it.
pub data Block (S : Type 0) : Type 0 where
  includes evals : S → Block S
  scripts : S → List S → Block S
  compiles : S → S → Bool → Block S
  interacts : Block S

module _ {A : Type 0} where
  snoc_assoc : (xs : List A) (x : A) (ys : List A) → (xs ++ x ∷ []) ++ ys ≡ xs ++ x ∷ ys
  snoc_assoc [] x ys = refl
  snoc_assoc (y ∷ xs) x ys = ap (λ (t : List A). y ∷ t) (snoc_assoc xs x ys)

  append_nil : (xs : List A) → xs ++ [] ≡ xs
  append_nil [] = refl
  append_nil (x ∷ xs) = ap (λ (t : List A). x ∷ t) (append_nil xs)

module _ {S : Type 0} where
  -- The builders of a block, and its step.
  abbrev pub builders : Block S → List (Builder S)
  builders (includes path) = include path ∷ []
  builders (evals source) = eval source ∷ []
  builders (scripts path args) = script path ∷ map arg args
  builders (compiles path out_path force) =
      compile ∷ input path ∷ output out_path ∷ (if force then force_the_32bit ∷ [] else [])
  builders interacts = interactive ∷ []

  abbrev pub step : Block S → Step S
  step (includes path) = fresh step_include (some path)
  step (evals source) = fresh step_eval (some source)
  step (scripts path args) = record (fresh step_script (some path)) { args = args }
  step (compiles path out_path force) = record {
    kind = step_compile;
    source = some path;
    out_path = some out_path;
    force_32bit = force;
    args = [];
  }
  step interacts = fresh step_interactive none

  abbrev pub FewArgs : Block S → Type 0
  FewArgs b = length (step b).args ≤ max_args

  abbrev pub all_builders : List (Block S) → List (Builder S)
  all_builders [] = []
  all_builders (b ∷ blocks) = builders b ++ all_builders blocks

  with_steps : RunSpec S → List (Step S) → RunSpec S
  with_steps spec steps = record spec { steps = steps }

  on_last-snoc :
      (f : Step S → Step S) (xs : List (Step S)) (s : Step S)
      → on_last f (xs ++ s ∷ []) ≡ xs ++ f s ∷ []
  on_last-snoc f [] s = refl
  on_last-snoc f (x ∷ []) s = refl
  on_last-snoc f (x ∷ y ∷ xs) s = ap (λ (t : List (Step S)). x ∷ t) (on_last-snoc f (y ∷ xs) s)

  new_step_lem :
      (s : Step S) (spec : RunSpec S)
      → length spec.steps < max_steps
      → new_step s spec ≡ some (with_steps spec (spec.steps ++ s ∷ []))
  unfolding new_step with_steps
  new_step_lem s spec h =
      let free : leb max_steps (length spec.steps) ≡ false = ground arith in
      ap
        (λ (b : Bool). elim b [
          | true ↦ none
          | false ↦ some (with_steps spec (spec.steps ++ s ∷ []))
        ])
        free

  cur_step_lem :
      (f : Step S → Step S) (s : Step S) (spec : RunSpec S) (steps : List (Step S))
      → cur_step f (with_steps spec (steps ++ s ∷ [])) ≡ some (with_steps spec (steps ++ f s ∷ []))
  unfolding cur_step with_steps
  cur_step_lem f s spec steps =
      let some_step : (length (steps ++ s ∷ []) == 0) ≡ false =
        ground (arith, length-append steps (s ∷ [])) in
      ap
        (λ (b : Bool). elim b [
          | true ↦ none
          | false ↦ some (with_steps spec (on_last f (steps ++ s ∷ [])))
        ])
        some_step
      ∙ ap (λ (t : List (Step S)). some (with_steps spec t)) (on_last-snoc f steps s)

  with_args : Step S → List S → Step S
  with_args s args = record s { args = args }

  -- The builders behind a call, when the call succeeds.
  build_next :
      (call : Builder S) (calls : List (Builder S)) (spec spec' : RunSpec S)
      → apply call spec ≡ some spec'
      → build (call ∷ calls) spec ≡ build calls spec'
  unfolding build
  build_next call calls spec spec' h =
      ap (λ (r : Option (RunSpec S)). elim r [ none ↦ none | some spec' ↦ build calls spec' ]) h

  add_arg_lem :
      (a : S) (s : Step S) (done : List S)
      → length done < max_args
      → add_arg a (with_args s done) ≡ with_args s (done ++ a ∷ [])
  unfolding add_arg with_args
  add_arg_lem a s done h =
      let free : ltb (length done) max_args ≡ true = ground arith in
      ap (λ (b : Bool). if b then with_args s (done ++ a ∷ []) else with_args s done) free

  build_args :
      (args : List S) (calls : List (Builder S)) (s : Step S) (done : List S) (spec : RunSpec S)
      (steps : List (Step S))
      → length done + length args ≤ max_args
      → build (map arg args ++ calls) (with_steps spec (steps ++ with_args s done ∷ []))
        ≡ build calls (with_steps spec (steps ++ with_args s (done ++ args) ∷ []))
  unfolding apply
  build_args [] calls s done spec steps h =
      ap (λ (t : List S). build calls (with_steps spec (steps ++ with_args s t ∷ [])))
        (sym (append_nil done))
  build_args (a ∷ args) calls s done spec steps h =
      build_next (arg a) (map arg args ++ calls) (with_steps spec (steps ++ with_args s done ∷ []))
        (with_steps spec (steps ++ with_args s (done ++ a ∷ []) ∷ []))
        (cur_step_lem (add_arg a) (with_args s done) spec steps
          ∙ ap (λ (t : Step S). some (with_steps spec (steps ++ t ∷ [])))
              (add_arg_lem a s done (omega (arith, h))))
      ∙ build_args args calls s (done ++ a ∷ []) spec steps
          (omega (arith, h, length-append done (a ∷ [])))
      ∙ ap (λ (t : List S). build calls (with_steps spec (steps ++ with_args s t ∷ [])))
          (snoc_assoc done a args)

  abbrev force_if : Bool → List (Builder S) → List (Builder S)
  force_if force calls = (if force then force_the_32bit ∷ [] else []) ++ calls

  build_force :
      (force : Bool) (calls : List (Builder S)) (s : Step S) (spec : RunSpec S)
      (steps : List (Step S))
      → s.force_32bit ≡ false
      → build (force_if force calls) (with_steps spec (steps ++ s ∷ []))
        ≡ build calls (with_steps spec (steps ++ record s { force_32bit = force } ∷ []))
  unfolding apply
  build_force true calls s spec steps h =
      build_next force_the_32bit calls (with_steps spec (steps ++ s ∷ []))
        (with_steps spec (steps ++ record s { force_32bit = true } ∷ []))
        (cur_step_lem (λ s. record s { force_32bit = true }) s spec steps)
  build_force false calls s spec steps h =
      ap (λ (b : Bool). build calls (with_steps spec (steps ++ record s { force_32bit = b } ∷ [])))
        h

  build_block :
      (b : Block S) (calls : List (Builder S)) (spec : RunSpec S)
      → length spec.steps < max_steps
      → FewArgs b
      → build (builders b ++ calls) spec ≡ build calls (with_steps spec (spec.steps ++ step b ∷ []))
  unfolding apply with_args build
  build_block (includes path) calls spec h few =
      build_next (include path) calls spec
        (with_steps spec (spec.steps ++ fresh step_include (some path) ∷ []))
        (new_step_lem (fresh step_include (some path)) spec h)
  build_block (evals source) calls spec h few =
      build_next (eval source) calls spec
        (with_steps spec (spec.steps ++ fresh step_eval (some source) ∷ []))
        (new_step_lem (fresh step_eval (some source)) spec h)
  build_block (scripts path args) calls spec h few =
      build_next (script path) (map arg args ++ calls) spec
        (with_steps spec (spec.steps ++ fresh step_script (some path) ∷ []))
        (new_step_lem (fresh step_script (some path)) spec h)
      ∙ build_args args calls (fresh step_script (some path)) [] spec spec.steps
          (omega (arith, few))
  build_block (compiles path out_path force) calls spec h few =
      let made : Step S = fresh step_compile none in
      let read : Step S = record made { source = some path } in
      let written : Step S = record read { out_path = some out_path } in
      build_next compile (input path ∷ output out_path ∷ force_if force calls) spec
        (with_steps spec (spec.steps ++ made ∷ [])) (new_step_lem made spec h)
      ∙ build_next (input path) (output out_path ∷ force_if force calls)
          (with_steps spec (spec.steps ++ made ∷ [])) (with_steps spec (spec.steps ++ read ∷ []))
          (cur_step_lem (λ s. record s { source = some path }) made spec spec.steps)
      ∙ build_next (output out_path) (force_if force calls)
          (with_steps spec (spec.steps ++ read ∷ [])) (with_steps spec (spec.steps ++ written ∷ []))
          (cur_step_lem (λ s. record s { out_path = some out_path }) read spec spec.steps)
      ∙ build_force force calls written spec spec.steps refl
  build_block interacts calls spec h few =
      build_next interactive calls spec
        (with_steps spec (spec.steps ++ fresh step_interactive none ∷ []))
        (new_step_lem (fresh step_interactive none) spec h)

  build_blocks :
      (blocks : List (Block S)) (spec : RunSpec S)
      → length spec.steps + length blocks ≤ max_steps
      → All FewArgs blocks
      → build (all_builders blocks) spec ≡ some (with_steps spec (spec.steps ++ map step blocks))
  unfolding build with_steps
  build_blocks [] spec h few =
      ap (λ (t : List (Step S)). some (record spec { steps = t })) (sym (append_nil spec.steps))
  build_blocks (b ∷ blocks) spec h (few, fews) =
      let short : length spec.steps < max_steps = omega (arith, h) in
      let next = with_steps spec (spec.steps ++ step b ∷ []) in
      let few_steps : length (spec.steps ++ step b ∷ []) + length blocks ≤ max_steps =
        omega (arith, h, length-append spec.steps (step b ∷ [])) in
      build_block b (all_builders blocks) spec short few
      ∙ build_blocks blocks next few_steps fews
      ∙ ap (λ (t : List (Step S)). some (with_steps spec t))
          (snoc_assoc spec.steps (step b) (map step blocks))

  -- For at most 64 blocks, with at most 32 arguments each, the builders that write them make a
  -- RunSpec whose steps are the blocks in their order.
  pub build_lem :
      (blocks : List (Block S))
      → length blocks ≤ max_steps
      → All FewArgs blocks
      → build (all_builders blocks) spec_new ≡ some (record spec_new { steps = map step blocks })
  unfolding spec_new with_steps
  build_lem blocks h few = build_blocks blocks spec_new (omega (arith, h)) few
