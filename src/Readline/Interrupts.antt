-- ===== src/Readline/Interrupts.antt =====
-- About the presses of Ctrl-C at which `readline_tty` ends.
use mquickjs_port.Base.{
  ℕ, zero, suc, ◌+◌, ◌<◌, ◌≡◌, refl, ap, sym, ◌∙◌, arith, if◌then◌else◌, ◌==◌, Bool, true, false,
  List, [], ◌∷◌, ◌++◌, replicate, Option, none, some, ◌⊎◌, inl, inr,
}
use mquickjs_port.Readline.{
  Handled, not_handled, accepted, exit, ReadResult, end_of_input, failed, bytes, Ending,
  line_accepted, editor_exits, ctrl_c_exits, press_again, exiting, Terminal, signals, handle_bytes,
  check_ctrl_c, interrupted, read_loop, readline_tty, sigint_handler,
}

-- The presses of Ctrl-C that come with a `read`.
abbrev pub presses_of : ReadResult → ℕ
presses_of (end_of_input presses) = presses
presses_of (failed presses) = presses
presses_of (bytes presses first rest) = presses

-- Ctrl-C, with no byte before it.
abbrev pub NextPress : List ReadResult → Type 0
NextPress reads =
    (idle : ℕ) × (presses : ℕ) × (rest : List ReadResult) × (reads
      ≡ replicate idle (failed 0) ++ failed (suc presses) ∷ rest)

-- Ctrl-C, and again with no byte in between.
abbrev pub PressedTwice : List ReadResult → Type 0
PressedTwice reads =
    (before : List ReadResult) × (r : ReadResult) × (behind : List ReadResult) × (reads
      ≡ before ++ r ∷ behind)
    × (0 < presses_of r)
    × NextPress behind

later : (r : ReadResult) (reads : List ReadResult) → PressedTwice reads → PressedTwice (r ∷ reads)
later r reads (before, r', behind, e, some_press, next) =
    (r ∷ before, r', behind, ap (λ (t : List ReadResult). r ∷ t) e, some_press, next)

idle_next : (reads : List ReadResult) → NextPress reads → NextPress (failed 0 ∷ reads)
idle_next reads (idle, presses, rest, e) =
    (suc idle, presses, rest, ap (λ (t : List ReadResult). failed 0 ∷ t) e)

signals_lem : (presses c : ℕ) → signals presses c ≡ presses + c
unfolding signals sigint_handler
signals_lem zero c = omega arith
signals_lem (suc presses) c = omega (arith, signals_lem presses (suc c))

eq_zero : (n : ℕ) → n ≡ 0 → (n == 0) ≡ true
eq_zero n h = ground (arith, h)

zero_or_pos : (n : ℕ) → (n ≡ 0) ⊎ (0 < n)
zero_or_pos zero = inl refl
zero_or_pos (suc n) = inr (omega arith)

-- The byte ends the loop.
ends_loop : Handled → Bool
ends_loop not_handled = false
ends_loop _ = true

not_zero : (n : ℕ) → 0 < n → (n == 0) ≡ false
not_zero n h = ground (arith, h)

module _ {S : Type 0} where
  quiet : (t : Terminal S) → t.ctrl_c_pressed ≡ 0 → check_ctrl_c t ≡ (false, t)
  unfolding check_ctrl_c
  quiet t h =
      ap
        (λ (b : Bool).
          if b
          then (false, t)
          else if t.ctrl_c_count == 0
          then (
            false,
            record t { ctrl_c_pressed = 0; ctrl_c_count = 1; printed = press_again ∷ t.printed },
          )
          else (true, record t { ctrl_c_pressed = 0; printed = exiting ∷ t.printed }))
        (eq_zero t.ctrl_c_pressed h)

  first_press :
      (t : Terminal S)
      → 0 < t.ctrl_c_pressed
      → t.ctrl_c_count ≡ 0
      → check_ctrl_c t ≡ (
        false,
        record t { ctrl_c_pressed = 0; ctrl_c_count = 1; printed = press_again ∷ t.printed },
      )
  unfolding check_ctrl_c
  first_press t h h' =
      ap
        (λ (b : Bool).
          if b
          then (false, t)
          else if t.ctrl_c_count == 0
          then (
            false,
            record t { ctrl_c_pressed = 0; ctrl_c_count = 1; printed = press_again ∷ t.printed },
          )
          else (true, record t { ctrl_c_pressed = 0; printed = exiting ∷ t.printed }))
        (not_zero t.ctrl_c_pressed h)
      ∙ ap
          (λ (b : Bool).
            if b
            then (
              false,
              record t { ctrl_c_pressed = 0; ctrl_c_count = 1; printed = press_again ∷ t.printed },
            )
            else (true, record t { ctrl_c_pressed = 0; printed = exiting ∷ t.printed }))
          (eq_zero t.ctrl_c_count h')

  at_ctrl_c : Option (Ending × Terminal S) → Bool
  at_ctrl_c none = false
  at_ctrl_c (some (ctrl_c_exits, t)) = true
  at_ctrl_c (some (_, t)) = false

module _ {S : Type 0} (handle_byte : S → ℕ → Handled × S) where
  -- The loop behind the test of `ctrl_c_pressed`.
  behind_check : List ReadResult → Bool × Terminal S → Option (Ending × Terminal S)
  behind_check reads r =
      let (leaves, t) = r in
      elim leaves [ true ↦ some (ctrl_c_exits, t) | false ↦ read_loop handle_byte reads t ]

  behind_bytes : List ReadResult → Handled × Terminal S → Option (Ending × Terminal S)
  behind_bytes reads r =
      let (ret, t) = r in
      elim ret [
        | exit ↦ some (editor_exits, t)
        | accepted ↦ some (line_accepted, t)
        | not_handled ↦ behind_check reads (check_ctrl_c t)
      ]

  EndsByPress : List ReadResult → Bool → Type 0
  EndsByPress reads armed = PressedTwice reads ⊎ ((armed ≡ true) × NextPress reads)

  -- The bytes of one `read` leave `ctrl_c_pressed` alone, and reset the count unless they end the loop.
  KeepsPresses : ℕ → Handled × Terminal S → Type 0
  KeepsPresses pressed r =
      (r.1.ctrl_c_pressed ≡ pressed) × ((ends_loop r.0 ≡ true) ⊎ (r.1.ctrl_c_count ≡ 0))

  by_ret :
      (ret : Handled) (pressed : ℕ) (t : Terminal S) (rest : Handled × Terminal S)
      → t.ctrl_c_pressed ≡ pressed
      → KeepsPresses pressed rest
      → KeepsPresses pressed
          (elim ret [ exit ↦ (exit, t) | accepted ↦ (accepted, t) | not_handled ↦ rest ])
  unfolding KeepsPresses ends_loop
  by_ret exit pressed t rest h k = (h, inl refl)
  by_ret accepted pressed t rest h k = (h, inl refl)
  by_ret not_handled pressed t rest h k = k

  rest_kept :
      (cs : List ℕ) (t : Terminal S)
      → t.ctrl_c_count ≡ 0
      → KeepsPresses t.ctrl_c_pressed (handle_bytes handle_byte cs t)
  unfolding handle_bytes KeepsPresses
  rest_kept [] t h = (refl, inr h)
  rest_kept (c ∷ cs) t h =
      let editor = (handle_byte t.editor c).1 in
      by_ret (handle_byte t.editor c).0 t.ctrl_c_pressed (record t { editor = editor })
        (handle_bytes handle_byte cs (record t { editor = editor; ctrl_c_count = 0 })) refl
        (rest_kept cs (record t { editor = editor; ctrl_c_count = 0 }) refl)

  bytes_kept :
      (c : ℕ) (cs : List ℕ) (t : Terminal S)
      → KeepsPresses t.ctrl_c_pressed (handle_bytes handle_byte (c ∷ cs) t)
  unfolding handle_bytes KeepsPresses
  bytes_kept c cs t =
      let editor = (handle_byte t.editor c).1 in
      by_ret (handle_byte t.editor c).0 t.ctrl_c_pressed (record t { editor = editor })
        (handle_bytes handle_byte cs (record t { editor = editor; ctrl_c_count = 0 })) refl
        (rest_kept cs (record t { editor = editor; ctrl_c_count = 0 }) refl)

  -- The rest of the loop behind Ctrl-C, or without it, when the count is 0.
  Continues : List ReadResult → Type 0
  Continues reads =
      (t : Terminal S) (armed : Bool)
      → t.ctrl_c_pressed ≡ 0
      → t.ctrl_c_count ≡ (if armed then 1 else 0)
      → at_ctrl_c (read_loop handle_byte reads t) ≡ true
      → EndsByPress reads armed

  pressed_now :
      (r : ReadResult) (reads : List ReadResult)
      → 0 < presses_of r
      → EndsByPress reads true
      → PressedTwice (r ∷ reads)
  unfolding EndsByPress
  pressed_now r reads h (inl twice) = later r reads twice
  pressed_now r reads h (inr (_, next)) = ([], r, reads, refl, h, next)

  unarmed :
      (r : ReadResult) (reads : List ReadResult) (t : Terminal S)
      → Continues reads
      → t.ctrl_c_pressed ≡ presses_of r
      → t.ctrl_c_count ≡ 0
      → at_ctrl_c (behind_check reads (check_ctrl_c t)) ≡ true
      → PressedTwice (r ∷ reads)
  unfolding Continues behind_check EndsByPress
  unarmed r reads t ih h h' e = elim (zero_or_pos (presses_of r)) [
    | inl no_press ↦
        let e' : at_ctrl_c (read_loop handle_byte reads t) ≡ true =
          ap (λ (x : Bool × Terminal S). at_ctrl_c (behind_check reads x))
            (sym (quiet t (h ∙ no_press)))
          ∙ e in
        elim (ih t false (h ∙ no_press) h' e') [
          | inl twice ↦ later r reads twice
          | inr (never, _) ↦ absurd (ground arith)
        ]
    | inr some_press ↦
        let t' : Terminal S = record t {
          ctrl_c_pressed = 0;
          ctrl_c_count = 1;
          printed = press_again ∷ t.printed;
        } in
        let pressed : 0 < t.ctrl_c_pressed = omega (arith, h, some_press) in
        let e' : at_ctrl_c (read_loop handle_byte reads t') ≡ true =
          ap (λ (x : Bool × Terminal S). at_ctrl_c (behind_check reads x))
            (sym (first_press t pressed h'))
          ∙ e in
        pressed_now r reads some_press (ih t' true refl refl e')
  ]

  bytes_case :
      (r : ReadResult) (reads : List ReadResult) (handled : Handled × Terminal S)
      → Continues reads
      → KeepsPresses (presses_of r) handled
      → at_ctrl_c (behind_bytes reads handled) ≡ true
      → PressedTwice (r ∷ reads)
  unfolding KeepsPresses behind_bytes at_ctrl_c ends_loop
  bytes_case r reads (exit, t) ih kept e = absurd (ground arith)
  bytes_case r reads (accepted, t) ih kept e = absurd (ground arith)
  bytes_case r reads (not_handled, t) ih (same, inl never) e = absurd (ground arith)
  bytes_case r reads (not_handled, t) ih (same, inr reset) e = unarmed r reads t ih same reset e

  left_lem :
      (reads : List ReadResult) (t : Terminal S) (armed : Bool)
      → t.ctrl_c_pressed ≡ 0
      → t.ctrl_c_count ≡ (if armed then 1 else 0)
      → at_ctrl_c (read_loop handle_byte reads t) ≡ true
      → EndsByPress reads armed
  unfolding read_loop at_ctrl_c EndsByPress KeepsPresses behind_check behind_bytes signals Continues
  left_lem [] t armed h h' e = absurd (ground arith)
  left_lem (end_of_input presses ∷ reads) t armed h h' e = absurd (ground arith)
  left_lem (failed zero ∷ reads) t armed h h' e =
      let e' : at_ctrl_c (read_loop handle_byte reads t) ≡ true =
        ap (λ (x : Bool × Terminal S). at_ctrl_c (behind_check reads x)) (sym (quiet t h)) ∙ e in
      elim (left_lem reads t armed h h' e') [
        | inl twice ↦ inl (later (failed 0) reads twice)
        | inr (is_armed, next) ↦ inr (is_armed, idle_next reads next)
      ]
  left_lem (failed (suc presses) ∷ reads) t true h h' e = inr (refl, (0, presses, reads, refl))
  left_lem (failed (suc presses) ∷ reads) t false h h' e = inl (
      unarmed (failed (suc presses)) reads (interrupted (suc presses) t)
        (λ t armed a b c. left_lem reads t armed a b c)
        (signals_lem (suc presses) t.ctrl_c_pressed ∙ omega (arith, h)) h' e)
  left_lem (bytes presses c cs ∷ reads) t armed h h' e =
      let (same, reset) = bytes_kept c cs (interrupted presses t) in
      inl (
        bytes_case (bytes presses c cs) reads
          (handle_bytes handle_byte (c ∷ cs) (interrupted presses t))
          (λ t armed a b c. left_lem reads t armed a b c)
          (same ∙ signals_lem presses t.ctrl_c_pressed ∙ omega (arith, h), reset) e)

  -- When no Ctrl-C is pending and `readline_tty` ends at Ctrl-C, then Ctrl-C was pressed at one of
  -- the reads, and again behind it with no byte in between.
  pub ctrl_c_twice :
      (editor : S) (reads : List ReadResult) (t : Terminal S)
      → readline_tty handle_byte editor 0 reads ≡ some (ctrl_c_exits, t)
      → PressedTwice reads
  unfolding readline_tty at_ctrl_c EndsByPress
  ctrl_c_twice editor reads t h =
      elim (left_lem reads
        (record { editor = editor; ctrl_c_pressed = 0; ctrl_c_count = 0; printed = [] }) false refl
        refl (ap at_ctrl_c h)) [ inl twice ↦ twice | inr (never, _) ↦ absurd (ground arith) ]
