-- ===== src/Readline.antt =====
-- The terminal of the REPL in readline_tty.c: the loop that reads a line, and Ctrl-C.
pub mod Interrupts
use mquickjs_port.Base.{
  ℕ, zero, suc, ltb, leb, ◌==◌, if◌then◌else◌, not, Bool, true, false, List, [], ◌∷◌, ◌++◌, Option,
  none, some,
}

-- What `readline_handle_byte` returns.
pub data Handled : Type 0 where
  not_handled accepted exit : Handled

-- What one `read` returns: no byte, at the end of the input; an error, as when a signal comes; or
-- bytes, at least one. `presses` is the number of calls of the handler of Ctrl-C up to then.
pub data ReadResult : Type 0 where
  end_of_input : (presses : ℕ) → ReadResult
  failed : (presses : ℕ) → ReadResult
  bytes : (presses : ℕ) (first : ℕ) (rest : List ℕ) → ReadResult

-- Where the loop ends: with a line, at the end of the input, when the editor asks to exit, or at
-- Ctrl-C; but for the first, `readline_tty` returns NULL.
pub data Ending : Type 0 where
  line_accepted input_ended editor_exits ctrl_c_exits : Ending

pub data Notice : Type 0 where
  press_again exiting : Notice

-- The variables of the loop: the state `S` of the editor, `ctrl_c_pressed`, `ctrl_c_count` and what
-- is printed, the last first.
pub record Terminal (S : Type 0) : Type 0 where
  pub editor : S
  pub ctrl_c_pressed : ℕ
  pub ctrl_c_count : ℕ
  pub printed : List Notice

-- `sigint_handler`: the count, and whether the default action is set again.
unfoldable pub sigint_handler : ℕ → ℕ × Bool
sigint_handler ctrl_c_pressed = (suc ctrl_c_pressed, leb 4 (suc ctrl_c_pressed))

-- The handler for a number of signals, without its second result: behind the fourth pending signal
-- the default action is set again, and one more would end the process, which is not followed here.
unfoldable pub signals : ℕ → ℕ → ℕ
signals zero ctrl_c_pressed = ctrl_c_pressed
signals (suc presses) ctrl_c_pressed = signals presses (sigint_handler ctrl_c_pressed).0

-- `readline_is_interrupted`: its result, and the count after it.
unfoldable pub readline_is_interrupted : ℕ → Bool × ℕ
readline_is_interrupted ctrl_c_pressed = (not (ctrl_c_pressed == 0), 0)

module _ {S : Type 0} where
  -- The test of `ctrl_c_pressed` behind the loop over the bytes, and whether it leaves the outer loop.
  unfoldable pub check_ctrl_c : Terminal S → Bool × Terminal S
  check_ctrl_c t =
      if t.ctrl_c_pressed == 0
      then (false, t)
      else if t.ctrl_c_count == 0
      then (
        false,
        record t { ctrl_c_pressed = 0; ctrl_c_count = 1; printed = press_again ∷ t.printed },
      )
      else (true, record t { ctrl_c_pressed = 0; printed = exiting ∷ t.printed })

  -- The signals that come before a `read` returns.
  abbrev pub interrupted : ℕ → Terminal S → Terminal S
  interrupted presses t = record t { ctrl_c_pressed = signals presses t.ctrl_c_pressed }

module _ {S : Type 0} (handle_byte : S → ℕ → Handled × S) where
  -- The loop over the bytes of one `read`.
  unfoldable pub handle_bytes : List ℕ → Terminal S → Handled × Terminal S
  handle_bytes [] t = (not_handled, t)
  handle_bytes (c ∷ cs) t =
      let (ret, editor) = handle_byte t.editor c in
      let rest = handle_bytes cs (record t { editor = editor; ctrl_c_count = 0 }) in
      elim ret [
        | exit ↦ (exit, record t { editor = editor })
        | accepted ↦ (accepted, record t { editor = editor })
        | not_handled ↦ rest
      ]

  -- The loop of `readline_tty` over what `read` returns: where it ends, and the variables. `none` means
  -- that it still reads.
  unfoldable pub read_loop : List ReadResult → Terminal S → Option (Ending × Terminal S)
  read_loop [] t = none
  read_loop (end_of_input presses ∷ reads) t = some (input_ended, interrupted presses t)
  read_loop (failed presses ∷ reads) t =
      let (leaves, t') = check_ctrl_c (interrupted presses t) in
      elim leaves [ true ↦ some (ctrl_c_exits, t') | false ↦ read_loop reads t' ]
  read_loop (bytes presses first rest ∷ reads) t =
      let (ret, t') = handle_bytes (first ∷ rest) (interrupted presses t) in
      let (leaves, t'') = check_ctrl_c t' in
      elim ret [
        | exit ↦ some (editor_exits, t')
        | accepted ↦ some (line_accepted, t')
        | not_handled ↦ elim leaves [
          | true ↦ some (ctrl_c_exits, t'')
          | false ↦ read_loop reads t''
        ]
      ]

  -- `readline_tty`, with the editor as `readline_start` leaves it; `ctrl_c_pressed` is kept from
  -- before.
  unfoldable pub readline_tty : S → ℕ → List ReadResult → Option (Ending × Terminal S)
  readline_tty editor ctrl_c_pressed reads =
      read_loop reads (record {
        editor = editor;
        ctrl_c_pressed = ctrl_c_pressed;
        ctrl_c_count = 0;
        printed = [];
      })
