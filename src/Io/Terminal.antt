-- ===== src/Io/Terminal.antt =====
-- Input from a terminal: io/cstream_readline.c and io/interruptible_readline.c.
-- What select, GNU readline and the signals do is a list of events; where it ends the shell waits.
-- The message of `error_warn` and the calls that tidy readline's own state are left out.
pub mod Waits
pub mod Lines
mod Tests
use epita_42sh.Base.Int.{pos}
use epita_42sh.Base.Text.{Str, codes}
use epita_42sh.Base.{
  ℕ, zero, suc, ◌+◌, Bool, true, false, Option, none, some, List, [], ◌∷◌, ◌++◌, if◌then◌else◌,
  ◌==◌, get_or,
}
use epita_42sh.Io.{Error, no_error, io_error, keyboard_interrupt, Read, char, failed, eof}

-- What one run of the loop of `interruptible_readline` meets. The Booleans say whether the handler of
-- SIGINT has run since the run before. With `key`, select returns, and `rl_callback_read_char` may
-- call back with a line, which is NULL for Ctrl+D.
pub data Event : Type 0 where
  again : Event
  signalled : Bool → Event
  select_failed : Event
  key : Option (Option Str) → Bool → Event

-- The static variables of interruptible_readline.c, the prompt while the callback is installed, and
-- what is printed to stderr.
pub record Readline : Type 0 where
  pub interrupted : Bool
  pub user_input : Option Str
  pub user_input_complete : Bool
  pub installed : Option Str
  pub printed : Str

-- How `interruptible_readline` ends, if it does.
pub data Waited : Type 0 where
  entered : Option Str → Waited
  stopped : Error → Waited
  waiting : Waited

unfoldable pub sigint_handler : Readline → Readline
sigint_handler r = record r { interrupted = true }

abbrev pub signals : Bool → Readline → Readline
unfolding sigint_handler
signals b r = if b then sigint_handler r else r

unfoldable pub readline_callback : Option Str → Readline → Readline
readline_callback line r = record r {
  user_input = line;
  user_input_complete = true;
  installed = none;
}

-- `rl_callback_read_char`.
unfoldable pub read_char : Option (Option Str) → Readline → Readline
unfolding readline_callback
read_char none r = r
read_char (some line) r = readline_callback line r

unfoldable pub check_interrupt : Readline → Error × Readline
check_interrupt r =
    if r.interrupted
    then (
      keyboard_interrupt,
      record r { interrupted = false; installed = none; printed = r.printed ++ codes "^C\n" },
    )
    else (no_error, r)

-- The loop `while (true)`.
unfoldable pub wait_line : List Event → Readline → Waited × Readline × List Event
unfolding check_interrupt read_char sigint_handler
wait_line [] r = (waiting, r, [])
wait_line (again ∷ es) r = wait_line es r
wait_line (signalled b ∷ es) r =
    let (error, r') = check_interrupt (signals b r) in
    elim error [ no_error ↦ wait_line es r' | e ↦ (stopped e, r', es) ]
wait_line (select_failed ∷ es) r = (stopped io_error, r, es)
wait_line (key line b ∷ es) r =
    let r' = signals b (read_char line r) in
    elim r'.user_input_complete [
      | true ↦ (entered r'.user_input, record r' { user_input_complete = false }, es)
      | false ↦
          let (error, r'') = check_interrupt r' in
          elim error [ no_error ↦ wait_line es r'' | e ↦ (stopped e, r'', es) ]
    ]

unfoldable pub interruptible_readline : Str → List Event → Readline → Waited × Readline × List Event
unfolding wait_line
interruptible_readline prompt es r =
    wait_line es (record r { interrupted = false; installed = some prompt })

-- `struct cstream_readline`; the buffer of the base is that of `Cstream`.
pub record CstreamReadline : Type 0 where
  pub line_start : Bool
  pub current_line : Option Str
  pub line_position : ℕ

unfoldable pub prompt_get : CstreamReadline → Str
prompt_get cs = if cs.line_start then codes "42sh$ " else codes "> "

-- A stream with the variables of readline and the events to come.
pub record Terminal : Type 0 where
  pub cs : CstreamReadline
  pub rl : Readline
  pub events : List Event

-- The character at the position of the line, a new line at its end.
unfoldable pub line_char : CstreamReadline → Read × CstreamReadline
line_char cs = elim cs.current_line [
  | none ↦ (char eof, cs)
  | some str ↦
      if get_or str cs.line_position 0 == 0
      then (char (pos b'\n'), record cs { current_line = none })
      else (
        char (pos (get_or str cs.line_position 0)),
        record cs { line_position = cs.line_position + 1 },
      )
]

abbrev pub show_char : Terminal → Option Read × Terminal
unfolding line_char
show_char t = let (r, cs) = line_char t.cs in (some r, record t { cs = cs })

-- Behind the call of `interruptible_readline`; without a result the read does not return.
unfoldable pub take_line : Terminal → Waited × Readline × List Event → Option Read × Terminal
unfolding line_char
take_line t (entered line, rl, es) =
    show_char
      (record { cs = record t.cs { current_line = line; line_position = 0 }; rl = rl; events = es })
take_line t (stopped e, rl, es) = (some (failed e), record t { rl = rl; events = es })
take_line t (waiting, rl, es) = (none, record t { rl = rl; events = es })

unfoldable pub cstream_readline_read : Terminal → Option Read × Terminal
unfolding line_char take_line interruptible_readline prompt_get
cstream_readline_read t = elim t.cs.current_line [
  | some line ↦ show_char t
  | none ↦ take_line t (interruptible_readline (prompt_get t.cs) t.events t.rl)
]

unfoldable pub cstream_readline_reset : CstreamReadline → CstreamReadline
cstream_readline_reset cs = record { line_start = true; current_line = none; line_position = 0 }

unfoldable pub cstream_readline_create : CstreamReadline
cstream_readline_create = record { line_start = true; current_line = none; line_position = 0 }
