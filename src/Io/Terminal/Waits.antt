-- ===== src/Io/Terminal/Waits.antt =====
-- Which event a read from the terminal ends with.
use epita_42sh.Base.Int.{pos}
use epita_42sh.Base.Text.{Str}
use epita_42sh.Base.{
  ℕ, ◌≡◌, refl, ◌∙◌, ap, Bool, true, false, not, Option, none, some, List, [], ◌∷◌, ◌++◌,
  if◌then◌else◌, ◌==◌, All, Bool-cases, inl, inr,
}
use epita_42sh.Io.{Read, char, failed, eof, io_error, keyboard_interrupt}
use epita_42sh.Io.Terminal.{
  Event, again, signalled, select_failed, key, Readline, entered, read_char, check_interrupt,
  wait_line, interruptible_readline, Terminal, line_char, show_char, take_line,
  cstream_readline_read, prompt_get, readline_callback, sigint_handler,
}

-- An event behind which the loop waits again.
abbrev pub quiet : Event → Bool
quiet again = true
quiet (signalled b) = not b
quiet select_failed = false
quiet (key none b) = not b
quiet (key (some line) b) = false

-- What a read gives when it ends with the event.
abbrev pub answer : Event → Option Read
answer again = none
answer (signalled b) = some (failed keyboard_interrupt)
answer select_failed = some (failed io_error)
answer (key none b) = some (failed keyboard_interrupt)
answer (key (some none) b) = some (char eof)
answer (key (some (some [])) b) = some (char (pos b'\n'))
answer (key (some (some (c ∷ line))) b) = some (char (pos (if c == 0 then b'\n' else c)))

-- As `interruptible_readline` starts its loop, with no line complete.
abbrev pub fresh : Str → Readline → Readline
fresh prompt r = record r {
  interrupted = false;
  installed = some prompt;
  user_input_complete = false;
}

pub wait_line-quiet :
    (before es : List Event) (prompt : Str) (r : Readline)
    → All (λ e. quiet e ≡ true) before
    → wait_line (before ++ es) (fresh prompt r) ≡ wait_line es (fresh prompt r)
unfolding wait_line check_interrupt read_char
wait_line-quiet [] es prompt r h = refl
wait_line-quiet (again ∷ before) es prompt r h = wait_line-quiet before es prompt r h.1
wait_line-quiet (signalled true ∷ before) es prompt r h = absurd cc
wait_line-quiet (signalled false ∷ before) es prompt r h = wait_line-quiet before es prompt r h.1
wait_line-quiet (select_failed ∷ before) es prompt r h = absurd cc
wait_line-quiet (key none true ∷ before) es prompt r h = absurd cc
wait_line-quiet (key none false ∷ before) es prompt r h = wait_line-quiet before es prompt r h.1
wait_line-quiet (key (some line) b ∷ before) es prompt r h = absurd cc

-- With no line at hand and the callback's flag clear.
abbrev pub Idle : Terminal → Type 0
Idle t = (t.cs.current_line ≡ none) × (t.rl.user_input_complete ≡ false)

-- The result of a read and the events behind it.
abbrev pub seen : Option Read × Terminal → Option Read × List Event
seen (r, t) = (r, t.events)

first_char :
    (t : Terminal) (c : ℕ) (line : Str) (rl : Readline) (rest : List Event)
    → seen (take_line t (entered (some (c ∷ line)), rl, rest))
      ≡ (some (char (pos (if c == 0 then b'\n' else c))), rest)
unfolding take_line line_char
first_char t c line rl rest = elim (Bool-cases (c == 0)) [ inl e ↦ rw e refl | inr e ↦ rw e refl ]

pub waits :
    (t : Terminal) (o : Option Str)
    → o ≡ none
    → elim o [
      | some line ↦ show_char t
      | none ↦ take_line t (interruptible_readline (prompt_get t.cs) t.events t.rl)
    ]
      ≡ take_line t (interruptible_readline (prompt_get t.cs) t.events t.rl)
waits t none h = refl
waits t (some line) h = absurd cc

pub starts :
    (t : Terminal)
    → t.rl.user_input_complete ≡ false
    → take_line t (interruptible_readline (prompt_get t.cs) t.events t.rl)
      ≡ take_line t (wait_line t.events (fresh (prompt_get t.cs) t.rl))
unfolding interruptible_readline
starts t h =
    ap
      (λ b. take_line t (
        wait_line t.events (record t.rl {
          interrupted = false;
          installed = some (prompt_get t.cs);
          user_input_complete = b;
        })))
      h

read_answer :
    (t : Terminal) (e : Event) (rest : List Event)
    → quiet e ≡ false
    → seen (take_line t (wait_line (e ∷ rest) (fresh (prompt_get t.cs) t.rl))) ≡ (answer e, rest)
unfolding take_line wait_line check_interrupt read_char line_char sigint_handler readline_callback
read_answer t again rest loud = absurd cc
read_answer t (signalled true) rest loud = refl
read_answer t (signalled false) rest loud = absurd cc
read_answer t select_failed rest loud = refl
read_answer t (key none true) rest loud = refl
read_answer t (key none false) rest loud = absurd cc
read_answer t (key (some none) true) rest loud = refl
read_answer t (key (some none) false) rest loud = refl
read_answer t (key (some (some [])) true) rest loud = refl
read_answer t (key (some (some [])) false) rest loud = refl
read_answer t (key (some (some (c ∷ line))) true) rest loud =
    first_char t c line
      (record t.rl {
        interrupted = true;
        installed = none;
        user_input = some (c ∷ line);
        user_input_complete = false;
      })
      rest
read_answer t (key (some (some (c ∷ line))) false) rest loud =
    first_char t c line
      (record t.rl {
        interrupted = false;
        installed = none;
        user_input = some (c ∷ line);
        user_input_complete = false;
      })
      rest

-- A read from the terminal that has no line at hand: the first event that is not quiet decides it, and
-- the events behind it are left for later. A line gives its first character, or a new line when it
-- is empty; Ctrl+D gives EOF; Ctrl+C gives KEYBOARD_INTERRUPT, and an error of select gives IO_ERROR.
-- Quiet are an error EAGAIN, a signal that is not SIGINT and a key that does not end the line.
pub cstream_readline_read-answer :
    (t : Terminal) (before rest : List Event) (e : Event)
    → Idle t
    → All (λ e. quiet e ≡ true) before
    → quiet e ≡ false
    → t.events ≡ before ++ e ∷ rest
    → seen (cstream_readline_read t) ≡ (answer e, rest)
unfolding cstream_readline_read interruptible_readline
cstream_readline_read-answer t before rest e (no_line, incomplete) h loud events =
    ap seen (waits t t.cs.current_line no_line ∙ starts t incomplete)
    ∙ rw (events, wait_line-quiet before (e ∷ rest) (prompt_get t.cs) t.rl h)
        (read_answer t e rest loud)
