-- ===== src/Io/Terminal/Tests.antt =====
-- A terminal at which `ls` is typed.
use epita_42sh.Base.Text.{codes}
use epita_42sh.Base.{◌≡◌, refl, true, false, none, some, List, [], ◌∷◌, arith}
use epita_42sh.Io.{keyboard_interrupt, failed}
use epita_42sh.Io.Terminal.{
  Event, again, signalled, key, Terminal, cstream_readline_create, cstream_readline_read,
}
use epita_42sh.Io.Terminal.Lines.{Entry, Gives, shown, typed, cstream_readline_read-typed}
use epita_42sh.Io.Terminal.Waits.{seen, cstream_readline_read-answer}

abbrev entries : List Entry
entries =
    record { before = key none false ∷ again ∷ []; text = codes "ls"; late = true }
    ∷ record { before = []; text = []; late = false }
    ∷ []

abbrev terminal : List Event → Terminal
unfolding cstream_readline_create
terminal events = record {
  cs = cstream_readline_create;
  rl = record {
    interrupted = false;
    user_input = none;
    user_input_complete = false;
    installed = none;
    printed = [];
  };
  events = events;
}

cstream_readline_read-answer_example :
    seen (cstream_readline_read (terminal (key none false ∷ signalled true ∷ again ∷ [])))
    ≡ (some (failed keyboard_interrupt), again ∷ [])
unfolding terminal
cstream_readline_read-answer_example =
    cstream_readline_read-answer (terminal (key none false ∷ signalled true ∷ again ∷ []))
      (key none false ∷ []) (again ∷ []) (signalled true) (refl, refl) (refl, tt) refl refl

cstream_readline_read-typed_example :
    Gives (terminal (typed entries (again ∷ []))) (shown entries) (again ∷ [])
unfolding terminal
cstream_readline_read-typed_example =
    cstream_readline_read-typed entries (again ∷ []) (terminal (typed entries (again ∷ [])))
      (((refl, (refl, tt)), (ground arith, (ground arith, tt))), ((tt, tt), tt)) (refl, refl) refl
