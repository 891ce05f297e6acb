-- ===== src/Io/Terminal/Lines.antt =====
-- What a terminal's stream gives for the lines that are typed.
use epita_42sh.Base.Int.{pos}
use epita_42sh.Base.Text.{Str}
use epita_42sh.Base.{
  ℕ, zero, suc, ◌+◌, ◌≡◌, ◌≢◌, refl, ◌∙◌, sym, ap, subst, Bool, true, false, Option, none, some,
  List, [], ◌∷◌, ◌++◌, ◌==◌, get_or, All, arith, length, map,
}
use epita_42sh.Io.{Read, char}
use epita_42sh.Io.Terminal.{
  Event, key, Terminal, line_char, take_line, cstream_readline_read, wait_line, read_char,
  readline_callback, sigint_handler, prompt_get,
}
use epita_42sh.Io.Terminal.Waits.{quiet, Idle, wait_line-quiet, fresh, starts, waits}

-- A line with the quiet events before it, and whether SIGINT comes with its last key.
pub record Entry : Type 0 where
  pub before : List Event
  pub text : Str
  pub late : Bool

abbrev pub IsTyped : Entry → Type 0
IsTyped e = All (λ x. quiet x ≡ true) e.before × All (λ c. c ≢ 0) e.text

-- The events of the lines, and what happens behind them.
abbrev pub typed : List Entry → List Event → List Event
typed [] rest = rest
typed (e ∷ es) rest = e.before ++ key (some (some e.text)) e.late ∷ typed es rest

abbrev pub shown : List Entry → Str
shown [] = []
shown (e ∷ es) = e.text ++ b'\n' ∷ shown es

-- The results of a number of reads, one behind the other.
abbrev pub reads : ℕ → Terminal → List (Option Read) × Terminal
reads zero t = ([], t)
reads (suc n) t =
    let (r, t') = cstream_readline_read t in let (rs, t'') = reads n t' in (r ∷ rs, t'')

abbrev pub as_read : ℕ → Option Read
as_read c = some (char (pos c))

-- With the rest of a line at hand.
abbrev pub at_line : Terminal → Str → ℕ → Terminal
at_line t line n = record t { cs = record t.cs { current_line = some line; line_position = n } }

abbrev pub closed : Terminal → ℕ → Terminal
closed t n = record t { cs = record t.cs { current_line = none; line_position = n } }

-- As many reads as the text has characters give the text, and leave the events `rest` and no line.
abbrev pub Gives : Terminal → Str → List Event → Type 0
Gives t s rest =
    ((reads (length s) t).0 ≡ map as_read s)
    × Idle (reads (length s) t).1
    × ((reads (length s) t).1.events ≡ rest)

-- `Gives` for a text that starts with `c`, by the first read's result.
abbrev pub Follows : Option Read × Terminal → ℕ → Str → List Event → Type 0
Follows p c s rest =
    (p.0 ∷ (reads (length s) p.1).0 ≡ map as_read (c ∷ s))
    × Idle (reads (length s) p.1).1
    × ((reads (length s) p.1).1.events ≡ rest)

line_end :
    (t : Terminal) (line : Str) (n : ℕ)
    → get_or line n 0 ≡ 0
    → cstream_readline_read (at_line t line n) ≡ (as_read b'\n', closed t n)
unfolding cstream_readline_read line_char
line_end t line n e = rw e refl

line_step :
    (t : Terminal) (line : Str) (n c : ℕ)
    → get_or line n 0 ≡ c
    → c ≢ 0
    → cstream_readline_read (at_line t line n) ≡ (as_read c, at_line t line (n + 1))
unfolding cstream_readline_read line_char
line_step t line n c e h =
    let differs : (c == 0) ≡ false = ground (arith, h) in rw (e, differs) refl

line-Gives :
    (t : Terminal) (line ys s : Str) (rest : List Event) (n : ℕ)
    → ((i k : ℕ) → k ≡ n + i → get_or line k 0 ≡ get_or ys i 0)
    → All (λ c. c ≢ 0) ys
    → ((m : ℕ) → Gives (closed t m) s rest)
    → Gives (at_line t line n) (ys ++ b'\n' ∷ s) rest
line-Gives t line [] s rest n same clean h =
    let (g, idle, left) = h n in
    subst (λ p. Follows p b'\n' s rest) (sym (line_end t line n (same 0 n (omega arith))))
      (ap (λ rs. as_read b'\n' ∷ rs) g, idle, left)
line-Gives t line (c ∷ ys) s rest n same clean h =
    let (g, idle, left) =
      line-Gives t line ys s rest (n + 1) (λ i k at. same (suc i) k (omega arith)) clean.1 h in
    subst (λ p. Follows p c (ys ++ b'\n' ∷ s) rest)
      (sym (line_step t line n c (same 0 n (omega arith)) clean.0))
      (ap (λ rs. as_read c ∷ rs) g, idle, left)

Gives-same :
    (t u : Terminal) (ys s : Str) (rest : List Event)
    → cstream_readline_read t ≡ cstream_readline_read u
    → Gives u (ys ++ b'\n' ∷ s) rest
    → Gives t (ys ++ b'\n' ∷ s) rest
Gives-same t u [] s rest e g = subst (λ p. Follows p b'\n' s rest) (sym e) g
Gives-same t u (c ∷ ys) s rest e g = subst (λ p. Follows p c (ys ++ b'\n' ∷ s) rest) (sym e) g

key_read :
    (t : Terminal) (text : Str) (late : Bool) (more : List Event)
    → (u : Terminal) × (take_line t
          (wait_line (key (some (some text)) late ∷ more) (fresh (prompt_get t.cs) t.rl))
        ≡ cstream_readline_read (at_line u text 0))
      × (u.events ≡ more)
      × (u.rl.user_input_complete ≡ false)
unfolding take_line wait_line read_char readline_callback sigint_handler cstream_readline_read
key_read t text true more =
    let rl = record t.rl {
      interrupted = true;
      installed = none;
      user_input = some text;
      user_input_complete = false;
    } in
    (record { cs = t.cs; rl = rl; events = more }, refl, refl, refl)
key_read t text false more =
    let rl = record t.rl {
      interrupted = false;
      installed = none;
      user_input = some text;
      user_input_complete = false;
    } in
    (record { cs = t.cs; rl = rl; events = more }, refl, refl, refl)

first_read :
    (t : Terminal) (e : Entry) (more : List Event)
    → Idle t
    → All (λ x. quiet x ≡ true) e.before
    → t.events ≡ e.before ++ key (some (some e.text)) e.late ∷ more
    → (u : Terminal) × (cstream_readline_read t ≡ cstream_readline_read (at_line u e.text 0))
      × (u.events ≡ more)
      × (u.rl.user_input_complete ≡ false)
unfolding cstream_readline_read
first_read t e more (no_line, incomplete) h events =
    let prompt = prompt_get t.cs in
    let last = key (some (some e.text)) e.late in
    let (u, read, left, calm) = key_read t e.text e.late more in
    (
      u,
      waits t t.cs.current_line no_line
          ∙ starts t incomplete
          ∙ ap (λ es. take_line t (wait_line es (fresh prompt t.rl))) events
          ∙ ap (take_line t) (wait_line-quiet e.before (last ∷ more) prompt t.rl h)
          ∙ read,
      left,
      calm,
    )

-- Lines that are typed at the terminal, with no NUL in them: as many reads as they have characters
-- give the lines with a new line behind each, whatever quiet events come between the keys and also
-- when SIGINT comes with the last key of a line; then no line is at hand, and the events
-- behind the lines are left for later.
pub cstream_readline_read-typed :
    (es : List Entry) (rest : List Event) (t : Terminal)
    → All IsTyped es
    → Idle t
    → t.events ≡ typed es rest
    → Gives t (shown es) rest
cstream_readline_read-typed [] rest t h idle events = (refl, idle, events)
cstream_readline_read-typed (e ∷ es) rest t ((quiets, clean), h) idle events =
    let (u, read, left, calm) = first_read t e (typed es rest) idle quiets events in
    Gives-same t (at_line u e.text 0) e.text (shown es) rest read (
      line-Gives u e.text e.text (shown es) rest 0
        (λ i k at. ap (λ j. get_or e.text j 0) (omega arith)) clean
        (λ m. cstream_readline_read-typed es rest (closed u m) h (refl, calm) left))
