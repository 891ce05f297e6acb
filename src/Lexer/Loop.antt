-- ===== src/Lexer/Loop.antt =====
-- `__lexaux` of lexer.c on a stream of bytes: each run of its loop takes one character.
use epita_42sh.Ast.{Token, t_lf}
use epita_42sh.Token.{token_eq}
use epita_42sh.Base.Int.{pos, negsuc}
use epita_42sh.Base.{
  ℕ, zero, suc, ◌≡◌, ◌≤◌, ◌<◌, refl, Bool, true, false, not, ◌&&◌, Option, none, some,
  if◌then◌else◌, arith,
}
use epita_42sh.Io.{Error, no_error, Read, char, failed, cstream_peek}
use epita_42sh.Lexer.{
  RlState, Step, stop, bad, again, nest, Lexed, done, out_of_fuel, fault, scan_char, at_break,
  take_char, finish, on_scan, on_read, resume, consume, lex_step, lexaux,
}
use epita_42sh.Lexer.Mode.{LexMode, any_mode, other_mode, lexmode, mode_xor}
use epita_42sh.Lexer.Stream.{
  IsReadable, ahead, Shown, Peeked, is_readable, cstream_peek-Peeked, pop_fields, pop_any,
}

-- One run of the loop body stays within the stream: the loop goes on with less of it.
Good : ℕ → Step → Type 0
Good n (stop r) = IsReadable r.cs × (ahead r.cs ≤ n)
Good n bad = ⊥
Good n (again r mode state) = IsReadable r.cs × (ahead r.cs < n)
Good n (nest r inner mode state) = IsReadable r.cs × (ahead r.cs < n)

finish-Good :
    (rls : RlState) (mode : LexMode)
    → IsReadable rls.cs
    → IsReadable (finish rls mode).cs × (ahead (finish rls mode).cs ≤ ahead rls.cs)
unfolding finish
finish-Good rls mode ok =
    let (ok', le) = pop_any rls.cs ok in (record { input = ok'.input; buffer = ok'.buffer }, le)

branches-Good :
    (n : ℕ) (a b c : Bool) (s t u : Step)
    → Good n s
    → Good n t
    → Good n u
    → Good n (if a then s else if b then (if c then s else t) else u)
branches-Good n true b c s t u x y z = x
branches-Good n false false c s t u x y z = z
branches-Good n false true true s t u x y z = x
branches-Good n false true false s t u x y z = y

if-Good : (n : ℕ) (a : Bool) (s t : Step) → Good n s → Good n t → Good n (if a then s else t)
if-Good n true s t x y = x
if-Good n false s t x y = y

Good-le : (n m : ℕ) (s : Step) → n ≤ m → Good n s → Good m s
unfolding Good
Good-le n m (stop r) le g = (g.0, omega (arith, g.1))
Good-le n m bad le g = g
Good-le n m (again r mode state) le g = (g.0, omega (arith, g.1))
Good-le n m (nest r inner mode state) le g = (g.0, omega (arith, g.1))

consume-Good :
    (rls : RlState) (mode : LexMode) (c state : ℕ)
    → IsReadable rls.cs
    → rls.cs.has_buffer ≡ true
    → rls.cs.buffer ≡ pos c
    → Good (ahead rls.cs) (consume rls mode c state)
unfolding consume take_char Good
consume-Good rls mode c state ok e e' =
    let start = not (any_mode mode) && not rls.flag.line_start in
    let (ok', lt) =
      pop_fields rls.cs.input rls.cs.has_buffer start rls.cs.buffer c
        (record { input = ok.input; buffer = ok.buffer }) e e' in
    let taken = (take_char rls mode c).0 in
    let sub = lexmode c mode in
    let change = mode_xor mode sub in
    let mode' = record mode { dollar = sub.dollar } in
    branches-Good (ahead rls.cs) (not (take_char rls mode c).1) (other_mode change)
      (not (any_mode sub)) (stop taken) (nest taken (record change { dollar = false }) mode' state)
      (again taken mode' state) (ok', omega arith) (ok', lt) (ok', lt)

lex_step-Good :
    (rls : RlState) (mode : LexMode) (state : ℕ)
    → IsReadable rls.cs
    → Good (ahead rls.cs) (lex_step rls mode state)
unfolding lex_step at_break Good
lex_step-Good rls mode state ok =
    if-Good (ahead rls.cs) (token_eq rls.token t_lf) (stop rls) _ (ok, omega arith)
      (read-Good (cstream_peek rls.cs).1 peeked.shown peeked.in_table_)
  where
    peeked : Peeked rls.cs (cstream_peek rls.cs)
    peeked = cstream_peek-Peeked rls.cs ok

    here : RlState
    here = record rls { cs = (cstream_peek rls.cs).0; err = no_error }

    read-Good :
        (read : Read)
        → Shown (cstream_peek rls.cs).0 read
        → is_readable read ≡ true
        → Good (ahead rls.cs) (on_read here mode state read)
    read-Good (failed e) s t = (peeked.readable, peeked.ahead_le)
    read-Good (char (negsuc n)) s t = rw t (
        let (ok', le) = finish-Good here mode peeked.readable in
        (ok', omega (arith, peeked.ahead_le)))
    read-Good (char (pos c)) s t = rw t (scan-Good (scan_char here mode c state))
      where
        scan-Good : (o : Option (Token × ℕ)) → Good (ahead rls.cs) (on_scan here mode c o)
        scan-Good none = (peeked.readable, peeked.ahead_le)
        scan-Good (some next) =
            Good-le (ahead here.cs) (ahead rls.cs)
              (consume (record here { token = next.0 }) mode c next.1) peeked.ahead_le
              (consume-Good (record here { token = next.0 }) mode c next.1 peeked.readable s.0 s.1)

-- The call returns, with no more to read than before.
abbrev pub Ends : ℕ → Lexed → Type 0
Ends n (done r) = IsReadable r.cs × (ahead r.cs ≤ n)
Ends n out_of_fuel = ⊥
Ends n fault = ⊥

pub Ends-le : (n m : ℕ) (l : Lexed) → n ≤ m → Ends n l → Ends m l
Ends-le n m (done r) le e = (e.0, omega (arith, e.1))
Ends-le n m out_of_fuel le e = e
Ends-le n m fault le e = e

resume-Ends :
    (n : ℕ) (l : Lexed) (go_on : RlState → Lexed)
    → Ends n l
    → ((r : RlState) → IsReadable r.cs → ahead r.cs ≤ n → Ends n (go_on r))
    → Ends n (resume l go_on)
unfolding resume
resume-Ends n (done r) go_on e next = go r.err
  where
    go : (err : Error) → Ends n (elim err [ no_error ↦ go_on r | _ ↦ done r ])
    go no_error = next r e.0 e.1
    go _ = e
resume-Ends n out_of_fuel go_on e next = e
resume-Ends n fault go_on e next = e

module _ (f : ℕ)
    (ends : (rls : RlState) (mode : LexMode) (state : ℕ)
      → IsReadable rls.cs
      → ahead rls.cs < f
      → Ends (ahead rls.cs) (lexaux f rls mode state)) where
  step-Ends :
      (rls : RlState) (mode : LexMode) (state : ℕ) (s : Step)
      → ahead rls.cs ≤ f
      → lex_step rls mode state ≡ s
      → Good (ahead rls.cs) s
      → Ends (ahead rls.cs) (lexaux (suc f) rls mode state)
  unfolding Good lexaux
  step-Ends rls mode state (stop r) le e g = rw (e, lexaux) g
  step-Ends rls mode state bad le e g = absurd g
  step-Ends rls mode state (again r mode' state') le e g =
      rw (e, lexaux)
        (Ends-le (ahead r.cs) (ahead rls.cs) (lexaux f r mode' state') (omega (arith, g.1))
          (ends r mode' state' g.0 (omega (arith, g.1))))
  step-Ends rls mode state (nest r inner mode' state') le e g =
      let go_on : RlState → Lexed = λ r'. lexaux f r' mode' state' in
      let first = ends r inner 0 g.0 (omega (arith, g.1)) in
      let next : (r' : RlState)
          → IsReadable r'.cs
          → ahead r'.cs ≤ ahead r.cs
          → Ends (ahead r.cs) (go_on r') =
        λ r' ok' le'.
          Ends-le (ahead r'.cs) (ahead r.cs) (go_on r') le'
            (ends r' mode' state' ok' (omega (arith, g.1))) in
      rw (e, lexaux)
        (Ends-le (ahead r.cs) (ahead rls.cs) (resume (lexaux f r inner 0) go_on)
          (omega (arith, g.1)) (resume-Ends (ahead r.cs) (lexaux f r inner 0) go_on first next))

pub lexaux-Ends :
    (f : ℕ) (rls : RlState) (mode : LexMode) (state : ℕ)
    → IsReadable rls.cs
    → ahead rls.cs < f
    → Ends (ahead rls.cs) (lexaux f rls mode state)
lexaux-Ends zero rls mode state ok lt = absurd (omega arith)
lexaux-Ends (suc f) rls mode state ok lt =
    step-Ends f (lexaux-Ends f) rls mode state (lex_step rls mode state) (omega arith) refl
      (lex_step-Good rls mode state ok)
