-- ===== src/Lexer/Total.antt =====
-- `lexer` of lexer.c on a stream of bytes: it ends, within its table, on enough fuel.
use epita_42sh.Ast.{t_eof, t_word}
use epita_42sh.Token.{token_eq}
use epita_42sh.Base.Int.{pos, negsuc}
use epita_42sh.Base.{
  ℕ, zero, suc, ◌≡◌, ◌≤◌, ◌<◌, refl, inl, inr, true, not, ◌&&◌, Option, none, some, [], Bool-cases,
  arith,
}
use epita_42sh.Io.{Read, char, failed, Cstream, cstream_peek, cstream_pop}
use epita_42sh.Lexer.{
  RlState, Lexed, done, out_of_fuel, fault, is_blank, is_no_error, evaluate, lexaux,
  eat_whitespaces, eval_word, lexer,
}
use epita_42sh.Lexer.Mode.{no_mode}
use epita_42sh.Lexer.Stream.{IsReadable, ahead, Shown, cstream_peek-Peeked, pop_fields}
use epita_42sh.Lexer.Loop.{Ends, Ends-le, lexaux-Ends}

-- The white space in front of a token.
Skips : ℕ → Option Cstream → Type 0
Skips n none = ⊥
Skips n (some cs) = IsReadable cs × (ahead cs ≤ n)

Skips-le : (n m : ℕ) (o : Option Cstream) → n ≤ m → Skips n o → Skips m o
unfolding Skips
Skips-le n m none le e = e
Skips-le n m (some cs) le e = (e.0, omega (arith, e.1))

blank-Shown :
    (cs : Cstream) (r : Read)
    → is_blank r ≡ true
    → Shown cs r
    → (c : ℕ) × (cs.has_buffer ≡ true) × (cs.buffer ≡ pos c)
blank-Shown cs (char (pos c)) b s = (c, s.0, s.1)
blank-Shown cs (char (negsuc n)) b s = cc
blank-Shown cs (failed e) b s = cc

eat_whitespaces-Skips :
    (f : ℕ) (cs : Cstream) → IsReadable cs → ahead cs < f → Skips (ahead cs) (eat_whitespaces f cs)
unfolding eat_whitespaces Skips
eat_whitespaces-Skips zero cs ok lt = absurd (omega arith)
eat_whitespaces-Skips (suc f) cs ok lt =
    let peeked = cstream_peek-Peeked cs ok in
    let next = (cstream_peek cs).0 in
    elim (Bool-cases (is_blank (cstream_peek cs).1)) [
      | inr e ↦ rw (e, eat_whitespaces) (peeked.readable, peeked.ahead_le)
      | inl e ↦
          let (c, b, z) = blank-Shown next (cstream_peek cs).1 e peeked.shown in
          let (ok', lt') =
            pop_fields next.input next.has_buffer next.line_start next.buffer c peeked.readable b
              z in
          let popped = (cstream_pop next).0 in
          rw (e, eat_whitespaces)
            (Skips-le (ahead popped) (ahead cs) (eat_whitespaces f popped)
              (omega (arith, lt', peeked.ahead_le))
              (eat_whitespaces-Skips f popped ok' (omega (arith, lt', peeked.ahead_le))))
    ]

evaluate-Ends : (n : ℕ) (l : Lexed) → Ends n l → Ends n (evaluate l)
unfolding evaluate eval_word
evaluate-Ends n (done r) e =
    let peeked = cstream_peek-Peeked r.cs e.0 in
    elim (Bool-cases (is_no_error r.err && token_eq r.token t_word)) [
      | inr h ↦ rw h e
      | inl h ↦ rw h (elim (Bool-cases (not (token_eq r.token t_word))) [
        | inl other ↦ rw other e
        | inr word ↦ rw word (peeked.readable, omega (arith, peeked.ahead_le, e.1))
      ])
    ]
evaluate-Ends n out_of_fuel e = e
evaluate-Ends n fault e = e

lexer-Ends :
    (f : ℕ) (rls : RlState)
    → IsReadable rls.cs
    → ahead rls.cs < f
    → Ends (ahead rls.cs) (lexer f rls)
unfolding Skips lexer
lexer-Ends f rls ok lt = go (eat_whitespaces f rls.cs) refl (eat_whitespaces-Skips f rls.cs ok lt)
  where
    go :
        (o : Option Cstream)
        → eat_whitespaces f rls.cs ≡ o
        → Skips (ahead rls.cs) o
        → Ends (ahead rls.cs) (lexer f rls)
    go none e s = absurd s
    go (some cs) e s =
        let ready : RlState = record rls { cs = cs; word = []; token = t_eof } in
        rw (e, lexer)
          (evaluate-Ends (ahead rls.cs) (lexaux f ready no_mode 0) (
            Ends-le (ahead cs) (ahead rls.cs) (lexaux f ready no_mode 0) s.1
              (lexaux-Ends f ready no_mode 0 s.0 (omega (arith, s.1)))))

Ends-done :
    (n : ℕ) (l : Lexed)
    → Ends n l
    → (r : RlState) × (l ≡ done r) × IsReadable r.cs × (ahead r.cs ≤ n)
Ends-done n (done r) e = (r, refl, e.0, e.1)
Ends-done n out_of_fuel e = absurd e
Ends-done n fault e = absurd e

-- The lexer returns: on a stream of bytes, EOF and errors, whatever the state before it, with fuel
-- above the number of characters ahead, it neither runs out of fuel nor leaves the table of the
-- automaton, and it leaves a stream of bytes with no more characters ahead.
pub lexer-done :
    (f : ℕ) (rls : RlState)
    → IsReadable rls.cs
    → ahead rls.cs < f
    → (r : RlState) × (lexer f rls ≡ done r) × IsReadable r.cs × (ahead r.cs ≤ ahead rls.cs)
lexer-done f rls ok lt = Ends-done (ahead rls.cs) (lexer f rls) (lexer-Ends f rls ok lt)
