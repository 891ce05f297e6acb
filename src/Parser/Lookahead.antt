-- ===== src/Parser/Lookahead.antt =====
-- The one token of lookahead that the parser rules share through `rl_accept`.
use epita_42sh.Ast.{Token}
use epita_42sh.Base.Text.{Str}
use epita_42sh.Base.{
  ℕ, zero, suc, ◌≡◌, refl, ◌∙◌, inl, inr, Bool, true, false, [], ◌∷◌, none, if◌then◌else◌, ==_iff,
  Bool-cases, arith,
}
use epita_42sh.Io.{Error, no_error}
use epita_42sh.Lexer.{Flag, RlState, Lexed, done, out_of_fuel, fault, is_no_error}
use epita_42sh.Parser.{
  Answer, yes_, no_, returned, endless, misread, rl_buffer_token, has_to_collect, clear_flags,
  collect_token, accept_loop, compare, rl_accept,
}
use epita_42sh.Token.{token_eq, token_key}
use epita_42sh.Utils.Vec.{c_string}

-- What the loop of `rl_accept` leaves has a token that no later call replaces.
collected-settled :
    (f : ℕ) (l : Lexed) (r : RlState)
    → ((s : RlState) → accept_loop f s ≡ done r → has_to_collect r ≡ false)
    → elim l [ done s ↦ accept_loop f (clear_flags s) | out_of_fuel ↦ out_of_fuel | fault ↦ fault ]
      ≡ done r
    → has_to_collect r ≡ false
collected-settled f (done s) r next e = next (clear_flags s) e
collected-settled f out_of_fuel r next e = cc
collected-settled f fault r next e = cc

accept_loop-settled : (f : ℕ) (s r : RlState) → accept_loop f s ≡ done r → has_to_collect r ≡ false
unfolding accept_loop
accept_loop-settled zero s r e = cc
accept_loop-settled (suc f) s r e = elim (Bool-cases (has_to_collect s)) [
  | inl more ↦
      collected-settled f (collect_token f s) r (λ s'. accept_loop-settled f s' r)
        (rw (more, accept_loop) at e)
  | inr over ↦ ground (arith, rw (over, accept_loop) at e, over)
]

no_error_sound : (e : Error) → is_no_error e ≡ true → e ≡ no_error
no_error_sound e h = ground arith

-- A settled state answers from its own token.
accept_settled :
    (g : ℕ) (r : RlState) (token : Token)
    → has_to_collect r ≡ false
    → rl_accept (suc g) r token ≡ compare r token
unfolding rl_accept accept_loop
accept_settled g r token h = rw (rl_accept, accept_loop, h) refl

compare-rejects :
    (q r : RlState) (token : Token)
    → compare q token ≡ returned r no_
    → (q ≡ r) × (is_no_error q.err ≡ true)
unfolding compare
compare-rejects q r token e = ground arith

endless_not : {r : RlState} {a : Answer} → endless ≡ returned r a → ⊥
endless_not e = cc

misread_not : {r : RlState} {a : Answer} → misread ≡ returned r a → ⊥
misread_not e = cc

-- One token of lookahead: a token that a rule rejects is still there for whatever rule asks next.
-- The next call of `rl_accept` reads nothing: it compares with the same token, and takes it or
-- leaves the state as it is.
pub rl_accept-again :
    (f g : ℕ) (s r : RlState) (token next : Token)
    → rl_accept f s token ≡ returned r no_
    → rl_accept (suc g) r next ≡ (
        if token_eq r.token next
        then returned (record r { flag = record r.flag { collect = true } }) yes_
        else returned r no_)
unfolding compare rl_accept
rl_accept-again f g s r token next e = go (accept_loop f s) refl
  where
    go :
        (l : Lexed)
        → accept_loop f s ≡ l
        → rl_accept (suc g) r next ≡ (
            if token_eq r.token next
            then returned (record r { flag = record r.flag { collect = true } }) yes_
            else returned r no_)
    go (done q) h =
        let (same, fine) = compare-rejects q r token (rw (h, rl_accept) at e) in
        let settled : has_to_collect r ≡ false = rw same at (accept_loop-settled f s q h) in
        let fine' : is_no_error r.err ≡ true = rw same at fine in
        accept_settled g r next settled ∙ rw fine' refl
    go out_of_fuel h = absurd (endless_not (rw (h, rl_accept) at e))
    go fault h = absurd (misread_not (rw (h, rl_accept) at e))

c_string-c_string : (s : Str) → c_string (c_string s) ≡ c_string s
unfolding c_string
c_string-c_string [] = refl
c_string-c_string (c ∷ s) = ground (arith, c_string-c_string s)

token_eq_refl : (t : Token) → token_eq t t ≡ true
unfolding token_eq
token_eq_refl t = (==_iff (token_key t) (token_key t)).1 refl

buffered_back :
    (f : ℕ) (s : RlState) (token : Token) (w : Str) (flag : Flag) (e : Error) (c : Bool)
    → e ≡ no_error
    → c ≡ true
    → rl_accept
        (suc (suc f))
        (record (rl_buffer_token s) {
          err = e;
          token = token;
          word = w;
          flag = record flag { collect = c };
        })
        s.token
      ≡ returned
          (record s {
            err = e;
            word = c_string s.word;
            flag = record flag { collect = true; cmdstart = false };
            buffered = none;
          })
          yes_
unfolding rl_accept accept_loop collect_token clear_flags has_to_collect compare rl_buffer_token
buffered_back f s token w flag no_error true p q =
    rw (token_eq_refl s.token, c_string-c_string s.word) refl
buffered_back f s token w flag no_error false p q = cc
buffered_back f s token w flag _ c p q = cc

-- The push-back of `rl_fundec`: behind `rl_buffer_token`, whatever token, word and flags take the
-- place of the old ones, if the state has no error and collects, the next call of `rl_accept` finds
-- the buffered token with its word up to a NUL, empties the buffer, and does not touch the stream.
pub rl_accept-rl_buffer_token :
    (f : ℕ) (s : RlState) (token : Token) (w : Str) (flag : Flag)
    → s.err ≡ no_error
    → flag.collect ≡ true
    → rl_accept
        (suc (suc f))
        (record (rl_buffer_token s) { token = token; word = w; flag = flag })
        s.token
      ≡ returned
          (record s {
            word = c_string s.word;
            flag = record flag { collect = true; cmdstart = false };
            buffered = none;
          })
          yes_
unfolding rl_buffer_token
rl_accept-rl_buffer_token f s token w flag fine on =
    buffered_back f s token w flag s.err flag.collect fine on
