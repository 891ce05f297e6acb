-- ===== src/Parser/Accepted.antt =====
-- What the parser has read when `rl_input` of rl_input.c accepts.
use epita_42sh.Ast.{Token, t_eof, t_lf}
use epita_42sh.Base.{ℕ, ◌≡◌, ◌⊎◌, inl, inr, refl, true, arith}
use epita_42sh.Io.{Error, no_error}
use epita_42sh.Lexer.{RlState, Lexed, done, out_of_fuel, fault, is_no_error}
use epita_42sh.Parser.Rules.{rl_list_, input_end, input_list, rl_input}
use epita_42sh.Parser.Steps.{give_up, minus_err, branch, after, accept_either}
use epita_42sh.Parser.{
  yes_, no_, wrong, Parsed, returned, endless, misread, accept_loop, compare, rl_accept,
}
use epita_42sh.Token.{token_eq}

-- The state in which `rl_accept` has accepted a token: no error, and that token is to be replaced.
pub record Accepted (token : Token) (r : RlState) : Type 0 where
  pub fine : is_no_error r.err ≡ true
  pub is_token : token_eq r.token token ≡ true
  pub consumed : r.flag.collect ≡ true

compare-Accepted :
    (q r : RlState) (token : Token) → compare q token ≡ returned r yes_ → Accepted token r
unfolding compare
compare-Accepted q r token e = record {
  fine = ground arith;
  is_token = ground arith;
  consumed = ground arith;
}

rl_accept-Accepted :
    (f : ℕ) (s r : RlState) (token : Token)
    → rl_accept f s token ≡ returned r yes_
    → Accepted token r
unfolding rl_accept
rl_accept-Accepted f s r token e = go (accept_loop f s) refl
  where
    go : (l : Lexed) → accept_loop f s ≡ l → Accepted token r
    go (done q) h = compare-Accepted q r token (rw (h, rl_accept) at e)
    go out_of_fuel h = absurd (differ (rw (h, rl_accept) at e))
      where
        differ : endless ≡ returned r yes_ → ⊥
        differ x = cc
    go fault h = absurd (differ (rw (h, rl_accept) at e))
      where
        differ : misread ≡ returned r yes_ → ⊥
        differ x = cc

give_up_never : (s r : RlState) → give_up s ≡ returned r yes_ → ⊥
unfolding give_up minus_err
give_up_never s r e = ground arith

-- What a test that ends in `true` went through.
module _ {P : Type 0} (on_yes other : RlState → Parsed) (r : RlState) where
  after_cases :
      (call : Parsed)
      → after call on_yes other ≡ returned r yes_
      → ((s : RlState) → call ≡ returned s yes_ → on_yes s ≡ returned r yes_ → P)
      → ((s : RlState) → other s ≡ returned r yes_ → P)
      → P
  unfolding after branch
  after_cases (returned s yes_) e good rest = good s refl e
  after_cases (returned s no_) e good rest = rest s e
  after_cases (returned s (wrong x)) e good rest = rest s e
  after_cases endless e good rest = cc
  after_cases misread e good rest = cc

returned_same : (s r : RlState) → returned s yes_ ≡ returned r yes_ → s ≡ r
returned_same s r e = ground arith

swap : {A B : Type 0} → A ⊎ B → B ⊎ A
swap (inl a) = inr a
swap (inr b) = inl b

accept_either-Accepted :
    (f : ℕ) (s r : RlState) (a b : Token)
    → accept_either f s a b ≡ returned r yes_
    → Accepted a r ⊎ Accepted b r
unfolding accept_either
accept_either-Accepted f s r a b e =
    after_cases (λ s'. returned s' yes_) (λ s'. rl_accept f s' b) r (rl_accept f s a) e
      (λ s' h same. inl (rl_accept-Accepted f s r a (ground arith)))
      (λ s' h. inr (rl_accept-Accepted f s' r b h))

input_end-Accepted :
    (f : ℕ) (s r : RlState) → input_end f s ≡ returned r yes_ → Accepted t_lf r ⊎ Accepted t_eof r
unfolding input_end
input_end-Accepted f s r e =
    after_cases (λ s'. returned s' yes_) give_up r (accept_either f s t_eof t_lf) e
      (λ s' h same.
        swap (accept_either-Accepted f s r t_eof t_lf (rw (returned_same s' r same) at h)))
      (λ s' h. absurd (give_up_never s' r h))

input_list-Accepted :
    (f : ℕ) (s r : RlState) → input_list f s ≡ returned r yes_ → Accepted t_lf r ⊎ Accepted t_eof r
unfolding input_list
input_list-Accepted f s r e =
    after_cases (input_end f) give_up r (rl_list_ f s) e (λ s' h. input_end-Accepted f s' r)
      (λ s' h. absurd (give_up_never s' r h))

-- The end of a line or of the input is the last token that `rl_input` accepts.
pub rl_input-Accepted :
    (f : ℕ) (s r : RlState) → rl_input f s ≡ returned r yes_ → Accepted t_lf r ⊎ Accepted t_eof r
unfolding rl_input
rl_input-Accepted f s r e =
    after_cases (λ s'. returned s' yes_)
      (λ a. elim a.err [ no_error ↦ input_list f a | _ ↦ give_up a ]) r
      (accept_either f s t_lf t_eof) e
      (λ s' h same. accept_either-Accepted f s r t_lf t_eof (rw (returned_same s' r same) at h))
      (λ a. go a a.err)
  where
    go :
        (a : RlState) (x : Error)
        → elim x [ no_error ↦ input_list f a | _ ↦ give_up a ] ≡ returned r yes_
        → Accepted t_lf r ⊎ Accepted t_eof r
    go a no_error h = input_list-Accepted f a r h
    go a _ h = absurd (give_up_never a r h)
