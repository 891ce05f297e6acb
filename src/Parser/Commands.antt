-- ===== src/Parser/Commands.antt =====
-- Simple commands: rl_redirection.c, rl_element.c, rl_prefix.c and rl_simple_cmd.c.
use epita_42sh.Ast.{
  Token, rl_simple_cmd, rl_word, rl_assign_word, rl_redirection, word, redir, Tree, null, node,
  t_word, t_assign_word, t_ionumber, t_great, t_less, t_dgreat, t_greatand, t_lessand, t_clobber,
  t_lessgreat,
}
use epita_42sh.Base.Text.{Str}
use epita_42sh.Base.{
  ℕ, zero, suc, ◌+◌, ◌*◌, ◌-◌, ◌||◌, Option, none, some, List, [], ◌∷◌, ◌++◌, if◌then◌else◌,
}
use epita_42sh.Lexer.{RlState, digit}
use epita_42sh.Parser.Steps.{
  give_up, ending, branch, after, items, start_cmd, stop_cmd, fail_parser, set_node, new_node,
  chain,
}
use epita_42sh.Parser.{yes_, no_, Parsed, returned, endless, rl_accept}
use epita_42sh.Token.{token_eq}
use epita_42sh.Utils.Vec.{c_string}

-- `atoi` on the word of an IONUMBER, which is a digit: the value of the digits in front.
atoi : ℕ → Str → ℕ
atoi n [] = n
atoi n (c ∷ s) = let rest = atoi (n * 10 + (c - b'0')) s in if digit c then rest else n

-- `__redirtoken`: the first of the tokens that is accepted.
redir_token : ℕ → List Token → (Token → RlState → Parsed) → RlState → Parsed
unfolding after
redir_token f [] found s = returned s no_
redir_token f (t ∷ l) found s = after (rl_accept f s t) (found t) (redir_token f l found)

redir_tokens : List Token
redir_tokens = t_great ∷ t_less ∷ t_dgreat ∷ t_greatand ∷ t_lessand ∷ t_clobber ∷ t_lessgreat ∷ []

-- The end of `rl_redirection`: the node for the file or the number that was accepted.
redir_node : Token → ℕ → RlState → Parsed
redir_node token ionumber s =
    returned
      (set_node
        (node rl_redirection (redir (some token) ionumber (some (c_string s.word))) null null) s)
      yes_

-- `rl_redirection` behind the operator.
redir_target : ℕ → Option ℕ → Token → RlState → Parsed
unfolding after redir_node fail_parser
redir_target f got token s =
    let reads = token_eq token t_less || (token_eq token t_lessand || token_eq token t_lessgreat) in
    let ionumber : ℕ = elim got [ some n ↦ n | none ↦ if reads then 0 else 1 ] in
    let file : RlState → Parsed =
      λ s'. after (rl_accept f s' t_word) (redir_node token ionumber) fail_parser in
    if token_eq token t_lessand || token_eq token t_greatand
    then after (rl_accept f s t_ionumber) (redir_node token ionumber) file
    else file s

unfoldable pub rl_redirection_ : ℕ → RlState → Parsed
unfolding after redir_token redir_tokens redir_target atoi
rl_redirection_ f s =
    after (rl_accept f s t_ionumber)
      (λ s'. redir_token f redir_tokens (redir_target f (some (atoi 0 (c_string s'.word)))) s')
      (redir_token f redir_tokens (redir_target f none))

rl_element : ℕ → RlState → Parsed
unfolding after give_up rl_redirection_
rl_element f s =
    after (rl_redirection_ f s) (λ s'. returned s' yes_)
      (λ s'.
        after (rl_accept f s' t_word)
          (λ r. returned (set_node (node rl_word (word (some (c_string r.word))) null null) r) yes_)
          give_up)

rl_prefix : ℕ → RlState → Parsed
unfolding after give_up start_cmd rl_redirection_
rl_prefix f s =
    after (rl_redirection_ f s) (λ s'. returned s' yes_)
      (λ s'.
        after (rl_accept f (start_cmd s') t_assign_word)
          (λ r.
            returned (set_node (node rl_assign_word (word (some (c_string r.word))) null null) r)
              yes_)
          give_up)

-- The end of `rl_simple_cmd`.
simple_end : List Tree → RlState → Parsed
unfolding ending new_node chain
simple_end l s = ending (set_node (new_node rl_simple_cmd (chain l)) s)

-- `rl_simple_cmd` behind the prefixes.
simple_words : ℕ → List Tree → RlState → Parsed
unfolding after items rl_element stop_cmd simple_end
simple_words f l s =
    after (rl_element f s)
      (λ s'. items f (rl_element f) simple_end (l ++ s'.node ∷ []) (stop_cmd s'))
      (λ s'. elim l [ [] ↦ returned s' no_ | t ∷ l' ↦ simple_end (t ∷ l') s' ])

-- The loop over the prefixes.
simple_prefixes : ℕ → ℕ → List Tree → RlState → Parsed
unfolding branch rl_prefix give_up simple_words
simple_prefixes zero f l s = endless
simple_prefixes (suc n) f l s =
    branch (rl_prefix f s) (λ s'. simple_prefixes n f (l ++ s'.node ∷ []) s') (simple_words f l)
      (λ s' e. give_up s')

unfoldable pub rl_simple_cmd_ : ℕ → RlState → Parsed
unfolding simple_prefixes start_cmd
rl_simple_cmd_ f s = simple_prefixes f f [] (start_cmd s)
