-- ===== src/Parser/Steps.antt =====
-- The control flow that the parser rules share, and the nodes that they make: include/rule_exec.h.
-- What `rl_expect` prints is left out: in a rule it is `rl_accept`.
use epita_42sh.Ast.{
  Token, RuleType, rl_simple_cmd, rl_shell_cmd, rl_redirection, Attr, word, cmd, redir, Tree, null,
  node, t_lf,
}
use epita_42sh.Base.{ℕ, zero, suc, none, List, [], ◌∷◌, ◌++◌, true, false}
use epita_42sh.Io.{Error, no_error, parser_error}
use epita_42sh.Lexer.{RlState}
use epita_42sh.Parser.{Answer, yes_, no_, wrong, Parsed, returned, endless, misread, rl_accept}

-- `-s->err`
unfoldable pub minus_err : RlState → Answer
minus_err s = elim s.err [ no_error ↦ no_ | e ↦ wrong e ]

-- `return -s->err`
unfoldable pub give_up : RlState → Parsed
unfolding minus_err
give_up s = returned s (minus_err s)

-- `return (s->err != NO_ERROR) ? -s->err : true`
unfoldable pub ending : RlState → Parsed
ending s = returned s (elim s.err [ no_error ↦ yes_ | e ↦ wrong e ])

-- What follows a call by its answer: `true`, `false`, and an error.
unfoldable pub branch :
    Parsed → (RlState → Parsed) → (RlState → Parsed) → (RlState → Error → Parsed) → Parsed
branch (returned s yes_) on_yes on_no on_error = on_yes s
branch (returned s no_) on_yes on_no on_error = on_no s
branch (returned s (wrong e)) on_yes on_no on_error = on_error s e
branch endless on_yes on_no on_error = endless
branch misread on_yes on_no on_error = misread

-- The same for `== true` or `<= 0`.
unfoldable pub after : Parsed → (RlState → Parsed) → (RlState → Parsed) → Parsed
unfolding branch
after call on_yes other = branch call on_yes other (λ s e. other s)

-- A call whose answer is dropped.
unfoldable pub regardless : Parsed → (RlState → Parsed) → Parsed
unfolding after
regardless call next = after call next next

-- `f(s) <= 0 || g(s) <= 0` fails.
unfoldable pub both : Parsed → (RlState → Parsed) → Parsed
unfolding after
both call next = after call next (λ s. returned s no_)

-- `rl_accept(s, a) == true || rl_accept(s, b) == true`
unfoldable pub accept_either : ℕ → RlState → Token → Token → Parsed
unfolding after rl_accept
accept_either f s a b = after (rl_accept f s a) (λ s'. returned s' yes_) (λ s'. rl_accept f s' b)

-- `while (rl_accept(s, T_LF) == true) ;`
unfoldable pub skip_lf : ℕ → RlState → Parsed
unfolding after rl_accept
skip_lf zero s = endless
skip_lf (suc f) s = after (rl_accept f s t_lf) (λ s'. skip_lf f s') (λ s'. returned s' no_)

-- A loop that appends the node of each round to a list of siblings.
unfoldable pub items :
    ℕ → (RlState → Parsed) → (List Tree → RlState → Parsed) → List Tree → RlState → Parsed
unfolding after
items zero item close l s = endless
items (suc n) item close l s =
    after (item s) (λ s'. items n item close (l ++ s'.node ∷ []) s') (close l)

-- The flags of the state.
unfoldable pub start_cmd : RlState → RlState
start_cmd s = record s { flag = record s.flag { cmdstart = true } }

unfoldable pub stop_cmd : RlState → RlState
stop_cmd s = record s { flag = record s.flag { cmdstart = false } }

unfoldable pub open_line : RlState → RlState
open_line s = record s { flag = record s.flag { line_start = true } }

unfoldable pub close_line : RlState → RlState
close_line s = record s { flag = record s.flag { line_start = false } }

-- `s->err = s->err != NO_ERROR ? s->err : PARSER_ERROR`
unfoldable pub blame : RlState → RlState
blame s = record s { err = elim s.err [ no_error ↦ parser_error | e ↦ e ] }

-- `return -(s->err = PARSER_ERROR)`
unfoldable pub fail_parser : RlState → Parsed
fail_parser s = returned (record s { err = parser_error }) (wrong parser_error)

unfoldable pub set_node : Tree → RlState → RlState
set_node t s = record s { node = t }

-- The attributes that `rl_exectree_new` gives a node.
unfoldable pub new_attr : RuleType → Attr
new_attr rl_simple_cmd = cmd 0 none 0 1 2
new_attr rl_shell_cmd = cmd 0 none 0 1 2
new_attr rl_redirection = redir none 1 none
new_attr _ = word none

-- `rl_exectree_new`, with the first child.
unfoldable pub new_node : RuleType → Tree → Tree
unfolding new_attr
new_node type child = node type (new_attr type) child null

unfoldable pub set_sibling : Tree → Tree → Tree
set_sibling t null = null
set_sibling t (node type attr child old) = node type attr child t

-- The first of some nodes, each the sibling of the one before.
unfoldable pub chain : List Tree → Tree
unfolding set_sibling
chain [] = null
chain (t ∷ []) = t
chain (t ∷ (u ∷ l)) = set_sibling (chain (u ∷ l)) t
