-- ===== src/Exec.antt =====
-- The control flow of the executor, rl_exec_list and the other functions of the rl_*.c files that
-- run trees over pipelines. How a pipeline runs, rl_exec_pipeline, is a parameter.
mod Tests
pub mod AndOr
pub mod Loops
pub mod Conditions
pub mod Words
pub mod Scoped
use epita_42sh.Ast.{
  RuleType, Token, Attr, Tree, null, node, pipe, t_and_if, t_or_if, rl_list, rl_and_or, rl_if,
  rl_elif, rl_else, rl_compound_list, rl_while, rl_until,
}
use epita_42sh.Base.{ℕ, zero, suc, ◌+◌, Bool, true, false, not, List, [], ◌∷◌, if◌then◌else◌, ◌==◌}
use epita_42sh.Context.{Context, JmpValue, jmp_continue, jmp_break, ctx_add_jump}

-- A function returns a status, or a jump to a buffer with a value leaves it; `broken` is a failed
-- assertion or a NULL that is followed.
pub data Result {ℓ} (S : Type ℓ) : Type ℓ where
  finished : ℕ → S → Result S
  jump : ℕ → JmpValue → S → Result S
  broken : Result S
  out_of_fuel : Result S

unfoldable pub then_ {ℓ} : {S : Type ℓ} → Result S → (ℕ → S → Result S) → Result S
then_ (finished status s) k = k status s
then_ (jump buffer val s) k = jump buffer val s
then_ broken k = broken
then_ out_of_fuel k = out_of_fuel

-- `exec_next` behind a node with the operator, when the status is `status`.
unfoldable pub op_goes_on : Token → ℕ → Bool
op_goes_on t_and_if status = status == 0
op_goes_on t_or_if status = not (status == 0)
op_goes_on _ status = false

unfoldable pub exec_next_of : Attr → ℕ → Bool
unfolding op_goes_on
exec_next_of (pipe op negate) status = op_goes_on op status
exec_next_of _ status = false

module _ {ℓ} {S : Type ℓ} (exec_pipeline : Context → Tree → S → Result S) where
  -- The loop of `rl_exec_and_or` from a node on; its first node sees `exec_next` true.
  unfoldable pub and_or_loop : Context → Tree → ℕ → Bool → S → Result S
  unfolding exec_next_of
  and_or_loop ctx null status exec_next s = finished status s
  and_or_loop ctx (node type attr child sibling) status exec_next s =
      then_
        (if exec_next
          then exec_pipeline ctx (node type attr child sibling) s
          else finished status s)
        (λ status s. and_or_loop ctx sibling status (exec_next_of attr status) s)

  unfoldable pub exec_and_or : Context → Tree → S → Result S
  unfolding and_or_loop
  exec_and_or ctx (node rl_and_or attr (node t a c x) sibling) s =
      and_or_loop ctx (node t a c x) 0 true s
  exec_and_or ctx _ s = broken

  -- The loops of `rl_exec_list` and `rl_exec_compound_list`.
  unfoldable pub items_loop : Context → Tree → ℕ → S → Result S
  unfolding exec_and_or
  items_loop ctx null status s = finished status s
  items_loop ctx (node type attr child sibling) status s =
      then_ (exec_and_or ctx (node type attr child sibling) s)
        (λ status s. items_loop ctx sibling status s)

  unfoldable pub exec_list : Context → Tree → S → Result S
  unfolding items_loop
  exec_list ctx (node rl_list attr (node t a c x) sibling) s = items_loop ctx (node t a c x) 0 s
  exec_list ctx _ s = broken

  unfoldable pub exec_compound_list : Context → Tree → S → Result S
  unfolding items_loop
  exec_compound_list ctx (node rl_compound_list attr (node t a c x) sibling) s =
      items_loop ctx (node t a c x) 0 s
  exec_compound_list ctx _ s = broken

  -- `rl_exec_do_group` asserts what `rl_exec_compound_list` asserts.
  pub exec_do_group : Context → Tree → S → Result S
  unfolding exec_compound_list
  exec_do_group ctx tree s = exec_compound_list ctx tree s

  unfoldable pub exec_else_clause : Context → Tree → S → Result S
  unfolding exec_compound_list
  exec_else_clause ctx (node rl_else attr child sibling) s = exec_compound_list ctx child s
  exec_else_clause ctx (node rl_elif attr (node t a c (node t' a' c' rest)) sibling) s =
      let other = exec_else_clause ctx rest in
      then_ (exec_compound_list ctx (node t a c (node t' a' c' rest)) s) (λ status s.
        elim (status == 0) [
          | true ↦ exec_compound_list ctx (node t' a' c' rest) s
          | false ↦ elim rest [ null ↦ finished 0 s | node _ _ _ _ ↦ other s ]
        ])
  exec_else_clause ctx _ s = broken

  unfoldable pub exec_if_clause : Context → Tree → S → Result S
  unfolding exec_compound_list exec_else_clause
  exec_if_clause ctx (node rl_if attr (node t a c (node t' a' c' rest)) sibling) s =
      then_ (exec_compound_list ctx (node t a c (node t' a' c' rest)) s) (λ status s.
        elim (status == 0) [
          | true ↦ exec_compound_list ctx (node t' a' c' rest) s
          | false ↦ elim rest [
            | null ↦ finished 0 s
            | node t'' a'' c'' x ↦ exec_else_clause ctx (node t'' a'' c'' x) s
          ]
        ])
  exec_if_clause ctx _ s = broken

  -- What follows the body of a loop whose jump buffer is `buffer`.
  unfoldable pub after_body : ℕ → Result S → (S → Result S) → Result S
  after_body buffer (finished status s) again = again s
  after_body buffer (jump target jmp_continue s) again =
      if target == buffer then again s else jump target jmp_continue s
  after_body buffer (jump target jmp_break s) again =
      if target == buffer then finished 0 s else jump target jmp_break s
  after_body buffer (jump target val s) again = jump target val s
  after_body buffer broken again = broken
  after_body buffer out_of_fuel again = out_of_fuel

  -- The loops of `rl_exec_while` and, with `until`, `rl_exec_until`, on the condition and the
  -- body behind it. The buffers of the loops that are running differ as their levels do.
  unfoldable pub while_loop : ℕ → Bool → Context → Tree → Tree → S → Result S
  unfolding exec_compound_list after_body
  while_loop zero until ctx condition body s = out_of_fuel
  while_loop (suc f) until ctx condition body s =
      then_ (exec_compound_list ctx condition s) (λ status s.
        elim (if until then not (status == 0) else status == 0) [
          | false ↦ finished 0 s
          | true ↦
              after_body (ctx.level + 1)
                (exec_compound_list (ctx_add_jump ctx (ctx.level + 1)) body s)
                (λ s. while_loop f until ctx condition body s)
        ])

  unfoldable pub exec_while : ℕ → Context → Tree → S → Result S
  unfolding while_loop
  exec_while f ctx (node rl_while attr (node t a c body) sibling) s =
      while_loop f false ctx (node t a c body) body s
  exec_while f ctx _ s = broken

  unfoldable pub exec_until : ℕ → Context → Tree → S → Result S
  unfolding while_loop
  exec_until f ctx (node rl_until attr (node t a c body) sibling) s =
      while_loop f true ctx (node t a c body) body s
  exec_until f ctx _ s = broken
