-- ===== src/Command/Scoped/Compound.antt =====
-- Where jumps out of compound commands go.
use epita_42sh.Ast.{
  Tree, null, node, rl_shell_cmd, rl_compound_list, rl_if, rl_while, rl_for, rl_until, rl_case,
  rl_subshell,
}
use epita_42sh.Base.Int.{ℤ}
use epita_42sh.Base.Text.{Str}
use epita_42sh.Base.{ℕ, ◌+◌, ◌≡◌, true, Option, none, some, ◌==◌, arith}
use epita_42sh.Command.Compound.{
  subshell_ctx, after_subshell, exec_subshell, exec_compound, shell_cmd_body, exec_shell_cmd,
}
use epita_42sh.Command.Redirect.{with_fds, redirect_all}
use epita_42sh.Command.{Kernel, CmdAttr, cmd_attr}
use epita_42sh.Context.{
  Context, jmp_noop, jmp_continue, jmp_break, exit_with_loop_exit, exit_without_loop_exit,
}
use epita_42sh.Exec.Scoped.{
  Scoped, Stays, Stays-Scoped, exec_compound_list-Scoped, exec_if_clause-Scoped, exec_while-Scoped,
  exec_until-Scoped,
}
use epita_42sh.Exec.Words.Scoped.{exec_for-Scoped, exec_case-Scoped}
use epita_42sh.Exec.Words.{Shell}
use epita_42sh.Exec.{Result, finished, jump, broken, out_of_fuel}
use epita_42sh.Symexp.{Host}
use epita_42sh.Symtab.{Symtab}
use epita_42sh.Command.Scoped.{keep_status-Scoped, with_fds-Scoped}

module _ {ℓ} {W : Type ℓ} (host : Host W) (k : Kernel W) (atoi : Str → ℤ) (fuel : ℕ)
    (run : Context → Tree → Shell W → Result (Shell W))
    (scoped : (ctx : Context) (tree : Tree) (s : Shell W) → Scoped ctx (run ctx tree s)) where
  same_buffer : (n : ℕ) → (n + 1 == n + 1) ≡ true
  same_buffer n = ground arith

  -- The only buffer that a subshell's list can jump to is the subshell's own.
  after_subshell-Stays :
      (ctx : Context) (st : Symtab) (r : Result (Shell W))
      → Scoped (subshell_ctx ctx) r
      → Stays (after_subshell st (ctx.exit_jump + 1) r)
  unfolding after_subshell subshell_ctx
  after_subshell-Stays ctx st (finished status s) h = tt
  after_subshell-Stays ctx st (jump b jmp_noop s) h = absurd h
  after_subshell-Stays ctx st (jump b jmp_continue s) h = absurd h
  after_subshell-Stays ctx st (jump b jmp_break s) h = absurd h
  after_subshell-Stays ctx st (jump b exit_with_loop_exit s) h =
      rw (h, same_buffer ctx.exit_jump) tt
  after_subshell-Stays ctx st (jump b exit_without_loop_exit s) h =
      rw (h, same_buffer ctx.exit_jump) tt
  after_subshell-Stays ctx st broken h = tt
  after_subshell-Stays ctx st out_of_fuel h = tt

  pub exec_subshell-Stays :
      (ctx : Context) (tree : Tree) (s : Shell W)
      → Stays (exec_subshell host k atoi fuel run ctx tree s)
  unfolding exec_subshell
  exec_subshell-Stays ctx (node rl_subshell attr child sibling) s =
      after_subshell-Stays ctx s.st _
        (exec_compound_list-Scoped run scoped (subshell_ctx ctx) child _)
  exec_subshell-Stays ctx _ s = tt

  exec_subshell-Scoped :
      (ctx : Context) (tree : Tree) (s : Shell W)
      → Scoped ctx (exec_subshell host k atoi fuel run ctx tree s)
  exec_subshell-Scoped ctx tree s = Stays-Scoped ctx _ (exec_subshell-Stays ctx tree s)

  exec_compound-Scoped :
      (ctx : Context) (a : CmdAttr) (tree : Tree) (s : Shell W)
      → Scoped ctx (exec_compound host k atoi fuel run ctx a tree s)
  unfolding exec_compound
  exec_compound-Scoped ctx a (node rl_compound_list attr c x) s =
      keep_status-Scoped ctx a _
        (exec_compound_list-Scoped run scoped ctx (node rl_compound_list attr c x) s)
  exec_compound-Scoped ctx a (node rl_if attr c x) s =
      keep_status-Scoped ctx a _ (exec_if_clause-Scoped run scoped ctx (node rl_if attr c x) s)
  exec_compound-Scoped ctx a (node rl_while attr c x) s =
      keep_status-Scoped ctx a _ (exec_while-Scoped run scoped fuel ctx (node rl_while attr c x) s)
  exec_compound-Scoped ctx a (node rl_for attr c x) s =
      keep_status-Scoped ctx a _ (exec_for-Scoped host run scoped ctx (node rl_for attr c x) s)
  exec_compound-Scoped ctx a (node rl_until attr c x) s =
      keep_status-Scoped ctx a _ (exec_until-Scoped run scoped fuel ctx (node rl_until attr c x) s)
  exec_compound-Scoped ctx a (node rl_case attr c x) s =
      keep_status-Scoped ctx a _ (exec_case-Scoped host run scoped ctx (node rl_case attr c x) s)
  exec_compound-Scoped ctx a (node rl_subshell attr c x) s =
      keep_status-Scoped ctx a _ (exec_subshell-Scoped ctx (node rl_subshell attr c x) s)
  exec_compound-Scoped ctx a _ s = tt

  shell_cmd_body-Scoped :
      (ctx : Context) (a : CmdAttr) (tree : Tree) (s : Shell W)
      → Scoped ctx (shell_cmd_body host k atoi fuel run ctx a tree s)
  unfolding shell_cmd_body
  shell_cmd_body-Scoped ctx a null s = tt
  shell_cmd_body-Scoped ctx a (node t attr c redirs) s =
      redirected-Scoped (redirect_all host k atoi ctx redirs s)
    where
      redirected-Scoped :
          (o : Option (Shell W))
          → Scoped ctx (elim o [
            | none ↦ broken
            | some s' ↦ exec_compound host k atoi fuel run ctx a (node t attr c redirs) s'
          ])
      redirected-Scoped none = tt
      redirected-Scoped (some s') = exec_compound-Scoped ctx a (node t attr c redirs) s'

  pub exec_shell_cmd-Scoped :
      (ctx : Context) (tree : Tree) (s : Shell W)
      → Scoped ctx (exec_shell_cmd host k atoi fuel run ctx tree s)
  unfolding exec_shell_cmd
  exec_shell_cmd-Scoped ctx (node rl_shell_cmd attr (node t a c x) sibling) s =
      own-Scoped (cmd_attr attr)
    where
      own-Scoped :
          (o : Option CmdAttr)
          → Scoped ctx (elim o [
            | none ↦ broken
            | some own ↦
                with_fds k own (shell_cmd_body host k atoi fuel run ctx own (node t a c x)) s
          ])
      own-Scoped none = tt
      own-Scoped (some own) =
          with_fds-Scoped k ctx own _ s (λ t'. shell_cmd_body-Scoped ctx own (node t a c x) t')
  exec_shell_cmd-Scoped ctx _ s = tt
