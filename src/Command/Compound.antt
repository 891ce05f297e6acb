-- ===== src/Command/Compound.antt =====
-- Compound commands: rl_exec_shell_cmd and rl_exec_subshell. A buffer that `exit` jumps to is not
-- one that `break` and `continue` jump to, and the value of a jump says which it is.
use epita_42sh.Ast.{
  Tree, null, node, rl_shell_cmd, rl_compound_list, rl_if, rl_while, rl_for, rl_until, rl_case,
  rl_subshell,
}
use epita_42sh.Base.Int.{ℤ, pos, negsuc}
use epita_42sh.Base.Text.{Str}
use epita_42sh.Base.{ℕ, ◌+◌, ◌-◌, ◌^◌, Bool, true, false, none, some, [], if◌then◌else◌, ◌==◌}
use epita_42sh.Command.Redirect.{with_fds, redirect_all}
use epita_42sh.Command.{Kernel, CmdAttr, cmd_attr, no_error_code, keep_status}
use epita_42sh.Context.{Context, JmpValue, exit_with_loop_exit, exit_without_loop_exit}
use epita_42sh.Exec.Words.{Shell, exec_for, exec_case}
use epita_42sh.Exec.{
  Result, finished, jump, broken, out_of_fuel, exec_compound_list, exec_if_clause, exec_while,
  exec_until,
}
use epita_42sh.Symexp.{Host}
use epita_42sh.Symtab.{Symtab, symtab_clone}

-- A status is the 32 bits of an `int`.
unfoldable pub status_of : ℤ → ℕ
status_of (pos n) = n
status_of (negsuc n) = 2 ^ 32 - 1 - n

unfoldable pub is_exit : JmpValue → Bool
is_exit exit_with_loop_exit = true
is_exit exit_without_loop_exit = true
is_exit _ = false

-- The context of a subshell: no loops, no allocations and a buffer of its own for `exit`.
unfoldable pub subshell_ctx : Context → Context
subshell_ctx ctx = record ctx { alloc_list = []; loop_jump = []; exit_jump = ctx.exit_jump + 1 }

-- The end of `rl_exec_subshell`: the table of the parent is back, and the status is the last one.
unfoldable pub leave_subshell {ℓ} : {W : Type ℓ} → Symtab → Shell W → Result (Shell W)
unfolding status_of
leave_subshell st s = finished (status_of s.exit_status) (record s { st = st })

-- What follows the list of a subshell, whose buffer is `buffer`.
unfoldable pub after_subshell {ℓ} : {W : Type ℓ} → Symtab → ℕ → Result (Shell W) → Result (Shell W)
unfolding leave_subshell is_exit
after_subshell st buffer (finished status s) = leave_subshell st s
after_subshell st buffer (jump target val s) =
    if is_exit val
    then (if target == buffer then leave_subshell st s else jump target val s)
    else jump target val s
after_subshell st buffer broken = broken
after_subshell st buffer out_of_fuel = out_of_fuel

module _ {ℓ} {W : Type ℓ} (host : Host W) (k : Kernel W) (atoi : Str → ℤ) (fuel : ℕ)
    (run : Context → Tree → Shell W → Result (Shell W)) where
  -- `rl_exec_subshell`; it runs in the process of the shell.
  unfoldable pub exec_subshell : Context → Tree → Shell W → Result (Shell W)
  unfolding subshell_ctx after_subshell
  exec_subshell ctx (node rl_subshell attr child sibling) s =
      after_subshell s.st (ctx.exit_jump + 1)
        (exec_compound_list run (subshell_ctx ctx) child (record s { st = symtab_clone s.st }))
  exec_subshell ctx tree s = broken

  -- The compound command, by its type; one of another type leaves the status as it is.
  unfoldable pub exec_compound : Context → CmdAttr → Tree → Shell W → Result (CmdAttr × Shell W)
  unfolding exec_subshell keep_status
  exec_compound ctx a (node rl_compound_list attr c x) s =
      keep_status a (exec_compound_list run ctx (node rl_compound_list attr c x) s)
  exec_compound ctx a (node rl_if attr c x) s =
      keep_status a (exec_if_clause run ctx (node rl_if attr c x) s)
  exec_compound ctx a (node rl_while attr c x) s =
      keep_status a (exec_while run fuel ctx (node rl_while attr c x) s)
  exec_compound ctx a (node rl_for attr c x) s =
      keep_status a (exec_for host run ctx (node rl_for attr c x) s)
  exec_compound ctx a (node rl_until attr c x) s =
      keep_status a (exec_until run fuel ctx (node rl_until attr c x) s)
  exec_compound ctx a (node rl_case attr c x) s =
      keep_status a (exec_case host run ctx (node rl_case attr c x) s)
  exec_compound ctx a (node rl_subshell attr c x) s =
      keep_status a (exec_subshell ctx (node rl_subshell attr c x) s)
  exec_compound ctx a tree s = finished no_error_code (a, s)

  -- The body of `rl_exec_shell_cmd` between saving the descriptors and putting them back: the
  -- redirections behind the command, then the command.
  unfoldable pub shell_cmd_body : Context → CmdAttr → Tree → Shell W → Result (CmdAttr × Shell W)
  unfolding exec_compound
  shell_cmd_body ctx a (node t attr c redirs) s = elim (redirect_all host k atoi ctx redirs s) [
    | none ↦ broken
    | some s' ↦ exec_compound ctx a (node t attr c redirs) s'
  ]
  shell_cmd_body ctx a null s = broken

  -- `rl_exec_shell_cmd`, with what it leaves in its node.
  unfoldable pub exec_shell_cmd : Context → Tree → Shell W → Result (CmdAttr × Shell W)
  unfolding cmd_attr with_fds shell_cmd_body
  exec_shell_cmd ctx (node rl_shell_cmd attr (node t a c x) sibling) s = elim (cmd_attr attr) [
    | none ↦ broken
    | some own ↦ with_fds k own (shell_cmd_body ctx own (node t a c x)) s
  ]
  exec_shell_cmd ctx tree s = broken
