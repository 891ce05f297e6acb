-- ===== src/Command/Scoped/Runner.antt =====
-- Where jumps out of simple commands and functions go.
use epita_42sh.Ast.{Tree, node, rl_simple_cmd}
use epita_42sh.Base.Int.{ℤ}
use epita_42sh.Base.Text.{Str}
use epita_42sh.Base.{ℕ, Option, none, some, List, [], ◌∷◌}
use epita_42sh.Builtins.Cd.{Os}
use epita_42sh.Command.Builtin.{Builtin, builtin_find, run_builtin}
use epita_42sh.Command.Compound.{exec_shell_cmd}
use epita_42sh.Command.Redirect.{with_fds}
use epita_42sh.Command.Scoped.Compound.{exec_shell_cmd-Scoped}
use epita_42sh.Command.Scoped.{keep_status-Scoped, with_fds-Scoped, run_builtin-Scoped}
use epita_42sh.Command.Simple.{
  pid_code, function_ctx, keep_code, push_args, add_symbols, apply_env, run_other, run_args,
  simple_cmd_body, exec_simple_cmd,
}
use epita_42sh.Command.{Kernel, CmdAttr, cmd_attr, keep_status, at_world}
use epita_42sh.Context.{
  Context, JmpValue, jmp_noop, jmp_continue, jmp_break, exit_with_loop_exit, exit_without_loop_exit,
  ctx_add_alloc, alloc_list_type,
}
use epita_42sh.Exec.Scoped.{Live, Scoped, Scoped-map, Scoped-alloc, Scoped-loops, no_loops}
use epita_42sh.Exec.Words.{Shell}
use epita_42sh.Exec.{Result, finished, jump, broken, out_of_fuel}
use epita_42sh.Symexp.{Host}
use epita_42sh.Symtab.{KvPair, kv_func, symtab_lookup}

module _ {ℓ} {W : Type ℓ} (host : Host W) (k : Kernel W) (os : Os W) (atoi : Str → ℤ) where
  module _ (fuel : ℕ) (run : Context → Tree → Shell W → Result (Shell W))
      (bi_source : Context → List Str → Shell W → Result (Shell W))
      (scoped : (ctx : Context) (tree : Tree) (s : Shell W) → Scoped ctx (run ctx tree s))
      (sourced : (ctx : Context) (args : List Str) (s : Shell W)
        → Scoped ctx (bi_source ctx args s)) where
    -- In a function there is no loop to jump to.
    Live-function :
        (ctx : Context) (args : List Str) (b : ℕ) (val : JmpValue)
        → Live (function_ctx host k os atoi fuel run bi_source ctx args) b val
        → Live (no_loops ctx) b val
    unfolding function_ctx ctx_add_alloc
    Live-function ctx args b jmp_noop h = h
    Live-function ctx args b jmp_continue h = h
    Live-function ctx args b jmp_break h = h
    Live-function ctx args b exit_with_loop_exit h = h
    Live-function ctx args b exit_without_loop_exit h = h

    keep_code-Scoped :
        (ctx : Context) (a : CmdAttr) (r : Result (CmdAttr × Shell W))
        → Scoped ctx r
        → Scoped ctx (keep_code host k os atoi fuel run bi_source a r)
    unfolding keep_code
    keep_code-Scoped ctx a (finished code (own, s)) h = tt
    keep_code-Scoped ctx a (jump b val (own, s)) h = h
    keep_code-Scoped ctx a broken h = tt
    keep_code-Scoped ctx a out_of_fuel h = tt

    alloc-no_loops :
        (ctx : Context) (b : ℕ) (val : JmpValue)
        → Live (no_loops (ctx_add_alloc ctx alloc_list_type 0)) b val
        → Live (no_loops ctx) b val
    unfolding ctx_add_alloc
    alloc-no_loops ctx b jmp_noop h = h
    alloc-no_loops ctx b jmp_continue h = h
    alloc-no_loops ctx b jmp_break h = h
    alloc-no_loops ctx b exit_with_loop_exit h = h
    alloc-no_loops ctx b exit_without_loop_exit h = h

    pub run_other-no_loops :
        (ctx : Context) (a : CmdAttr) (child : Tree) (name : Str) (args : List Str) (s : Shell W)
        → Scoped
            (no_loops ctx)
            (run_other host k os atoi fuel run bi_source ctx a child name args s)
    unfolding run_other
    run_other-no_loops ctx a child name args s = found-Scoped (symtab_lookup s.st name kv_func)
      where
        found-Scoped :
            (o : Option KvPair)
            → Scoped {S = CmdAttr × Shell W} (no_loops ctx) (elim o [
              | some kv ↦ keep_code host k os atoi fuel run bi_source a (
                  exec_shell_cmd host k atoi fuel run
                    (function_ctx host k os atoi fuel run bi_source
                      (ctx_add_alloc ctx alloc_list_type 0)
                      (name ∷ args))
                    kv.func
                    s)
              | none ↦
                  let (pid, w) =
                    k.fork (apply_env host k os atoi ctx child s) (name ∷ args) s.world in
                  finished (pid_code pid) (record a { pid = pid }, at_world s w)
            ])
        found-Scoped none = tt
        found-Scoped (some kv) =
            let inner = ctx_add_alloc ctx alloc_list_type 0 in
            let called = function_ctx host k os atoi fuel run bi_source inner (name ∷ args) in
            keep_code-Scoped (no_loops ctx) a _ (
              Scoped-map called (no_loops ctx)
                (λ b val h. alloc-no_loops ctx b val (Live-function inner (name ∷ args) b val h)) _
                (exec_shell_cmd-Scoped host k atoi fuel run scoped called kv.func s))

    run_other-Scoped :
        (ctx : Context) (a : CmdAttr) (child : Tree) (name : Str) (args : List Str) (s : Shell W)
        → Scoped ctx (run_other host k os atoi fuel run bi_source ctx a child name args s)
    run_other-Scoped ctx a child name args s =
        Scoped-loops ctx _ (run_other-no_loops ctx a child name args s)

    run_args-Scoped :
        (ctx : Context) (a : CmdAttr) (child : Tree) (args : List Str) (s : Shell W)
        → Scoped ctx (run_args host k os atoi fuel run bi_source ctx a child args s)
    unfolding run_args
    run_args-Scoped ctx a child [] s = symbols-Scoped (add_symbols host k os atoi ctx child s)
      where
        symbols-Scoped :
            (o : Option (Shell W))
            → Scoped {S = CmdAttr × Shell W} ctx
                (elim o [ none ↦ broken | some t ↦ finished (pid_code a.pid) (a, t) ])
        symbols-Scoped none = tt
        symbols-Scoped (some t) = tt
    run_args-Scoped ctx a child (name ∷ args) s = builtin-Scoped (builtin_find name)
      where
        builtin-Scoped :
            (o : Option Builtin)
            → Scoped ctx (elim o [
              | some blt ↦ keep_status a (
                  run_builtin k os atoi bi_source blt
                    (ctx_add_alloc ctx alloc_list_type 0)
                    name
                    args
                    s)
              | none ↦ run_other host k os atoi fuel run bi_source ctx a child name args s
            ])
        builtin-Scoped none = run_other-Scoped ctx a child name args s
        builtin-Scoped (some blt) = keep_status-Scoped ctx a _ (
            Scoped-alloc ctx alloc_list_type 0 _ (
              run_builtin-Scoped k os atoi bi_source sourced blt
                (ctx_add_alloc ctx alloc_list_type 0) name args s))

    pub exec_simple_cmd-Scoped :
        (ctx : Context) (tree : Tree) (s : Shell W)
        → Scoped ctx (exec_simple_cmd host k os atoi fuel run bi_source ctx tree s)
    unfolding exec_simple_cmd simple_cmd_body
    exec_simple_cmd-Scoped ctx (node rl_simple_cmd attr (node t a c x) sibling) s =
        own-Scoped (cmd_attr attr)
      where
        args-Scoped :
            (own : CmdAttr) (o : Option (List Str × Shell W))
            → Scoped ctx (elim o [
              | none ↦ broken
              | some (args, u) ↦
                  run_args host k os atoi fuel run bi_source ctx own (node t a c x) args u
            ])
        args-Scoped own none = tt
        args-Scoped own (some (args, u)) = run_args-Scoped ctx own (node t a c x) args u

        own-Scoped :
            (o : Option CmdAttr)
            → Scoped ctx (elim o [
              | none ↦ broken
              | some own ↦
                  with_fds k own
                    (simple_cmd_body host k os atoi fuel run bi_source ctx own (node t a c x))
                    s
            ])
        own-Scoped none = tt
        own-Scoped (some own) =
            with_fds-Scoped k ctx own _ s
              (λ u. args-Scoped own (push_args host k os atoi ctx (node t a c x) [] u))
    exec_simple_cmd-Scoped ctx _ s = tt
