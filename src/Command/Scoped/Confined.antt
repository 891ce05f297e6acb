-- ===== src/Command/Scoped/Confined.antt =====
-- Where jumps out of pipelines, functions and subshells go.
use epita_42sh.Ast.{Tree}
use epita_42sh.Base.Int.{ℤ}
use epita_42sh.Base.Text.{Str}
use epita_42sh.Base.{ℕ, List}
use epita_42sh.Builtins.Cd.{Os}
use epita_42sh.Command.Compound.{exec_subshell}
use epita_42sh.Command.Pipeline.{run_pipeline}
use epita_42sh.Command.Scoped.Compound.{exec_subshell-Stays}
use epita_42sh.Command.Scoped.Pipes.{runs-Scoped}
use epita_42sh.Command.Scoped.Runner.{run_other-no_loops}
use epita_42sh.Command.Simple.{run_other}
use epita_42sh.Command.{Kernel, CmdAttr}
use epita_42sh.Context.{Context}
use epita_42sh.Exec.Scoped.{Scoped, Stays, no_loops}
use epita_42sh.Exec.Words.{Shell}
use epita_42sh.Exec.{Result}
use epita_42sh.Symexp.{Host}

module _ {ℓ} {W : Type ℓ} (host : Host W) (k : Kernel W) (os : Os W) (atoi : Str → ℤ)
    (bi_source : (Context → Tree → Shell W → Result (Shell W))
      → Context
      → List Str
      → Shell W
      → Result (Shell W))
    (sourced : (run : Context → Tree → Shell W → Result (Shell W))
      → ((ctx : Context) (tree : Tree) (s : Shell W) → Scoped ctx (run ctx tree s))
      → (ctx : Context) (args : List Str) (s : Shell W)
      → Scoped ctx (bi_source run ctx args s)) where
  -- On any fuel, and if the builtin `.` keeps to the first of these: a jump out of a pipeline goes to
  -- a buffer whose `setjmp` is still active in the context it runs in, one of the context's loops
  -- for `break` and `continue`, and the context's own buffer for `exit`; a command that is no
  -- builtin, so a call of a function too, jumps with `exit` only, and to no loop around the call;
  -- and nothing jumps out of a subshell.
  pub run_pipeline-Scoped :
      (fuel : ℕ) (ctx : Context) (tree : Tree) (s : Shell W)
      → let run = run_pipeline host k os atoi bi_source fuel in
        Scoped ctx (run ctx tree s)
        × ((a : CmdAttr) (child : Tree) (name : Str) (args : List Str)
            → Scoped
                (no_loops ctx)
                (run_other host k os atoi fuel run (bi_source run) ctx a child name args s))
        × Stays (exec_subshell host k atoi fuel run ctx tree s)
  run_pipeline-Scoped fuel ctx tree s =
      let run = run_pipeline host k os atoi bi_source fuel in
      let scoped = runs-Scoped host k os atoi bi_source sourced fuel in
      (
        scoped ctx tree s,
        λ a child name args.
            run_other-no_loops host k os atoi fuel run (bi_source run) scoped (sourced run scoped)
              ctx a child name args s,
        exec_subshell-Stays host k atoi fuel run scoped ctx tree s,
      )
