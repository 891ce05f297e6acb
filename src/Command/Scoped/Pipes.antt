-- ===== src/Command/Scoped/Pipes.antt =====
-- Where jumps out of pipelines go.
use epita_42sh.Ast.{
  RuleType, Attr, pipe, Tree, null, node, rl_pipeline, rl_simple_cmd, rl_shell_cmd, rl_fundec,
}
use epita_42sh.Base.Int.{ℤ, pos}
use epita_42sh.Base.Text.{Str}
use epita_42sh.Base.{ℕ, zero, suc, Bool, true, false, Option, none, some, List, if◌then◌else◌, ◌==◌}
use epita_42sh.Builtins.Cd.{Os}
use epita_42sh.Command.Pipeline.{
  is_command, keep_attr, after_command, piperun, pipewait, pipeline_end, exec_pipeline, exec_cmd,
  run_pipeline,
}
use epita_42sh.Command.Scoped.Compound.{exec_shell_cmd-Scoped}
use epita_42sh.Command.Scoped.{keep_attr-Scoped, drop_tree-Scoped, link-Scoped}
use epita_42sh.Command.{
  Kernel, CmdAttr, cmd_attr, attr_of, at_world, no_error_code, execution_error_code,
}
use epita_42sh.Context.{Context}
use epita_42sh.Exec.Scoped.{Scoped}
use epita_42sh.Exec.Words.Scoped.{exec_fundec-Scoped}
use epita_42sh.Exec.Words.{Shell, exec_fundec}
use epita_42sh.Exec.{Result, finished, jump, broken, out_of_fuel}
use epita_42sh.Symexp.{Host}
use epita_42sh.Command.Scoped.Runner.{exec_simple_cmd-Scoped}

module _ {ℓ} {W : Type ℓ} (k : Kernel W)
    (exec_cmd : Context → Tree → Shell W → Result (CmdAttr × Shell W))
    (scoped : (ctx : Context) (tree : Tree) (s : Shell W) → Scoped ctx (exec_cmd ctx tree s)) where
  after_command-Scoped :
      (ctx : Context) (t : RuleType) (c x : Tree) (write_end : ℕ)
      (next : Shell W → Result (Tree × Shell W)) (r : Result (CmdAttr × Shell W))
      → ((s : Shell W) → Scoped ctx (next s))
      → Scoped ctx r
      → Scoped ctx (after_command k exec_cmd t c x write_end next r)
  unfolding after_command
  after_command-Scoped ctx t c x write_end next (finished code (a, s)) hn h =
      link-Scoped ctx t a c _ (hn _)
  after_command-Scoped ctx t c x write_end next (jump b val (a, s)) hn h = h
  after_command-Scoped ctx t c x write_end next broken hn h = tt
  after_command-Scoped ctx t c x write_end next out_of_fuel hn h = tt

  -- What follows a command, by the node behind it.
  next-Scoped :
      (ctx : Context) (x : Tree) (others : Result (Tree × Shell W)) (u : Shell W)
      → Scoped ctx others
      → Scoped {S = Tree × Shell W} ctx
          (elim x [ null ↦ finished no_error_code (null, u) | node _ _ _ _ ↦ others ])
  next-Scoped ctx null others u h = tt
  next-Scoped ctx (node t a c x) others u h = h

  piperun-Scoped :
      (ctx : Context) (tree : Tree) (fdin : ℕ) (s : Shell W)
      → Scoped ctx (piperun k exec_cmd ctx tree fdin s)
  unfolding piperun
  piperun-Scoped ctx null fdin s = tt
  piperun-Scoped ctx (node t attr c x) fdin s =
      command-Scoped (is_command t) (cmd_attr attr) (k.pipe s.world) _
        (λ read_end u. piperun-Scoped ctx x read_end u)
    where
      command-Scoped :
          (b : Bool) (o : Option CmdAttr) (r : Option (ℕ × ℕ) × W)
          (others : ℕ → Shell W → Result (Tree × Shell W))
          → ((read_end : ℕ) (u : Shell W) → Scoped ctx (others read_end u))
          → Scoped {S = Tree × Shell W} ctx (elim b [
            | false ↦ broken
            | true ↦ elim o [
              | none ↦ broken
              | some a ↦ elim r.0 [
                | none ↦ finished execution_error_code (node t attr c x, at_world s r.1)
                | some (read_end, write_end) ↦
                    after_command k exec_cmd t c x write_end
                      (λ u. elim x [
                        | null ↦ finished no_error_code (null, u)
                        | node _ _ _ _ ↦ others read_end u
                      ])
                      (exec_cmd ctx
                        (node t
                          (attr_of (record a {
                            fd0 = fdin;
                            fd1 = elim x [ null ↦ 1 | node _ _ _ _ ↦ write_end ];
                          }))
                          c
                          x)
                        (at_world s (k.set_cloexec write_end (k.set_cloexec read_end r.1))))
              ]
            ]
          ])
      command-Scoped false o r others h = tt
      command-Scoped true none r others h = tt
      command-Scoped true (some a) (none, w) others h = tt
      command-Scoped true (some a) (some (read_end, write_end), w) others h =
          after_command-Scoped ctx t c x write_end _ _ (λ u. next-Scoped ctx x _ u (h read_end u))
            (scoped ctx _ _)

  pipeline_end-Scoped :
      (ctx : Context) (attr : Attr) (x : Tree) (r : Result (Tree × Shell W))
      → Scoped ctx r
      → Scoped ctx (pipeline_end k exec_cmd attr x r)
  unfolding pipeline_end
  pipeline_end-Scoped ctx (pipe op negate) x (finished code (commands, s)) h =
      waited-Scoped (pipewait k commands s.world)
    where
      waited-Scoped :
          (o : Option (ℕ × Tree × W))
          → Scoped {S = Tree × Shell W} ctx (elim o [
            | none ↦ broken
            | some (last, commands', w) ↦
                let status = if negate then (if last == 0 then 1 else 0) else last in
                finished status (
                  node rl_pipeline (pipe op negate) commands' x,
                  record s { exit_status = pos status; world = w },
                )
          ])
      waited-Scoped none = tt
      waited-Scoped (some (last, commands', w)) = tt
  pipeline_end-Scoped ctx attr x (jump b val (commands, s)) h = h
  pipeline_end-Scoped ctx _ x _ h = tt

  exec_pipeline-Scoped :
      (ctx : Context) (tree : Tree) (s : Shell W) → Scoped ctx (exec_pipeline k exec_cmd ctx tree s)
  unfolding exec_pipeline
  exec_pipeline-Scoped ctx (node rl_pipeline attr (node t a c x) sibling) s =
      pipeline_end-Scoped ctx attr sibling _ (piperun-Scoped ctx (node t a c x) 0 s)
  exec_pipeline-Scoped ctx _ s = tt

module _ {ℓ} {W : Type ℓ} (host : Host W) (k : Kernel W) (os : Os W) (atoi : Str → ℤ)
    (bi_source : (Context → Tree → Shell W → Result (Shell W))
      → Context
      → List Str
      → Shell W
      → Result (Shell W))
    (sourced : (run : Context → Tree → Shell W → Result (Shell W))
      → ((ctx : Context) (tree : Tree) (s : Shell W) → Scoped ctx (run ctx tree s))
      → (ctx : Context) (args : List Str) (s : Shell W)
      → Scoped ctx (bi_source run ctx args s)) where
  exec_cmd-Scoped :
      (fuel : ℕ) (run : Context → Tree → Shell W → Result (Shell W))
      → ((ctx : Context) (tree : Tree) (s : Shell W) → Scoped ctx (run ctx tree s))
      → (ctx : Context) (tree : Tree) (s : Shell W)
      → Scoped ctx (exec_cmd host k os atoi bi_source fuel run ctx tree s)
  unfolding exec_cmd
  exec_cmd-Scoped fuel run h ctx (node rl_simple_cmd attr c x) s =
      exec_simple_cmd-Scoped host k os atoi fuel run (bi_source run) h (sourced run h) ctx
        (node rl_simple_cmd attr c x) s
  exec_cmd-Scoped fuel run h ctx (node rl_shell_cmd attr c x) s =
      exec_shell_cmd-Scoped host k atoi fuel run h ctx (node rl_shell_cmd attr c x) s
  exec_cmd-Scoped fuel run h ctx (node rl_fundec attr c x) s = own-Scoped (cmd_attr attr)
    where
      own-Scoped :
          (o : Option CmdAttr)
          → Scoped ctx (elim o [
            | none ↦ broken
            | some a ↦ keep_attr a (exec_fundec ctx (node rl_fundec attr c x) s)
          ])
      own-Scoped none = tt
      own-Scoped (some a) =
          keep_attr-Scoped ctx a _ (exec_fundec-Scoped host run h ctx (node rl_fundec attr c x) s)
  exec_cmd-Scoped fuel run h ctx _ s = tt

  -- The recursion through pipelines.
  pub runs-Scoped :
      (fuel : ℕ) (ctx : Context) (tree : Tree) (s : Shell W)
      → Scoped ctx (run_pipeline host k os atoi bi_source fuel ctx tree s)
  unfolding run_pipeline
  runs-Scoped zero ctx tree s = tt
  runs-Scoped (suc fuel) ctx tree s =
      let run = run_pipeline host k os atoi bi_source fuel in
      drop_tree-Scoped ctx _ (
        exec_pipeline-Scoped k (exec_cmd host k os atoi bi_source fuel run)
          (exec_cmd-Scoped fuel run (runs-Scoped fuel)) ctx tree s)
