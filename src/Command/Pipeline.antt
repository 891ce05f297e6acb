-- ===== src/Command/Pipeline.antt =====
-- Pipelines, rl_pipeline.c and rl_exec_cmd, and the recursion of the executor through them.
use epita_42sh.Ast.{
  RuleType, Attr, pipe, Tree, null, node, rl_pipeline, rl_simple_cmd, rl_shell_cmd, rl_fundec,
}
use epita_42sh.Base.Int.{ℤ, pos}
use epita_42sh.Base.Text.{Str}
use epita_42sh.Base.{
  ℕ, zero, suc, ◌/◌, ◌%◌, Bool, true, false, Option, none, some, List, if◌then◌else◌, ◌==◌,
}
use epita_42sh.Builtins.Cd.{Os}
use epita_42sh.Command.Compound.{exec_shell_cmd}
use epita_42sh.Command.Simple.{exec_simple_cmd}
use epita_42sh.Command.{
  Kernel, CmdAttr, cmd_attr, attr_of, at_world, no_error_code, execution_error_code,
}
use epita_42sh.Context.{Context}
use epita_42sh.Exec.Words.{Shell, exec_fundec}
use epita_42sh.Exec.{Result, finished, jump, broken, out_of_fuel}
use epita_42sh.Symexp.{Host}

-- `WEXITSTATUS`
unfoldable pub wexitstatus : ℕ → ℕ
wexitstatus status = (status / 256) % 256

-- The types that a pipeline asserts of its commands.
unfoldable pub is_command : RuleType → Bool
is_command rl_simple_cmd = true
is_command rl_shell_cmd = true
is_command rl_fundec = true
is_command _ = false

-- A definition leaves the attributes of its node as they are.
unfoldable pub keep_attr {ℓ} : {S : Type ℓ} → CmdAttr → Result S → Result (CmdAttr × S)
keep_attr a (finished code s) = finished code (a, s)
keep_attr a (jump target val s) = jump target val (a, s)
keep_attr a broken = broken
keep_attr a out_of_fuel = out_of_fuel

-- A command in front of the rest of its pipeline, when the rest has run.
unfoldable pub link {ℓ} :
    {S : Type ℓ} → RuleType → CmdAttr → Tree → Result (Tree × S) → Result (Tree × S)
unfolding attr_of
link t a c (finished code (x, s)) = finished code (node t (attr_of a) c x, s)
link t a c (jump target val (x, s)) = jump target val (node t (attr_of a) c x, s)
link t a c broken = broken
link t a c out_of_fuel = out_of_fuel

-- The end of `__pipewait` for one node.
unfoldable pub reset : CmdAttr → ℕ → CmdAttr
reset a status = record { status = status; pid = none; fd0 = 0; fd1 = 1; fd2 = 2 }

module _ {ℓ} {W : Type ℓ} (k : Kernel W) where
  -- One node of `__pipewait`: the status of its process, when it has one. When `waitpid` fails the
  -- status is taken apart as if it came from it.
  unfoldable pub wait_node : CmdAttr → W → CmdAttr × W
  unfolding reset wexitstatus
  wait_node a w = elim a.pid [
    | none ↦ (reset a a.status, w)
    | some pid ↦
        let (r, w1) = k.waitpid pid w in
        (reset a (wexitstatus (elim r [ none ↦ a.status | some status ↦ status ])), w1)
  ]

  -- `__pipewait`: the status of the last command, the nodes as they are left, and the world.
  -- `none` is a failed assertion.
  unfoldable pub pipewait : Tree → W → Option (ℕ × Tree × W)
  unfolding wait_node is_command cmd_attr attr_of
  pipewait null w = none
  pipewait (node t attr c x) w = elim (is_command t) [
    | false ↦ none
    | true ↦ elim (cmd_attr attr) [
      | none ↦ none
      | some a ↦
          let (b, w1) = wait_node a w in
          let others = pipewait x w1 in
          elim x [
            | null ↦ some (b.status, node t (attr_of b) c null, w1)
            | node _ _ _ _ ↦ elim others [
              | none ↦ none
              | some (status, rest, w2) ↦ some (status, node t (attr_of b) c rest, w2)
            ]
          ]
    ]
  ]

  module _ (exec_cmd : Context → Tree → Shell W → Result (CmdAttr × Shell W)) where
    -- What follows a command of `__piperun`: the write end of its pipe is closed.
    unfoldable pub after_command :
        RuleType
        → Tree
        → Tree
        → ℕ
        → (Shell W → Result (Tree × Shell W))
        → Result (CmdAttr × Shell W)
        → Result (Tree × Shell W)
    unfolding link attr_of
    after_command t c x write_end next (finished code (a, s)) =
        link t a c (next (at_world s (k.close write_end s.world).1))
    after_command t c x write_end next (jump target val (a, s)) =
        jump target val (node t (attr_of a) c x, s)
    after_command t c x write_end next broken = broken
    after_command t c x write_end next out_of_fuel = out_of_fuel

    -- `__piperun` from a node on, with the descriptor that the node reads. When `pipe` fails the
    -- nodes from there on are not run.
    unfoldable pub piperun : Context → Tree → ℕ → Shell W → Result (Tree × Shell W)
    unfolding is_command cmd_attr attr_of after_command
    piperun ctx null fdin s = broken
    piperun ctx (node t attr c x) fdin s = elim (is_command t) [
      | false ↦ broken
      | true ↦ elim (cmd_attr attr) [
        | none ↦ broken
        | some a ↦
            let (r, w1) = k.pipe s.world in
            elim r [
              | none ↦ finished execution_error_code (node t attr c x, at_world s w1)
              | some (read_end, write_end) ↦
                  let others : Shell W → Result (Tree × Shell W) = λ u. piperun ctx x read_end u in
                  after_command t c x write_end
                    (λ u. elim x [
                      | null ↦ finished no_error_code (null, u)
                      | node _ _ _ _ ↦ others u
                    ])
                    (exec_cmd ctx
                      (node t
                        (attr_of (record a {
                          fd0 = fdin;
                          fd1 = elim x [ null ↦ 1 | node _ _ _ _ ↦ write_end ];
                        }))
                        c x)
                      (at_world s (k.set_cloexec write_end (k.set_cloexec read_end w1))))
            ]
      ]
    ]

    -- The end of `rl_exec_pipeline`, with the node of the pipeline as it is left.
    unfoldable pub pipeline_end : Attr → Tree → Result (Tree × Shell W) → Result (Tree × Shell W)
    unfolding pipewait
    pipeline_end (pipe op negate) x (finished code (commands, s)) =
        elim (pipewait commands s.world) [
          | none ↦ broken
          | some (last, commands', w) ↦
              let status = if negate then (if last == 0 then 1 else 0) else last in
              finished status (
                node rl_pipeline (pipe op negate) commands' x,
                record s { exit_status = pos status; world = w },
              )
        ]
    pipeline_end attr x (finished code (commands, s)) = broken
    pipeline_end attr x (jump target val (commands, s)) =
        jump target val (node rl_pipeline attr commands x, s)
    pipeline_end attr x broken = broken
    pipeline_end attr x out_of_fuel = out_of_fuel

    -- `rl_exec_pipeline`
    unfoldable pub exec_pipeline : Context → Tree → Shell W → Result (Tree × Shell W)
    unfolding piperun pipeline_end
    exec_pipeline ctx (node rl_pipeline attr (node t a c x) sibling) s =
        pipeline_end attr sibling (piperun ctx (node t a c x) 0 s)
    exec_pipeline ctx tree s = broken

-- A pipeline that is run again finds its nodes as the parser made them: the tree that it leaves is
-- dropped. In the source the status of a command that sets none, and it alone, outlives a run.
unfoldable pub drop_tree {ℓ} : {S : Type ℓ} → Result (Tree × S) → Result S
drop_tree (finished status (tree, s)) = finished status s
drop_tree (jump target val (tree, s)) = jump target val s
drop_tree broken = broken
drop_tree out_of_fuel = out_of_fuel

module _ {ℓ} {W : Type ℓ} (host : Host W) (k : Kernel W) (os : Os W) (atoi : Str → ℤ)
    (bi_source : (Context → Tree → Shell W → Result (Shell W))
      → Context
      → List Str
      → Shell W
      → Result (Shell W)) where
  -- `rl_exec_cmd`
  unfoldable pub exec_cmd :
      ℕ
      → (Context → Tree → Shell W → Result (Shell W))
      → Context
      → Tree
      → Shell W
      → Result (CmdAttr × Shell W)
  unfolding exec_simple_cmd exec_shell_cmd exec_fundec keep_attr cmd_attr
  exec_cmd fuel run ctx (node rl_simple_cmd attr c x) s =
      exec_simple_cmd host k os atoi fuel run (bi_source run) ctx (node rl_simple_cmd attr c x) s
  exec_cmd fuel run ctx (node rl_shell_cmd attr c x) s =
      exec_shell_cmd host k atoi fuel run ctx (node rl_shell_cmd attr c x) s
  exec_cmd fuel run ctx (node rl_fundec attr c x) s = elim (cmd_attr attr) [
    | none ↦ broken
    | some a ↦ keep_attr a (exec_fundec ctx (node rl_fundec attr c x) s)
  ]
  exec_cmd fuel run ctx tree s = broken

  -- The executor below a pipeline. The fuel bounds the nesting of the pipelines, with the calls of
  -- functions and files in it, and the rounds of each while or until.
  unfoldable pub run_pipeline : ℕ → Context → Tree → Shell W → Result (Shell W)
  unfolding exec_cmd exec_pipeline drop_tree
  run_pipeline zero ctx tree s = out_of_fuel
  run_pipeline (suc fuel) ctx tree s =
      drop_tree (exec_pipeline k (exec_cmd fuel (run_pipeline fuel)) ctx tree s)
