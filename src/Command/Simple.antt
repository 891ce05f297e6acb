-- ===== src/Command/Simple.antt =====
-- Simple commands: rl_simple_cmd.c. The list of the arguments that `exec` and the builtins get is
-- the allocation 0, and the clone of a function's tree is the allocation 0 of its kind.
use epita_42sh.Ast.{Tree, null, node, word, rl_simple_cmd, rl_word, rl_redirection, rl_assign_word}
use epita_42sh.Base.Int.{ℤ}
use epita_42sh.Base.Text.{Str, split_at}
use epita_42sh.Base.{ℕ, true, false, ◌&&◌, Option, none, some, List, [], ◌∷◌, ◌++◌}
use epita_42sh.Builtins.Cd.{Os}
use epita_42sh.Command.Builtin.{builtin_find, run_builtin}
use epita_42sh.Command.Compound.{exec_shell_cmd}
use epita_42sh.Command.Redirect.{with_fds, expand_single, must_redirect}
use epita_42sh.Command.{
  Kernel, CmdAttr, cmd_attr, no_error_code, execution_error_code, at_world, keep_status,
}
use epita_42sh.Context.{Context, alloc_list_type, alloc_exectree, ctx_add_alloc}
use epita_42sh.Exec.Words.{Shell, expand}
use epita_42sh.Exec.{Result, finished, jump, broken, out_of_fuel}
use epita_42sh.Symexp.{Host}
use epita_42sh.Symtab.{KvPair, kv_word, kv_func, kind_eq, symtab_lookup, symtab_add}

-- `(node->attr.cmd.pid == -1 && !blt) ? EXECUTION_ERROR : NO_ERROR`, when it was no builtin.
unfoldable pub pid_code : Option ℕ → ℕ
pid_code none = execution_error_code
pid_code (some pid) = no_error_code

-- The exported variables of a chain, with their values; `none` is a value that is NULL.
unfoldable pub exported_chain : List KvPair → Option (List (Str × Str))
exported_chain [] = some []
exported_chain (kv ∷ c) = elim (exported_chain c) [
  | none ↦ none
  | some rest ↦ elim (kind_eq kv.kind kv_word && kv.exported) [
    | false ↦ some rest
    | true ↦ elim kv.word [ none ↦ none | some value ↦ some ((kv.key, value) ∷ rest) ]
  ]
]

unfoldable pub exported_vars : List (List KvPair) → Option (List (Str × Str))
unfolding exported_chain
exported_vars [] = some []
exported_vars (c ∷ cs) = elim (exported_chain c) [
  | none ↦ none
  | some l ↦ elim (exported_vars cs) [ none ↦ none | some rest ↦ some (l ++ rest) ]
]

module _ {ℓ} {W : Type ℓ} (host : Host W) (k : Kernel W) (os : Os W) (atoi : Str → ℤ) where
  -- `__push_args`. `none` is an expansion that overflows or a redirection that fails.
  unfoldable pub push_args : Context → Tree → List Str → Shell W → Option (List Str × Shell W)
  unfolding must_redirect
  push_args ctx null l s = some (l, s)
  push_args ctx (node rl_word (word (some w)) c x) l s = elim (expand host ctx w l s) [
    | none ↦ none
    | some (l', t) ↦ push_args ctx x l' t
  ]
  push_args ctx (node rl_redirection attr c x) l s = elim (must_redirect host k atoi ctx attr s) [
    | none ↦ none
    | some t ↦ push_args ctx x l t
  ]
  push_args ctx (node type attr c x) l s = push_args ctx x l s

  -- The value of `name=word`, expanded; `none` where there is no `=`.
  unfoldable pub assigned : Context → Str → Shell W → Option (Str × Str × Shell W)
  unfolding expand_single
  assigned ctx w s = elim (split_at b'=' w) [
    | none ↦ none
    | some (name, value) ↦ elim (expand_single host k atoi ctx value s) [
      | none ↦ none
      | some (text, t) ↦ some (name, text, t)
    ]
  ]

  -- `__add_symbol`
  unfoldable pub add_symbols : Context → Tree → Shell W → Option (Shell W)
  unfolding assigned
  add_symbols ctx null s = some s
  add_symbols ctx (node rl_assign_word (word (some w)) c x) s = elim (assigned ctx w s) [
    | none ↦ none
    | some (name, text, t) ↦
        add_symbols ctx x (record t { st = (symtab_add t.st name kv_word (some text) null).0 })
  ]
  add_symbols ctx (node type attr c x) s = add_symbols ctx x s

  -- The assignments in front of a command, as calls of `setenv`, with the state of the child.
  unfoldable pub assigned_env : Context → Tree → Shell W → Option (List (Str × Str) × Shell W)
  unfolding assigned
  assigned_env ctx null s = some ([], s)
  assigned_env ctx (node rl_assign_word (word (some w)) c x) s = elim (assigned ctx w s) [
    | none ↦ none
    | some (name, text, t) ↦ elim (assigned_env ctx x t) [
      | none ↦ none
      | some (rest, u) ↦ some ((name, text) ∷ rest, u)
    ]
  ]
  assigned_env ctx (node type attr c x) s = assigned_env ctx x s

  -- `__apply_env` in the child: its world and its calls of `setenv` behind `clearenv`.
  unfoldable pub apply_env : Context → Tree → Shell W → Option (W × List (Str × Str))
  unfolding exported_vars assigned_env
  apply_env ctx args s = elim (exported_vars s.st.data_) [
    | none ↦ none
    | some inherited ↦ elim (assigned_env ctx args s) [
      | none ↦ none
      | some (own, t) ↦ some (t.world, inherited ++ own)
    ]
  ]

  module _ (fuel : ℕ) (run : Context → Tree → Shell W → Result (Shell W))
      (bi_source : Context → List Str → Shell W → Result (Shell W)) where
    -- The context of a function: its arguments, and no loop to break.
    unfoldable pub function_ctx : Context → List Str → Context
    function_ctx ctx args =
        let child =
          ctx_add_alloc (record ctx { loop_jump = []; program_args = args }) alloc_exectree 0 in
        record child { flags = record child.flags { in_function = true } }

    -- What `rl_exec_shell_cmd` returns becomes the status of the command that calls the function.
    unfoldable pub keep_code : CmdAttr → Result (CmdAttr × Shell W) → Result (CmdAttr × Shell W)
    unfolding pid_code
    keep_code a (finished code (own, s)) = finished (pid_code a.pid) (record a { status = code }, s)
    keep_code a (jump target val (own, s)) = jump target val (a, s)
    keep_code a broken = broken
    keep_code a out_of_fuel = out_of_fuel

    -- A command that is no builtin: a function, or a program in a child.
    unfoldable pub run_other :
        Context → CmdAttr → Tree → Str → List Str → Shell W → Result (CmdAttr × Shell W)
    unfolding pid_code function_ctx keep_code apply_env
    run_other ctx a child name args s = elim (symtab_lookup s.st name kv_func) [
      | some kv ↦ keep_code a (
          exec_shell_cmd host k atoi fuel run
            (function_ctx (ctx_add_alloc ctx alloc_list_type 0) (name ∷ args)) kv.func s)
      | none ↦
          let (pid, w) = k.fork (apply_env ctx child s) (name ∷ args) s.world in
          finished (pid_code pid) (record a { pid = pid }, at_world s w)
    ]

    -- The command by its arguments.
    unfoldable pub run_args :
        Context → CmdAttr → Tree → List Str → Shell W → Result (CmdAttr × Shell W)
    unfolding pid_code add_symbols run_builtin builtin_find run_other keep_status
    run_args ctx a child [] s = elim (add_symbols ctx child s) [
      | none ↦ broken
      | some t ↦ finished (pid_code a.pid) (a, t)
    ]
    run_args ctx a child (name ∷ args) s = elim (builtin_find name) [
      | some blt ↦
          keep_status a
            (run_builtin k os atoi bi_source blt (ctx_add_alloc ctx alloc_list_type 0) name args s)
      | none ↦ run_other ctx a child name args s
    ]

    -- The body of `rl_exec_simple_cmd` between saving the descriptors and putting them back.
    unfoldable pub simple_cmd_body : Context → CmdAttr → Tree → Shell W → Result (CmdAttr × Shell W)
    unfolding push_args run_args
    simple_cmd_body ctx a child s = elim (push_args ctx child [] s) [
      | none ↦ broken
      | some (args, t) ↦ run_args ctx a child args t
    ]

    -- `rl_exec_simple_cmd`, with what it leaves in its node.
    unfoldable pub exec_simple_cmd : Context → Tree → Shell W → Result (CmdAttr × Shell W)
    unfolding cmd_attr with_fds simple_cmd_body
    exec_simple_cmd ctx (node rl_simple_cmd attr (node t a c x) sibling) s = elim (cmd_attr attr) [
      | none ↦ broken
      | some own ↦ with_fds k own (simple_cmd_body ctx own (node t a c x)) s
    ]
    exec_simple_cmd ctx tree s = broken
