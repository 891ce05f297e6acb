-- ===== src/Command/Scoped.antt =====
-- Where jumps out of the commands of the executor go.
mod Compound
pub mod Runner
pub mod Pipes
pub mod Confined
use epita_42sh.Ast.{
  RuleType, Attr, pipe, Tree, null, node, word, rl_pipeline, rl_simple_cmd, rl_shell_cmd, rl_fundec,
  rl_compound_list, rl_if, rl_while, rl_for, rl_until, rl_case, rl_subshell,
}
use epita_42sh.Base.Int.{ℤ, pos, negsuc}
use epita_42sh.Base.Text.{Str, codes}
use epita_42sh.Base.{
  ℕ, zero, suc, ◌+◌, ◌≡◌, refl, inl, inr, Bool, true, false, Option, none, some, List, [], ◌∷◌,
  ◌++◌, get_or, if◌then◌else◌, ◌==◌, Bool-cases, Option-cases, arith,
}
use epita_42sh.Builtins.Cd.{Os, bi_cd}
use epita_42sh.Builtins.{Run}
use epita_42sh.Command.Builtin.{
  Builtin, echo, exit, cd, export, continue_, break_, source, unset, alias, unalias, builtin_find,
  finish_run, finish_leave, run_builtin,
}
use epita_42sh.Command.Compound.{
  subshell_ctx, leave_subshell, after_subshell, exec_subshell, exec_compound, shell_cmd_body,
  exec_shell_cmd,
}
use epita_42sh.Command.Pipeline.{
  keep_attr, link, after_command, piperun, pipeline_end, exec_pipeline, drop_tree, exec_cmd,
  run_pipeline,
}
use epita_42sh.Command.Redirect.{wanted_fds, save_fds, restore_fds, with_fds, redirect_all}
use epita_42sh.Command.Simple.{
  function_ctx, keep_code, run_other, run_args, simple_cmd_body, exec_simple_cmd,
}
use epita_42sh.Command.{Kernel, CmdAttr, cmd_attr, keep_status, at_world, execution_error_code}
use epita_42sh.Context.{
  CtxJmp, Context, JmpValue, jmp_noop, jmp_continue, jmp_break, exit_with_loop_exit,
  exit_without_loop_exit, Leave, returned, jumped, find_jump, stop_level, stop_loop, bi_exit,
  exit_with, bi_continue, bi_break, validate_number, ctx_free_allocated_memory, ctx_add_alloc,
  alloc_list_type, alloc_exectree,
}
use epita_42sh.Exec.Scoped.{
  Among, Live, Scoped, Scoped-map, then-Scoped, Scoped-alloc, exec_compound_list-Scoped,
  exec_if_clause-Scoped, exec_while-Scoped, exec_until-Scoped,
}
use epita_42sh.Exec.Words.Scoped.{exec_for-Scoped, exec_case-Scoped, exec_fundec-Scoped}
use epita_42sh.Exec.Words.{Shell}
use epita_42sh.Exec.{Result, finished, jump, broken, out_of_fuel, then_}
use epita_42sh.Symexp.{Host}
use epita_42sh.Symtab.{Symtab}

-- What the commands do with the result of what they run keeps its jumps.
pub keep_status-Scoped {ℓ} :
    {S : Type ℓ} (ctx : Context) (a : CmdAttr) (r : Result S)
    → Scoped ctx r
    → Scoped ctx (keep_status a r)
unfolding keep_status
keep_status-Scoped ctx a (finished status s) h = tt
keep_status-Scoped ctx a (jump b val s) h = h
keep_status-Scoped ctx a broken h = tt
keep_status-Scoped ctx a out_of_fuel h = tt

pub keep_attr-Scoped {ℓ} :
    {S : Type ℓ} (ctx : Context) (a : CmdAttr) (r : Result S)
    → Scoped ctx r
    → Scoped ctx (keep_attr a r)
unfolding keep_attr
keep_attr-Scoped ctx a (finished status s) h = tt
keep_attr-Scoped ctx a (jump b val s) h = h
keep_attr-Scoped ctx a broken h = tt
keep_attr-Scoped ctx a out_of_fuel h = tt

pub drop_tree-Scoped {ℓ} :
    {S : Type ℓ} (ctx : Context) (r : Result (Tree × S)) → Scoped ctx r → Scoped ctx (drop_tree r)
unfolding drop_tree
drop_tree-Scoped ctx (finished status (tree, s)) h = tt
drop_tree-Scoped ctx (jump b val (tree, s)) h = h
drop_tree-Scoped ctx broken h = tt
drop_tree-Scoped ctx out_of_fuel h = tt

pub link-Scoped {ℓ} :
    {S : Type ℓ} (ctx : Context) (t : RuleType) (a : CmdAttr) (c : Tree) (r : Result (Tree × S))
    → Scoped ctx r
    → Scoped ctx (link t a c r)
unfolding link
link-Scoped ctx t a c (finished code (x, s)) h = tt
link-Scoped ctx t a c (jump b val (x, s)) h = h
link-Scoped ctx t a c broken h = tt
link-Scoped ctx t a c out_of_fuel h = tt

-- The loop that `break` finds is one of the context's.
find_jump-Among :
    (n : ℕ) (js : List CtxJmp) (j : CtxJmp) → find_jump n js ≡ some j → Among j.jump js
unfolding find_jump
find_jump-Among n [] j e = cc
find_jump-Among n (i ∷ []) j e = inl (ground (arith, e))
find_jump-Among zero (i ∷ k ∷ js) j e = inl (ground (arith, e))
find_jump-Among (suc zero) (i ∷ k ∷ js) j e = inl (ground (arith, e))
find_jump-Among (suc (suc n)) (i ∷ k ∷ js) j e = inr (find_jump-Among (suc n) (k ∷ js) j e)

-- What `break`, `continue` and `exit` do is a return or a jump to a live buffer.
abbrev Sound : Context → Leave → Type 0
Sound ctx (returned ret err) = Unit
Sound ctx (jumped c b val freed) = Live ctx b val

module _ (atoi : Str → ℤ) (ctx : Context) (name : Str) (args : List Str) where
  stop_loop-Sound :
      (val : JmpValue)
      → ((b : ℕ) → Among b ctx.loop_jump → Live ctx b val)
      → Sound ctx (stop_loop atoi val ctx name args)
  unfolding stop_loop
  stop_loop-Sound val live = by_level (stop_level atoi args)
    where
      by_jump :
          (o : Option CtxJmp)
          → ((j : CtxJmp) → o ≡ some j → Among j.jump ctx.loop_jump)
          → Sound ctx (elim o [
            | none ↦ returned 0 []
            | some jmp ↦ jumped ctx jmp.jump val (ctx_free_allocated_memory ctx jmp.level)
          ])
      by_jump none h = tt
      by_jump (some j) h = live j.jump (h j refl)

      by_level :
          (n : ℤ)
          → Sound ctx (elim n [
            | negsuc n ↦
                returned 2 (name ++ (codes ": illegal number " ++ (get_or args 0 [] ++ codes "\n")))
            | pos level ↦ elim level [
              | zero ↦
                  returned 2
                    (name ++ (codes ": illegal number " ++ (get_or args 0 [] ++ codes "\n")))
              | suc n ↦ elim (find_jump (suc n) ctx.loop_jump) [
                | none ↦ returned 0 []
                | some jmp ↦ jumped ctx jmp.jump val (ctx_free_allocated_memory ctx jmp.level)
              ]
            ]
          ])
      by_level (negsuc n) = tt
      by_level (pos zero) = tt
      by_level (pos (suc n)) =
          by_jump (find_jump (suc n) ctx.loop_jump)
            (λ j e. find_jump-Among (suc n) ctx.loop_jump j e)

  bi_exit-Sound : Sound ctx (bi_exit atoi ctx name args)
  unfolding bi_exit exit_with
  bi_exit-Sound = by_args args
    where
      by_args : (l : List Str) → Sound ctx (bi_exit atoi ctx name l)
      by_args [] = refl
      by_args (arg ∷ l) = elim (Bool-cases (validate_number atoi arg)) [
        | inl e ↦ rw e refl
        | inr e ↦ rw e tt
      ]

-- The state of the shell stands in for the status that the context shows.
Live-status :
    (ctx : Context) (status : ℤ) (b : ℕ) (val : JmpValue)
    → Live (record ctx { exit_status = status }) b val
    → Live ctx b val
Live-status ctx status b jmp_noop h = h
Live-status ctx status b jmp_continue h = h
Live-status ctx status b jmp_break h = h
Live-status ctx status b exit_with_loop_exit h = h
Live-status ctx status b exit_without_loop_exit h = h

module _ {ℓ} {W : Type ℓ} (k : Kernel W) where
  pub with_fds-Scoped :
      (ctx : Context) (a : CmdAttr) (body : Shell W → Result (CmdAttr × Shell W)) (s : Shell W)
      → ((t : Shell W) → Scoped ctx (body t))
      → Scoped ctx (with_fds k a body s)
  unfolding with_fds
  with_fds-Scoped ctx a body s h = saved-Scoped (save_fds k (wanted_fds k a) s.world)
    where
      saved-Scoped :
          (r : Option (List (ℕ × ℕ)) × W)
          → Scoped {S = CmdAttr × Shell W} ctx (elim r.0 [
            | none ↦ finished execution_error_code (a, at_world s r.1)
            | some saved ↦ then_ (body (at_world s r.1)) (λ code bt.
                finished
                  (if (restore_fds k saved bt.1.world).0 then code else execution_error_code)
                  (bt.0, at_world bt.1 (restore_fds k saved bt.1.world).1))
          ])
      saved-Scoped (none, w) = tt
      saved-Scoped (some saved, w) =
          then-Scoped ctx (body (at_world s w)) _ (h (at_world s w)) (λ code bt. tt)

  module _ (os : Os W) (atoi : Str → ℤ)
      (bi_source : Context → List Str → Shell W → Result (Shell W))
      (sourced : (ctx : Context) (args : List Str) (s : Shell W)
        → Scoped ctx (bi_source ctx args s)) where
    finish_leave-Scoped :
        (ctx : Context) (l : Leave) (s : Shell W)
        → Sound ctx l
        → Scoped ctx (finish_leave k os atoi bi_source l s)
    unfolding finish_leave
    finish_leave-Scoped ctx (returned ret err) s h = tt
    finish_leave-Scoped ctx (jumped c b val freed) s h = h

    pub run_builtin-Scoped :
        (b : Builtin) (ctx : Context) (name : Str) (args : List Str) (s : Shell W)
        → Scoped ctx (run_builtin k os atoi bi_source b ctx name args s)
    unfolding run_builtin finish_run bi_continue bi_break
    run_builtin-Scoped echo ctx name args s = tt
    run_builtin-Scoped exit ctx name args s =
        let c = record ctx { exit_status = s.exit_status } in
        Scoped-map c ctx (Live-status ctx s.exit_status) _
          (finish_leave-Scoped c (bi_exit atoi c name args) s (bi_exit-Sound atoi c name args))
    run_builtin-Scoped cd ctx name args s = moved-Scoped (bi_cd os s.world s.st (name ∷ args))
      where
        moved-Scoped :
            (o : Option (W × Run))
            → Scoped ctx (elim o [
              | none ↦ broken
              | some (w, r) ↦ finish_run k os atoi bi_source r (record s { world = w })
            ])
        moved-Scoped none = tt
        moved-Scoped (some (w, r)) = tt
    run_builtin-Scoped export ctx name args s = tt
    run_builtin-Scoped continue_ ctx name args s =
        let c = record ctx { exit_status = s.exit_status } in
        Scoped-map c ctx (Live-status ctx s.exit_status) _ (
          finish_leave-Scoped c (bi_continue atoi c name args) s
            (stop_loop-Sound atoi c name args jmp_continue (λ b h. h)))
    run_builtin-Scoped break_ ctx name args s =
        let c = record ctx { exit_status = s.exit_status } in
        Scoped-map c ctx (Live-status ctx s.exit_status) _ (
          finish_leave-Scoped c (bi_break atoi c name args) s
            (stop_loop-Sound atoi c name args jmp_break (λ b h. h)))
    run_builtin-Scoped source ctx name args s = sourced ctx (name ∷ args) s
    run_builtin-Scoped unset ctx name args s = tt
    run_builtin-Scoped alias ctx name args s = tt
    run_builtin-Scoped unalias ctx name args s = tt
