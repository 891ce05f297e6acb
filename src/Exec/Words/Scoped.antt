-- ===== src/Exec/Words/Scoped.antt =====
-- Where jumps out of `for` and `case` go.
use epita_42sh.Ast.{
  Tree, null, node, word, rl_compound_list, rl_for, rl_case, rl_case_clause, rl_case_item,
  rl_fundec,
}
use epita_42sh.Base.Text.{Str}
use epita_42sh.Base.{
  ℕ, ◌+◌, Bool, true, false, Option, none, some, List, [], ◌∷◌, ◌==◌, Bool-cases, inl, inr,
}
use epita_42sh.Context.{
  Context, jmp_noop, jmp_continue, jmp_break, exit_with_loop_exit, exit_without_loop_exit,
  ctx_add_jump, ctx_add_alloc, alloc_list_type,
}
use epita_42sh.Exec.Scoped.{
  Scoped, then-Scoped, Scoped-alloc, other_loop, exec_compound_list-Scoped,
}
use epita_42sh.Exec.Words.{
  Shell, expand, expand_all, after_word, for_loop, exec_for, search_item, run_item, case_items,
  exec_case_clause, exec_case, first_word, exec_fundec,
}
use epita_42sh.Exec.{Result, finished, jump, broken, out_of_fuel, then_, exec_compound_list}
use epita_42sh.Symexp.{Host}
use epita_42sh.Symtab.{kv_word, symtab_add}

module _ {ℓ} {S : Type ℓ} (run : Context → Tree → S → Result S)
    (scoped : (ctx : Context) (tree : Tree) (s : S) → Scoped ctx (run ctx tree s)) where
  run_item-Scoped : (ctx : Context) (tree : Tree) (s : S) → Scoped ctx (run_item run ctx tree s)
  unfolding run_item
  run_item-Scoped ctx (node rl_compound_list attr child sibling) s =
      then-Scoped ctx (exec_compound_list run ctx (node rl_compound_list attr child sibling) s) _
        (exec_compound_list-Scoped run scoped ctx (node rl_compound_list attr child sibling) s)
        (λ status t. tt)
  run_item-Scoped ctx _ s = tt

  case_items-Scoped :
      (ctx : Context) (w : Str) (tree : Tree) (s : S) → Scoped ctx (case_items run ctx w tree s)
  unfolding case_items
  case_items-Scoped ctx w null s = tt
  case_items-Scoped ctx w (node rl_case_item attr child sibling) s =
      found-Scoped (search_item w child false) (case_items-Scoped ctx w sibling s)
    where
      found-Scoped :
          (o : Option (Bool × Tree))
          → Scoped ctx (case_items run ctx w sibling s)
          → Scoped ctx (elim o [
            | none ↦ broken
            | some (found, behind) ↦ elim found [
              | true ↦ run_item run ctx behind s
              | false ↦ case_items run ctx w sibling s
            ]
          ])
      found-Scoped none h = tt
      found-Scoped (some (true, behind)) h = run_item-Scoped ctx behind s
      found-Scoped (some (false, behind)) h = h
  case_items-Scoped ctx w _ s = tt

  exec_case_clause-Scoped :
      (ctx : Context) (w : Str) (tree : Tree) (s : S)
      → Scoped ctx (exec_case_clause run ctx w tree s)
  unfolding exec_case_clause
  exec_case_clause-Scoped ctx w (node rl_case_clause attr child sibling) s =
      case_items-Scoped ctx w child s
  exec_case_clause-Scoped ctx w _ s = tt

module _ {ℓ} {W : Type ℓ} (host : Host W) (run : Context → Tree → Shell W → Result (Shell W))
    (scoped : (ctx : Context) (tree : Tree) (s : Shell W) → Scoped ctx (run ctx tree s)) where
  after_word-Scoped :
      (ctx : Context) (status : ℕ) (r : Result (Shell W)) (next : ℕ → Shell W → Result (Shell W))
      → Scoped (ctx_add_jump ctx (ctx.level + 1)) r
      → ((status : ℕ) (s : Shell W) → Scoped ctx (next status s))
      → Scoped ctx (after_word host run (ctx.level + 1) status r next)
  unfolding after_word ctx_add_jump
  after_word-Scoped ctx status (finished status' s) next h hn = hn status' s
  after_word-Scoped ctx status (jump b jmp_noop s) next h hn = h
  after_word-Scoped ctx status (jump b exit_with_loop_exit s) next h hn = h
  after_word-Scoped ctx status (jump b exit_without_loop_exit s) next h hn = h
  after_word-Scoped ctx status (jump b jmp_continue s) next h hn =
      elim (Bool-cases (b == ctx.level + 1)) [
        | inl e ↦ rw e (hn status s)
        | inr e ↦ rw e (other_loop b (ctx.level + 1) ctx.loop_jump (ctx.level + 1) e h)
      ]
  after_word-Scoped ctx status (jump b jmp_break s) next h hn =
      elim (Bool-cases (b == ctx.level + 1)) [
        | inl e ↦ rw e tt
        | inr e ↦ rw e (other_loop b (ctx.level + 1) ctx.loop_jump (ctx.level + 1) e h)
      ]
  after_word-Scoped ctx status broken next h hn = tt
  after_word-Scoped ctx status out_of_fuel next h hn = tt

  for_loop-Scoped :
      (ctx : Context) (name : Str) (body : Tree) (words : List Str) (status : ℕ) (s : Shell W)
      → Scoped ctx (for_loop host run ctx name body words status s)
  unfolding for_loop
  for_loop-Scoped ctx name body [] status s = tt
  for_loop-Scoped ctx name body (w ∷ words) status s =
      let t = record s { st = (symtab_add s.st name kv_word (some w) null).0 } in
      after_word-Scoped ctx status
        (exec_compound_list run (ctx_add_jump ctx (ctx.level + 1)) body t) _
        (exec_compound_list-Scoped run scoped (ctx_add_jump ctx (ctx.level + 1)) body t)
        (λ status' u. for_loop-Scoped ctx name body words status' u)

  pub exec_for-Scoped :
      (ctx : Context) (tree : Tree) (s : Shell W) → Scoped ctx (exec_for host run ctx tree s)
  unfolding exec_for
  exec_for-Scoped ctx
        (node rl_for (word (some name)) (node rl_compound_list attr child words) sibling) s =
      fields-Scoped (expand_all host ctx words [] s)
    where
      fields-Scoped :
          (o : Option (List Str × Shell W))
          → Scoped ctx (elim o [
            | none ↦ broken
            | some (fields, s') ↦
                for_loop host run
                  (ctx_add_alloc ctx alloc_list_type 0)
                  name
                  (node rl_compound_list attr child words)
                  fields
                  0
                  s'
          ])
      fields-Scoped none = tt
      fields-Scoped (some (fields, s')) = Scoped-alloc ctx alloc_list_type 0 _ (
          for_loop-Scoped (ctx_add_alloc ctx alloc_list_type 0) name
            (node rl_compound_list attr child words) fields 0 s')
  exec_for-Scoped ctx _ s = tt

  pub exec_case-Scoped :
      (ctx : Context) (tree : Tree) (s : Shell W) → Scoped ctx (exec_case host run ctx tree s)
  unfolding exec_case
  exec_case-Scoped ctx (node rl_case (word (some w)) child sibling) s =
      word-Scoped child (expand host ctx w [] s)
    where
      word-Scoped :
          (child : Tree) (o : Option (List Str × Shell W))
          → Scoped ctx (elim o [
            | none ↦ broken
            | some (fields, s') ↦ elim child [
              | null ↦ finished 0 s'
              | node t a c x ↦
                  then_
                    (exec_case_clause run
                      (ctx_add_alloc ctx alloc_list_type 0)
                      (first_word fields)
                      (node t a c x)
                      s')
                    (λ status s. finished 0 s)
            ]
          ])
      word-Scoped child none = tt
      word-Scoped null (some (fields, s')) = tt
      word-Scoped (node t a c x) (some (fields, s')) =
          then-Scoped ctx _ _
            (Scoped-alloc ctx alloc_list_type 0 _ (
              exec_case_clause-Scoped run scoped (ctx_add_alloc ctx alloc_list_type 0)
                (first_word fields) (node t a c x) s'))
            (λ status t. tt)
  exec_case-Scoped ctx _ s = tt

  pub exec_fundec-Scoped :
      (ctx : Context) (tree : Tree) (s : Shell W) → Scoped ctx (exec_fundec ctx tree s)
  unfolding exec_fundec
  exec_fundec-Scoped ctx (node rl_fundec attr (node t (word (some name)) c body) sibling) s = tt
  exec_fundec-Scoped ctx _ s = tt
