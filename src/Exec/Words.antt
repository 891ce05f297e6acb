-- ===== src/Exec/Words.antt =====
-- The commands that expand words before they run a list: rl_exec_for and rl_exec_case, and the
-- definition of functions, rl_exec_fundec.
mod Tests
pub mod Cases
pub mod Rounds
pub mod Scoped
use epita_42sh.Ast.{
  Attr, Tree, null, node, word, rl_for, rl_case, rl_case_clause, rl_case_item, rl_compound_list,
  rl_fundec, rl_word,
}
use epita_42sh.Base.Int.{ℤ}
use epita_42sh.Base.Text.{Str, codes, str_eq}
use epita_42sh.Base.{
  ℕ, zero, suc, ◌+◌, Bool, true, false, ◌||◌, Option, none, some, List, [], ◌∷◌, ◌++◌,
  if◌then◌else◌, ◌==◌,
}
use epita_42sh.Context.{
  Context, JmpValue, alloc_list_type, jmp_continue, jmp_break, ctx_add_jump, ctx_add_alloc,
}
use epita_42sh.Exec.{Result, finished, jump, broken, out_of_fuel, then_, exec_compound_list}
use epita_42sh.Symexp.Word.{Exit, symexp_word}
use epita_42sh.Symexp.{Ctx, Host, Exp}
use epita_42sh.Symtab.{Symtab, kv_word, kv_func, symtab_add}

-- What the commands share and change: the table, the last exit status and the world around.
pub record Shell {ℓ} (W : Type ℓ) : Type ℓ where
  pub st : Symtab
  pub exit_status : ℤ
  pub world : W

-- What expansion reads of a context.
abbrev pub symexp_ctx {ℓ} : {W : Type ℓ} → Context → Shell W → Ctx
symexp_ctx ctx s = record {
  st = s.st;
  program_args = ctx.program_args;
  mode_input = ctx.flags.mode_input;
  in_function = ctx.flags.in_function;
}

-- The words of one `case` item: whether one is the word or `*`, and what stands behind them.
-- `none` is a word that is NULL.
unfoldable pub search_item : Str → Tree → Bool → Option (Bool × Tree)
search_item w (node rl_word (word (some p)) child sibling) found =
    search_item w sibling (found || (str_eq p w || str_eq p (codes "*")))
search_item w (node rl_word attr child sibling) found = none
search_item w tree found = some (found, tree)

-- `list_free` on a word that is `l->data[0]`, or the empty one.
unfoldable pub first_word : List Str → Str
first_word [] = []
first_word (w ∷ ws) = w

module _ {ℓ} {S : Type ℓ} (exec_pipeline : Context → Tree → S → Result S) where
  -- What `rl_exec_case_clause` does with the tree behind the words of an item that was found.
  unfoldable pub run_item : Context → Tree → S → Result S
  run_item ctx (node rl_compound_list attr child sibling) s =
      then_ (exec_compound_list exec_pipeline ctx (node rl_compound_list attr child sibling) s)
        (λ status s. finished 0 s)
  run_item ctx tree s = finished 0 s

  -- The loop over the items.
  unfoldable pub case_items : Context → Str → Tree → S → Result S
  unfolding search_item run_item
  case_items ctx w null s = finished 0 s
  case_items ctx w (node rl_case_item attr child sibling) s = elim (search_item w child false) [
    | none ↦ broken
    | some (found, behind) ↦ elim found [
      | true ↦ run_item ctx behind s
      | false ↦ case_items ctx w sibling s
    ]
  ]
  case_items ctx w tree s = broken

  unfoldable pub exec_case_clause : Context → Str → Tree → S → Result S
  unfolding case_items
  exec_case_clause ctx w (node rl_case_clause attr child sibling) s = case_items ctx w child s
  exec_case_clause ctx w tree s = broken

module _ {ℓ} {W : Type ℓ} (host : Host W) where
  -- `symexp_word` on a list of words, with the state of the shell.
  unfoldable pub expand : Context → Str → List Str → Shell W → Option (List Str × Shell W)
  expand ctx w dest s = elim (symexp_word host (symexp_ctx ctx s) s.world s.exit_status w dest) [
    | Exit.out_of_fuel ↦ none
    | Exit.overflow ↦ none
    | Exit.finished t ↦ some (t.dest, record s { exit_status = t.exit_status; world = t.world })
  ]

  -- The words behind the body of a `for`.
  unfoldable pub expand_all : Context → Tree → List Str → Shell W → Option (List Str × Shell W)
  unfolding expand
  expand_all ctx null dest s = some (dest, s)
  expand_all ctx (node type (word (some w)) child sibling) dest s = elim (expand ctx w dest s) [
    | none ↦ none
    | some (dest', s') ↦ expand_all ctx sibling dest' s'
  ]
  expand_all ctx (node type attr child sibling) dest s = none

module _ {ℓ} {W : Type ℓ} (host : Host W)
    (exec_pipeline : Context → Tree → Shell W → Result (Shell W)) where
  -- What follows the body for one word. A `continue` leaves the status as it was.
  unfoldable pub after_word :
      ℕ → ℕ → Result (Shell W) → (ℕ → Shell W → Result (Shell W)) → Result (Shell W)
  after_word buffer status (finished status' s) next = next status' s
  after_word buffer status (jump target jmp_continue s) next =
      if target == buffer then next status s else jump target jmp_continue s
  after_word buffer status (jump target jmp_break s) next =
      if target == buffer then finished status s else jump target jmp_break s
  after_word buffer status (jump target val s) next = jump target val s
  after_word buffer status broken next = broken
  after_word buffer status out_of_fuel next = out_of_fuel

  -- The loop over the expanded words; `ctx` is `list_ctx`.
  unfoldable pub for_loop : Context → Str → Tree → List Str → ℕ → Shell W → Result (Shell W)
  unfolding after_word
  for_loop ctx name body [] status s = finished status s
  for_loop ctx name body (w ∷ words) status s =
      after_word (ctx.level + 1) status
        (exec_compound_list exec_pipeline (ctx_add_jump ctx (ctx.level + 1)) body
          (record s { st = (symtab_add s.st name kv_word (some w) null).0 }))
        (λ status s. for_loop ctx name body words status s)

  -- The list of the words is the allocation 0.
  unfoldable pub exec_for : Context → Tree → Shell W → Result (Shell W)
  unfolding expand_all for_loop
  exec_for ctx (node rl_for (word (some name)) (node rl_compound_list attr child words) sibling) s =
      elim (expand_all host ctx words [] s) [
        | none ↦ broken
        | some (fields, s') ↦
            for_loop (ctx_add_alloc ctx alloc_list_type 0) name
              (node rl_compound_list attr child words) fields 0 s'
      ]
  exec_for ctx tree s = broken

  unfoldable pub exec_case : Context → Tree → Shell W → Result (Shell W)
  unfolding expand exec_case_clause first_word
  exec_case ctx (node rl_case (word (some w)) child sibling) s = elim (expand host ctx w [] s) [
    | none ↦ broken
    | some (fields, s') ↦ elim child [
      | null ↦ finished 0 s'
      | node t a c x ↦
          then_
            (exec_case_clause exec_pipeline (ctx_add_alloc ctx alloc_list_type 0)
              (first_word fields) (node t a c x) s')
            (λ status s. finished 0 s)
    ]
  ]
  exec_case ctx tree s = broken

-- `rl_exec_fundec`; the function is a clone of the tree behind its name.
unfoldable pub exec_fundec {ℓ} : {W : Type ℓ} → Context → Tree → Shell W → Result (Shell W)
exec_fundec ctx (node rl_fundec attr (node t (word (some name)) c body) sibling) s =
    finished 0 (record s { st = (symtab_add s.st name kv_func none body).0 })
exec_fundec ctx tree s = broken
