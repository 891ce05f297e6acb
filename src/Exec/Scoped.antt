-- ===== src/Exec/Scoped.antt =====
-- Where jumps go: the executor's functions over a runner of pipelines.
use epita_42sh.Ast.{
  RuleType, Attr, Tree, null, node, rl_and_or, rl_list, rl_compound_list, rl_else, rl_elif, rl_if,
  rl_while, rl_until,
}
use epita_42sh.Base.{
  ℕ, zero, suc, ◌+◌, ◌≡◌, ◌⊎◌, inl, inr, Bool, true, false, not, List, [], ◌∷◌, if◌then◌else◌, ◌==◌,
  Bool-cases, arith,
}
use epita_42sh.Context.{
  CtxJmp, AllocType, Context, JmpValue, jmp_noop, jmp_continue, jmp_break, exit_with_loop_exit,
  exit_without_loop_exit, ctx_add_jump, ctx_add_alloc,
}
use epita_42sh.Exec.{
  Result, finished, jump, broken, out_of_fuel, then_, exec_next_of, and_or_loop, exec_and_or,
  items_loop, exec_list, exec_compound_list, exec_else_clause, exec_if_clause, after_body,
  while_loop, exec_while, exec_until,
}

-- A buffer of the loops.
abbrev pub Among : ℕ → List CtxJmp → Type 0
Among b [] = ⊥
Among b (j ∷ js) = (b ≡ j.jump) ⊎ Among b js

-- The buffers whose `setjmp` a context stands in: `break` and `continue` have those of the loops,
-- and `exit` has one.
abbrev pub Live : Context → ℕ → JmpValue → Type 0
Live ctx b jmp_noop = ⊥
Live ctx b jmp_continue = Among b ctx.loop_jump
Live ctx b jmp_break = Among b ctx.loop_jump
Live ctx b exit_with_loop_exit = b ≡ ctx.exit_jump
Live ctx b exit_without_loop_exit = b ≡ ctx.exit_jump

-- A jump out of a run in the context goes to such a buffer.
abbrev pub Scoped {ℓ} : {S : Type ℓ} → Context → Result S → Type 0
Scoped ctx (finished status s) = Unit
Scoped ctx (jump b val s) = Live ctx b val
Scoped ctx broken = Unit
Scoped ctx out_of_fuel = Unit

pub Scoped-map {ℓ} :
    {S : Type ℓ} (ctx ctx' : Context)
    → ((b : ℕ) (val : JmpValue) → Live ctx b val → Live ctx' b val)
    → (r : Result S) → Scoped ctx r
    → Scoped ctx' r
Scoped-map ctx ctx' f (finished status s) h = tt
Scoped-map ctx ctx' f (jump b val s) h = f b val h
Scoped-map ctx ctx' f broken h = tt
Scoped-map ctx ctx' f out_of_fuel h = tt

-- The context without its loops.
abbrev pub no_loops : Context → Context
no_loops ctx = record ctx { loop_jump = [] }

pub Scoped-loops {ℓ} :
    {S : Type ℓ} (ctx : Context) (r : Result S) → Scoped (no_loops ctx) r → Scoped ctx r
Scoped-loops ctx r h = Scoped-map (no_loops ctx) ctx wider r h
  where
    wider : (b : ℕ) (val : JmpValue) → Live (no_loops ctx) b val → Live ctx b val
    wider b jmp_noop h = h
    wider b jmp_continue h = absurd h
    wider b jmp_break h = absurd h
    wider b exit_with_loop_exit h = h
    wider b exit_without_loop_exit h = h

-- A run that nothing jumps out of.
abbrev pub Stays {ℓ} : {S : Type ℓ} → Result S → Type 0
Stays (jump b val s) = ⊥
Stays _ = Unit

pub Stays-Scoped {ℓ} : {S : Type ℓ} (ctx : Context) (r : Result S) → Stays r → Scoped ctx r
Stays-Scoped ctx (finished status s) h = tt
Stays-Scoped ctx (jump b val s) h = absurd h
Stays-Scoped ctx broken h = tt
Stays-Scoped ctx out_of_fuel h = tt

pub then-Scoped {ℓ} :
    {S : Type ℓ} (ctx : Context) (r : Result S) (k : ℕ → S → Result S)
    → Scoped ctx r
    → ((status : ℕ) (s : S) → Scoped ctx (k status s))
    → Scoped ctx (then_ r k)
unfolding then_
then-Scoped ctx (finished status s) k h hk = hk status s
then-Scoped ctx (jump b val s) k h hk = h
then-Scoped ctx broken k h hk = tt
then-Scoped ctx out_of_fuel k h hk = tt

-- An allocation changes no buffer.
Live-alloc :
    (ctx : Context) (kind : AllocType) (p b : ℕ) (val : JmpValue)
    → Live (ctx_add_alloc ctx kind p) b val
    → Live ctx b val
unfolding ctx_add_alloc
Live-alloc ctx kind p b jmp_noop h = h
Live-alloc ctx kind p b jmp_continue h = h
Live-alloc ctx kind p b jmp_break h = h
Live-alloc ctx kind p b exit_with_loop_exit h = h
Live-alloc ctx kind p b exit_without_loop_exit h = h

pub Scoped-alloc {ℓ} :
    {S : Type ℓ} (ctx : Context) (kind : AllocType) (p : ℕ) (r : Result S)
    → Scoped (ctx_add_alloc ctx kind p) r
    → Scoped ctx r
Scoped-alloc ctx kind p r h = Scoped-map (ctx_add_alloc ctx kind p) ctx (Live-alloc ctx kind p) r h

-- A buffer of the loops with one more, when it is not the new one.
pub other_loop :
    (b buffer : ℕ) (js : List CtxJmp) (level : ℕ)
    → (b == buffer) ≡ false
    → Among b ((record { level = level; jump = buffer }) ∷ js)
    → Among b js
other_loop b buffer js level e (inl same) = ground arith
other_loop b buffer js level e (inr m) = m

module _ {ℓ} {S : Type ℓ} (run : Context → Tree → S → Result S)
    (scoped : (ctx : Context) (tree : Tree) (s : S) → Scoped ctx (run ctx tree s)) where
  and_or_loop-Scoped :
      (ctx : Context) (tree : Tree) (status : ℕ) (exec_next : Bool) (s : S)
      → Scoped ctx (and_or_loop run ctx tree status exec_next s)
  unfolding and_or_loop then_
  and_or_loop-Scoped ctx null status exec_next s = tt
  and_or_loop-Scoped ctx (node type attr child sibling) status true s =
      then-Scoped ctx (run ctx (node type attr child sibling) s) _ (scoped ctx _ s)
        (λ status t. and_or_loop-Scoped ctx sibling status (exec_next_of attr status) t)
  and_or_loop-Scoped ctx (node type attr child sibling) status false s =
      and_or_loop-Scoped ctx sibling status (exec_next_of attr status) s

  exec_and_or-Scoped :
      (ctx : Context) (tree : Tree) (s : S) → Scoped ctx (exec_and_or run ctx tree s)
  unfolding exec_and_or
  exec_and_or-Scoped ctx (node rl_and_or attr (node t a c x) sibling) s =
      and_or_loop-Scoped ctx (node t a c x) 0 true s
  exec_and_or-Scoped ctx _ s = tt

  items_loop-Scoped :
      (ctx : Context) (tree : Tree) (status : ℕ) (s : S)
      → Scoped ctx (items_loop run ctx tree status s)
  unfolding items_loop
  items_loop-Scoped ctx null status s = tt
  items_loop-Scoped ctx (node type attr child sibling) status s =
      then-Scoped ctx (exec_and_or run ctx (node type attr child sibling) s) _
        (exec_and_or-Scoped ctx (node type attr child sibling) s)
        (λ status t. items_loop-Scoped ctx sibling status t)

  pub exec_list-Scoped :
      (ctx : Context) (tree : Tree) (s : S) → Scoped ctx (exec_list run ctx tree s)
  unfolding exec_list
  exec_list-Scoped ctx (node rl_list attr (node t a c x) sibling) s =
      items_loop-Scoped ctx (node t a c x) 0 s
  exec_list-Scoped ctx _ s = tt

  pub exec_compound_list-Scoped :
      (ctx : Context) (tree : Tree) (s : S) → Scoped ctx (exec_compound_list run ctx tree s)
  unfolding exec_compound_list
  exec_compound_list-Scoped ctx (node rl_compound_list attr (node t a c x) sibling) s =
      items_loop-Scoped ctx (node t a c x) 0 s
  exec_compound_list-Scoped ctx _ s = tt

  pub exec_else_clause-Scoped :
      (ctx : Context) (tree : Tree) (s : S) → Scoped ctx (exec_else_clause run ctx tree s)
  unfolding exec_else_clause
  exec_else_clause-Scoped ctx (node rl_else attr child sibling) s =
      exec_compound_list-Scoped ctx child s
  exec_else_clause-Scoped ctx (node rl_elif attr (node t a c (node t' a' c' rest)) sibling) s =
      then-Scoped ctx (exec_compound_list run ctx (node t a c (node t' a' c' rest)) s) _
        (exec_compound_list-Scoped ctx (node t a c (node t' a' c' rest)) s)
        (λ status u.
          elif_end-Scoped ctx t' a' c' rest (status == 0) u (exec_else_clause-Scoped ctx rest u))
    where
      elif_end-Scoped :
          (ctx : Context) (t' : RuleType) (a' : Attr) (c' rest : Tree) (good : Bool) (u : S)
          → Scoped ctx (exec_else_clause run ctx rest u)
          → Scoped ctx (elim good [
            | true ↦ exec_compound_list run ctx (node t' a' c' rest) u
            | false ↦
                let other = exec_else_clause run ctx rest u in
                elim rest [ null ↦ finished 0 u | node _ _ _ _ ↦ other ]
          ])
      elif_end-Scoped ctx t' a' c' rest true u h =
          exec_compound_list-Scoped ctx (node t' a' c' rest) u
      elif_end-Scoped ctx t' a' c' null false u h = tt
      elif_end-Scoped ctx t' a' c' (node t a c x) false u h = h
  exec_else_clause-Scoped ctx _ s = tt

  pub exec_if_clause-Scoped :
      (ctx : Context) (tree : Tree) (s : S) → Scoped ctx (exec_if_clause run ctx tree s)
  unfolding exec_if_clause
  exec_if_clause-Scoped ctx (node rl_if attr (node t a c (node t' a' c' rest)) sibling) s =
      then-Scoped ctx (exec_compound_list run ctx (node t a c (node t' a' c' rest)) s) _
        (exec_compound_list-Scoped ctx (node t a c (node t' a' c' rest)) s)
        (λ status u. if_end-Scoped ctx t' a' c' rest (status == 0) u)
    where
      if_end-Scoped :
          (ctx : Context) (t' : RuleType) (a' : Attr) (c' rest : Tree) (good : Bool) (u : S)
          → Scoped ctx (elim good [
            | true ↦ exec_compound_list run ctx (node t' a' c' rest) u
            | false ↦ elim rest [
              | null ↦ finished 0 u
              | node t'' a'' c'' x ↦ exec_else_clause run ctx (node t'' a'' c'' x) u
            ]
          ])
      if_end-Scoped ctx t' a' c' rest true u = exec_compound_list-Scoped ctx (node t' a' c' rest) u
      if_end-Scoped ctx t' a' c' null false u = tt
      if_end-Scoped ctx t' a' c' (node t a c x) false u =
          exec_else_clause-Scoped ctx (node t a c x) u
  exec_if_clause-Scoped ctx _ s = tt

  -- A jump to the loop's own buffer is caught; any other goes on to a buffer around the loop.
  after_body-Scoped :
      (ctx : Context) (r : Result S) (again : S → Result S)
      → Scoped (ctx_add_jump ctx (ctx.level + 1)) r
      → ((s : S) → Scoped ctx (again s))
      → Scoped ctx (after_body run (ctx.level + 1) r again)
  unfolding after_body ctx_add_jump
  after_body-Scoped ctx (finished status s) again h ha = ha s
  after_body-Scoped ctx (jump b jmp_noop s) again h ha = h
  after_body-Scoped ctx (jump b exit_with_loop_exit s) again h ha = h
  after_body-Scoped ctx (jump b exit_without_loop_exit s) again h ha = h
  after_body-Scoped ctx (jump b jmp_continue s) again h ha =
      elim (Bool-cases (b == ctx.level + 1)) [
        | inl e ↦ rw e (ha s)
        | inr e ↦ rw e (other_loop b (ctx.level + 1) ctx.loop_jump (ctx.level + 1) e h)
      ]
  after_body-Scoped ctx (jump b jmp_break s) again h ha = elim (Bool-cases (b == ctx.level + 1)) [
    | inl e ↦ rw e tt
    | inr e ↦ rw e (other_loop b (ctx.level + 1) ctx.loop_jump (ctx.level + 1) e h)
  ]
  after_body-Scoped ctx broken again h ha = tt
  after_body-Scoped ctx out_of_fuel again h ha = tt

  while_loop-Scoped :
      (f : ℕ) (until : Bool) (ctx : Context) (condition body : Tree) (s : S)
      → Scoped ctx (while_loop run f until ctx condition body s)
  unfolding while_loop
  while_loop-Scoped zero until ctx condition body s = tt
  while_loop-Scoped (suc f) until ctx condition body s =
      then-Scoped ctx (exec_compound_list run ctx condition s) _
        (exec_compound_list-Scoped ctx condition s)
        (λ status t.
          round-Scoped (if until then not (status == 0) else status == 0) t
            (λ u. while_loop-Scoped f until ctx condition body u))
    where
      round-Scoped :
          (goes_on : Bool) (t : S)
          → ((u : S) → Scoped ctx (while_loop run f until ctx condition body u))
          → Scoped ctx (elim goes_on [
            | false ↦ finished 0 t
            | true ↦
                after_body run
                  (ctx.level + 1)
                  (exec_compound_list run (ctx_add_jump ctx (ctx.level + 1)) body t)
                  (λ u. while_loop run f until ctx condition body u)
          ])
      round-Scoped false t again = tt
      round-Scoped true t again =
          after_body-Scoped ctx (exec_compound_list run (ctx_add_jump ctx (ctx.level + 1)) body t) _
            (exec_compound_list-Scoped (ctx_add_jump ctx (ctx.level + 1)) body t) again

  pub exec_while-Scoped :
      (f : ℕ) (ctx : Context) (tree : Tree) (s : S) → Scoped ctx (exec_while run f ctx tree s)
  unfolding exec_while
  exec_while-Scoped f ctx (node rl_while attr (node t a c body) sibling) s =
      while_loop-Scoped f false ctx (node t a c body) body s
  exec_while-Scoped f ctx _ s = tt

  pub exec_until-Scoped :
      (f : ℕ) (ctx : Context) (tree : Tree) (s : S) → Scoped ctx (exec_until run f ctx tree s)
  unfolding exec_until
  exec_until-Scoped f ctx (node rl_until attr (node t a c body) sibling) s =
      while_loop-Scoped f true ctx (node t a c body) body s
  exec_until-Scoped f ctx _ s = tt
