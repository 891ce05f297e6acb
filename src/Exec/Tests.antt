-- ===== src/Exec/Tests.antt =====
-- Lists of pipelines that are run by a concrete runner.
use epita_42sh.Ast.{Tree, null, node, word, t_eof, rl_and_or, rl_compound_list, rl_if}
use epita_42sh.Base.{ℕ, ◌-◌, [], ◌∷◌, ◌+◌, if◌then◌else◌, ◌==◌, ◌≡◌, refl, false, none}
use epita_42sh.Base.Int.{pos}
use epita_42sh.Context.{Context, ctx_new, ctx_add_jump, jmp_break}
use epita_42sh.Exec.AndOr.{AndOr, Pipeline, single, and_, or_, siblings, eval, exec_and_or-eval}
use epita_42sh.Exec.Conditions.{
  Block, Arm, block_tree, arm_tree, else_tree, choose, exec_if_clause-choose,
}
use epita_42sh.Exec.Loops.{Ends, breaks, while_loop-Ends, Ends-while_loop}
use epita_42sh.Exec.{
  Result, finished, jump, while_loop, exec_compound_list, exec_and_or, exec_if_clause, then_,
}

-- Every pipeline fails; the state counts how many have run.
run : Context → Tree → ℕ → Result ℕ
run ctx tree n = finished 1 (n + 1)

abbrev p : Pipeline
p = record { negate = false; commands = null }

abbrev listed : AndOr
listed = or_ (and_ (single p) p) p

runs_two :
    exec_and_or run
      (ctx_new (pos 0) 0)
      (node rl_and_or (word none) (siblings listed t_eof null) null)
      0
    ≡ finished 1 2
unfolding exec_and_or run siblings then_
runs_two = refl

exec_and_or-eval_example :
    exec_and_or run
      (ctx_new (pos 0) 0)
      (node rl_and_or (word none) (siblings listed t_eof null) null)
      0
    ≡ eval run (ctx_new (pos 0) 0) listed t_eof null 0
exec_and_or-eval_example = exec_and_or-eval run (ctx_new (pos 0) 0) listed (word none) null 0

-- A runner that breaks the loop whose level is 2 from its body.
run_break : Context → Tree → ℕ → Result ℕ
run_break ctx tree n = if ctx.level == 2 then jump 2 jmp_break (n + 1) else finished 0 n

abbrev group : Tree
group =
    node rl_compound_list (word none)
      (node rl_and_or (word none) (siblings (single p) t_eof null) null) null

top : Context
unfolding ctx_new
top = ctx_new (pos 0) 0

group-Ends : Ends run_break false top group group 0 (finished 0 1)
unfolding run_break top exec_compound_list ctx_add_jump siblings then_
group-Ends = breaks {status = 0} {t = 0} refl refl refl

while_loop-Ends_example :
    (f : ℕ) × ((k : ℕ) → while_loop run_break (f + k) false top group group 0 ≡ finished 0 1)
while_loop-Ends_example = while_loop-Ends run_break false top group group group-Ends

group_run : while_loop run_break 1 false top group group 0 ≡ finished 0 1
unfolding while_loop run_break top exec_compound_list ctx_add_jump siblings then_
group_run = refl

Ends-while_loop_example : Ends run_break false top group group 0 (finished 0 1)
Ends-while_loop_example =
    Ends-while_loop run_break false top group group 1 0 (finished 0 1) group_run (λ h. cc) (λ h. cc)

-- A pipeline returns the state and counts it down.
run_down : Context → Tree → ℕ → Result ℕ
run_down ctx tree n = finished n (n - 1)

abbrev one : Block
one = record {
  attr = word none;
  child = node rl_and_or (word none) (node rl_and_or (word none) null null) null;
}

abbrev arm : Arm
arm = record { condition = one; body = one }

runs_elif :
    exec_if_clause run_down
      (ctx_new (pos 0) 0)
      (node rl_if (word none) (arm_tree arm (else_tree (arm ∷ []) none)) null)
      1
    ≡ finished 0 0
unfolding exec_if_clause arm_tree else_tree block_tree run_down then_ exec_compound_list
runs_elif = refl

exec_if_clause-choose_example :
    exec_if_clause run_down
      (ctx_new (pos 0) 0)
      (node rl_if (word none) (arm_tree arm (else_tree (arm ∷ []) none)) null)
      1
    ≡ choose run_down (ctx_new (pos 0) 0) (arm ∷ arm ∷ []) none 1
exec_if_clause-choose_example =
    exec_if_clause-choose run_down (ctx_new (pos 0) 0) arm (arm ∷ []) none (word none) null 1
