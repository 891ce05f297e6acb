-- ===== src/Exec/AndOr.antt =====
-- `rl_exec_and_or` runs pipelines as a list of `&&` and `||` that associates to the left.
use epita_42sh.Ast.{
  Token, Attr, Tree, null, node, pipe, t_and_if, t_or_if, t_eof, rl_and_or, rl_pipeline,
}
use epita_42sh.Base.{ℕ, ◌≡◌, refl, ◌∙◌, sym, Bool, true, not, if◌then◌else◌, ◌==◌}
use epita_42sh.Context.{Context}
use epita_42sh.Exec.{
  Result, finished, jump, broken, out_of_fuel, then_, op_goes_on, exec_next_of, and_or_loop,
  exec_and_or,
}

pub record Pipeline : Type 0 where
  pub negate : Bool
  pub commands : Tree

-- `e && p` and `e || p`, to the left.
pub data AndOr : Type 0 where
  single : Pipeline → AndOr
  and_ : AndOr → Pipeline → AndOr
  or_ : AndOr → Pipeline → AndOr

-- The node of a pipeline has the operator behind it.
abbrev pub pipeline_node : Pipeline → Token → Tree → Tree
pipeline_node p op behind = node rl_pipeline (pipe op p.negate) p.commands behind

-- The siblings of the pipelines, the last with the operator `op`, in front of `behind`.
unfoldable pub siblings : AndOr → Token → Tree → Tree
siblings (single p) op behind = pipeline_node p op behind
siblings (and_ e p) op behind = siblings e t_and_if (pipeline_node p op behind)
siblings (or_ e p) op behind = siblings e t_or_if (pipeline_node p op behind)

then_assoc {ℓ} :
    {S : Type ℓ} (r : Result S) (k l : ℕ → S → Result S)
    → then_ (then_ r k) l ≡ then_ r (λ status s. then_ (k status s) l)
unfolding then_
then_assoc (finished status s) k l = refl
then_assoc (jump buffer val s) k l = refl
then_assoc broken k l = refl
then_assoc out_of_fuel k l = refl

module _ {ℓ} {S : Type ℓ} (run : Context → Tree → S → Result S) (ctx : Context) where
  -- A pipeline is run at its place in the tree: with the operator and the siblings behind it.
  unfoldable pub eval : AndOr → Token → Tree → S → Result S
  unfolding then_
  eval (single p) op behind s = run ctx (pipeline_node p op behind) s
  eval (and_ e p) op behind s =
      then_ (eval e t_and_if (pipeline_node p op behind) s) (λ status s.
        if status == 0 then run ctx (pipeline_node p op behind) s else finished status s)
  eval (or_ e p) op behind s = then_ (eval e t_or_if (pipeline_node p op behind) s) (λ status s.
      if not (status == 0) then run ctx (pipeline_node p op behind) s else finished status s)

  -- The loop goes on behind the pipelines with the status of the last that ran.
  siblings-loop :
      (e : AndOr) (op : Token) (behind : Tree) (s : S)
      → and_or_loop run ctx (siblings e op behind) 0 true s
        ≡ then_
            (eval e op behind s)
            (λ status s. and_or_loop run ctx behind status (op_goes_on op status) s)
  unfolding siblings eval and_or_loop exec_next_of op_goes_on
  siblings-loop (single p) op behind s = refl
  siblings-loop (and_ e p) op behind s =
      siblings-loop e t_and_if (pipeline_node p op behind) s
      ∙ sym (
          then_assoc (eval e t_and_if (pipeline_node p op behind) s)
            (λ status s.
              if status == 0 then run ctx (pipeline_node p op behind) s else finished status s)
            (λ status s. and_or_loop run ctx behind status (op_goes_on op status) s))
  siblings-loop (or_ e p) op behind s =
      siblings-loop e t_or_if (pipeline_node p op behind) s
      ∙ sym (
          then_assoc (eval e t_or_if (pipeline_node p op behind) s)
            (λ status s.
              if not (status == 0)
              then run ctx (pipeline_node p op behind) s
              else finished status s)
            (λ status s. and_or_loop run ctx behind status (op_goes_on op status) s))

  then-finished : (r : Result S) → then_ r (λ status s. finished status s) ≡ r
  unfolding then_
  then-finished (finished status s) = refl
  then-finished (jump buffer val s) = refl
  then-finished broken = refl
  then-finished out_of_fuel = refl

  starts :
      (e : AndOr) (op : Token) (behind : Tree) (attr : Attr) (sibling : Tree) (s : S)
      → exec_and_or run ctx (node rl_and_or attr (siblings e op behind) sibling) s
        ≡ and_or_loop run ctx (siblings e op behind) 0 true s
  unfolding exec_and_or siblings
  starts (single p) op behind attr sibling s = refl
  starts (and_ e p) op behind attr sibling s =
      starts e t_and_if (pipeline_node p op behind) attr sibling s
  starts (or_ e p) op behind attr sibling s =
      starts e t_or_if (pipeline_node p op behind) attr sibling s

  -- The tree of pipelines runs each one when the status of what is in front of it asks for it, from
  -- the left: behind `&&` when that is 0, behind `||` when it is not. The status is that of
  -- the last pipeline that ran; a jump out of a pipeline ends the whole list.
  pub exec_and_or-eval :
      (e : AndOr) (attr : Attr) (sibling : Tree) (s : S)
      → exec_and_or run ctx (node rl_and_or attr (siblings e t_eof null) sibling) s
        ≡ eval e t_eof null s
  unfolding exec_and_or and_or_loop
  exec_and_or-eval e attr sibling s =
      starts e t_eof null attr sibling s
      ∙ siblings-loop e t_eof null s
      ∙ then-finished (eval e t_eof null s)
