-- ===== src/Exec/Conditions.antt =====
-- `rl_exec_if_clause` and `rl_exec_else_clause` on the arms of an if.
use epita_42sh.Ast.{Attr, Tree, null, node, word, rl_if, rl_elif, rl_else, rl_compound_list}
use epita_42sh.Base.{
  ℕ, ◌≡◌, refl, ◌∙◌, Bool, true, false, Option, none, some, List, [], ◌∷◌, if◌then◌else◌, ◌==◌,
}
use epita_42sh.Context.{Context}
use epita_42sh.Exec.{
  Result, finished, jump, broken, out_of_fuel, then_, exec_compound_list, exec_else_clause,
  exec_if_clause,
}

-- A compound list, by its attribute and its first child.
pub record Block : Type 0 where
  pub attr : Attr
  pub child : Tree

pub record Arm : Type 0 where
  pub condition : Block
  pub body : Block

unfoldable pub block_tree : Block → Tree → Tree
block_tree b behind = node rl_compound_list b.attr b.child behind

unfoldable pub arm_tree : Arm → Tree → Tree
arm_tree a behind = block_tree a.condition (block_tree a.body behind)

-- The `elif` and `else` behind an arm.
unfoldable pub else_tree : List Arm → Option Block → Tree
else_tree [] none = null
else_tree [] (some b) = node rl_else (word none) (block_tree b null) null
else_tree (a ∷ arms) last = node rl_elif (word none) (arm_tree a (else_tree arms last)) null

module _ {ℓ} {S : Type ℓ} (run : Context → Tree → S → Result S) (ctx : Context) where
  abbrev pub run_block : Block → S → Result S
  run_block b s = exec_compound_list run ctx (block_tree b null) s

  -- The body of the first arm whose condition returns 0, or else the last block.
  unfoldable pub choose : List Arm → Option Block → S → Result S
  choose [] none s = finished 0 s
  choose [] (some b) s = run_block b s
  choose (a ∷ arms) last s =
      then_ (run_block a.condition s)
        (λ status s. if status == 0 then run_block a.body s else choose arms last s)

  behind_arm : Tree → S → Result S
  behind_arm null s = finished 0 s
  behind_arm (node t a c x) s = exec_else_clause run ctx (node t a c x) s

  compound_list-alone :
      (attr : Attr) (child sibling : Tree) (s : S)
      → exec_compound_list run ctx (node rl_compound_list attr child sibling) s
        ≡ exec_compound_list run ctx (node rl_compound_list attr child null) s
  unfolding exec_compound_list
  compound_list-alone attr null sibling s = refl
  compound_list-alone attr (node t a c x) sibling s = refl

  then-same :
      (r : Result S) {k l : ℕ → S → Result S}
      → ((status : ℕ) (s : S) → k status s ≡ l status s)
      → then_ r k ≡ then_ r l
  unfolding then_
  then-same (finished status s) h = h status s
  then-same (jump buffer val s) h = refl
  then-same broken h = refl
  then-same out_of_fuel h = refl

  -- What follows a condition.
  elif_end :
      (b : Block) (rest : Tree) (good : Bool) (s : S) (other : Result S)
      → other ≡ exec_else_clause run ctx rest s
      → elim good [
        | true ↦ exec_compound_list run ctx (block_tree b rest) s
        | false ↦ elim rest [ null ↦ finished 0 s | node _ _ _ _ ↦ other ]
      ]
        ≡ (if good then run_block b s else behind_arm rest s)
  unfolding behind_arm block_tree
  elif_end b rest true s other e = compound_list-alone b.attr b.child rest s
  elif_end b null false s other e = refl
  elif_end b (node t a c x) false s other e = e

  if_end :
      (b : Block) (rest : Tree) (good : Bool) (s : S)
      → elim good [
        | true ↦ exec_compound_list run ctx (block_tree b rest) s
        | false ↦ elim rest [
          | null ↦ finished 0 s
          | node t a c x ↦ exec_else_clause run ctx (node t a c x) s
        ]
      ]
        ≡ (if good then run_block b s else behind_arm rest s)
  unfolding behind_arm block_tree
  if_end b rest true s = compound_list-alone b.attr b.child rest s
  if_end b null false s = refl
  if_end b (node t a c x) false s = refl

  behind-choose :
      (arms : List Arm) (last : Option Block) (s : S)
      → behind_arm (else_tree arms last) s ≡ choose arms last s
  unfolding behind_arm exec_else_clause choose else_tree arm_tree block_tree then_
  behind-choose [] none s = refl
  behind-choose [] (some b) s = refl
  behind-choose (a ∷ arms) last s =
      rw
        (compound_list-alone a.condition.attr a.condition.child
          (block_tree a.body (else_tree arms last)) s)
        (then-same (run_block a.condition s) (λ status t.
          elif_end a.body (else_tree arms last) (status == 0) t _ refl
          ∙ rw (behind-choose arms last t) refl))

  -- `exec_if_clause` on the tree of an if with its elif and else runs the conditions in their order up to
  -- the first that returns 0 and then the body behind that one; when none does it runs the list of the
  -- else, or returns 0 without one. What leaves a condition leaves the command.
  pub exec_if_clause-choose :
      (a : Arm) (arms : List Arm) (last : Option Block) (attr : Attr) (sibling : Tree) (s : S)
      → exec_if_clause run ctx (node rl_if attr (arm_tree a (else_tree arms last)) sibling) s
        ≡ choose (a ∷ arms) last s
  unfolding exec_if_clause arm_tree choose block_tree then_
  exec_if_clause-choose a arms last attr sibling s =
      rw
        (compound_list-alone a.condition.attr a.condition.child
          (block_tree a.body (else_tree arms last)) s)
        (then-same (run_block a.condition s) (λ status t.
          if_end a.body (else_tree arms last) (status == 0) t
          ∙ rw (behind-choose arms last t) refl))
