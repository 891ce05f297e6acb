-- ===== src/Parser/Compound.antt =====
-- The rules between a compound list and its commands: rl_do_group.c, rl_else_clause.c,
-- rl_if_clause.c, rl_while.c, rl_until.c, rl_subshell.c, rl_case_item.c, rl_case_clause.c, rl_case.c
-- and rl_for.c. The call of `rl_compound_list` is a parameter, since that rule calls these.
use epita_42sh.Ast.{
  rl_if, rl_elif, rl_else, rl_while, rl_until, rl_for, rl_case, rl_case_clause, rl_case_item,
  rl_word, rl_subshell, word, Tree, null, node, t_word, t_lf, t_semicol, t_dsemicol, t_pipe, t_lpar,
  t_rpar, t_case, t_esac, t_for, t_do, t_done, t_else, t_elif, t_fi, t_if, t_in, t_until, t_then,
  t_while,
}
use epita_42sh.Base.Text.{Str}
use epita_42sh.Base.{ℕ, zero, suc, some, List, [], ◌∷◌, ◌++◌}
use epita_42sh.Io.{parser_error}
use epita_42sh.Lexer.{RlState}
use epita_42sh.Parser.Steps.{
  give_up, ending, branch, after, regardless, both, items, skip_lf, start_cmd, open_line,
  close_line, set_node, new_node, chain,
}
use epita_42sh.Parser.{yes_, no_, wrong, Parsed, returned, endless, rl_accept}
use epita_42sh.Utils.Vec.{c_string}

-- An RL_WORD node for the word of the state.
word_node : RlState → Tree
unfolding c_string
word_node s = node rl_word (word (some (c_string s.word))) null null

-- `return true` with a node.
unfoldable pub give : RlState → Tree → Parsed
unfolding set_node
give s t = returned (set_node t s) yes_

module _ (f : ℕ) (compound_list : RlState → Parsed) where
  rl_do_group : RlState → Parsed
  unfolding after both give_up
  rl_do_group s =
      after (both (rl_accept f s t_do) (λ a. both (compound_list a) (λ b. rl_accept f b t_done)))
        (λ r. returned r yes_) give_up

  -- `__rl_else`
  rl_else_ : RlState → Parsed
  unfolding after both give_up new_node give
  rl_else_ s =
      after (both (rl_accept f s t_else) compound_list) (λ r. give r (new_node rl_else r.node))
        give_up

  -- `rl_else_clause` with `__rl_elif`, on fuel for the call of itself.
  rl_else_clause : ℕ → RlState → Parsed
  unfolding after both give_up new_node chain set_node rl_else_ give
  rl_else_clause zero s = endless
  rl_else_clause (suc n) s =
      let elif : RlState → Parsed = λ a.
        after (both (rl_accept f a t_elif) compound_list)
          (λ cond.
            after (both (rl_accept f (set_node null cond) t_then) compound_list)
              (λ body.
                after (rl_else_clause n (set_node null body))
                  (λ r. give r (new_node rl_elif (chain (cond.node ∷ body.node ∷ r.node ∷ []))))
                  (λ r. give r (new_node rl_elif (chain (cond.node ∷ body.node ∷ [])))))
              (λ r. returned r (wrong parser_error)))
          give_up in
      after (rl_else_ s) (λ r. returned r yes_) elif

  unfoldable pub rl_if_clause : RlState → Parsed
  unfolding after branch both give_up new_node chain set_node open_line close_line rl_else_clause
      give
  rl_if_clause s =
      let fail : List Tree → RlState → Parsed =
        λ l r. give_up (set_node (new_node rl_if (chain l)) r) in
      after (rl_accept f s t_if)
        (λ a.
          after (compound_list (open_line a))
            (λ cond.
              after (both (rl_accept f cond t_then) compound_list)
                (λ body.
                  let l = cond.node ∷ body.node ∷ [] in
                  let last : RlState → Parsed = λ c.
                    after (rl_accept f c t_fi)
                      (λ r. give (close_line r) (new_node rl_if (chain (l ++ c.node ∷ []))))
                      (fail (l ++ c.node ∷ [])) in
                  branch (rl_else_clause f (set_node null body)) last last (λ r e. fail l r))
                (fail (cond.node ∷ [])))
            give_up)
        give_up

  unfoldable pub rl_while_ : RlState → Parsed
  unfolding after give_up new_node chain set_node open_line close_line rl_do_group give
  rl_while_ s =
      let fail : RlState → Parsed = λ r. give_up (close_line r) in
      after (rl_accept f s t_while)
        (λ a.
          after (compound_list (open_line a))
            (λ cond.
              after (rl_do_group (set_node null cond))
                (λ r. give (close_line r) (new_node rl_while (chain (cond.node ∷ r.node ∷ []))))
                fail)
            fail)
        give_up

  unfoldable pub rl_until_ : RlState → Parsed
  unfolding after both give_up new_node chain set_node rl_do_group give
  rl_until_ s =
      after (both (rl_accept f s t_until) compound_list)
        (λ cond.
          after (rl_do_group (set_node null cond))
            (λ r. give r (new_node rl_until (chain (cond.node ∷ r.node ∷ [])))) give_up)
        give_up

  unfoldable pub rl_subshell_ : RlState → Parsed
  unfolding after both give_up new_node set_node open_line close_line start_cmd give
  rl_subshell_ s =
      after (rl_accept f s t_lpar)
        (λ a.
          after (both (compound_list (start_cmd (open_line a))) (λ b. rl_accept f b t_rpar))
            (λ r. give (close_line r) (new_node rl_subshell r.node))
            (λ r. give_up (set_node null r)))
        give_up

  -- `rl_case_item` behind its words.
  case_body : List Tree → RlState → Parsed
  unfolding after branch regardless give_up ending new_node chain set_node skip_lf
  case_body l s =
      let fail : RlState → Parsed = λ r. give_up (set_node null r) in
      let close : List Tree → RlState → Parsed =
        λ k r. ending (set_node (new_node rl_case_item (chain k)) r) in
      after (rl_accept f s t_rpar)
        (λ a. regardless (skip_lf f a) (λ b.
          branch (compound_list b) (λ r. close (l ++ r.node ∷ []) r) (close l) (λ r e. fail r)))
        fail

  -- The loop of `rl_case_item` over the words behind the first.
  case_words : ℕ → List Tree → RlState → Parsed
  unfolding after give_up set_node word_node case_body
  case_words zero l s = endless
  case_words (suc n) l s =
      after (rl_accept f s t_pipe)
        (λ a.
          after (rl_accept f a t_word) (λ r. case_words n (l ++ word_node r ∷ []) r)
            (λ r. give_up (set_node null r)))
        (case_body l)

  rl_case_item_ : RlState → Parsed
  unfolding after give_up word_node case_words
  rl_case_item_ s =
      let words : RlState → Parsed = λ a. case_words f (word_node a ∷ []) a in
      after (rl_accept f s t_lpar) (λ a. after (rl_accept f a t_word) words give_up)
        (λ a. after (rl_accept f a t_word) words give_up)

  rl_case_clause_ : RlState → Parsed
  unfolding after regardless items give_up ending new_node chain set_node start_cmd skip_lf
      rl_case_item_
  rl_case_clause_ s =
      let item : RlState → Parsed = λ a.
        after (rl_accept f a t_dsemicol)
          (λ b.
            regardless (skip_lf f b) (λ c.
              after (rl_case_item_ c) (λ r. returned (start_cmd r) yes_) (λ r. returned r no_)))
          (λ r. returned r no_) in
      after (rl_case_item_ s)
        (λ a.
          items f item (λ l r. ending (set_node (new_node rl_case_clause (chain l)) r))
            (a.node ∷ []) (start_cmd a))
        give_up

  unfoldable pub rl_case_ : RlState → Parsed
  unfolding after branch regardless both give_up ending set_node start_cmd open_line skip_lf
      rl_case_clause_
  rl_case_ s =
      after (both (rl_accept f s t_case) (λ a. rl_accept f a t_word))
        (λ a.
          let close : Tree → RlState → Parsed = λ child b.
            after (rl_accept f b t_esac)
              (λ r. ending (set_node (node rl_case (word (some (c_string a.word))) child null) r))
              give_up in
          regardless (skip_lf f (start_cmd a)) (λ b.
            after (rl_accept f b t_in)
              (λ c. regardless (skip_lf f (start_cmd c)) (λ d.
                branch (rl_case_clause_ (open_line d)) (λ r. close r.node r) (close null)
                  (λ r e. give_up r)))
              give_up))
        give_up

  -- `rl_for` behind its words.
  for_body : Str → List Tree → RlState → Parsed
  unfolding after regardless give_up chain set_node open_line close_line skip_lf rl_do_group give
  for_body name l s = regardless (skip_lf f s) (λ a.
      after (rl_do_group (open_line a))
        (λ r. give (close_line r) (node rl_for (word (some name)) (chain (r.node ∷ l)) null))
        (λ r. give_up (close_line r)))

  -- The words of `rl_for` behind `in`, and the end of their line.
  for_words : ℕ → Str → List Tree → RlState → Parsed
  unfolding after give_up close_line word_node for_body
  for_words zero name l s = endless
  for_words (suc n) name l s =
      after (rl_accept f s t_word) (λ a. for_words n name (l ++ word_node a ∷ []) a)
        (λ a.
          after (rl_accept f a t_semicol) (for_body name l)
            (λ b. after (rl_accept f b t_lf) (for_body name l) (λ r. give_up (close_line r))))

  unfoldable pub rl_for_ : RlState → Parsed
  unfolding after regardless both give_up start_cmd skip_lf for_body for_words
  rl_for_ s =
      after (both (rl_accept f s t_for) (λ a. rl_accept f a t_word))
        (λ a.
          let name = c_string a.word in
          after (rl_accept f (start_cmd a) t_semicol) (for_body name []) (λ b.
            regardless (skip_lf f b)
              (λ c. after (rl_accept f c t_in) (for_words f name []) (for_body name []))))
        give_up
