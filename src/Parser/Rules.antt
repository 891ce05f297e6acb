-- ===== src/Parser/Rules.antt =====
-- The rules from a whole input to a command: rl_input.c, rl_list.c, rl_compound_list.c, rl_and_or.c,
-- rl_pipeline.c, rl_cmd.c, rl_fundec.c and rl_shell_cmd.c. The fuel goes down at each compound list.
use epita_42sh.Ast.{
  Token, rl_list, rl_and_or, rl_pipeline, rl_shell_cmd, rl_compound_list, rl_word, rl_fundec, word,
  pipe, Tree, null, node, t_eof, t_word, t_and, t_semicol, t_and_if, t_or_if, t_lf, t_pipe, t_lpar,
  t_rpar, t_lbrace, t_rbrace, t_bang,
}
use epita_42sh.Base.{ℕ, zero, suc, Bool, true, false, some, List, [], ◌∷◌, ◌++◌}
use epita_42sh.Io.{no_error}
use epita_42sh.Lexer.{RlState}
use epita_42sh.Parser.Commands.{rl_redirection_, rl_simple_cmd_}
use epita_42sh.Parser.Compound.{
  rl_subshell_, rl_if_clause, rl_while_, rl_until_, rl_for_, rl_case_, give,
}
use epita_42sh.Parser.Steps.{
  give_up, ending, branch, after, regardless, both, accept_either, items, skip_lf, start_cmd,
  stop_cmd, open_line, close_line, blame, fail_parser, set_node, new_node, chain,
}
use epita_42sh.Parser.{yes_, no_, wrong, Parsed, returned, endless, rl_accept, rl_buffer_token}
use epita_42sh.Utils.Vec.{c_string}

module _ (f : ℕ) (compound_list : RlState → Parsed) where
  -- The end of `rl_shell_cmd`: the redirections behind the command.
  shell_redirections : RlState → Parsed
  unfolding items rl_redirection_ new_node chain give
  shell_redirections s =
      items f (rl_redirection_ f) (λ l r. give r (new_node rl_shell_cmd (chain l))) (s.node ∷ []) s

  rl_shell_cmd_ : RlState → Parsed
  unfolding after both give_up set_node open_line close_line rl_subshell_ rl_if_clause rl_while_
      rl_until_ rl_for_ rl_case_ shell_redirections
  rl_shell_cmd_ s =
      let end = shell_redirections in
      let group : RlState → Parsed = λ a.
        after (both (compound_list (open_line a)) (λ b. rl_accept f b t_rbrace))
          (λ r. end (close_line r)) (λ r. give_up (set_node null r)) in
      after (rl_accept f s t_lbrace) group (λ a. after (rl_subshell_ f compound_list a) end (λ b.
        after (rl_if_clause f compound_list b) end (λ c.
          after (rl_while_ f compound_list c) end (λ d.
            after (rl_until_ f compound_list d) end (λ e.
              after (rl_for_ f compound_list e) end
                (λ g. after (rl_case_ f compound_list g) end (λ r. returned r no_)))))))

  rl_fundec_ : RlState → Parsed
  unfolding after regardless give_up ending set_node new_node chain fail_parser start_cmd stop_cmd
      skip_lf rl_buffer_token rl_shell_cmd_
  rl_fundec_ s =
      after (rl_accept f s t_word)
        (λ a.
          let name = c_string a.word in
          after (rl_accept f (stop_cmd a) t_lpar)
            (λ b.
              after (rl_accept f b t_rpar)
                (λ c. regardless (skip_lf f (start_cmd c)) (λ d.
                  after (rl_shell_cmd_ d)
                    (λ r. ending (
                      set_node
                        (new_node rl_fundec
                          (chain (node rl_word (word (some name)) null null ∷ (r.node ∷ []))))
                        r))
                    give_up))
                fail_parser)
            (λ b. returned (record (rl_buffer_token b) { word = name; token = t_word }) no_))
        give_up

  rl_cmd : RlState → Parsed
  unfolding branch set_node start_cmd rl_shell_cmd_ rl_fundec_ rl_simple_cmd_
  rl_cmd s =
      let keep : RlState → Parsed = λ r. returned r yes_ in
      let failed_ : RlState → Parsed = λ r. returned (set_node null r) no_ in
      branch (rl_shell_cmd_ (set_node null (start_cmd s))) keep
        (λ a.
          branch (rl_fundec_ a) keep
            (λ b.
              branch (rl_simple_cmd_ f b) keep failed_
                (λ r e. returned (set_node null r) (wrong e)))
            (λ r e. returned (set_node null r) (wrong e)))
        (λ r e. returned (set_node null r) (wrong e))

  -- The end of `rl_pipeline`.
  pipe_end : Bool → List Tree → RlState → Parsed
  unfolding ending set_node chain
  pipe_end negate l s = ending (set_node (node rl_pipeline (pipe t_eof negate) (chain l) null) s)

  -- The loop of `rl_pipeline`.
  pipe_rest : ℕ → Bool → List Tree → RlState → Parsed
  unfolding after branch regardless give_up blame skip_lf rl_cmd pipe_end
  pipe_rest zero negate l s = endless
  pipe_rest (suc n) negate l s =
      after (rl_accept f s t_pipe)
        (λ a. regardless (skip_lf f a) (λ b.
          branch (rl_cmd b) (λ r. pipe_rest n negate (l ++ r.node ∷ []) r)
            (λ r. pipe_end negate l (blame r)) (λ r e. give_up r)))
        (pipe_end negate l)

  rl_pipeline_ : RlState → Parsed
  unfolding after branch give_up rl_cmd pipe_rest
  rl_pipeline_ s =
      let start : Bool → RlState → Parsed =
        λ negate a. after (rl_cmd a) (λ r. pipe_rest f negate (r.node ∷ []) r) give_up in
      after (rl_accept f s t_bang) (start true)
        (λ a. elim a.err [ no_error ↦ start false a | _ ↦ give_up a ])

  -- `node->attr.pipe.and_or_op = token`
  set_op : Token → Tree → Tree
  set_op t (node type (pipe op negate) child next) = node type (pipe t negate) child next
  set_op t other = other

  -- The end of `rl_and_or`.
  and_or_end : List Tree → RlState → Parsed
  unfolding ending set_node new_node chain
  and_or_end l s = ending (set_node (new_node rl_and_or (chain l)) s)

  -- The loop of `rl_and_or`, by the pipelines before the last one and the last one.
  and_or_rest : ℕ → List Tree → Tree → RlState → Parsed
  unfolding after regardless accept_either blame skip_lf rl_pipeline_ set_op and_or_end
  and_or_rest zero l last s = endless
  and_or_rest (suc n) l last s =
      after (accept_either f s t_and_if t_or_if)
        (λ a.
          let l' = l ++ set_op a.token last ∷ [] in
          regardless (skip_lf f a) (λ b.
            after (rl_pipeline_ b) (λ r. and_or_rest n l' r.node r) (λ r. and_or_end l' (blame r))))
        (and_or_end (l ++ last ∷ []))

  rl_and_or_ : RlState → Parsed
  unfolding after give_up rl_pipeline_ and_or_rest
  rl_and_or_ s = after (rl_pipeline_ s) (λ r. and_or_rest f [] r.node r) give_up

  -- `rl_compound_list` over the rules that it is called from.
  compound_body : RlState → Parsed
  unfolding after regardless accept_either items give_up ending set_node new_node chain skip_lf
      rl_and_or_
  compound_body s =
      let close : List Tree → RlState → Parsed =
        λ l r. ending (set_node (new_node rl_compound_list (chain l)) r) in
      let item : RlState → Parsed = λ a.
        after (accept_either f a t_semicol t_lf) (λ b. regardless (skip_lf f b) rl_and_or_)
          (λ r. returned r no_) in
      regardless (skip_lf f s)
        (λ a. after (rl_and_or_ a) (λ b. items f item close (b.node ∷ []) b) give_up)

pub rl_compound_list_ : ℕ → RlState → Parsed
unfolding compound_body
rl_compound_list_ zero s = endless
rl_compound_list_ (suc f) s = compound_body f (rl_compound_list_ f) s

pub rl_list_ : ℕ → RlState → Parsed
unfolding after accept_either items give_up ending set_node new_node chain rl_and_or_
    rl_compound_list_
rl_list_ f s =
    let rule : RlState → Parsed = rl_and_or_ f (rl_compound_list_ f) in
    let item : RlState → Parsed =
      λ a. after (accept_either f a t_semicol t_and) rule (λ r. returned r no_) in
    after (rule s)
      (λ a. items f item (λ l r. ending (set_node (new_node rl_list (chain l)) r)) (a.node ∷ []) a)
      give_up

-- The end of `rl_input`.
unfoldable pub input_end : ℕ → RlState → Parsed
unfolding after accept_either give_up
input_end f s = after (accept_either f s t_eof t_lf) (λ r. returned r yes_) give_up

-- `rl_input` behind the test for an empty line.
unfoldable pub input_list : ℕ → RlState → Parsed
unfolding after give_up rl_list_ input_end
input_list f s = after (rl_list_ f s) (input_end f) give_up

unfoldable pub rl_input : ℕ → RlState → Parsed
unfolding after accept_either give_up input_list
rl_input f s =
    after (accept_either f s t_lf t_eof) (λ r. returned r yes_)
      (λ a. elim a.err [ no_error ↦ input_list f a | _ ↦ give_up a ])
