-- ===== src/Ast.antt =====
-- The execution tree of include/rule_exec.h, a left-child right-sibling tree, and its node types
-- from include/rule.def. The token keys are those of include/token.def.
use epita_42sh.Base.{ℕ, Bool, Option}
use epita_42sh.Base.Text.{Str}

-- include/rule.def
pub data RuleType : Type 0 where
  rl_norule rl_input rl_list rl_and_or rl_pipeline rl_simple_cmd rl_shell_cmd rl_if rl_elif :
      RuleType
  rl_else rl_compound_list rl_while rl_until rl_for rl_case rl_case_clause : RuleType
  rl_case_item rl_word rl_redirection rl_assign_word rl_fundec rl_subshell : RuleType

-- include/token.def
pub data Token : Type 0 where
  t_eof t_word t_assign_word t_ionumber t_lf t_and t_and_if t_clobber t_dbang t_dgreat : Token
  t_dless t_dlessdash t_or_if t_dsemicol t_great t_greatand t_less t_lessand : Token
  t_lessgreat t_pipe t_lpar t_rpar t_semicol t_bang t_lbrace t_rbrace t_case : Token
  t_esac t_for t_do t_done t_else t_elif t_fi t_func t_if t_in t_until t_then : Token
  t_while : Token

-- `union attr`: one case for each member that a node type uses. A node of the other types has the
-- member `word` that `rl_exectree_new` sets to NULL.
pub data Attr : Type 0 where
  word : Option Str → Attr
  cmd : (status : ℕ) (pid : Option ℕ) (fd0 fd1 fd2 : ℕ) → Attr
  redir : (token : Option Token) (ionumber : ℕ) (file : Option Str) → Attr
  pipe : (and_or_op : Token) (negate : Bool) → Attr

-- `null` is the pointer NULL; a node has its type, its attributes, its first child and its sibling.
pub data Tree : Type 0 where
  null : Tree
  node : (type : RuleType) (attr : Attr) (child sibling : Tree) → Tree
