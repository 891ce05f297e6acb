-- ===== src/Driver/Print.antt =====
-- What the debugging options print: the tokens and trees of parser.c, and the graph of ast_dot.c.
-- What `%s` prints for NULL is glibc's `(null)`.
use epita_42sh.Ast.{
  Token, RuleType, Attr, Tree, null, node, word, redir, t_eof, t_word, t_assign_word, t_ionumber,
  t_lf, t_and, t_and_if, t_clobber, t_dbang, t_dgreat, t_dless, t_dlessdash, t_or_if, t_dsemicol,
  t_great, t_greatand, t_less, t_lessand, t_lessgreat, t_pipe, t_lpar, t_rpar, t_semicol, t_bang,
  t_lbrace, t_rbrace, t_case, t_esac, t_for, t_do, t_done, t_else, t_elif, t_fi, t_func, t_if, t_in,
  t_until, t_then, t_while, rl_norule, rl_input, rl_list, rl_and_or, rl_pipeline, rl_simple_cmd,
  rl_shell_cmd, rl_if, rl_elif, rl_else, rl_compound_list, rl_while, rl_until, rl_for, rl_case,
  rl_case_clause, rl_case_item, rl_word, rl_redirection, rl_assign_word, rl_fundec, rl_subshell,
}
use epita_42sh.Base.Text.{Str, codes}
use epita_42sh.Base.{ℕ, ◌+◌, Option, none, some, [], ◌∷◌, ◌++◌}
use epita_42sh.Lexer.{RlState}
use epita_42sh.Symtab.Print.{digits, string_or_null}
use epita_42sh.Token.{special, keyword, token_type, token_str}
use epita_42sh.Utils.Vec.{c_string}

-- `%d` of a number of an `int`.
abbrev pub decimal : ℕ → Str
decimal n = digits 10 n

-- `#Key` of include/token.def
unfoldable pub token_name : Token → Str
token_name t_eof = codes "T_EOF"
token_name t_word = codes "T_WORD"
token_name t_assign_word = codes "T_ASSIGN_WORD"
token_name t_ionumber = codes "T_IONUMBER"
token_name t_lf = codes "T_LF"
token_name t_and = codes "T_AND"
token_name t_and_if = codes "T_AND_IF"
token_name t_clobber = codes "T_CLOBBER"
token_name t_dbang = codes "T_DBANG"
token_name t_dgreat = codes "T_DGREAT"
token_name t_dless = codes "T_DLESS"
token_name t_dlessdash = codes "T_DLESSDASH"
token_name t_or_if = codes "T_OR_IF"
token_name t_dsemicol = codes "T_DSEMICOL"
token_name t_great = codes "T_GREAT"
token_name t_greatand = codes "T_GREATAND"
token_name t_less = codes "T_LESS"
token_name t_lessand = codes "T_LESSAND"
token_name t_lessgreat = codes "T_LESSGREAT"
token_name t_pipe = codes "T_PIPE"
token_name t_lpar = codes "T_LPAR"
token_name t_rpar = codes "T_RPAR"
token_name t_semicol = codes "T_SEMICOL"
token_name t_bang = codes "T_BANG"
token_name t_lbrace = codes "T_LBRACE"
token_name t_rbrace = codes "T_RBRACE"
token_name t_case = codes "T_CASE"
token_name t_esac = codes "T_ESAC"
token_name t_for = codes "T_FOR"
token_name t_do = codes "T_DO"
token_name t_done = codes "T_DONE"
token_name t_else = codes "T_ELSE"
token_name t_elif = codes "T_ELIF"
token_name t_fi = codes "T_FI"
token_name t_func = codes "T_FUNC"
token_name t_if = codes "T_IF"
token_name t_in = codes "T_IN"
token_name t_until = codes "T_UNTIL"
token_name t_then = codes "T_THEN"
token_name t_while = codes "T_WHILE"

-- `Str` of include/rule.def
unfoldable pub rule_name : RuleType → Str
rule_name rl_norule = codes "norule"
rule_name rl_input = codes "input"
rule_name rl_list = codes "list"
rule_name rl_and_or = codes "and_or"
rule_name rl_pipeline = codes "pipeline"
rule_name rl_simple_cmd = codes "cmd"
rule_name rl_shell_cmd = codes "shell_cmd"
rule_name rl_if = codes "if"
rule_name rl_elif = codes "elif"
rule_name rl_else = codes "else"
rule_name rl_compound_list = codes "compound_list"
rule_name rl_while = codes "while"
rule_name rl_until = codes "until"
rule_name rl_for = codes "for"
rule_name rl_case = codes "case"
rule_name rl_case_clause = codes "case_clause"
rule_name rl_case_item = codes "case_item"
rule_name rl_word = codes "word"
rule_name rl_redirection = codes "redirection"
rule_name rl_assign_word = codes "assignment"
rule_name rl_fundec = codes "funcdec"
rule_name rl_subshell = codes "subshell"

-- `__dbg_type`, under OPT_DEBUG.
unfoldable pub dbg_type : RlState → Str
unfolding token_name token_type c_string
dbg_type s =
    let kind : Str = elim (token_type s.token) [
      | special ↦ codes "SPECIAL"
      | keyword ↦ codes "KEYWORD"
      | _ ↦ codes "DEFAULT"
    ] in
    let text : Str = elim s.token [
      | t_lf ↦ codes " | ['\\n']\n"
      | _ ↦ codes " | ['" ++ (c_string s.word ++ codes "']\n")
    ] in
    kind ++ (codes " | " ++ (token_name s.token ++ text))

-- `TOKEN_STR` of a redirection's token; -1 is no token of the table.
unfoldable pub redir_str : Option Token → Str
unfolding token_str
redir_str none = codes "(null)"
redir_str (some t) = token_str t

-- What `__dbg_ast_aux` prints of a node itself.
unfoldable pub dbg_label : RuleType → Attr → Str
unfolding rule_name string_or_null redir_str
dbg_label rl_word (word w) = string_or_null w
dbg_label rl_assign_word (word w) = codes "\"assign\"(" ++ (string_or_null w ++ codes ")")
dbg_label rl_redirection (redir token n file) =
    codes "\"redir\"("
    ++ (decimal n
        ++ (codes ", " ++ (redir_str token ++ (codes ", " ++ (string_or_null file ++ codes ")")))))
dbg_label type attr = b'"' ∷ (rule_name type ++ b'"' ∷ [])

-- `__dbg_ast_aux`
unfoldable pub dbg_ast_aux : Tree → Str
unfolding dbg_label
dbg_ast_aux null = []
dbg_ast_aux (node type attr child sibling) =
    dbg_label type attr
    ++ ((elim child [ null ↦ [] | _ ↦ codes ": { " ++ (dbg_ast_aux child ++ codes " }") ])
        ++ (elim sibling [ null ↦ [] | _ ↦ b' ' ∷ dbg_ast_aux sibling ]))

unfoldable pub print_debug_ast : Tree → Str
unfolding dbg_ast_aux
print_debug_ast null = []
print_debug_ast (node type attr child sibling) =
    codes "DBG << " ++ (dbg_ast_aux (node type attr child sibling) ++ codes "\n")

-- The text in the label of a node of the graph.
unfoldable pub dot_label : RuleType → Attr → Str
unfolding rule_name string_or_null redir_str
dot_label rl_word (word w) = string_or_null w
dot_label rl_assign_word (word w) = string_or_null w
dot_label rl_redirection (redir token n file) =
    decimal n ++ (codes " " ++ (redir_str token ++ (codes " " ++ string_or_null file)))
dot_label type attr = rule_name type

-- `__aux_ast_dot`: the number that it returns and what it prints, under the node `p`, behind the
-- number `c`.
unfoldable pub aux_ast_dot : Tree → ℕ → ℕ → ℕ × Str
unfolding dot_label
aux_ast_dot null p c = (c, [])
aux_ast_dot (node type attr child sibling) p c =
    let own =
      decimal (c + 1)
      ++ (codes " [label= \""
          ++ (dot_label type attr ++ (codes " (" ++ (decimal (c + 1) ++ codes ")\"]\n")))) in
    let edge = decimal p ++ (codes " -- " ++ (decimal (c + 1) ++ codes "\n")) in
    let (c1, below) = aux_ast_dot child (c + 1) (c + 1) in
    let (c2, behind) = aux_ast_dot sibling p c1 in (c2, own ++ (edge ++ (below ++ behind)))

unfoldable pub ast_dot_print : Tree → Str
unfolding aux_ast_dot
ast_dot_print null = []
ast_dot_print (node type attr child sibling) =
    codes "graph {\n0 [label= \"input\"]\n" ++ ((aux_ast_dot child 0 1).1 ++ codes "} \n")
