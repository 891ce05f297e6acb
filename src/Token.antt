-- ===== src/Token.antt =====
-- The token table: include/token.def, include/token.h and token.c.
use epita_42sh.Ast.{
  Token, t_eof, t_word, t_assign_word, t_ionumber, t_lf, t_and, t_and_if, t_clobber, t_dbang,
  t_dgreat, t_dless, t_dlessdash, t_or_if, t_dsemicol, t_great, t_greatand, t_less, t_lessand,
  t_lessgreat, t_pipe, t_lpar, t_rpar, t_semicol, t_bang, t_lbrace, t_rbrace, t_case, t_esac, t_for,
  t_do, t_done, t_else, t_elif, t_fi, t_func, t_if, t_in, t_until, t_then, t_while,
}
use epita_42sh.Base.Text.{Str, codes}
use epita_42sh.Base.{ℕ, Bool, List, [], ◌∷◌, ◌==◌}

pub data TokenType : Type 0 where
  endof default special keyword : TokenType

-- `_token_get_str`
unfoldable pub token_str : Token → Str
token_str t_eof = []
token_str t_word = []
token_str t_assign_word = []
token_str t_ionumber = []
token_str t_lf = codes "\n"
token_str t_and = codes "&"
token_str t_and_if = codes "&&"
token_str t_clobber = codes ">|"
token_str t_dbang = codes "!!"
token_str t_dgreat = codes ">>"
token_str t_dless = codes "<<"
token_str t_dlessdash = codes "<<-"
token_str t_or_if = codes "||"
token_str t_dsemicol = codes ";;"
token_str t_great = codes ">"
token_str t_greatand = codes ">&"
token_str t_less = codes "<"
token_str t_lessand = codes "<&"
token_str t_lessgreat = codes "<>"
token_str t_pipe = codes "|"
token_str t_lpar = codes "("
token_str t_rpar = codes ")"
token_str t_semicol = codes ";"
token_str t_bang = codes "!"
token_str t_lbrace = codes "{"
token_str t_rbrace = codes "}"
token_str t_case = codes "case"
token_str t_esac = codes "esac"
token_str t_for = codes "for"
token_str t_do = codes "do"
token_str t_done = codes "done"
token_str t_else = codes "else"
token_str t_elif = codes "elif"
token_str t_fi = codes "fi"
token_str t_func = codes "function"
token_str t_if = codes "if"
token_str t_in = codes "in"
token_str t_until = codes "until"
token_str t_then = codes "then"
token_str t_while = codes "while"

-- `_token_get_type`
unfoldable pub token_type : Token → TokenType
token_type t_eof = endof
token_type t_word = default
token_type t_assign_word = default
token_type t_ionumber = default
token_type t_lf = special
token_type t_and = special
token_type t_and_if = special
token_type t_clobber = special
token_type t_dbang = special
token_type t_dgreat = special
token_type t_dless = special
token_type t_dlessdash = special
token_type t_or_if = special
token_type t_dsemicol = special
token_type t_great = special
token_type t_greatand = special
token_type t_less = special
token_type t_lessand = special
token_type t_lessgreat = special
token_type t_pipe = special
token_type t_lpar = special
token_type t_rpar = special
token_type t_semicol = special
token_type _ = keyword

-- The tokens in the order of their keys.
abbrev pub all_tokens : List Token
all_tokens =
    t_eof ∷ t_word ∷ t_assign_word ∷ t_ionumber ∷ t_lf ∷ t_and ∷ t_and_if ∷ t_clobber ∷ t_dbang
    ∷ t_dgreat ∷ t_dless ∷ t_dlessdash ∷ t_or_if ∷ t_dsemicol ∷ t_great ∷ t_greatand ∷ t_less
    ∷ t_lessand ∷ t_lessgreat ∷ t_pipe ∷ t_lpar ∷ t_rpar ∷ t_semicol ∷ t_bang ∷ t_lbrace ∷ t_rbrace
    ∷ t_case ∷ t_esac ∷ t_for ∷ t_do ∷ t_done ∷ t_else ∷ t_elif ∷ t_fi ∷ t_func ∷ t_if ∷ t_in
    ∷ t_until ∷ t_then ∷ t_while ∷ []

-- The value of a token in the enumeration.
unfoldable pub token_key : Token → ℕ
token_key t_eof = 0
token_key t_word = 1
token_key t_assign_word = 2
token_key t_ionumber = 3
token_key t_lf = 4
token_key t_and = 5
token_key t_and_if = 6
token_key t_clobber = 7
token_key t_dbang = 8
token_key t_dgreat = 9
token_key t_dless = 10
token_key t_dlessdash = 11
token_key t_or_if = 12
token_key t_dsemicol = 13
token_key t_great = 14
token_key t_greatand = 15
token_key t_less = 16
token_key t_lessand = 17
token_key t_lessgreat = 18
token_key t_pipe = 19
token_key t_lpar = 20
token_key t_rpar = 21
token_key t_semicol = 22
token_key t_bang = 23
token_key t_lbrace = 24
token_key t_rbrace = 25
token_key t_case = 26
token_key t_esac = 27
token_key t_for = 28
token_key t_do = 29
token_key t_done = 30
token_key t_else = 31
token_key t_elif = 32
token_key t_fi = 33
token_key t_func = 34
token_key t_if = 35
token_key t_in = 36
token_key t_until = 37
token_key t_then = 38
token_key t_while = 39

-- `==` on token keys.
unfoldable pub token_eq : Token → Token → Bool
unfolding token_key
token_eq a b = token_key a == token_key b
