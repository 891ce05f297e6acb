-- ===== src/Parser/Tests.antt =====
-- The parser's token interface at the input `if a`.
use epita_42sh.Ast.{null, t_eof, t_word, t_if}
use epita_42sh.Base.Text.{Str, codes}
use epita_42sh.Base.{◌≡◌, Bool, true, false, none, [], refl, Option, some, if◌then◌else◌}
use epita_42sh.Dfa.{dfa_eval, dfa_token}
use epita_42sh.Io.{no_error, cstream_string_create, string_input, signed_char}
use epita_42sh.Lexer.{Flag, RlState, lexer}
use epita_42sh.Parser.Lookahead.{rl_accept-again, rl_accept-rl_buffer_token}
use epita_42sh.Parser.Rules.{rl_input}
use epita_42sh.Parser.{
  Answer, Parsed, returned, endless, misread, yes_, no_, rl_accept, rl_buffer_token,
}
use epita_42sh.Token.{token_eq, token_type}
use epita_42sh.Utils.Vec.{c_string}

abbrev flags : Flag
flags = record { collect = true; cmdstart = true; line_start = false }

abbrev typed : RlState
typed = record {
  err = no_error;
  flag = flags;
  token = t_eof;
  word = [];
  cs = cstream_string_create (codes "if a");
  node = null;
  buffered = none;
}

-- The state that a call returns.
abbrev state_of : Parsed → RlState
state_of (returned r a) = r
state_of endless = typed
state_of misread = typed

abbrev seen : RlState
seen = state_of (rl_accept 30 typed t_word)

if_rejected : rl_accept 30 typed t_word ≡ returned seen no_
unfolding rl_accept lexer dfa_eval dfa_token cstream_string_create string_input signed_char token_eq
    token_type
if_rejected = refl

rl_accept-again_example : rl_accept 1 seen t_if ≡ (
    if token_eq seen.token t_if
    then returned (record seen { flag = record seen.flag { collect = true } }) yes_
    else returned seen no_)
rl_accept-again_example = rl_accept-again 30 0 typed seen t_word t_if if_rejected

rl_accept-rl_buffer_token_example :
    rl_accept 2
      (record (rl_buffer_token typed) { token = t_word; word = codes "f"; flag = flags })
      typed.token
    ≡ returned
        (record typed {
          word = c_string typed.word;
          flag = record flags { collect = true; cmdstart = false };
          buffered = none;
        })
        yes_
rl_accept-rl_buffer_token_example =
    rl_accept-rl_buffer_token 0 typed t_word (codes "f") flags refl refl

-- The answer of the parser on a line, with whether PARSER_LINE_START is left set.
abbrev parsed_line : Str → Option (Answer × Bool)
parsed_line s = elim (rl_input 24 (record typed { cs = cstream_string_create s })) [
  | returned r a ↦ some (a, r.flag.line_start)
  | endless ↦ none
  | misread ↦ none
]

pipes : parsed_line (codes "! a x | b && c; d") ≡ some (yes_, false)
unfolding rl_input rl_accept lexer dfa_eval dfa_token cstream_string_create string_input signed_char
    token_eq token_type
pipes = refl

if_else : parsed_line (codes "if a; then b; elif c; then d; else e; fi") ≡ some (yes_, false)
unfolding rl_input rl_accept lexer dfa_eval dfa_token cstream_string_create string_input signed_char
    token_eq token_type
if_else = refl

function : parsed_line (codes "f() { a; }") ≡ some (yes_, false)
unfolding rl_input rl_accept lexer dfa_eval dfa_token cstream_string_create string_input signed_char
    token_eq token_type
function = refl

for_loop : parsed_line (codes "for i in x y; do a >f; done") ≡ some (yes_, false)
unfolding rl_input rl_accept lexer dfa_eval dfa_token cstream_string_create string_input signed_char
    token_eq token_type
for_loop = refl

unfinished_if : parsed_line (codes "if a; then b") ≡ some (no_, true)
unfolding rl_input rl_accept lexer dfa_eval dfa_token cstream_string_create string_input signed_char
    token_eq token_type
unfinished_if = refl

case_word : parsed_line (codes "case x in a|b) c;; *) d;; esac") ≡ some (yes_, true)
unfolding rl_input rl_accept lexer dfa_eval dfa_token cstream_string_create string_input signed_char
    token_eq token_type
case_word = refl

assignment : parsed_line (codes "a=1 b=2 c") ≡ some (yes_, false)
unfolding rl_input rl_accept lexer dfa_eval dfa_token cstream_string_create string_input signed_char
    token_eq token_type
assignment = refl
