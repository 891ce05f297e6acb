-- ===== src/Lexer/Tests.antt =====
-- The lexer run on concrete inputs.
use epita_42sh.Ast.{Token, null, t_eof, t_word, t_do, t_if, t_assign_word, t_ionumber}
use epita_42sh.Base.Text.{Str, codes}
use epita_42sh.Base.{◌≡◌, ◌≤◌, ◌<◌, arith, Bool, true, false, Option, none, some, [], ◌∷◌, refl}
use epita_42sh.Dfa.{dfa_eval, dfa_token}
use epita_42sh.Io.{Error, no_error, lexer_error, cstream_string_create, string_input, signed_char}
use epita_42sh.Token.{token_eq, token_type}
use epita_42sh.Lexer.Stream.{IsReadable, ahead}
use epita_42sh.Lexer.Total.{lexer-done}
use epita_42sh.Lexer.{RlState, done, out_of_fuel, fault, lexer}

-- A lexer in front of a text, where a command may start or not.
abbrev before : Bool → Str → RlState
before cmdstart s = record {
  err = no_error;
  flag = record { collect = false; cmdstart = cmdstart; line_start = false };
  token = t_eof;
  word = [];
  cs = cstream_string_create s;
  node = null;
  buffered = none;
}

-- The first token of a text, with its word and the error.
abbrev first : Bool → Str → Option (Token × Str × Error)
first cmdstart s = elim (lexer 30 (before cmdstart s)) [
  | done r ↦ some (r.token, r.word, r.err)
  | out_of_fuel ↦ none
  | fault ↦ none
]

first_word : first true (codes "  echo a") ≡ some (t_word, codes "echo", no_error)
unfolding lexer dfa_eval dfa_token cstream_string_create string_input signed_char token_eq
    token_type
first_word = refl

first_keyword : first true (codes "if a") ≡ some (t_if, codes "if", no_error)
unfolding lexer dfa_eval dfa_token cstream_string_create string_input signed_char token_eq
    token_type
first_keyword = refl

keyword_as_word : first false (codes "if a") ≡ some (t_word, codes "if", no_error)
unfolding lexer dfa_eval dfa_token cstream_string_create string_input signed_char token_eq
    token_type
keyword_as_word = refl

quoted : first true (codes "a\" b\"c") ≡ some (t_word, codes "a\" b\"c", no_error)
unfolding lexer dfa_eval dfa_token cstream_string_create string_input signed_char token_eq
    token_type
quoted = refl

unclosed : first true (codes "\"a") ≡ some (t_word, codes "\"a", lexer_error)
unfolding lexer dfa_eval dfa_token cstream_string_create string_input signed_char token_eq
    token_type
unclosed = refl

assignment : first true (codes "a=1 b") ≡ some (t_assign_word, codes "a=1", no_error)
unfolding lexer dfa_eval dfa_token cstream_string_create string_input signed_char token_eq
    token_type
assignment = refl

io_number : first true (codes "2>a") ≡ some (t_ionumber, codes "2", no_error)
unfolding lexer dfa_eval dfa_token cstream_string_create string_input signed_char token_eq
    token_type
io_number = refl

-- The token of a final state stays when the automaton goes on from it and finds no other.
do_prefix : first true (codes "don") ≡ some (t_do, codes "don", no_error)
unfolding lexer dfa_eval dfa_token cstream_string_create string_input signed_char token_eq
    token_type
do_prefix = refl

typed-IsReadable : IsReadable (before true (codes "if a")).cs
unfolding cstream_string_create string_input signed_char
typed-IsReadable = record { input = (refl, (refl, (refl, (refl, tt)))); buffer = refl }

typed-ahead : ahead (before true (codes "if a")).cs < 30
unfolding cstream_string_create string_input signed_char
typed-ahead = omega arith

lexer-done_example :
    (r : RlState) × (lexer 30 (before true (codes "if a")) ≡ done r)
    × IsReadable r.cs
    × (ahead r.cs ≤ ahead (before true (codes "if a")).cs)
lexer-done_example = lexer-done 30 (before true (codes "if a")) typed-IsReadable typed-ahead

substitution : first true (codes "$(a b) c") ≡ some (t_word, codes "$(a b)", no_error)
unfolding lexer dfa_eval dfa_token cstream_string_create string_input signed_char token_eq
    token_type
substitution = refl

-- The second `$(` ends the mode of the first.
nested_substitution : first true (codes "$(a $(b) c)") ≡ some (t_word, codes "$(a $(b", no_error)
unfolding lexer dfa_eval dfa_token cstream_string_create string_input signed_char token_eq
    token_type
nested_substitution = refl

-- A NUL byte alone.
nul_byte : first true (0 ∷ b' ' ∷ []) ≡ some (t_ionumber, 0 ∷ [], no_error)
unfolding lexer dfa_eval dfa_token cstream_string_create string_input signed_char token_eq
    token_type
nul_byte = refl
