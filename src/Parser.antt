-- ===== src/Parser.antt =====
-- The token interface of the parser rules: rl_accept.c and rl_expect.c over the lexer.
-- The fuel bounds the loop of `rl_accept` and is handed to the lexer.
pub mod Steps
pub mod Commands
pub mod Compound
pub mod Rules
pub mod Accepted
pub mod Lookahead
mod Tests
use epita_42sh.Ast.{Token, t_eof, t_word, t_lf, t_semicol, t_and_if, t_or_if}
use epita_42sh.Base.Text.{Str, codes}
use epita_42sh.Base.{ℕ, zero, suc, Bool, true, false, ◌||◌, Option, none, some, ◌++◌, if◌then◌else◌}
use epita_42sh.Io.{Error, no_error, keyboard_interrupt}
use epita_42sh.Lexer.{RlState, Lexed, done, out_of_fuel, fault, is_no_error, lexer}
use epita_42sh.Token.{token_eq, token_str}
use epita_42sh.Utils.Vec.{c_string}

-- What a rule returns: `true`, `false`, or an error with its sign changed.
pub data Answer : Type 0 where
  yes_ no_ : Answer
  wrong : Error → Answer

-- A call of a rule; the other two are the lexer's.
pub data Parsed : Type 0 where
  returned : RlState → Answer → Parsed
  endless misread : Parsed

-- `rl_buffer_token`
pub rl_buffer_token : RlState → RlState
unfolding c_string
rl_buffer_token s = record s { buffered = some (s.token, c_string s.word) }

-- The test of the loop of `rl_accept`.
pub has_to_collect : RlState → Bool
has_to_collect s = elim s.err [ keyboard_interrupt ↦ true | _ ↦ false ] || s.flag.collect

-- A command may start behind these tokens.
starts_command : Token → Bool
unfolding token_eq
starts_command t =
    token_eq t t_lf || (token_eq t t_semicol || (token_eq t t_and_if || token_eq t t_or_if))

-- The flag LEX_CMDSTART before the lexer runs.
before_lexer : RlState → RlState
unfolding starts_command
before_lexer s = record s {
  flag = record s.flag { cmdstart = starts_command s.token || s.flag.cmdstart };
}

-- `s->flag &= ~(LEX_COLLECT | LEX_CMDSTART)`
pub clear_flags : RlState → RlState
clear_flags s = record s { flag = record s.flag { collect = false; cmdstart = false } }

-- The body of the loop of `rl_accept`.
pub collect_token : ℕ → RlState → Lexed
unfolding before_lexer lexer
collect_token f s = elim s.buffered [
  | some (token, word) ↦ done (record s { token = token; word = c_string word; buffered = none })
  | none ↦ lexer f (before_lexer s)
]

-- The loop of `rl_accept`.
pub accept_loop : ℕ → RlState → Lexed
unfolding has_to_collect collect_token clear_flags
accept_loop zero s = out_of_fuel
accept_loop (suc f) s = elim (has_to_collect s) [
  | false ↦ done s
  | true ↦ elim (collect_token f s) [
    | done r ↦ accept_loop f (clear_flags r)
    | out_of_fuel ↦ out_of_fuel
    | fault ↦ fault
  ]
]

-- The part of `rl_accept` behind its loop.
pub compare : RlState → Token → Parsed
compare s token =
    if is_no_error s.err
    then (if token_eq s.token token
        then returned (record s { flag = record s.flag { collect = true } }) yes_
        else returned s no_)
    else returned s (wrong s.err)

-- `rl_accept`
pub rl_accept : ℕ → RlState → Token → Parsed
unfolding accept_loop compare
rl_accept f s token = elim (accept_loop f s) [
  | done r ↦ compare r token
  | out_of_fuel ↦ endless
  | fault ↦ misread
]

-- `__token_str` of rl_expect.c
expected_str : Token → Str
unfolding token_str
expected_str t_lf = codes "newline"
expected_str t_word = codes "word"
expected_str t_eof = codes "EOF"
expected_str t = token_str t

-- What `rl_expect` prints.
expect_message : RlState → Token → Str
unfolding expected_str
expect_message s token =
    codes "42sh: syntax error near unexpected token <"
    ++ (expected_str s.token
        ++ (codes "> (\""
            ++ (c_string s.word
                ++ (codes "\") expected <" ++ (expected_str token ++ codes ">\n")))))

-- `rl_expect`, with what it prints.
pub rl_expect : ℕ → RlState → Token → Parsed × Str
unfolding expect_message
rl_expect f s token =
    let called = rl_accept f s token in
    (
      called,
      elim called [
        | returned r a ↦ elim a [ yes_ ↦ codes "" | _ ↦ expect_message r token ]
        | endless ↦ codes ""
        | misread ↦ codes ""
      ],
    )
