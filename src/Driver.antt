-- ===== src/Driver.antt =====
-- The driver of the parser, parser.c, the builtin `.` of bi_source.c, and the main program, 42sh.c.
-- How a pipeline runs is a parameter; the buffer of `setjmp` is a number.
pub mod Print
pub mod Source
pub mod Main
pub mod Lines
pub mod Stray
mod Tests
use epita_42sh.Ast.{t_eof, Tree, null, node}
use epita_42sh.Base.Int.{ℤ, pos}
use epita_42sh.Base.Text.{Str, codes}
use epita_42sh.Base.{
  ℕ, zero, suc, Bool, true, false, not, Option, none, some, List, [], ◌++◌, if◌then◌else◌, ◌==◌,
}
use epita_42sh.Builtins.Cd.{Os, perror}
use epita_42sh.Command.{Kernel}
use epita_42sh.Context.{
  CtxFlags, Context, JmpValue, exit_with_loop_exit, exit_without_loop_exit, ctx_new,
  ctx_filter_flags,
}
use epita_42sh.Driver.Print.{dbg_type, print_debug_ast, ast_dot_print}
use epita_42sh.Exec.Words.{Shell}
use epita_42sh.Exec.{Result, finished, jump, broken, out_of_fuel, exec_list}
use epita_42sh.Io.{Error, no_error, lexer_error, parser_error, reached_eof, Cstream}
use epita_42sh.Lexer.{RlState, is_no_error}
use epita_42sh.Parser.Rules.{rl_input}
use epita_42sh.Parser.{Answer, yes_, no_, wrong, Parsed, returned, endless, misread, rl_accept}
use epita_42sh.Symtab.{Symtab}

-- The bits OPT_DEBUG, OPT_PRINT_AST and OPT_PRINT_AST_DOT of `flags`, and those of a context.
pub record ParserFlags : Type 0 where
  pub debug : Bool
  pub print_ast : Bool
  pub print_ast_dot : Bool
  pub ctx_flags : CtxFlags

-- `struct parser_args`, with `cs->type->interactive`; the stream itself, the table and the exit
-- status are arguments and results of `parser`.
pub record ParserArgs : Type 0 where
  pub interactive : Bool
  pub flags : ParserFlags
  pub program_args : List Str

-- What `parser` returns, with the stream and the state; `stray` is a jump to a buffer that is not
-- its own, and the last three are a fuel that ran out or a run that crashed.
pub data Called {ℓ} (S : Type ℓ) : Type ℓ where
  called : Error → Cstream → S → Called S
  stray : ℕ → JmpValue → S → Called S
  fuel_out : Called S
  crashed : Called S

-- RL_DEFAULT_STATE on a stream.
unfoldable pub rl_default_state : Cstream → RlState
rl_default_state cs = record {
  err = no_error;
  flag = record { collect = true; cmdstart = true; line_start = false };
  token = t_eof;
  word = [];
  cs = cs;
  node = null;
  buffered = none;
}

-- The last lines of `parser`.
unfoldable pub parser_code : RlState → Error
parser_code s = elim s.err [
  | parser_error ↦ parser_error
  | no_error ↦ elim s.token [ t_eof ↦ reached_eof | _ ↦ no_error ]
  | lexer_error ↦ elim s.token [ t_eof ↦ reached_eof | _ ↦ no_error ]
  | _ ↦ elim s.token [ t_eof ↦ reached_eof | _ ↦ parser_error ]
]

module _ {ℓ} {W : Type ℓ} (k : Kernel W) (os : Os W) where
  abbrev pub print : ℕ → Str → Shell W → Shell W
  print fd text s = record s { world = k.write fd text s.world }

  -- `rl_all`: the tokens are printed until the end of the stream or an error.
  unfoldable pub rl_all : ℕ → RlState → Shell W → Parsed × Shell W
  unfolding dbg_type
  rl_all zero r s = (endless, s)
  rl_all (suc f) r s = elim (rl_accept f r t_eof) [
    | endless ↦ (endless, s)
    | misread ↦ (misread, s)
    | returned r1 a ↦
        let next = λ (r : RlState). rl_all f r (print 1 (dbg_type r1) s) in
        elim a [
          | yes_ ↦ (returned r1 yes_, s)
          | _ ↦ elim r1.err [
            | no_error ↦ elim (rl_accept f r1 r1.token) [
              | endless ↦ (endless, s)
              | misread ↦ (misread, s)
              | returned r2 b ↦ next r2
            ]
            | e ↦
                (returned r1 (wrong e), print 2 (perror (codes "rl_input") (os.strerror s.world)) s)
          ]
        ]
  ]

  -- What is printed and kept when the input does not parse.
  unfoldable pub parse_failed : Bool → RlState → Shell W → RlState × Shell W
  parse_failed interactive r s = (
    if interactive then r else record r { err = parser_error },
    record (print 2
        (elim r.err [
          | lexer_error ↦ codes "42sh: syntax error: unterminated string sequence\n"
          | _ ↦ codes "42sh: semantic error: undefined grammar rule\n"
        ])
        s) { exit_status = pos 2 },
  )

  module _ (fuel : ℕ) (run : Context → Tree → Shell W → Result (Shell W)) where
    -- `rl_exec_input`
    unfoldable pub exec_input : Context → Tree → Shell W → Result (Shell W)
    unfolding exec_list
    exec_input ctx null s = finished 0 s
    exec_input ctx (node t a c x) s = exec_list run ctx (node t a c x) s

    -- The context that `parser` makes; its buffer is `buffer`.
    unfoldable pub input_ctx : ParserArgs → ℕ → Shell W → Context
    unfolding ctx_new ctx_filter_flags
    input_ctx args buffer s = record (ctx_new s.exit_status buffer) {
      flags =
          let flags = ctx_filter_flags args.flags.ctx_flags in
          if args.interactive then record flags { is_interactive = true } else flags;
      program_args = args.program_args;
    }

    -- What follows the execution: `exit` jumps back here, and mimics the end of the stream.
    unfoldable pub after_exec : ℕ → RlState → Result (Shell W) → Called (Shell W)
    unfolding parser_code
    after_exec buffer r (finished status s) = called (parser_code r) r.cs s
    after_exec buffer r (jump target exit_with_loop_exit s) =
        if target == buffer
        then called (parser_code (record r { token = t_eof })) r.cs s
        else stray target exit_with_loop_exit s
    after_exec buffer r (jump target exit_without_loop_exit s) =
        if target == buffer
        then called (parser_code r) r.cs s
        else stray target exit_without_loop_exit s
    after_exec buffer r (jump target val s) = stray target val s
    after_exec buffer r broken = crashed
    after_exec buffer r out_of_fuel = fuel_out

    -- The branch of `parser` behind a parse that succeeds.
    unfoldable pub execute : ParserArgs → ℕ → RlState → Shell W → Called (Shell W)
    unfolding exec_input input_ctx after_exec print_debug_ast ast_dot_print
    execute args buffer r s =
        let t = if args.flags.print_ast then print 1 (print_debug_ast r.node) s else s in
        if args.flags.print_ast_dot
        then called (parser_code r) r.cs (print 1 (ast_dot_print r.node) t)
        else after_exec buffer r (exec_input (input_ctx args buffer t) r.node t)

    unfoldable pub after_parse : ParserArgs → ℕ → Parsed → Shell W → Called (Shell W)
    unfolding execute parse_failed
    after_parse args buffer (returned r yes_) s = execute args buffer r s
    after_parse args buffer (returned r a) s =
        let (r', t) = parse_failed args.interactive r s in called (parser_code r') r'.cs t
    after_parse args buffer endless s = fuel_out
    after_parse args buffer misread s = crashed

    -- `rl_all` in `parser`.
    unfoldable pub after_all : Parsed × Shell W → Called (Shell W)
    unfolding parser_code
    after_all (returned r a, s) = called (parser_code r) r.cs s
    after_all (endless, s) = fuel_out
    after_all (misread, s) = crashed

    -- `parser`, with `setjmp` on the buffer.
    unfoldable pub parser : ParserArgs → ℕ → Cstream → Shell W → Called (Shell W)
    unfolding after_all rl_all rl_default_state after_parse rl_input
    parser args buffer cs s =
        if args.flags.debug
        then after_all (rl_all fuel (rl_default_state cs) s)
        else after_parse args buffer (rl_input fuel (rl_default_state cs)) s

    -- `while ((err = parser(&parser_args)) == NO_ERROR) ;`, with the last value of `err`.
    unfoldable pub parser_loop : ℕ → ParserArgs → ℕ → Cstream → Shell W → Called (Shell W)
    unfolding parser
    parser_loop zero args buffer cs s = fuel_out
    parser_loop (suc f) args buffer cs s = elim (parser args buffer cs s) [
      | called err cs' t ↦ elim err [
        | no_error ↦ parser_loop f args buffer cs' t
        | e ↦ called e cs' t
      ]
      | stray target val t ↦ stray target val t
      | fuel_out ↦ fuel_out
      | crashed ↦ crashed
    ]
