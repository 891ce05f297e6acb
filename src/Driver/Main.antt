-- ===== src/Driver/Main.antt =====
-- The main program: 42sh.c. What `getopt_long` finds is a list, with the arguments behind it.
use epita_42sh.Ast.{Tree}
use epita_42sh.Base.Int.{ℤ, pos}
use epita_42sh.Base.Text.{Str, codes}
use epita_42sh.Base.{ℕ, Bool, true, false, Option, none, some, List, [], ◌∷◌, ◌++◌, if◌then◌else◌}
use epita_42sh.Builtins.Cd.{Os, perror}
use epita_42sh.Command.Compound.{status_of}
use epita_42sh.Command.Pipeline.{run_pipeline}
use epita_42sh.Command.{Kernel}
use epita_42sh.Context.{CtxFlags, Context}
use epita_42sh.Symtab.Print.{symtab_print}
use epita_42sh.Driver.Source.{Files, new_stream, bi_source}
use epita_42sh.Driver.{ParserFlags, Called, called, stray, fuel_out, crashed, parser_loop}
use epita_42sh.Exec.Words.{Shell}
use epita_42sh.Exec.{Result}
use epita_42sh.Io.{
  Error, no_error, io_error, lexer_error, parser_error, execution_error, unknown_error,
  keyboard_interrupt, break_interrupt, continue_interrupt, exit_interrupt, reached_eof, Read,
  Cstream, cstream_string_create,
}
use epita_42sh.Symexp.{Host}
use epita_42sh.Symtab.{symtab_new, symtab_fill_with_env_vars}

-- `long_opts`
pub data LongOpt : Type 0 where
  opt_help : LongOpt
  opt_debug : LongOpt
  opt_print_ast : LongOpt
  opt_print_ast_dot : LongOpt

-- What `getopt_long` returns: 0 for a long option, 'c' with `optarg`, or something else.
pub data Opt : Type 0 where
  long : LongOpt → Opt
  command : Option Str → Opt
  other : Opt

-- `flag` of `main`.
pub record MainFlags : Type 0 where
  pub help : Bool
  pub flags : ParserFlags

abbrev pub no_flags : MainFlags
no_flags = record {
  help = false;
  flags = record {
    debug = false;
    print_ast = false;
    print_ast_dot = false;
    ctx_flags = record {
      mode_input = false;
      mode_command = false;
      mode_script = false;
      is_interactive = false;
      in_function = false;
    };
  };
}

-- `*flag |= optflag`
unfoldable pub set_opt : LongOpt → MainFlags → MainFlags
set_opt opt_help m = record m { help = true }
set_opt opt_debug m = record m { flags = record m.flags { debug = true } }
set_opt opt_print_ast m = record m { flags = record m.flags { print_ast = true } }
set_opt opt_print_ast_dot m = record m { flags = record m.flags { print_ast_dot = true } }

unfoldable pub set_mode : (CtxFlags → CtxFlags) → MainFlags → MainFlags
set_mode f m = record m { flags = record m.flags { ctx_flags = f m.flags.ctx_flags } }

-- The loop of `__parse_opts`: whether it returns 1, the argument of the first `-c`, and the flags.
unfoldable pub parse_loop : List Opt → Option Str → MainFlags → Bool × Option Str × MainFlags
unfolding set_opt set_mode
parse_loop [] cs m = (false, cs, m)
parse_loop (long opt ∷ opts) cs m = parse_loop opts cs (set_opt opt m)
parse_loop (command (some text) ∷ opts) none m =
    parse_loop opts (some text) (set_mode (λ c. record c { mode_command = true }) m)
parse_loop (command arg ∷ opts) cs m = (true, cs, m)
parse_loop (other ∷ opts) cs m = (true, cs, m)

-- What a program is asked of its surroundings: whether stdin is a terminal, and the results that
-- the reads of it will give, through readline and without.
pub record Inputs {ℓ} (W : Type ℓ) : Type ℓ where
  pub isatty : W → Bool
  pub readline : W → List Read
  pub stdin : W → List Read

-- `*cs` with `type->interactive`, `none` for NULL.
abbrev pub Chosen : Type 0
Chosen = Option (Cstream × Bool)

-- What `main` returns, or a fuel that ran out, a crash, or a jump to no buffer.
pub data Exited {ℓ} (S : Type ℓ) : Type ℓ where
  exited : ℕ → S → Exited S
  died : Exited S
  unfinished : Exited S
  lost : Exited S

-- The values of `enum error`.
unfoldable pub error_code : Error → ℕ
error_code no_error = 0
error_code io_error = 1
error_code lexer_error = 2
error_code parser_error = 3
error_code execution_error = 4
error_code unknown_error = 5
error_code keyboard_interrupt = 6
error_code break_interrupt = 7
error_code continue_interrupt = 8
error_code exit_interrupt = 9
error_code reached_eof = 10

module _ {ℓ} {W : Type ℓ} (k : Kernel W) (os : Os W) (files : Files W) (inputs : Inputs W) where
  -- The choice of the stream at the end of `__parse_opts`, on the arguments behind the options.
  unfoldable pub choose_stream : Option Str → List Str → MainFlags → W → Chosen × MainFlags × W
  unfolding cstream_string_create new_stream set_mode
  choose_stream (some text) args m w = (some (cstream_string_create text, false), m, w)
  choose_stream none (file ∷ args) m w =
      let (opened, w') = files.fopen file w in
      (
        elim opened [ none ↦ none | some input ↦ some (new_stream input, false) ],
        set_mode (λ c. record c { mode_script = true }) m,
        w',
      )
  choose_stream none [] m w = (
    some (
        if inputs.isatty w
        then (record (new_stream (inputs.readline w)) { line_start = true }, true)
        else (new_stream (inputs.stdin w), false)),
    set_mode (λ c. record c { mode_input = true }) m,
    w,
  )

  -- `__parse_opts`: what it returns is whether the stream is NULL or an option is wrong.
  unfoldable pub parse_opts : List Opt → List Str → W → Chosen × MainFlags × W
  unfolding parse_loop choose_stream
  parse_opts opts args w =
      let (wrong, cs, m) = parse_loop opts none no_flags in
      elim wrong [ true ↦ (none, m, w) | false ↦ choose_stream cs args m w ]

  -- The end of `main` behind a run with the flags: what it prints and returns.
  unfoldable pub end_loop : MainFlags → Error → Shell W → Exited (Shell W)
  unfolding symtab_print status_of error_code
  end_loop m err s =
      let complaint = record s {
        world = k.write 2 (perror (codes "42sh") (os.strerror s.world)) s.world;
      } in
      let printed = λ (t : Shell W).
        if m.flags.print_ast
        then record t { world = k.write 1 (symtab_print t.st) t.world }
        else t in
      elim err [
        | reached_eof ↦ exited (status_of s.exit_status) (printed s)
        | no_error ↦ exited 0 (printed s)
        | parser_error ↦ exited 2 (printed complaint)
        | e ↦ exited (error_code e) (printed complaint)
      ]

  module _ (fuel : ℕ) (run : Context → Tree → Shell W → Result (Shell W)) where
    unfoldable pub after_loop : MainFlags → Called (Shell W) → Exited (Shell W)
    unfolding end_loop
    after_loop m (called err cs s) = end_loop m err s
    after_loop m (stray target val s) = lost
    after_loop m fuel_out = unfinished
    after_loop m crashed = died

    -- `main` behind the options, with a stream: the table is filled from the environment, and lines
    -- are parsed and run until the parser returns something else than NO_ERROR.
    unfoldable pub run_stream :
        MainFlags → List Str → List Str → Cstream × Bool → W → Exited (Shell W)
    unfolding after_loop parser_loop
    run_stream m args envp (cs, interactive) w = elim (symtab_fill_with_env_vars symtab_new envp) [
      | none ↦ died
      | some st ↦ after_loop m (
          parser_loop k os fuel run fuel
            (record { interactive = interactive; flags = m.flags; program_args = args }) 0 cs
            (record { st = st; exit_status = pos 0; world = w }))
    ]

    -- The state before there is a table.
    abbrev pub none_yet : W → Shell W
    none_yet w = record { st = symtab_new; exit_status = pos 0; world = w }

    -- What `main` does behind `__parse_opts`.
    unfoldable pub after_opts :
        Str → List Str → List Str → Chosen → MainFlags → Bool → W → Exited (Shell W)
    unfolding run_stream
    after_opts usages args envp none m true w = exited 1 (
        none_yet
          (k.write 2 (perror (codes "42sh") (os.strerror w)) (k.write 1 (usages ++ codes "\n") w)))
    after_opts usages args envp (some chosen) m true w =
        exited 0 (none_yet (k.write 1 (usages ++ codes "\n") w))
    after_opts usages args envp none m false w =
        exited 1 (none_yet (k.write 2 (perror (codes "42sh") (os.strerror w)) w))
    after_opts usages args envp (some chosen) m false w = run_stream m args envp chosen w

    -- `main` on the options, the arguments behind them and the environment; the usage is `usages`.
    unfoldable pub main : Str → List Opt → List Str → List Str → W → Exited (Shell W)
    unfolding parse_opts after_opts
    main usages opts args envp w =
        let (cs, m, w1) = parse_opts opts args w in after_opts usages args envp cs m m.help w1

-- The executor below the parser, and the program with it.
unfoldable pub executor {ℓ} :
    {W : Type ℓ}
    → Host W
    → Kernel W
    → Os W
    → (Str → ℤ)
    → Files W
    → ℕ
    → Context
    → Tree
    → Shell W
    → Result (Shell W)
executor host k os atoi files fuel = run_pipeline host k os atoi (bi_source k os files fuel) fuel

unfoldable pub shell_main {ℓ} :
    {W : Type ℓ}
    → Host W
    → Kernel W
    → Os W
    → (Str → ℤ)
    → Files W
    → Inputs W
    → ℕ
    → Str
    → List Opt
    → List Str
    → List Str
    → W
    → Exited (Shell W)
unfolding executor main
shell_main host k os atoi files inputs fuel usages opts args envp w =
    main k os files inputs fuel (executor host k os atoi files fuel) usages opts args envp w
