-- ===== src/Driver/Stray/Program.antt =====
-- Jumps and the parser's buffer: the whole program, 42sh.c.
use epita_42sh.Ast.{Tree}
use epita_42sh.Base.Int.{ℤ, pos}
use epita_42sh.Base.Text.{Str}
use epita_42sh.Base.{ℕ, Bool, true, false, Option, none, some, List}
use epita_42sh.Builtins.Cd.{Os}
use epita_42sh.Command.Scoped.Pipes.{runs-Scoped}
use epita_42sh.Command.{Kernel}
use epita_42sh.Context.{Context}
use epita_42sh.Driver.Main.{
  Opt, MainFlags, Inputs, Exited, exited, died, unfinished, lost, Chosen, after_loop, end_loop,
  run_stream, parse_opts, after_opts, main, executor, shell_main,
}
use epita_42sh.Driver.Source.{Files, bi_source}
use epita_42sh.Driver.{ParserArgs, Called, called, stray, fuel_out, crashed, parser_loop}
use epita_42sh.Exec.Scoped.{Scoped}
use epita_42sh.Exec.Words.{Shell}
use epita_42sh.Exec.{Result}
use epita_42sh.Io.{Error, no_error, parser_error, reached_eof, Cstream}
use epita_42sh.Symexp.{Host}
use epita_42sh.Symtab.{Symtab, symtab_new, symtab_fill_with_env_vars}
use epita_42sh.Driver.Stray.{Caught, parser_loop-Caught}
use epita_42sh.Driver.Stray.Source.{bi_source-Scoped}

-- A run of the program in which a jump got past every buffer.
abbrev pub Lost {ℓ} : {S : Type ℓ} → Exited S → Type 0
Lost (exited status s) = ⊥
Lost died = ⊥
Lost unfinished = ⊥
Lost lost = Unit

module _ {ℓ} {W : Type ℓ} (host : Host W) (k : Kernel W) (os : Os W) (atoi : Str → ℤ)
    (files : Files W) (inputs : Inputs W) (fuel : ℕ) where
  sourced :
      (run : Context → Tree → Shell W → Result (Shell W))
      → ((ctx : Context) (tree : Tree) (s : Shell W) → Scoped ctx (run ctx tree s))
      → (ctx : Context) (args : List Str) (s : Shell W)
      → Scoped ctx (bi_source k os files fuel run ctx args s)
  sourced run h ctx args s = bi_source-Scoped k os fuel run h files ctx args s

  module _ (m : MainFlags) where
    end_loop-kept : (err : Error) (s : Shell W) → ¬ Lost (end_loop k os files inputs m err s)
    unfolding end_loop
    end_loop-kept no_error s h = h
    end_loop-kept parser_error s h = h
    end_loop-kept reached_eof s h = h
    end_loop-kept _ s h = h

    after_loop-kept :
        (run : Context → Tree → Shell W → Result (Shell W)) (c : Called (Shell W))
        → Caught c
        → ¬ Lost (after_loop k os files inputs fuel run m c)
    unfolding after_loop
    after_loop-kept run (called err cs s) c h = end_loop-kept err s h
    after_loop-kept run (stray target val s) c h = c
    after_loop-kept run fuel_out c h = h
    after_loop-kept run crashed c h = h

  abbrev the_run : Context → Tree → Shell W → Result (Shell W)
  the_run = executor host k os atoi files fuel

  executor-Scoped : (ctx : Context) (tree : Tree) (s : Shell W) → Scoped ctx (the_run ctx tree s)
  unfolding executor
  executor-Scoped ctx tree s =
      runs-Scoped host k os atoi (bi_source k os files fuel) sourced fuel ctx tree s

  -- The calls of the parser in `main`.
  lines-kept :
      (m : MainFlags) (args : ParserArgs) (cs : Cstream) (s : Shell W)
      → ¬ Lost (
          after_loop k os files inputs fuel the_run m
            (parser_loop k os fuel the_run fuel args 0 cs s))
  lines-kept m args cs s h =
      after_loop-kept m the_run (parser_loop k os fuel the_run fuel args 0 cs s)
        (parser_loop-Caught k os fuel the_run executor-Scoped fuel args 0 cs s) h

  run_stream-kept :
      (m : MainFlags) (args envp : List Str) (cs : Cstream × Bool) (w : W)
      → ¬ Lost (run_stream k os files inputs fuel the_run m args envp cs w)
  unfolding run_stream
  run_stream-kept m args envp (cs, interactive) w =
      filled (symtab_fill_with_env_vars symtab_new envp)
    where
      own : ParserArgs
      own = record { interactive = interactive; flags = m.flags; program_args = args }

      filled :
          (o : Option Symtab)
          → ¬ Lost {S = Shell W} (elim o [
            | none ↦ died
            | some st ↦ after_loop k os files inputs fuel the_run m (
                parser_loop k os fuel the_run fuel
                  (record { interactive = interactive; flags = m.flags; program_args = args })
                  0
                  cs
                  (record { st = st; exit_status = pos 0; world = w }))
          ])
      filled none h = h
      filled (some st) h =
          lines-kept m own cs (record { st = st; exit_status = pos 0; world = w }) h

  after_opts-kept :
      (usages : Str) (args envp : List Str) (cs : Chosen) (m : MainFlags) (help : Bool) (w : W)
      → ¬ Lost (after_opts k os files inputs fuel the_run usages args envp cs m help w)
  unfolding after_opts
  after_opts-kept usages args envp none m true w h = h
  after_opts-kept usages args envp (some chosen) m true w h = h
  after_opts-kept usages args envp none m false w h = h
  after_opts-kept usages args envp (some chosen) m false w h =
      run_stream-kept m args envp chosen w h

  -- A run of the shell, whatever its options, arguments, environment and input, and whatever the
  -- kernel answers: no `break`, `continue` or `exit`, also in functions, subshells and files that are
  -- read by `.`, jumps to a buffer whose frame has returned or to none.
  pub shell_main-kept :
      (usages : Str) (opts : List Opt) (args envp : List Str) (w : W)
      → ¬ Lost (shell_main host k os atoi files inputs fuel usages opts args envp w)
  unfolding shell_main main
  shell_main-kept usages opts args envp w = after_opts-kept usages args envp r.0 r.1 r.1.help r.2
    where
      r : Chosen × MainFlags × W
      r = parse_opts k os files inputs opts args w
