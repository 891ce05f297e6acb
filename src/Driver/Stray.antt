-- ===== src/Driver/Stray.antt =====
-- Jumps and the parser's buffer: parser.c, and in the children the builtin `.` and 42sh.c.
pub mod Source
pub mod Program
use epita_42sh.Ast.{Tree, null, node}
use epita_42sh.Base.Int.{ℤ, pos}
use epita_42sh.Base.Text.{Str, codes, lacks}
use epita_42sh.Base.{
  ℕ, zero, suc, ◌+◌, ◌≡◌, ◌≢◌, refl, inl, inr, Bool, true, false, Option, none, some, List, [], ◌∷◌,
  if◌then◌else◌, ◌==◌, Bool-cases, arith,
}
use epita_42sh.Builtins.Cd.{Os}
use epita_42sh.Command.Pipeline.{run_pipeline}
use epita_42sh.Command.Compound.{status_of}
use epita_42sh.Command.{Kernel}
use epita_42sh.Context.{
  Context, JmpValue, jmp_noop, jmp_continue, jmp_break, exit_with_loop_exit, exit_without_loop_exit,
}
use epita_42sh.Driver.Main.{
  Opt, MainFlags, Inputs, Exited, exited, died, unfinished, lost, Chosen, after_loop, end_loop,
  run_stream, parse_opts, after_opts, main, executor, shell_main,
}
use epita_42sh.Driver.Source.{
  Files, search_in_path, exit_from, complain, after_source, source_args, new_stream, source_path,
  bi_source,
}
use epita_42sh.Driver.{
  ParserArgs, Called, called, stray, fuel_out, crashed, input_ctx, exec_input, after_exec, execute,
  after_parse, after_all, rl_all, parser, parser_loop, rl_default_state,
}
use epita_42sh.Exec.Scoped.{Live, Scoped, exec_list-Scoped}
use epita_42sh.Exec.Words.{Shell}
use epita_42sh.Exec.{Result, finished, jump, broken, out_of_fuel}
use epita_42sh.Io.{Error, no_error, parser_error, reached_eof, Cstream, Read}
use epita_42sh.Lexer.{RlState}
use epita_42sh.Parser.Rules.{rl_input}
use epita_42sh.Parser.{Parsed, returned, endless, misread, yes_, no_, wrong}
use epita_42sh.Symexp.{Host}
use epita_42sh.Symtab.{Symtab, symtab_new, symtab_fill_with_env_vars}

-- A call that no jump gets out of.
abbrev pub Caught {ℓ} : {S : Type ℓ} → Called S → Type 0
Caught (called err cs s) = Unit
Caught (stray target val s) = ⊥
Caught fuel_out = Unit
Caught crashed = Unit

Caught-if {ℓ} :
    {S : Type ℓ} (b : Bool) (x y : Called S) → Caught x → Caught y → Caught (if b then x else y)
Caught-if true x y hx hy = hx
Caught-if false x y hx hy = hy

module _ {ℓ} {W : Type ℓ} (k : Kernel W) (os : Os W) (fuel : ℕ)
    (run : Context → Tree → Shell W → Result (Shell W))
    (scoped : (ctx : Context) (tree : Tree) (s : Shell W) → Scoped ctx (run ctx tree s)) where
  exec_input-Scoped :
      (ctx : Context) (tree : Tree) (s : Shell W) → Scoped ctx (exec_input k os fuel run ctx tree s)
  unfolding exec_input
  exec_input-Scoped ctx null s = tt
  exec_input-Scoped ctx (node t a c x) s = exec_list-Scoped run scoped ctx (node t a c x) s

  same_buffer : (n : ℕ) → (n == n) ≡ true
  same_buffer n = ground arith

  after_exec-Caught :
      (args : ParserArgs) (buffer : ℕ) (t : Shell W) (r : RlState) (x : Result (Shell W))
      → Scoped (input_ctx k os fuel run args buffer t) x
      → Caught (after_exec k os fuel run buffer r x)
  unfolding after_exec input_ctx
  after_exec-Caught args buffer t r (finished status s) h = tt
  after_exec-Caught args buffer t r (jump b jmp_noop s) h = h
  after_exec-Caught args buffer t r (jump b jmp_continue s) h = h
  after_exec-Caught args buffer t r (jump b jmp_break s) h = h
  after_exec-Caught args buffer t r (jump b exit_with_loop_exit s) h = rw (h, same_buffer buffer) tt
  after_exec-Caught args buffer t r (jump b exit_without_loop_exit s) h =
      rw (h, same_buffer buffer) tt
  after_exec-Caught args buffer t r broken h = tt
  after_exec-Caught args buffer t r out_of_fuel h = tt

  input-Caught :
      (args : ParserArgs) (buffer : ℕ) (r : RlState) (t : Shell W)
      → Caught (
          after_exec k os fuel run buffer r
            (exec_input k os fuel run (input_ctx k os fuel run args buffer t) r.node t))
  input-Caught args buffer r t =
      after_exec-Caught args buffer t r _
        (exec_input-Scoped (input_ctx k os fuel run args buffer t) r.node t)

  execute-Caught :
      (args : ParserArgs) (buffer : ℕ) (r : RlState) (s : Shell W)
      → Caught (execute k os fuel run args buffer r s)
  unfolding execute
  execute-Caught args buffer r s =
      Caught-if args.flags.print_ast_dot _ _ tt (input-Caught args buffer r _)

  after_parse-Caught :
      (args : ParserArgs) (buffer : ℕ) (p : Parsed) (s : Shell W)
      → Caught (after_parse k os fuel run args buffer p s)
  unfolding after_parse
  after_parse-Caught args buffer (returned r yes_) s = execute-Caught args buffer r s
  after_parse-Caught args buffer (returned r no_) s = tt
  after_parse-Caught args buffer (returned r (wrong e)) s = tt
  after_parse-Caught args buffer endless s = tt
  after_parse-Caught args buffer misread s = tt

  after_all-Caught : (p : Parsed × Shell W) → Caught (after_all k os fuel run p)
  unfolding after_all
  after_all-Caught (returned r a, s) = tt
  after_all-Caught (endless, s) = tt
  after_all-Caught (misread, s) = tt

  parser-Caught :
      (args : ParserArgs) (buffer : ℕ) (cs : Cstream) (s : Shell W)
      → Caught (parser k os fuel run args buffer cs s)
  unfolding parser
  parser-Caught args buffer cs s =
      Caught-if args.flags.debug _ _ (after_all-Caught (rl_all k os fuel (rl_default_state cs) s))
        (after_parse-Caught args buffer (rl_input fuel (rl_default_state cs)) s)

  pub parser_loop-Caught :
      (f : ℕ) (args : ParserArgs) (buffer : ℕ) (cs : Cstream) (s : Shell W)
      → Caught (parser_loop k os fuel run f args buffer cs s)
  unfolding parser_loop
  parser_loop-Caught zero args buffer cs s = tt
  parser_loop-Caught (suc f) args buffer cs s =
      again-Caught (parser k os fuel run args buffer cs s) (parser-Caught args buffer cs s)
        (λ cs' t. parser_loop-Caught f args buffer cs' t)
    where
      again-Caught :
          (c : Called (Shell W))
          → Caught c
          → ((cs : Cstream) (t : Shell W) → Caught (parser_loop k os fuel run f args buffer cs t))
          → Caught (elim c [
            | called err cs' t ↦ elim err [
              | no_error ↦ parser_loop k os fuel run f args buffer cs' t
              | e ↦ called e cs' t
            ]
            | stray target val t ↦ stray target val t
            | fuel_out ↦ fuel_out
            | crashed ↦ crashed
          ])
      again-Caught (called err cs' t) h again = ended-Caught err (again cs' t)
        where
          ended-Caught :
              (err : Error)
              → Caught (parser_loop k os fuel run f args buffer cs' t)
              → Caught (elim err [
                | no_error ↦ parser_loop k os fuel run f args buffer cs' t
                | e ↦ called e cs' t
              ])
          ended-Caught no_error h = h
          ended-Caught _ h = tt
      again-Caught (stray target val t) h again = h
      again-Caught fuel_out h again = tt
      again-Caught crashed h again = tt
