-- ===== src/Command/Tests.antt =====
-- Commands over a kernel that counts the processes that it starts.
use epita_42sh.Ast.{Tree, null, node, word, cmd, pipe, t_eof, rl_pipeline, rl_simple_cmd, rl_word}
use epita_42sh.Base.Int.{ℤ, pos}
use epita_42sh.Base.Text.{Str, codes, str_eq}
use epita_42sh.Base.{ℕ, ◌+◌, true, false, List, [], ◌∷◌, none, some, ◌≡◌, refl}
use epita_42sh.Builtins.Cd.{Os}
use epita_42sh.Command.Compound.{exec_subshell}
use epita_42sh.Command.Pipeline.{run_pipeline}
use epita_42sh.Command.Simple.{run_other}
use epita_42sh.Command.Scoped.Confined.{run_pipeline-Scoped}
use epita_42sh.Command.{Kernel, CmdAttr}
use epita_42sh.Context.{Context, ctx_new, ctx_add_jump, jmp_break, bi_break, ctx_add_alloc}
use epita_42sh.Exec.Scoped.{Scoped, Stays, no_loops}
use epita_42sh.Exec.Words.{Shell, expand}
use epita_42sh.Exec.{Result, finished, jump}
use epita_42sh.Symexp.Word.{symexp_word, exp_step, kind_of}
use epita_42sh.Symexp.{Host}
use epita_42sh.Symtab.{symtab_new, symtab_lookup, hash}
use epita_42sh.Utils.Vec.{c_string}

abbrev pub host : Host ℕ
host = record {
  rand = λ w. (w, w);
  getuid = λ w. pos 0;
  getpid = λ w. pos 7;
  print_int = λ n. codes "7";
  subshell = λ w status text. record { consumed = 2; output = none; status = status; world = w };
}

-- The child of a process exits with the number of its arguments.
abbrev pub kernel : Kernel ℕ
kernel = record {
  dup = λ n w. (some (10 + n), w);
  dup2 = λ old new w. (true, w);
  close = λ n w. (true, w);
  pipe = λ w. (some (20, 21), w);
  set_cloexec = λ n w. w;
  open_file = λ file flags w. (some 30, w);
  fork = λ image args w. (some 40, w + 1);
  waitpid = λ pid w. (some 256, w);
  write = λ fd text w. w;
}

abbrev pub os : Os ℕ
os = record {
  getenv = λ e name. none;
  setenv = λ e name value. e;
  getcwd = λ e. none;
  chdir = λ e path. (e, true);
  strerror = λ e. codes "no";
}

abbrev pub three : Str → ℤ
three s = pos 3

abbrev pub no_source :
    (Context → Tree → Shell ℕ → Result (Shell ℕ)) → Context → List Str → Shell ℕ → Result (Shell ℕ)
no_source run ctx args s = finished 0 s

abbrev pub shell : Shell ℕ
shell = record { st = symtab_new; exit_status = pos 0; world = 0 }

abbrev words : List Str → Tree
words [] = null
words (w ∷ ws) = node rl_word (word (some w)) null (words ws)

abbrev simple : Tree → Tree → Tree
simple child behind = node rl_simple_cmd (cmd 0 none 0 1 2) child behind

-- `ls | wc`
abbrev two_programs : Tree
two_programs =
    node rl_pipeline (pipe t_eof false)
      (simple (words (codes "ls" ∷ [])) (simple (words (codes "wc" ∷ [])) null)) null

abbrev break_command : Tree
break_command = node rl_pipeline (pipe t_eof false) (simple (words (codes "break" ∷ [])) null) null

abbrev in_loop : Context
in_loop = ctx_add_jump (ctx_new (pos 0) 0) 2

runs_two :
    run_pipeline host kernel os three no_source 3 (ctx_new (pos 0) 0) two_programs shell
    ≡ finished 1 (record shell { exit_status = pos 1; world = 2 })
unfolding run_pipeline expand symexp_word exp_step kind_of str_eq c_string symtab_lookup symtab_new
    hash
runs_two = refl

runs_break :
    run_pipeline host kernel os three no_source 3 in_loop break_command shell
    ≡ jump 2 jmp_break shell
unfolding run_pipeline expand symexp_word exp_step kind_of str_eq c_string bi_break ctx_add_alloc
    ctx_add_jump ctx_new
runs_break = refl

run_pipeline-Scoped_example :
    let run = run_pipeline host kernel os three no_source 3 in
    Scoped in_loop (run in_loop break_command shell)
    × ((a : CmdAttr) (child : Tree) (name : Str) (args : List Str)
        → Scoped
            (no_loops in_loop)
            (run_other host kernel os three 3 run (no_source run) in_loop a child name args shell))
    × Stays (exec_subshell host kernel three 3 run in_loop break_command shell)
run_pipeline-Scoped_example =
    run_pipeline-Scoped host kernel os three no_source (λ run h ctx args s. tt) 3 in_loop
      break_command shell
