-- ===== src/Command.antt =====
-- The commands of the executor: rl_pipeline.c, rl_cmd.c, rl_simple_cmd.c, rl_shell_cmd.c,
-- rl_redirection.c and rl_subshell.c. The calls of the kernel and of libc are a `Kernel`.
pub mod Redirect
pub mod Compound
pub mod Builtin
pub mod Simple
pub mod Pipeline
pub mod Scoped
pub mod Tests
use epita_42sh.Ast.{Attr, cmd, word}
use epita_42sh.Base.Text.{Str}
use epita_42sh.Base.{ℕ, Bool, Option, none, some, List}
use epita_42sh.Exec.Words.{Shell}
use epita_42sh.Exec.{Result, finished, jump, broken, out_of_fuel}

-- The flags that `open` is called with.
pub data OpenFlags : Type 0 where
  o_rdonly : OpenFlags
  o_rdwr : OpenFlags
  o_wronly_trunc : OpenFlags
  o_wronly_append : OpenFlags

-- A descriptor that is `none`, or a flag that is false, is the value -1. `fork` gets what the child
-- runs: its world and its `setenv` calls behind `clearenv`, `none` when it crashes before them, and
-- the arguments of `execvp`, behind which it writes a message and exits with 127. `waitpid` gives
-- the status it stores, `none` when it fails.
pub record Kernel {ℓ} (W : Type ℓ) : Type ℓ where
  pub dup : ℕ → W → Option ℕ × W
  pub dup2 : ℕ → ℕ → W → Bool × W
  pub close : ℕ → W → Bool × W
  pub pipe : W → Option (ℕ × ℕ) × W
  pub set_cloexec : ℕ → W → W
  pub open_file : Str → OpenFlags → W → Option ℕ × W
  pub fork : Option (W × List (Str × Str)) → List Str → W → Option ℕ × W
  pub waitpid : ℕ → W → Option ℕ × W
  pub write : ℕ → Str → W → W

-- The member `attr.cmd` of a node, `none` for the pid -1.
pub record CmdAttr : Type 0 where
  pub status : ℕ
  pub pid : Option ℕ
  pub fd0 : ℕ
  pub fd1 : ℕ
  pub fd2 : ℕ

-- The bytes of a node whose `word` is NULL are zero.
unfoldable pub cmd_attr : Attr → Option CmdAttr
cmd_attr (cmd status pid fd0 fd1 fd2) =
    some (record { status = status; pid = pid; fd0 = fd0; fd1 = fd1; fd2 = fd2 })
cmd_attr (word none) = some (record { status = 0; pid = some 0; fd0 = 0; fd1 = 0; fd2 = 0 })
cmd_attr _ = none

unfoldable pub attr_of : CmdAttr → Attr
attr_of a = cmd a.status a.pid a.fd0 a.fd1 a.fd2

-- The value that a function of the executor returns: NO_ERROR or EXECUTION_ERROR.
abbrev pub no_error_code : ℕ
no_error_code = 0

abbrev pub execution_error_code : ℕ
execution_error_code = 4

-- A state that changes by its world.
abbrev pub at_world {ℓ} : {W : Type ℓ} → Shell W → W → Shell W
at_world s w = record s { world = w }

-- What a compound list does becomes the status of the node that has it.
unfoldable pub keep_status {ℓ} : {S : Type ℓ} → CmdAttr → Result S → Result (CmdAttr × S)
keep_status a (finished status s) = finished no_error_code (record a { status = status }, s)
keep_status a (jump target val s) = jump target val (a, s)
keep_status a broken = broken
keep_status a out_of_fuel = out_of_fuel
