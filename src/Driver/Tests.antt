-- ===== src/Driver/Tests.antt =====
-- A line and a whole run of the program on the kernel of Command.Tests.
use epita_42sh.Base.Text.{codes}
use epita_42sh.Base.{ℕ, false, List, [], ◌∷◌, none, some}
use epita_42sh.Command.Tests.{host, kernel, os, three}
use epita_42sh.Ast.{Tree}
use epita_42sh.Context.{Context}
use epita_42sh.Driver.{ParserArgs}
use epita_42sh.Exec.Words.{Shell}
use epita_42sh.Exec.{Result, finished}
use epita_42sh.Io.{Cstream, cstream_string_create}
use epita_42sh.Driver.Main.{no_flags, Opt, command, Inputs, shell_main}
use epita_42sh.Driver.Source.{Files}
use epita_42sh.Driver.Stray.Program.{Lost, shell_main-kept}

abbrev files : Files ℕ
files = record { access = λ path w. false; fopen = λ path w. (none, w) }

abbrev inputs : Inputs ℕ
inputs = record { isatty = λ w. false; readline = λ w. []; stdin = λ w. [] }

-- `42sh -c 'while ls; do break; done'`
abbrev opts : List Opt
opts = command (some (codes "while ls; do break; done")) ∷ []

shell_main-kept_example :
    ¬ Lost (shell_main host kernel os three files inputs 60 (codes "usage") opts [] [] 0)
shell_main-kept_example =
    shell_main-kept host kernel os three files inputs 60 (codes "usage") opts [] [] 0

abbrev args : ParserArgs
args = record { interactive = false; flags = no_flags.flags; program_args = [] }

-- A line that is no command.
abbrev fi_line : Cstream
fi_line = cstream_string_create (codes "fi\n")

abbrev no_run : Context → Tree → Shell ℕ → Result (Shell ℕ)
no_run ctx tree s = finished 0 s
