-- ===== src/Command/Builtin.antt =====
-- The table of builtins, builtins.c and include/builtins.def, and their calls on the state of the
-- shell. What a builtin prints is written when it returns.
use epita_42sh.Base.Int.{ℤ}
use epita_42sh.Base.Text.{Str, codes, str_eq}
use epita_42sh.Base.{Option, none, some, List, [], ◌∷◌, if◌then◌else◌, is_nil}
use epita_42sh.Builtins.Cd.{Os, bi_cd}
use epita_42sh.Builtins.Echo.{bi_echo}
use epita_42sh.Builtins.{Run, bi_alias, bi_unalias, bi_export, bi_unset}
use epita_42sh.Command.{Kernel}
use epita_42sh.Context.{Context, Leave, returned, jumped, bi_continue, bi_break, bi_exit}
use epita_42sh.Exec.Words.{Shell}
use epita_42sh.Exec.{Result, finished, jump, broken}

pub data Builtin : Type 0 where
  echo : Builtin
  exit : Builtin
  cd : Builtin
  export : Builtin
  continue_ : Builtin
  break_ : Builtin
  source : Builtin
  unset : Builtin
  alias : Builtin
  unalias : Builtin

-- include/builtins.def
unfoldable pub builtins : List (Str × Builtin)
builtins =
    (codes "echo", echo)
    ∷ (codes "exit", exit)
    ∷ (codes "cd", cd)
    ∷ (codes "export", export)
    ∷ (codes "continue", continue_)
    ∷ (codes "break", break_)
    ∷ (codes ".", source)
    ∷ (codes "unset", unset)
    ∷ (codes "alias", alias)
    ∷ (codes "unalias", unalias)
    ∷ []

unfoldable pub find_in : Str → List (Str × Builtin) → Option Builtin
find_in name [] = none
find_in name ((n, func) ∷ rest) = if str_eq name n then some func else find_in name rest

-- `builtin_find`
unfoldable pub builtin_find : Str → Option Builtin
unfolding find_in builtins
builtin_find name = find_in name builtins

module _ {ℓ} {W : Type ℓ} (k : Kernel W) (os : Os W) (atoi : Str → ℤ)
    (bi_source : Context → List Str → Shell W → Result (Shell W)) where
  -- The texts that are not empty are written, the errors first: they are not buffered.
  unfoldable pub print_run : Str → Str → W → W
  print_run out err w =
      let w1 = if is_nil err then w else k.write 2 err w in
      if is_nil out then w1 else k.write 1 out w1

  unfoldable pub finish_run : Run → Shell W → Result (Shell W)
  unfolding print_run
  finish_run r s = finished r.ret (record s { st = r.st; world = print_run r.out r.err s.world })

  unfoldable pub finish_leave : Leave → Shell W → Result (Shell W)
  unfolding print_run
  finish_leave (returned ret err) s = finished ret (record s { world = print_run [] err s.world })
  finish_leave (jumped ctx target val freed) s =
      jump target val (record s { exit_status = ctx.exit_status })

  -- `blt(&child_ctx, args->data)`; the pointer `exit_status` of the context shows the shell's.
  unfoldable pub run_builtin : Builtin → Context → Str → List Str → Shell W → Result (Shell W)
  unfolding finish_run finish_leave
  run_builtin echo ctx name args s = finish_run (bi_echo s.st (name ∷ args)) s
  run_builtin exit ctx name args s =
      finish_leave (bi_exit atoi (record ctx { exit_status = s.exit_status }) name args) s
  run_builtin cd ctx name args s = elim (bi_cd os s.world s.st (name ∷ args)) [
    | none ↦ broken
    | some (w, r) ↦ finish_run r (record s { world = w })
  ]
  run_builtin export ctx name args s = finish_run (bi_export s.st (name ∷ args)) s
  run_builtin continue_ ctx name args s =
      finish_leave (bi_continue atoi (record ctx { exit_status = s.exit_status }) name args) s
  run_builtin break_ ctx name args s =
      finish_leave (bi_break atoi (record ctx { exit_status = s.exit_status }) name args) s
  run_builtin source ctx name args s = bi_source ctx (name ∷ args) s
  run_builtin unset ctx name args s = finish_run (bi_unset s.st (name ∷ args)) s
  run_builtin alias ctx name args s = finish_run (bi_alias s.st (name ∷ args)) s
  run_builtin unalias ctx name args s = finish_run (bi_unalias s.st (name ∷ args)) s
