-- ===== src/Command/Redirect.antt =====
-- Descriptors: `__redirect`, what rl_exec_simple_cmd and rl_exec_shell_cmd do with 0, 1 and 2, and
-- the redirections of rl_redirection.c.
pub mod Calls
pub mod Loops
pub mod Frame
pub mod Back
mod Tests
use epita_42sh.Ast.{
  Token, Attr, redir, Tree, null, node, rl_redirection, t_great, t_clobber, t_less, t_lessgreat,
  t_dgreat, t_greatand, t_lessand,
}
use epita_42sh.Base.Int.{ℤ, pos, negsuc}
use epita_42sh.Base.Text.{Str}
use epita_42sh.Base.{
  ℕ, zero, suc, Bool, true, false, Option, none, some, List, [], ◌∷◌, if◌then◌else◌, ◌==◌, ltb,
}
use epita_42sh.Command.{
  Kernel, CmdAttr, OpenFlags, o_rdonly, o_rdwr, o_wronly_trunc, o_wronly_append, at_world,
  execution_error_code,
}
use epita_42sh.Context.{Context}
use epita_42sh.Exec.Words.{Shell, symexp_ctx}
use epita_42sh.Exec.{Result, finished, then_}
use epita_42sh.Symexp.Word.{symexp_word_single_result}
use epita_42sh.Symexp.{Host}

module _ {ℓ} {W : Type ℓ} (k : Kernel W) where
  -- `__redirect`, with the descriptor to be replaced in the middle.
  unfoldable pub redirect : ℕ → ℕ → Bool → W → Bool × W
  redirect oldfd newfd closefd w =
      let (copied, w1) = k.dup2 oldfd newfd w in
      if oldfd == newfd
      then (true, w)
      else if copied
      then (if closefd then k.close oldfd w1 else (true, w1))
      else (false, w1)

  -- One descriptor is saved and replaced: `dup`, `fcntl` and `__redirect`.
  unfoldable pub save_fd : ℕ → ℕ → Bool → W → Option ℕ × W
  unfolding redirect
  save_fd fd i closefd w =
      let (r, w1) = k.dup i w in
      elim r [
        | none ↦ (none, w1)
        | some saved ↦
            let (replaced, w2) = redirect fd i closefd (k.set_cloexec saved w1) in
            (if replaced then some saved else none, w2)
      ]

  -- The loop that saves the three descriptors, on the descriptors still to be replaced: what
  -- replaces each, its number and whether it is closed. `none` is EXECUTION_ERROR.
  unfoldable pub save_fds : List (ℕ × ℕ × Bool) → W → Option (List (ℕ × ℕ)) × W
  unfolding save_fd
  save_fds [] w = (some [], w)
  save_fds ((fd, i, closefd) ∷ rest) w =
      let (r, w1) = save_fd fd i closefd w in
      elim r [
        | none ↦ (none, w1)
        | some saved ↦
            let (others, w2) = save_fds rest w1 in
            elim others [ none ↦ (none, w2) | some l ↦ (some ((saved, i) ∷ l), w2) ]
      ]

  -- The loop that puts the saved descriptors back.
  unfoldable pub restore_fds : List (ℕ × ℕ) → W → Bool × W
  unfolding redirect
  restore_fds [] w = (true, w)
  restore_fds ((saved, i) ∷ rest) w =
      let (ok, w1) = redirect saved i true w in
      elim ok [ true ↦ restore_fds rest w1 | false ↦ (false, w1) ]

  abbrev pub wanted_fds : CmdAttr → List (ℕ × ℕ × Bool)
  wanted_fds a = (a.fd0, 0, true) ∷ (a.fd1, 1, false) ∷ (a.fd2, 2, false) ∷ []

  -- The frame that rl_exec_simple_cmd and rl_exec_shell_cmd share around what they run. A jump out
  -- of the body passes it by.
  unfoldable pub with_fds :
      CmdAttr → (Shell W → Result (CmdAttr × Shell W)) → Shell W → Result (CmdAttr × Shell W)
  unfolding save_fds restore_fds then_
  with_fds a body s =
      let (r, w1) = save_fds (wanted_fds a) s.world in
      elim r [
        | none ↦ finished execution_error_code (a, at_world s w1)
        | some saved ↦ then_ (body (at_world s w1)) (λ code (b, t).
            let (ok, w2) = restore_fds saved t.world in
            finished (if ok then code else execution_error_code) (b, at_world t w2))
      ]

-- What the operator of a redirection asks for: `open` with flags, or a descriptor's number. The
-- other tokens fail an assertion.
unfoldable pub redir_flags : Token → Option (Option OpenFlags)
redir_flags t_great = some (some o_wronly_trunc)
redir_flags t_clobber = some (some o_wronly_trunc)
redir_flags t_less = some (some o_rdonly)
redir_flags t_lessgreat = some (some o_rdwr)
redir_flags t_dgreat = some (some o_wronly_append)
redir_flags t_greatand = some none
redir_flags t_lessand = some none
redir_flags _ = none

-- `flags == 0 ? false : true`
unfoldable pub closes : Option OpenFlags → Bool
closes none = false
closes (some o_rdonly) = false
closes _ = true

module _ {ℓ} {W : Type ℓ} (host : Host W) (k : Kernel W) (atoi : Str → ℤ) where
  -- `symexp_word_single_result`
  unfoldable pub expand_single : Context → Str → Shell W → Option (Str × Shell W)
  expand_single ctx word s =
      elim (symexp_word_single_result host (symexp_ctx ctx s) s.world s.exit_status word) [
        | none ↦ none
        | some (text, t) ↦ some (text, record s { exit_status = t.exit_status; world = t.world })
      ]

  -- The descriptor that a redirection leads to: a number above 0, or the file that is opened.
  unfoldable pub target_fd : Option OpenFlags → Str → W → Option ℕ × W
  target_fd (some flags) file w = k.open_file file flags w
  target_fd none file w = elim (atoi file) [
    | pos zero ↦ k.open_file file o_rdonly w
    | pos (suc n) ↦ (some (suc n), w)
    | negsuc n ↦ k.open_file file o_rdonly w
  ]

  -- `rl_exec_redirection`, whether it returns NO_ERROR. `none` is a failed assertion, an expansion
  -- that overflows, or a file that is NULL.
  unfoldable pub exec_redirection : Context → Attr → Shell W → Option (Bool × Shell W)
  unfolding redirect redir_flags closes expand_single target_fd
  exec_redirection ctx (redir (some token) ionumber (some file)) s = elim (ltb 2 ionumber) [
    | true ↦ some (true, s)
    | false ↦ elim (expand_single ctx file s) [
      | none ↦ none
      | some (expfile, t) ↦ elim (redir_flags token) [
        | none ↦ none
        | some flags ↦
            let (r, w1) = target_fd flags expfile t.world in
            elim r [
              | none ↦ some (false, at_world t w1)
              | some fd ↦
                  let (ok, w2) = redirect k fd ionumber (closes flags) w1 in
                  some (ok, at_world t w2)
            ]
      ]
    ]
  ]
  exec_redirection ctx attr s = none

  -- `assert(rl_exec_redirection(ctx, node) == NO_ERROR)`
  unfoldable pub must_redirect : Context → Attr → Shell W → Option (Shell W)
  unfolding exec_redirection
  must_redirect ctx attr s = elim (exec_redirection ctx attr s) [
    | none ↦ none
    | some (ok, t) ↦ if ok then some t else none
  ]

  -- The redirections behind a compound command.
  unfoldable pub redirect_all : Context → Tree → Shell W → Option (Shell W)
  unfolding must_redirect
  redirect_all ctx null s = some s
  redirect_all ctx (node rl_redirection attr child sibling) s = elim (must_redirect ctx attr s) [
    | none ↦ none
    | some t ↦ redirect_all ctx sibling t
  ]
  redirect_all ctx tree s = none
