-- ===== src/Exec/Words/Rounds.antt =====
-- `rl_exec_for` and the jumps that leave a round.
use epita_42sh.Ast.{Tree, null}
use epita_42sh.Base.Text.{Str}
use epita_42sh.Base.{ℕ, ◌+◌, ◌≡◌, refl, ◌∙◌, true, some, List, [], ◌∷◌, ◌++◌, ◌==◌, arith}
use epita_42sh.Context.{Context, jmp_continue, jmp_break, ctx_add_jump}
use epita_42sh.Exec.Words.{Shell, for_loop, after_word}
use epita_42sh.Exec.{Result, finished, jump, exec_compound_list}
use epita_42sh.Symexp.{Host}
use epita_42sh.Symtab.{kv_word, symtab_add}

module _ {ℓ} {W : Type ℓ} (host : Host W) (run : Context → Tree → Shell W → Result (Shell W))
    (ctx : Context) (name : Str) (body : Tree) where
  -- The body runs with the word in the table, in a context with one loop more.
  abbrev pub turn : Str → Shell W → Result (Shell W)
  turn w s =
      exec_compound_list run (ctx_add_jump ctx (ctx.level + 1)) body
        (record s { st = (symtab_add s.st name kv_word (some w) null).0 })

  -- No body breaks or leaves the loop for one of the words: from a status and a state to those
  -- behind the last word. A `continue` keeps the status.
  pub data Turns : List Str → ℕ → Shell W → ℕ → Shell W → Type ℓ where
    no_words : {status : ℕ} {s : Shell W} → Turns [] status s status s
    returns :
        {w : Str} {words : List Str} {status status' last : ℕ} {s t u : Shell W}
        → turn w s ≡ finished status' t
        → Turns words status' t last u
        → Turns (w ∷ words) status s last u
    continues :
        {w : Str} {words : List Str} {status last : ℕ} {s t u : Shell W}
        → turn w s ≡ jump (ctx.level + 1) jmp_continue t
        → Turns words status t last u
        → Turns (w ∷ words) status s last u

  same_loop : (n : ℕ) → (n == n) ≡ true
  same_loop n = ground arith

  for_loop-append :
      {words : List Str} {status last : ℕ} {s u : Shell W}
      → Turns words status s last u
      → (behind : List Str)
      → for_loop host run ctx name body (words ++ behind) status s
        ≡ for_loop host run ctx name body behind last u
  unfolding for_loop after_word
  for_loop-append no_words behind = refl
  for_loop-append (returns e rest) behind =
      rw (for_loop, e, after_word) (for_loop-append rest behind)
  for_loop-append (continues e rest) behind =
      rw (for_loop, e, after_word, same_loop (ctx.level + 1)) (for_loop-append rest behind)

  -- The loop of `rl_exec_for` over words for which no body breaks or leaves it, then a word for which the body
  -- breaks it: the loop returns the status of the last body that returned, or the one it began with when
  -- all continued, with the state behind the break, and does nothing for the words behind it.
  pub for_loop-break :
      {words : List Str} {status last : ℕ} {s u t : Shell W} (w : Str)
      → Turns words status s last u
      → turn w u ≡ jump (ctx.level + 1) jmp_break t
      → (behind : List Str)
      → for_loop host run ctx name body (words ++ w ∷ behind) status s ≡ finished last t
  unfolding for_loop after_word
  for_loop-break w turns e behind =
      for_loop-append turns (w ∷ behind)
      ∙ rw (for_loop, e, after_word, same_loop (ctx.level + 1)) refl
