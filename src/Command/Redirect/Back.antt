-- ===== src/Command/Redirect/Back.antt =====
-- The descriptors 0, 1 and 2 around a whole command, as rl_exec_simple_cmd and rl_exec_shell_cmd
-- save and restore them.
use epita_42sh.Base.{
  ℕ, ◌≡◌, ◌≢◌, ◌≤◌, refl, sym, ap, subst, ◌∙◌, Bool, true, false, Option, none, some, List,
  if◌then◌else◌,
}
use epita_42sh.Command.Redirect.Frame.{Std, Closable, Held, triple, save_fds-Held, restore_fds-back}
use epita_42sh.Command.Redirect.Calls.{FdLaws}
use epita_42sh.Command.Redirect.{save_fds, restore_fds, with_fds, wanted_fds}
use epita_42sh.Command.{Kernel, CmdAttr, at_world, execution_error_code}
use epita_42sh.Exec.Words.{Shell}
use epita_42sh.Exec.{Result, finished, jump, broken, out_of_fuel, then_}

module _ {ℓ κ} {W : Type ℓ} {F : Type κ} (k : Kernel W) (on : ℕ → W → Option F)
    (laws : FdLaws k on) where
  -- The standard descriptors are the same files in both worlds.
  abbrev pub Same : W → W → Type κ
  Same w w' = (on 0 w' ≡ on 0 w) × (on 1 w' ≡ on 1 w) × (on 2 w' ≡ on 2 w)

  -- A result that is not EXECUTION_ERROR has the standard descriptors of `w`.
  abbrev Back : W → Result (CmdAttr × Shell W) → Type κ
  Back w (finished code (b, t)) = code ≢ execution_error_code → Same w t.world
  Back w (jump target val s) = Unit
  Back w broken = Unit
  Back w out_of_fuel = Unit

  put_back :
      (saved : List (ℕ × ℕ)) (w w1 w2 : W)
      → Held k on laws saved w w1
      → ((n : ℕ) → 3 ≤ n → on n w1 ≢ none → on n w2 ≡ on n w1)
      → Std k on laws w
      → (restore_fds k saved w2).0 ≡ true
      → Same w (restore_fds k saved w2).1
  put_back saved w w1 w2 (s0, s1, s2, eq, apart, held0, held1, held2) keeps std done =
      let done' : (restore_fds k (triple k on laws s0 s1 s2) w2).0 ≡ true =
        ap (λ l. (restore_fds k l w2).0) (sym eq) ∙ done in
      let (back0, back1, back2) = restore_fds-back k on laws s0 s1 s2 w2 apart done' in
      let end : (m : ℕ)
          → on m (restore_fds k saved w2).1
            ≡ on m (restore_fds k (triple k on laws s0 s1 s2) w2).1 =
        λ m. ap (λ l. on m (restore_fds k l w2).1) eq in
      let kept0 = keeps s0 apart.0 (λ c. std.0 (sym held0 ∙ c)) in
      let kept1 = keeps s1 apart.1 (λ c. std.1 (sym held1 ∙ c)) in
      let kept2 = keeps s2 apart.2 (λ c. std.2 (sym held2 ∙ c)) in
      (end 0 ∙ back0 ∙ kept0 ∙ held0, end 1 ∙ back1 ∙ kept1 ∙ held1, end 2 ∙ back2 ∙ kept2 ∙ held2)

  module _ (a : CmdAttr) (body : Shell W → Result (CmdAttr × Shell W)) (s : Shell W)
      (std : Std k on laws s.world) (fd0 : Closable k on laws a.fd0 s.world)
      (keeps : (u v : Shell W) (code : ℕ) (b : CmdAttr)
        → body u ≡ finished code (b, v)
        → (n : ℕ) → 3 ≤ n
        → on n u.world ≢ none
        → on n v.world ≡ on n u.world) where
    with_fds-Back : Back s.world (with_fds k a body s)
    unfolding with_fds
    with_fds-Back = saves (save_fds k (wanted_fds k a) s.world).0 refl
      where
        w1 : W
        w1 = (save_fds k (wanted_fds k a) s.world).1

        ends : List (ℕ × ℕ) → ℕ → CmdAttr → Shell W → Result (CmdAttr × Shell W)
        ends saved code b t =
            let (ok, w2) = restore_fds k saved t.world in
            finished (if ok then code else execution_error_code) (b, at_world t w2)

        restores :
            (saved : List (ℕ × ℕ)) (code : ℕ) (b : CmdAttr) (t : Shell W)
            → Held k on laws saved s.world w1
            → body (at_world s w1) ≡ finished code (b, t)
            → (ok : Bool) → (restore_fds k saved t.world).0 ≡ ok
            → (if ok then code else execution_error_code) ≢ execution_error_code
            → Same s.world (restore_fds k saved t.world).1
        restores saved code b t held e false done ne = absurd (ne refl)
        restores saved code b t held e true done ne =
            put_back saved s.world w1 t.world held (keeps (at_world s w1) t code b e) std done

        runs :
            (saved : List (ℕ × ℕ))
            → Held k on laws saved s.world w1
            → (r : Result (CmdAttr × Shell W)) → body (at_world s w1) ≡ r
            → Back s.world (then_ r (λ code (b, t). ends saved code b t))
        runs saved held (finished code (b, t)) e =
            restores saved code b t held e (restore_fds k saved t.world).0 refl
        runs saved held (jump target val (b, t)) e = tt
        runs saved held broken e = tt
        runs saved held out_of_fuel e = tt

        saves :
            (r : Option (List (ℕ × ℕ)))
            → (save_fds k (wanted_fds k a) s.world).0 ≡ r
            → Back s.world (elim r [
              | none ↦ finished execution_error_code (a, at_world s w1)
              | some saved ↦ then_ (body (at_world s w1)) (λ code (b, t). ends saved code b t)
            ])
        saves none e = λ ne. absurd (ne refl)
        saves (some saved) e =
            runs saved (save_fds-Held k on laws a s.world saved std fd0 e) (body (at_world s w1))
              refl

    -- A command between the saving of the descriptors 0, 1 and 2 and their return, by a kernel in which
    -- dup, dup2, close and fcntl do to descriptors what they should: if these three are open before,
    -- if the descriptor that the command reads is open and not 1 or 2, and if what runs leaves the
    -- open descriptors above 2 as they were, then a command that does not jump and does not give
    -- EXECUTION_ERROR leaves at 0, 1 and 2 the files that were there before.
    pub with_fds-Same :
        (code : ℕ) (b : CmdAttr) (t : Shell W)
        → with_fds k a body s ≡ finished code (b, t)
        → code ≢ execution_error_code
        → Same s.world t.world
    with_fds-Same code b t e = subst (Back s.world) e with_fds-Back
