-- ===== src/Command/Redirect/Frame.antt =====
-- What is saved by the frame that rl_exec_simple_cmd and rl_exec_shell_cmd put around a command, and
-- what its end puts back.
use epita_42sh.Base.{
  ℕ, ◌≡◌, ◌≢◌, ◌≤◌, refl, sym, ap, subst, ◌∙◌, inl, inr, Bool, true, false, Option, none, some,
  List, [], ◌∷◌, ◌==◌, ==_iff, Bool-cases, arith,
}
use epita_42sh.Command.Redirect.Loops.{save_fds_cons, restore_fds_cons}
use epita_42sh.Command.Redirect.Calls.{FdLaws, redirect-Redirected, save_fd-Saved, open_ne}
use epita_42sh.Command.Redirect.{redirect, save_fd, save_fds, restore_fds, wanted_fds}
use epita_42sh.Command.{Kernel, CmdAttr}

joined {ℓ} :
    {A : Type ℓ} {l l0 l1 l2 : List A} {x y z : A}
    → l ≡ x ∷ l0
    → l0 ≡ y ∷ l1
    → l1 ≡ z ∷ l2
    → l2 ≡ []
    → l ≡ x ∷ y ∷ z ∷ []
joined p q r s = cc

module _ {ℓ κ} {W : Type ℓ} {F : Type κ} (k : Kernel W) (on : ℕ → W → Option F)
    (laws : FdLaws k on) where
  -- The standard descriptors are open.
  abbrev pub Std : W → Type κ
  Std w = (on 0 w ≢ none) × (on 1 w ≢ none) × (on 2 w ≢ none)

  -- The three descriptors that are put back.
  abbrev pub triple : ℕ → ℕ → ℕ → List (ℕ × ℕ)
  triple s0 s1 s2 = (s0, 0) ∷ (s1, 1) ∷ (s2, 2) ∷ []

  -- Three different descriptors above 2.
  abbrev pub Apart : ℕ → ℕ → ℕ → Type 0
  Apart s0 s1 s2 = (3 ≤ s0) × (3 ≤ s1) × (3 ≤ s2) × (s0 ≢ s1) × (s0 ≢ s2) × (s1 ≢ s2)

  -- What the standard descriptors of `w` were is at the saved ones in `w'`.
  abbrev pub Held : List (ℕ × ℕ) → W → W → Type κ
  Held saved w w' =
      (s0 : ℕ) × (s1 : ℕ) × (s2 : ℕ) × (saved ≡ triple s0 s1 s2)
      × Apart s0 s1 s2
      × (on s0 w' ≡ on 0 w)
      × (on s1 w' ≡ on 1 w)
      × (on s2 w' ≡ on 2 w)

  -- The saved descriptor is above 2 when the standard ones are open.
  above : (s : ℕ) (w : W) → on s w ≡ none → Std w → 3 ≤ s
  above s w free std =
      let a = open_ne k on laws s 0 w free std.0 in
      let b = open_ne k on laws s 1 w free std.1 in
      let c = open_ne k on laws s 2 w free std.2 in ground (arith, a, b, c)

  stays : (m : ℕ) (w w' : W) → on m w' ≡ on m w → on m w ≢ none → on m w' ≢ none
  stays m w w' e is_open closed = is_open (sym e ∙ closed)

  -- What the frame wants of a descriptor that it is to close.
  abbrev pub Closable : ℕ → W → Type κ
  Closable fd w = (on fd w ≢ none) × (fd ≢ 1) × (fd ≢ 2)

  -- One of the standard descriptors is saved at `s` and replaced.
  abbrev pub Stepped : ℕ → ℕ → ℕ → Bool → W → W → Type κ
  Stepped fd i s c w w' =
      (3 ≤ s)
      × (on s w ≡ none)
      × (on s w' ≡ on i w)
      × Std w'
      × ((m : ℕ) → m ≢ s → m ≢ i → (c ≡ true → m ≢ fd) → on m w' ≡ on m w)

  step :
      (fd i s : ℕ) (c : Bool) (w : W)
      → Std w
      → on i w ≢ none
      → (c ≡ true → (i ≡ 0) × Closable fd w)
      → (save_fd k fd i c w).0 ≡ some s
      → Stepped fd i s c w (save_fd k fd i c w).1
  step fd i s c w std i_open closing e =
      let x = save_fd-Saved k on laws fd i s c w i_open (λ t. (closing t).1.0) e in
      let w' = (save_fd k fd i c w).1 in
      let high = above s w x.fresh std in
      let still : (m : ℕ) → m ≤ 2 → (m ≢ i → c ≡ true → m ≢ fd) → on m w ≢ none → on m w' ≢ none =
        λ m low g m_open. elim (Bool-cases (m == i)) [
          | inl eq ↦ subst (λ n. on n w' ≢ none) (sym ((==_iff m i).0 eq)) x.is_open
          | inr ne ↦
              let m_i : m ≢ i = ground (arith, ==_iff m i) in
              stays m w w' (x.others m (ground (arith, high)) m_i (g m_i)) m_open
        ] in
      (
        high,
        x.fresh,
        x.same,
        (
          still 0 (omega arith) (λ ne t. absurd (ne (sym (closing t).0))) std.0,
          still 1 (omega arith) (λ ne t eq. (closing t).1.1 (sym eq)) std.1,
          still 2 (omega arith) (λ ne t eq. (closing t).1.2 (sym eq)) std.2,
        ),
        x.others,
      )

  pub save_fds-Held :
      (a : CmdAttr) (w : W) (saved : List (ℕ × ℕ))
      → Std w
      → Closable a.fd0 w
      → (save_fds k (wanted_fds k a) w).0 ≡ some saved
      → Held saved w (save_fds k (wanted_fds k a) w).1
  unfolding save_fds
  save_fds-Held a w saved std fd0 h =
      let two : List (ℕ × ℕ × Bool) = (a.fd2, 2, false) ∷ [] in
      let (s0, l0, e0, r0, q0, t0) =
        save_fds_cons k a.fd0 0 true ((a.fd1, 1, false) ∷ two) w saved h in
      let (high0, free0, same0, std1, others0) =
        step a.fd0 0 s0 true w std std.0 (λ c. (refl, fd0)) e0 in
      let w1 = (save_fd k a.fd0 0 true w).1 in
      let (s1, l1, e1, r1, q1, t1) = save_fds_cons k a.fd1 1 false two w1 l0 r0 in
      let (high1, free1, same1, std2, others1) =
        step a.fd1 1 s1 false w1 std1 std1.1 (λ c. absurd cc) e1 in
      let w2 = (save_fd k a.fd1 1 false w1).1 in
      let (s2, l2, e2, r2, q2, t2) = save_fds_cons k a.fd2 2 false [] w2 l1 r1 in
      let (high2, free2, same2, std3, others2) =
        step a.fd2 2 s2 false w2 std2 std2.2 (λ c. absurd cc) e2 in
      let one1 : on 1 w1 ≡ on 1 w =
        others0 1 (ground (arith, high0)) (ground arith) (λ c e. fd0.1 (sym e)) in
      let two1 : on 2 w1 ≡ on 2 w =
        others0 2 (ground (arith, high0)) (ground arith) (λ c e. fd0.2 (sym e)) in
      let two2 : on 2 w2 ≡ on 2 w1 =
        others1 2 (ground (arith, high1)) (ground arith) (λ c. absurd cc) in
      let ne01 : s0 ≢ s1 = open_ne k on laws s1 s0 w1 free1 (λ c. std.0 (sym same0 ∙ c)) in
      let zero2 : on s0 w2 ≡ on 0 w =
        others1 s0 ne01 (ground (arith, high0)) (λ c. absurd cc) ∙ same0 in
      let ne02 : s0 ≢ s2 = open_ne k on laws s2 s0 w2 free2 (λ c. std.0 (sym zero2 ∙ c)) in
      let ne12 : s1 ≢ s2 = open_ne k on laws s2 s1 w2 free2 (λ c. std1.1 (sym same1 ∙ c)) in
      let nil : l2 ≡ [] = cc in
      let end : (m : ℕ)
          → on m (save_fds k (wanted_fds k a) w).1 ≡ on m (save_fd k a.fd2 2 false w2).1 =
        λ m. ap (λ u. on m u) (t0 ∙ t1 ∙ t2) in
      (
        s0,
        s1,
        s2,
        joined q0 q1 q2 nil,
        (high0, high1, high2, ne01, ne02, ne12),
        end s0 ∙ others2 s0 ne02 (ground (arith, high0)) (λ c. absurd cc) ∙ zero2,
        end s1 ∙ others2 s1 ne12 (ground (arith, high1)) (λ c. absurd cc) ∙ same1 ∙ one1,
        end s2 ∙ same2 ∙ two2 ∙ two1,
      )

  pub restore_fds-back :
      (s0 s1 s2 : ℕ) (w : W)
      → Apart s0 s1 s2
      → let w' = (restore_fds k (triple s0 s1 s2) w).1 in
        (restore_fds k (triple s0 s1 s2) w).0 ≡ true
        → (on 0 w' ≡ on s0 w) × (on 1 w' ≡ on s1 w) × (on 2 w' ≡ on s2 w)
  unfolding restore_fds
  restore_fds-back s0 s1 s2 w (high0, high1, high2, ne01, ne02, ne12) h =
      let (d0, r0, t0) = restore_fds_cons k s0 0 ((s1, 1) ∷ (s2, 2) ∷ []) w h in
      let x = redirect-Redirected k on laws s0 0 true w d0 in
      let w1 = (redirect k s0 0 true w).1 in
      let (d1, r1, t1) = restore_fds_cons k s1 1 ((s2, 2) ∷ []) w1 r0 in
      let y = redirect-Redirected k on laws s1 1 true w1 d1 in
      let w2 = (redirect k s1 1 true w1).1 in
      let (d2, r2, t2) = restore_fds_cons k s2 2 [] w2 r1 in
      let z = redirect-Redirected k on laws s2 2 true w2 d2 in
      let end : (m : ℕ)
          → on m (restore_fds k (triple s0 s1 s2) w).1 ≡ on m (redirect k s2 2 true w2).1 =
        λ m. ap (λ u. on m u) (t0 ∙ t1 ∙ t2) in
      (
        end 0
            ∙ z.others 0 (ground arith) (λ c. ground (arith, high2))
            ∙ y.others 0 (ground arith) (λ c. ground (arith, high1))
            ∙ x.same,
        end 1
            ∙ z.others 1 (ground arith) (λ c. ground (arith, high2))
            ∙ y.same
            ∙ x.others s1 (ground (arith, high1)) (λ c e. ne01 (sym e)),
        end 2
            ∙ z.same
            ∙ y.others s2 (ground (arith, high2)) (λ c e. ne12 (sym e))
            ∙ x.others s2 (ground (arith, high2)) (λ c e. ne02 (sym e)),
      )
