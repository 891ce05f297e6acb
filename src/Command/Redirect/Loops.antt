-- ===== src/Command/Redirect/Loops.antt =====
-- The loops of the frame around a command, one descriptor at a time.
use epita_42sh.Base.{ℕ, ◌≡◌, refl, Bool, true, false, Option, none, some, List, ◌∷◌}
use epita_42sh.Command.Redirect.{redirect, save_fd, save_fds, restore_fds}
use epita_42sh.Command.{Kernel}

module _ {ℓ} {W : Type ℓ} (k : Kernel W) where
  -- The loops that save and restore, one descriptor at a time.
  pub save_fds_cons :
      (fd i : ℕ) (c : Bool) (rest : List (ℕ × ℕ × Bool)) (w : W) (l : List (ℕ × ℕ))
      → let w1 = (save_fd k fd i c w).1 in
        (save_fds k ((fd, i, c) ∷ rest) w).0 ≡ some l
        → (s : ℕ) × (l' : List (ℕ × ℕ)) × ((save_fd k fd i c w).0 ≡ some s)
          × ((save_fds k rest w1).0 ≡ some l')
          × (l ≡ (s, i) ∷ l')
          × ((save_fds k ((fd, i, c) ∷ rest) w).1 ≡ (save_fds k rest w1).1)
  unfolding save_fds
  save_fds_cons fd i c rest w l = first (save_fd k fd i c w).0 refl
    where
      w1 : W
      w1 = (save_fd k fd i c w).1

      tail : Option (List (ℕ × ℕ)) × W
      tail = save_fds k rest w1

      rest_of : ℕ → Option (List (ℕ × ℕ)) → Option (List (ℕ × ℕ)) × W
      rest_of saved o = elim o [ none ↦ (none, tail.1) | some l ↦ (some ((saved, i) ∷ l), tail.1) ]

      others :
          (saved : ℕ) (o : Option (List (ℕ × ℕ)))
          → tail.0 ≡ o
          → (rest_of saved o).0 ≡ some l
          → (l' : List (ℕ × ℕ)) × (tail.0 ≡ some l')
            × (l ≡ (saved, i) ∷ l')
            × ((rest_of saved o).1 ≡ tail.1)
      others saved none e done = absurd cc
      others saved (some l') e done = (l', e, cc, refl)

      first :
          (r : Option ℕ)
          → (save_fd k fd i c w).0 ≡ r
          → let p : Option (List (ℕ × ℕ)) × W = elim r [
            | none ↦ (none, w1)
            | some saved ↦ rest_of saved tail.0
          ] in
            p.0 ≡ some l
            → (s : ℕ) × (l' : List (ℕ × ℕ)) × ((save_fd k fd i c w).0 ≡ some s)
              × (tail.0 ≡ some l')
              × (l ≡ (s, i) ∷ l')
              × (p.1 ≡ tail.1)
      first none e = λ done. absurd cc
      first (some saved) e = λ done.
          let (l', got, eq, same) = others saved tail.0 refl done in (saved, l', e, got, eq, same)

  pub restore_fds_cons :
      (s i : ℕ) (rest : List (ℕ × ℕ)) (w : W)
      → let w1 = (redirect k s i true w).1 in
        (restore_fds k ((s, i) ∷ rest) w).0 ≡ true
        → ((redirect k s i true w).0 ≡ true)
          × ((restore_fds k rest w1).0 ≡ true)
          × ((restore_fds k ((s, i) ∷ rest) w).1 ≡ (restore_fds k rest w1).1)
  unfolding restore_fds
  restore_fds_cons s i rest w = first (redirect k s i true w).0 refl
    where
      w1 : W
      w1 = (redirect k s i true w).1

      first :
          (b : Bool)
          → (redirect k s i true w).0 ≡ b
          → let p : Bool × W = elim b [ true ↦ restore_fds k rest w1 | false ↦ (false, w1) ] in
            p.0 ≡ true
            → ((redirect k s i true w).0 ≡ true)
              × ((restore_fds k rest w1).0 ≡ true)
              × (p.1 ≡ (restore_fds k rest w1).1)
      first true e = λ done. (e, done, refl)
      first false e = λ done. absurd cc
