-- ===== src/Command/Redirect/Calls.antt =====
-- What dup, dup2, close and fcntl do to open descriptors, and what `__redirect` makes of them.
use epita_42sh.Base.{
  ℕ, ◌≡◌, ◌≢◌, refl, sym, ap, ◌∙◌, ◌⊎◌, inl, inr, Bool, true, false, Option, none, some,
  if◌then◌else◌, ◌==◌, ==_iff, Bool-cases, arith,
}
use epita_42sh.Command.Redirect.{redirect, save_fd}
use epita_42sh.Command.{Kernel}

-- What dup, dup2, close and fcntl do, where `on n w` is the open file at descriptor n, if there is
-- one.
pub record FdLaws {ℓ κ} {W : Type ℓ} {F : Type κ} (k : Kernel W) (on : ℕ → W → Option F)
    : Type (ℓ ⊔ κ) where
  pub dup_fresh : (i s : ℕ) (w : W) → (k.dup i w).0 ≡ some s → on s w ≡ none
  pub dup_same : (i s : ℕ) (w : W) → (k.dup i w).0 ≡ some s → on s (k.dup i w).1 ≡ on i w
  pub dup_others :
      (i s n : ℕ) (w : W) → (k.dup i w).0 ≡ some s → n ≢ s → on n (k.dup i w).1 ≡ on n w
  pub dup2_open : (o n : ℕ) (w : W) → (k.dup2 o n w).0 ≡ true → on n (k.dup2 o n w).1 ≢ none
  pub dup2_same : (o n : ℕ) (w : W) → (k.dup2 o n w).0 ≡ true → on n (k.dup2 o n w).1 ≡ on o w
  pub dup2_others :
      (o n m : ℕ) (w : W) → (k.dup2 o n w).0 ≡ true → m ≢ n → on m (k.dup2 o n w).1 ≡ on m w
  pub close_others : (n m : ℕ) (w : W) → m ≢ n → on m (k.close n w).1 ≡ on m w
  pub cloexec_same : (n m : ℕ) (w : W) → on m (k.set_cloexec n w) ≡ on m w

module _ {ℓ κ} {W : Type ℓ} {F : Type κ} (k : Kernel W) (on : ℕ → W → Option F)
    (laws : FdLaws k on) where
  -- A redirection that succeeds.
  pub record Redirected (o n : ℕ) (closefd : Bool) (w w' : W) : Type κ where
    pub same : on n w' ≡ on o w
    pub is_open : on n w ≢ none → on n w' ≢ none
    pub others : (m : ℕ) → m ≢ n → (closefd ≡ true → m ≢ o) → on m w' ≡ on m w

  pub redirect-Redirected :
      (o n : ℕ) (closefd : Bool) (w : W)
      → (redirect k o n closefd w).0 ≡ true
      → Redirected o n closefd w (redirect k o n closefd w).1
  unfolding redirect
  redirect-Redirected o n closefd w = elim (Bool-cases (o == n)) [
    | inl e ↦
        let eq : o ≡ n = ground (arith, ==_iff o n) in
        rw e (λ done. record {
          same = ap (λ m. on m w) (sym eq);
          is_open = λ h. h;
          others = λ m h g. refl;
        })
    | inr e ↦ rw e (copied (Bool-cases (k.dup2 o n w).0) closefd (λ eq. differ e eq))
  ]
    where
      differ : (o == n) ≡ false → o ≢ n
      differ e eq = ground (arith, ==_iff o n)

      copied :
          ((k.dup2 o n w).0 ≡ true) ⊎ ((k.dup2 o n w).0 ≡ false)
          → (c : Bool) → o ≢ n
          → let r =
              if (k.dup2 o n w).0
              then (if c then k.close o (k.dup2 o n w).1 else (true, (k.dup2 o n w).1))
              else (false, (k.dup2 o n w).1) in
            r.0 ≡ true → Redirected o n c w r.1
      copied (inr e) c ne = rw e (λ h. absurd cc)
      copied (inl e) false ne = rw e (λ done. record {
        same = laws.dup2_same o n w e;
        is_open = λ h. laws.dup2_open o n w e;
        others = λ m h g. laws.dup2_others o n m w e h;
      })
      copied (inl e) true ne = rw e (λ done. record {
        same = laws.close_others o n _ (λ eq. ne (sym eq)) ∙ laws.dup2_same o n w e;
        is_open = λ h closed.
            laws.dup2_open o n w e (sym (laws.close_others o n _ (λ eq. ne (sym eq))) ∙ closed);
        others = λ m h g. laws.close_others o m _ (g refl) ∙ laws.dup2_others o n m w e h;
      })

  -- A descriptor `i` that is saved at `s` and replaced by `fd`.
  pub record Saved (s fd i : ℕ) (closefd : Bool) (w w' : W) : Type κ where
    pub fresh : on s w ≡ none
    pub same : on s w' ≡ on i w
    pub is_open : on i w' ≢ none
    pub others : (m : ℕ) → m ≢ s → m ≢ i → (closefd ≡ true → m ≢ fd) → on m w' ≡ on m w

  -- An open descriptor is not one that is closed.
  pub open_ne : (m n : ℕ) (w : W) → on m w ≡ none → on n w ≢ none → n ≢ m
  open_ne m n w closed is_open e = is_open (ap (λ i. on i w) e ∙ closed)

  pub save_fd-Saved :
      (fd i s : ℕ) (closefd : Bool) (w : W)
      → on i w ≢ none
      → (closefd ≡ true → on fd w ≢ none)
      → (save_fd k fd i closefd w).0 ≡ some s
      → Saved s fd i closefd w (save_fd k fd i closefd w).1
  unfolding save_fd
  save_fd-Saved fd i s closefd w is_open h = copied (k.dup i w).0 refl
    where
      w1 : W
      w1 = (k.dup i w).1

      copied :
          (r : Option ℕ)
          → (k.dup i w).0 ≡ r
          → let p : Option ℕ × W = elim r [
            | none ↦ (none, w1)
            | some saved ↦
                let (replaced, w2) = redirect k fd i closefd (k.set_cloexec saved w1) in
                (if replaced then some saved else none, w2)
          ] in
            p.0 ≡ some s → Saved s fd i closefd w p.1
      copied none e = λ done. absurd cc
      copied (some saved) e =
          replaced (Bool-cases (redirect k fd i closefd (k.set_cloexec saved w1)).0)
        where
          w2 : W
          w2 = (redirect k fd i closefd (k.set_cloexec saved w1)).1

          replaced :
              ((redirect k fd i closefd (k.set_cloexec saved w1)).0 ≡ true)
                ⊎ ((redirect k fd i closefd (k.set_cloexec saved w1)).0 ≡ false)
              → (if (redirect k fd i closefd (k.set_cloexec saved w1)).0 then some saved else none)
                ≡ some s
              → Saved s fd i closefd w w2
          replaced (inr f) = rw f (λ done. absurd cc)
          replaced (inl t) = rw t (λ done.
              let here : saved ≡ s = cc in
              let dupped : (k.dup i w).0 ≡ some s = cc in
              let red = redirect-Redirected fd i closefd (k.set_cloexec saved w1) t in
              let free = laws.dup_fresh i s w dupped in
              let before : (m : ℕ) → m ≢ s → on m (k.set_cloexec saved w1) ≡ on m w =
                λ m ne. laws.cloexec_same saved m w1 ∙ laws.dup_others i s m w dupped ne in
              let apart : i ≢ s = open_ne s i w free is_open in
              record {
                fresh = free;
                same =
                    red.others s (λ eq. apart (sym eq)) (λ c eq. open_ne s fd w free (h c) (sym eq))
                    ∙ laws.cloexec_same saved s w1
                    ∙ laws.dup_same i s w dupped;
                is_open = red.is_open (λ none_. is_open (sym (before i apart) ∙ none_));
                others = λ m ne_s ne_i ne_fd. red.others m ne_i ne_fd ∙ before m ne_s;
              })
