-- ===== src/Exec/Loops.antt =====
-- The loops `while` and `until`: what ends them, and that enough fuel is there for a loop that ends.
use epita_42sh.Ast.{Tree}
use epita_42sh.Base.{
  ℕ, zero, suc, ◌+◌, ◌≡◌, ◌≢◌, refl, ◌∙◌, sym, ap, subst, inl, inr, Bool, true, false, not,
  if◌then◌else◌, ◌==◌, Bool-cases, arith,
}
use epita_42sh.Context.{
  Context, JmpValue, jmp_noop, jmp_continue, jmp_break, exit_with_loop_exit, exit_without_loop_exit,
  ctx_add_jump,
}
use epita_42sh.Exec.{
  Result, finished, jump, broken, out_of_fuel, then_, exec_compound_list, after_body, while_loop,
}

-- Another round is wanted when the condition's status is `status`.
abbrev pub wanted : Bool → ℕ → Bool
wanted until status = if until then not (status == 0) else status == 0

-- A jump that is not for the loop whose buffer is `buffer`.
abbrev pub Foreign : ℕ → ℕ → JmpValue → Type 0
Foreign buffer target jmp_continue = target ≢ buffer
Foreign buffer target jmp_break = target ≢ buffer
Foreign buffer target val = Unit

module _ {ℓ} {S : Type ℓ} (run : Context → Tree → S → Result S) (until : Bool) (ctx : Context)
    (condition body : Tree) where
  abbrev pub test : S → Result S
  test s = exec_compound_list run ctx condition s

  abbrev pub round : S → Result S
  round s = exec_compound_list run (ctx_add_jump ctx (ctx.level + 1)) body s

  -- The loop that starts in a state ends with a result.
  pub data Ends : S → Result S → Type ℓ where
    stops :
        {status : ℕ} {s t : S}
        → test s ≡ finished status t
        → wanted until status ≡ false
        → Ends s (finished 0 t)
    test_leaves :
        {target : ℕ} {val : JmpValue} {s t : S}
        → test s ≡ jump target val t
        → Ends s (jump target val t)
    runs :
        {status status' : ℕ} {s t u : S} {r : Result S}
        → test s ≡ finished status t
        → wanted until status ≡ true
        → round t ≡ finished status' u
        → Ends u r
        → Ends s r
    continues :
        {status : ℕ} {s t u : S} {r : Result S}
        → test s ≡ finished status t
        → wanted until status ≡ true
        → round t ≡ jump (ctx.level + 1) jmp_continue u
        → Ends u r
        → Ends s r
    breaks :
        {status : ℕ} {s t u : S}
        → test s ≡ finished status t
        → wanted until status ≡ true
        → round t ≡ jump (ctx.level + 1) jmp_break u
        → Ends s (finished 0 u)
    leaves :
        {status target : ℕ} {val : JmpValue} {s t u : S}
        → test s ≡ finished status t
        → wanted until status ≡ true
        → round t ≡ jump target val u
        → Foreign (ctx.level + 1) target val
        → Ends s (jump target val u)

  same_test : (n : ℕ) → (n == n) ≡ true
  same_test n = ground arith

  other_test : (n m : ℕ) → n ≢ m → (n == m) ≡ false
  other_test n m h = ground arith

  -- A round whose condition holds.
  round_lem :
      (f status : ℕ) (s t : S) (x : Result S)
      → test s ≡ finished status t
      → wanted until status ≡ true
      → round t ≡ x
      → while_loop run (suc f) until ctx condition body s
        ≡ after_body run (ctx.level + 1) x (λ u. while_loop run f until ctx condition body u)
  unfolding while_loop then_
  round_lem f status s t x e w h = rw (while_loop, e, then_, w, h) refl

  after-Foreign :
      (target : ℕ) (val : JmpValue) (u : S) (again : S → Result S)
      → Foreign (ctx.level + 1) target val
      → after_body run (ctx.level + 1) (jump target val u) again ≡ jump target val u
  unfolding after_body
  after-Foreign target jmp_noop u again h = refl
  after-Foreign target exit_with_loop_exit u again h = refl
  after-Foreign target exit_without_loop_exit u again h = refl
  after-Foreign target jmp_continue u again h = rw (other_test target (ctx.level + 1) h) refl
  after-Foreign target jmp_break u again h = rw (other_test target (ctx.level + 1) h) refl

  stop_lem :
      (f status : ℕ) (s t : S)
      → test s ≡ finished status t
      → wanted until status ≡ false
      → while_loop run (suc f) until ctx condition body s ≡ finished 0 t
  unfolding while_loop then_
  stop_lem f status s t e w = rw (while_loop, e, then_, w) refl

  -- A condition that does not return leaves the loop.
  leave_lem :
      (f : ℕ) (s : S) (x : Result S)
      → test s ≡ x
      → ((status : ℕ) (t : S) → x ≢ finished status t)
      → while_loop run (suc f) until ctx condition body s ≡ x
  unfolding while_loop then_
  leave_lem f s (finished status t) e h = absurd (h status t refl)
  leave_lem f s (jump target val t) e h = rw (while_loop, e, then_) refl
  leave_lem f s broken e h = rw (while_loop, e, then_) refl
  leave_lem f s out_of_fuel e h = rw (while_loop, e, then_) refl

  -- A loop that ends is run to its end: some fuel, and any more, gives the result.
  pub while_loop-Ends :
      {s : S} {r : Result S}
      → Ends s r
      → (f : ℕ) × ((k : ℕ) → while_loop run (f + k) until ctx condition body s ≡ r)
  unfolding after_body
  while_loop-Ends (stops {status} {s} {t} e w) =
      (1, λ k. let n : 1 + k ≡ suc k = omega arith in rw n (stop_lem k status s t e w))
  while_loop-Ends (test_leaves {target} {val} {s} {t} e) = (
    1,
    λ k.
        let n : 1 + k ≡ suc k = omega arith in
        rw n (leave_lem k s (jump target val t) e (λ n u h. cc)),
  )
  while_loop-Ends (runs {status} {status'} {s} {t} {u} {r} e w h more) =
      let (f, ends) = while_loop-Ends more in
      (
        suc f,
        λ k.
            let n : suc f + k ≡ suc (f + k) = omega arith in
            rw n (round_lem (f + k) status s t (finished status' u) e w h ∙ ends k),
      )
  while_loop-Ends (continues {status} {s} {t} {u} {r} e w h more) =
      let (f, ends) = while_loop-Ends more in
      (
        suc f,
        λ k.
            let n : suc f + k ≡ suc (f + k) = omega arith in
            rw n (
              round_lem (f + k) status s t (jump (ctx.level + 1) jmp_continue u) e w h
              ∙ (rw (same_test (ctx.level + 1)) (ends k))),
      )
  while_loop-Ends (breaks {status} {s} {t} {u} e w h) = (
    1,
    λ k.
        let n : 1 + k ≡ suc k = omega arith in
        rw n (
          round_lem k status s t (jump (ctx.level + 1) jmp_break u) e w h
          ∙ (rw (same_test (ctx.level + 1)) refl)),
  )
  while_loop-Ends (leaves {status} {target} {val} {s} {t} {u} e w h foreign) = (
    1,
    λ k.
        let n : 1 + k ≡ suc k = omega arith in
        rw n (
          round_lem k status s t (jump target val u) e w h
          ∙ after-Foreign target val u (λ u. while_loop run k until ctx condition body u) foreign),
  )

  -- What the loop returns behind the body, given the rounds that follow.
  after_body-Ends :
      (f status : ℕ) (s t : S) (x r : Result S)
      → test s ≡ finished status t
      → wanted until status ≡ true
      → round t ≡ x
      → ((u : S) → while_loop run f until ctx condition body u ≡ r → Ends u r)
      → after_body run (ctx.level + 1) x (λ u. while_loop run f until ctx condition body u) ≡ r
      → r ≢ out_of_fuel
      → r ≢ broken
      → Ends s r
  unfolding after_body
  after_body-Ends f status s t (finished status' u) r e w h rest eq fuel ok = runs e w h (rest u eq)
  after_body-Ends f status s t (jump target jmp_noop u) r e w h rest eq fuel ok =
      subst (Ends s) eq (leaves e w h tt)
  after_body-Ends f status s t (jump target exit_with_loop_exit u) r e w h rest eq fuel ok =
      subst (Ends s) eq (leaves e w h tt)
  after_body-Ends f status s t (jump target exit_without_loop_exit u) r e w h rest eq fuel ok =
      subst (Ends s) eq (leaves e w h tt)
  after_body-Ends f status s t (jump target jmp_continue u) r e w h rest eq fuel ok =
      elim (Bool-cases (target == ctx.level + 1)) [
        | inl b ↦
            let same : target ≡ ctx.level + 1 = ground arith in
            continues e w (h ∙ ap (λ n. jump n jmp_continue u) same) (rest u (sym (rw b refl) ∙ eq))
        | inr b ↦ subst (Ends s) (sym (rw b refl) ∙ eq) (leaves e w h (λ same. ground arith))
      ]
  after_body-Ends f status s t (jump target jmp_break u) r e w h rest eq fuel ok =
      elim (Bool-cases (target == ctx.level + 1)) [
        | inl b ↦
            let same : target ≡ ctx.level + 1 = ground arith in
            subst (Ends s) (sym (rw b refl) ∙ eq)
              (breaks e w (h ∙ ap (λ n. jump n jmp_break u) same))
        | inr b ↦ subst (Ends s) (sym (rw b refl) ∙ eq) (leaves e w h (λ same. ground arith))
      ]
  after_body-Ends f status s t broken r e w h rest eq fuel ok = absurd (ok (sym eq))
  after_body-Ends f status s t out_of_fuel r e w h rest eq fuel ok = absurd (fuel (sym eq))

  test-Ends :
      (f : ℕ) (s : S) (x r : Result S)
      → test s ≡ x
      → ((u : S) → while_loop run f until ctx condition body u ≡ r → Ends u r)
      → while_loop run (suc f) until ctx condition body s ≡ r
      → r ≢ out_of_fuel
      → r ≢ broken
      → Ends s r
  test-Ends f s (finished status t) r e rest eq fuel ok = elim (Bool-cases (wanted until status)) [
    | inl w ↦
        after_body-Ends f status s t (round t) r e w refl rest
          (sym (round_lem f status s t (round t) e w refl) ∙ eq) fuel ok
    | inr w ↦ subst (Ends s) (sym (stop_lem f status s t e w) ∙ eq) (stops e w)
  ]
  test-Ends f s (jump target val t) r e rest eq fuel ok =
      subst (Ends s) (sym (leave_lem f s (jump target val t) e (λ n u h. cc)) ∙ eq) (test_leaves e)
  test-Ends f s broken r e rest eq fuel ok =
      absurd (ok (sym eq ∙ leave_lem f s broken e (λ n u h. cc)))
  test-Ends f s out_of_fuel r e rest eq fuel ok =
      absurd (fuel (sym eq ∙ leave_lem f s out_of_fuel e (λ n u h. cc)))

  -- A result of the loop that is neither a failed assertion nor the end of the fuel is one that the
  -- loop ends with.
  pub Ends-while_loop :
      (f : ℕ) (s : S) (r : Result S)
      → while_loop run f until ctx condition body s ≡ r
      → r ≢ out_of_fuel
      → r ≢ broken
      → Ends s r
  unfolding while_loop
  Ends-while_loop zero s r eq fuel ok = absurd (fuel (sym eq))
  Ends-while_loop (suc f) s r eq fuel ok =
      test-Ends f s (test s) r refl (λ u h. Ends-while_loop f u r h fuel ok) eq fuel ok
