-- ===== src/Builtins/Cd/Join.antt =====
-- The rounds of the loop of `__join_dirs`.
use epita_42sh.Base.Text.{Str}
use epita_42sh.Base.{
  ℕ, zero, suc, ◌+◌, ◌-◌, ◌≤◌, ◌≡◌, ◌≢◌, refl, ◌∙◌, sym, ap, false, ◌&&◌, some, ◌∷◌, ◌++◌, ◌==◌,
  get_or, get_or-append, length, arith,
}
use epita_42sh.Builtins.Cd.Path.{Clean, All-get_or}
use epita_42sh.Builtins.Cd.{join_loop, join_step, walk_back}
use epita_42sh.Utils.Copy.Laws.{get_or-at, get_or-behind}
use epita_42sh.Utils.Copy.{my_strcpy}

pub loop_step :
    (f : ℕ) (m m' : Str) (i i' : ℕ)
    → get_or m i 0 ≢ 0
    → join_step m i ≡ some (m', i')
    → join_loop (suc f) m i ≡ join_loop f m' i'
unfolding join_loop
loop_step f m m' i i' h e = go (get_or m i 0) refl
  where
    go : (c : ℕ) → get_or m i 0 ≡ c → join_loop (suc f) m i ≡ join_loop f m' i'
    go zero here = absurd (h here)
    go (suc c) here = rw (join_loop, here, e) refl

module _ (m : Str) (i : ℕ) where
  pub step_plain : get_or m i 0 ≢ b'/' → join_step m i ≡ some (m, i + 1)
  unfolding join_step
  step_plain h = ground arith

  module _ (here : get_or m i 0 ≡ b'/') where
    step_double : get_or m (i + 1) 0 ≡ b'/' → join_step m i ≡ some (my_strcpy m (i + 1) i, i)
    unfolding join_step
    step_double a = rw (join_step, here, a) refl

    step_dot :
        get_or m (i + 1) 0 ≡ b'.'
        → get_or m (i + 2) 0 ≡ b'/'
        → join_step m i ≡ some (my_strcpy m (i + 2) i, i)
    unfolding join_step
    step_dot a b = rw (join_step, here, a, b) refl

    step_dots :
        (dest : ℕ)
        → get_or m (i + 1) 0 ≡ b'.'
        → get_or m (i + 2) 0 ≡ b'.'
        → get_or m (i + 3) 0 ≡ b'/'
        → walk_back m (i - 1) ≡ some dest
        → join_step m i ≡ some (my_strcpy m (i + 3) dest, dest)
    unfolding join_step
    step_dots dest a b c w = rw (join_step, here, a, b, c, w) refl

    step_enter :
        (get_or m (i + 1) 0 == b'/') ≡ false
        → ((get_or m (i + 1) 0 == b'.') && (get_or m (i + 2) 0 == b'/')) ≡ false
        → ((get_or m (i + 1) 0 == b'.')
            && ((get_or m (i + 2) 0 == b'.') && (get_or m (i + 3) 0 == b'/')))
          ≡ false
        → join_step m i ≡ some (m, i + 1)
    unfolding join_step
    step_enter a b c = rw (join_step, here, a, b, c) refl

-- The same rounds, at a slash between the texts `l` and `r`.
module _ (l r : Str) where
  pub double_round :
      get_or r 0 0 ≡ b'/'
      → join_step (l ++ b'/' ∷ r) (length l)
        ≡ some (my_strcpy (l ++ b'/' ∷ r) (length l + 1) (length l), length l)
  double_round a =
      step_double (l ++ b'/' ∷ r) (length l) (get_or-at l r b'/') (get_or-behind l (b'/' ∷ r) 1 ∙ a)

  pub dot_round :
      get_or r 0 0 ≡ b'.'
      → get_or r 1 0 ≡ b'/'
      → join_step (l ++ b'/' ∷ r) (length l)
        ≡ some (my_strcpy (l ++ b'/' ∷ r) (length l + 2) (length l), length l)
  dot_round a b =
      step_dot (l ++ b'/' ∷ r) (length l) (get_or-at l r b'/') (get_or-behind l (b'/' ∷ r) 1 ∙ a)
        (get_or-behind l (b'/' ∷ r) 2 ∙ b)

  pub dots_round :
      (dest : ℕ)
      → get_or r 0 0 ≡ b'.'
      → get_or r 1 0 ≡ b'.'
      → get_or r 2 0 ≡ b'/'
      → walk_back (l ++ b'/' ∷ r) (length l - 1) ≡ some dest
      → join_step (l ++ b'/' ∷ r) (length l)
        ≡ some (my_strcpy (l ++ b'/' ∷ r) (length l + 3) dest, dest)
  dots_round dest a b c =
      step_dots (l ++ b'/' ∷ r) (length l) (get_or-at l r b'/') dest
        (get_or-behind l (b'/' ∷ r) 1 ∙ a) (get_or-behind l (b'/' ∷ r) 2 ∙ b)
        (get_or-behind l (b'/' ∷ r) 3 ∙ c)

  pub enter_round :
      (get_or r 0 0 == b'/') ≡ false
      → ((get_or r 0 0 == b'.') && (get_or r 1 0 == b'/')) ≡ false
      → ((get_or r 0 0 == b'.') && ((get_or r 1 0 == b'.') && (get_or r 2 0 == b'/'))) ≡ false
      → join_step (l ++ b'/' ∷ r) (length l) ≡ some (l ++ b'/' ∷ r, length l + 1)
  enter_round a b c =
      step_enter (l ++ b'/' ∷ r) (length l) (get_or-at l r b'/')
        (rw (get_or-behind l (b'/' ∷ r) 1) a)
        (rw (get_or-behind l (b'/' ∷ r) 1, get_or-behind l (b'/' ∷ r) 2) b)
        (rw
          (get_or-behind l (b'/' ∷ r) 1, get_or-behind l (b'/' ∷ r) 2, get_or-behind l (b'/' ∷ r) 3)
          c)

walk_here : (m : Str) (i : ℕ) → get_or m i 0 ≡ b'/' → walk_back m i ≡ some i
unfolding walk_back
walk_here m zero h = rw (walk_back, h) refl
walk_here m (suc i) h = rw (walk_back, h) refl

walk_more : (m : Str) (i : ℕ) → get_or m (suc i) 0 ≢ b'/' → walk_back m (suc i) ≡ walk_back m i
unfolding walk_back
walk_more m i h = ground arith

-- The walk back over a component, from any of its places.
pub walk_back-component :
    (l top r : Str) (k : ℕ)
    → Clean top
    → k ≤ length top
    → walk_back (l ++ b'/' ∷ (top ++ r)) (length l + k) ≡ some (length l)
walk_back-component l top r zero clean le =
    let z : length l + 0 ≡ length l = omega arith in
    rw z (walk_here (l ++ b'/' ∷ (top ++ r)) (length l) (get_or-at l (top ++ r) b'/'))
walk_back-component l top r (suc k) clean le =
    let z : length l + suc k ≡ suc (length l + k) = omega arith in
    let at = get_or-behind l (b'/' ∷ (top ++ r)) (suc k) ∙ get_or-append top r k 0 (omega arith) in
    let ne : get_or (l ++ b'/' ∷ (top ++ r)) (suc (length l + k)) 0 ≢ b'/' = λ e.
      (All-get_or (λ c. (c ≢ 0) × (c ≢ b'/')) top k 0 clean (omega arith)).1
        (sym at ∙ ap (λ i. get_or (l ++ b'/' ∷ (top ++ r)) i 0) z ∙ e) in
    rw z (
      walk_more (l ++ b'/' ∷ (top ++ r)) (length l + k) ne
      ∙ walk_back-component l top r k clean (omega arith))
