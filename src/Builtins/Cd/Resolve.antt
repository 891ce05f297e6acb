-- ===== src/Builtins/Cd/Resolve.antt =====
-- What the rounds of `__join_dirs` do to the text in front of them: they move over it or remove it.
use mathlib.Core.List.{append_assoc, append-nil}
use epita_42sh.Base.Text.{Str, codes}
use epita_42sh.Base.{
  ℕ, suc, ◌+◌, ◌-◌, ◌≤◌, ◌≡◌, ◌≢◌, refl, ◌∙◌, sym, ap, inl, inr, some, List, [], ◌∷◌, ◌++◌, ◌==◌,
  get_or, set, length, length-append, All, Bool-cases, arith,
}
use epita_42sh.Builtins.Cd.Join.{
  loop_step, step_plain, dots_round, enter_round, walk_back-component,
}
use epita_42sh.Builtins.Cd.Path.{
  rest_of, render, pop, path_of, Clean, Named, rest_of-no_nul, render-no_nul, render-second,
  slash_ne,
}
use epita_42sh.Builtins.Cd.{join_loop, join_step, walk_back}
use epita_42sh.Utils.Copy.Laws.{c_string-append, get_or-at, set-behind, my_strcpy-Holds}
use epita_42sh.Utils.Copy.{my_strcpy}
use epita_42sh.Utils.Vec.{c_string}

-- The memory with the text `r` at the place where the loop stands, behind `l`.
abbrev pub at : Str → Str → Str → Str
at l r j = l ++ (r ++ 0 ∷ j)

-- A round that moves on by one character.
pub advance_round :
    (f : ℕ) (l r j : Str) (c : ℕ)
    → c ≢ 0
    → join_step (at l (c ∷ r) j) (length l) ≡ some (at l (c ∷ r) j, length l + 1)
    → join_loop (suc f) (at l (c ∷ r) j) (length l)
      ≡ join_loop f (at (l ++ c ∷ []) r j) (length (l ++ c ∷ []))
advance_round f l r j c ne e =
    let here = get_or-at l (r ++ 0 ∷ j) c in
    let step =
      loop_step f (at l (c ∷ r) j) (at l (c ∷ r) j) (length l) (length l + 1)
        (λ h. ne (sym here ∙ h)) e in
    let p = append_assoc l (c ∷ []) (r ++ 0 ∷ j) in
    let n : length (l ++ c ∷ []) ≡ length l + 1 = length-append l (c ∷ []) in cc

-- The rounds over the characters of a component.
pub skip_component :
    (c : Str) (f : ℕ) (l r j : Str)
    → Clean c
    → join_loop (length c + f) (at l (c ++ r) j) (length l)
      ≡ join_loop f (at (l ++ c) r j) (length (l ++ c))
skip_component [] f l r j clean = let z : 0 + f ≡ f = omega arith in let n = append-nil l in cc
skip_component (x ∷ c) f l r j clean =
    let n : suc (length c) + f ≡ suc (length c + f) = omega arith in
    let here = get_or-at l ((c ++ r) ++ 0 ∷ j) x in
    let plain = step_plain (at l (x ∷ (c ++ r)) j) (length l) (λ h. clean.0.1 (sym here ∙ h)) in
    let first = advance_round (length c + f) l (c ++ r) j x clean.0.0 plain in
    let next = skip_component c f (l ++ x ∷ []) r j clean.1 in
    let p = append_assoc l (x ∷ []) c in cc

pub first_slash : (cs : List Str) (t : Str) → get_or (rest_of cs ++ t) 0 0 ≡ b'/'
first_slash [] t = refl
first_slash (c ∷ cs) t = refl

-- A round that removes text in front of `s`.
pub remove_round :
    (f : ℕ) (l l' : Str) (b : ℕ) (m s r j : Str)
    → All (λ c. c ≢ 0) s
    → at l (b'/' ∷ r) j ≡ l' ++ b ∷ (m ++ (s ++ 0 ∷ j))
    → join_step (at l (b'/' ∷ r) j) (length l)
      ≡ some (my_strcpy (at l (b'/' ∷ r) j) (length l' + suc (length m)) (length l'), length l')
    → (k : Str) × (join_loop (suc f) (at l (b'/' ∷ r) j) (length l)
        ≡ join_loop f (at l' s k) (length l'))
remove_round f l l' b m s r j clean e step =
    let (k, moved) = my_strcpy-Holds l' b m s j clean in
    let here = get_or-at l (r ++ 0 ∷ j) b'/' in
    let nul : get_or (at l (b'/' ∷ r) j) (length l) 0 ≢ 0 = λ h. slash_ne (sym here ∙ h) in
    let next =
      loop_step f (at l (b'/' ∷ r) j)
        (my_strcpy (at l (b'/' ∷ r) j) (length l' + suc (length m)) (length l')) (length l)
        (length l') nul step in
    (k, cc)

-- A round that enters a component that is a name, and the rounds over its characters.
pub enter_name :
    (c : Str) (cs stack : List Str) (f : ℕ) (j : Str)
    → Clean c
    → join_step (at (render stack) (rest_of (c ∷ cs)) j) (length (render stack))
      ≡ some (at (render stack) (rest_of (c ∷ cs)) j, length (render stack) + 1)
    → length c ≤ f
    → join_loop (suc f) (at (render stack) (rest_of (c ∷ cs)) j) (length (render stack))
      ≡ join_loop
          (f - length c)
          (at (render (c ∷ stack)) (rest_of cs) j)
          (length (render (c ∷ stack)))
enter_name c cs stack f j clean step le =
    let n : length c + (f - length c) ≡ f = omega arith in
    let first = advance_round f (render stack) (c ++ rest_of cs) j b'/' slash_ne step in
    let next = skip_component c (f - length c) (render stack ++ b'/' ∷ []) (rest_of cs) j clean in
    let p = append_assoc (render stack) (b'/' ∷ []) c in cc

-- The end of the loop, where the last slash is overwritten.
loop_nul :
    (f : ℕ) (m : Str) (i : ℕ)
    → get_or m i 0 ≡ 0
    → get_or m 1 0 ≢ 0
    → join_loop (suc f) m i ≡ some (c_string (set m (i - 1) 0))
unfolding join_loop
loop_nul f m i here second = elim (Bool-cases (get_or m 1 0 == 0)) [
  | inl e ↦ absurd (second (ground arith))
  | inr e ↦ rw (join_loop, here, e) refl
]

last_slash :
    (l : Str) (f : ℕ) (j : Str)
    → All (λ x. x ≢ 0) l
    → get_or (l ++ b'/' ∷ 0 ∷ j) 1 0 ≢ 0
    → join_loop (suc (suc f)) (at l (b'/' ∷ []) j) (length l) ≡ some l
last_slash l f j clean second =
    let first = advance_round (suc f) l [] j b'/' slash_ne (enter_round l (0 ∷ j) refl refl refl) in
    let p = append_assoc l (b'/' ∷ []) (0 ∷ j) in
    let behind : get_or ((l ++ b'/' ∷ []) ++ 0 ∷ j) 1 0 ≢ 0 =
      λ h. second (ap (λ m. get_or m 1 0) (sym p) ∙ h) in
    let next =
      loop_nul f ((l ++ b'/' ∷ []) ++ 0 ∷ j) (length (l ++ b'/' ∷ []))
        (get_or-at (l ++ b'/' ∷ []) j 0) behind in
    let n : length (l ++ b'/' ∷ []) - 1 ≡ length l = omega (arith, length-append l (b'/' ∷ [])) in
    let written = set-behind l (0 ∷ j) b'/' 0 in let text = c_string-append l (0 ∷ j) clean in cc

-- The rounds on what is left when no component is.
pub finish_rounds :
    (stack : List Str) (f : ℕ) (j : Str)
    → All Named stack
    → join_loop (suc (suc f)) (at (render stack) (rest_of []) j) (length (render stack))
      ≡ some (path_of stack)
unfolding join_loop join_step path_of c_string
finish_rounds [] f j named = refl
finish_rounds (c ∷ stack) f j named =
    last_slash (render (c ∷ stack)) f j (render-no_nul (c ∷ stack) named)
      (render-second c stack (b'/' ∷ 0 ∷ j) named)

leave_step :
    (stack : List Str) (c t : Str)
    → Clean c
    → get_or t 0 0 ≡ b'/'
    → join_step (render (c ∷ stack) ++ b'/' ∷ b'.' ∷ b'.' ∷ t) (length (render (c ∷ stack)))
      ≡ some (
        my_strcpy
            (render (c ∷ stack) ++ b'/' ∷ b'.' ∷ b'.' ∷ t)
            (length (render stack) + suc (length (c ++ codes "/..")))
            (length (render stack)),
        length (render stack),
      )
leave_step stack c t clean slash =
    let len = length-append (render stack) (b'/' ∷ c) in
    let p = append_assoc (render stack) (b'/' ∷ c) (b'/' ∷ b'.' ∷ b'.' ∷ t) in
    let n : length (render (c ∷ stack)) - 1 ≡ length (render stack) + length c = omega arith in
    let n' : length (render (c ∷ stack)) + 3
        ≡ length (render stack) + suc (length (c ++ codes "/..")) =
      omega (arith, length-append c (codes "/..")) in
    let walk =
      walk_back-component (render stack) c (b'/' ∷ b'.' ∷ b'.' ∷ t) (length c) clean
        (omega arith) in
    let walk' : walk_back (render (c ∷ stack) ++ b'/' ∷ b'.' ∷ b'.' ∷ t)
          (length (render (c ∷ stack)) - 1)
        ≡ some (length (render stack)) =
      cc in
    let step =
      dots_round (render (c ∷ stack)) (b'.' ∷ b'.' ∷ t) (length (render stack)) refl refl slash
        walk' in
    step
    ∙ ap
        (λ i. some (
          my_strcpy (render (c ∷ stack) ++ b'/' ∷ b'.' ∷ b'.' ∷ t) i (length (render stack)),
          length (render stack),
        ))
        n'

-- The rounds for a component `..`.
pub leave_rounds :
    (cs stack : List Str) (f : ℕ) (j : Str)
    → All Clean cs
    → All Named stack
    → (k : Str) × (join_loop
          (suc f)
          (at (render stack) (rest_of (codes ".." ∷ cs)) j)
          (length (render stack))
        ≡ join_loop f (at (render (pop stack)) (rest_of cs) k) (length (render (pop stack))))
unfolding pop walk_back
leave_rounds cs [] f j clean named =
    remove_round f [] [] b'/' (codes "..") (rest_of cs) (b'.' ∷ b'.' ∷ rest_of cs) j
      (rest_of-no_nul cs clean) refl
      (dots_round [] (b'.' ∷ b'.' ∷ (rest_of cs ++ 0 ∷ j)) 0 refl refl (first_slash cs (0 ∷ j))
        refl)
leave_rounds cs (c ∷ stack) f j clean named =
    remove_round f (render (c ∷ stack)) (render stack) b'/' (c ++ codes "/..") (rest_of cs)
      (b'.' ∷ b'.' ∷ rest_of cs) j (rest_of-no_nul cs clean)
      (append_assoc (render stack) (b'/' ∷ c) behind
        ∙ ap (λ t. render stack ++ b'/' ∷ t)
            (sym (append_assoc c (codes "/..") (rest_of cs ++ 0 ∷ j))))
      (leave_step stack c (rest_of cs ++ 0 ∷ j) named.0.0 (first_slash cs (0 ∷ j)))
  where
    behind : Str
    behind = b'/' ∷ b'.' ∷ b'.' ∷ (rest_of cs ++ 0 ∷ j)
