-- ===== src/Builtins/Cd/Components.antt =====
-- The loop of `__join_dirs` on a path of clean components: it leaves the resolved path.
use epita_42sh.Base.Text.{Str, codes}
use epita_42sh.Base.{
  ℕ, zero, suc, ◌+◌, ◌-◌, ◌<◌, ◌≡◌, ◌≢◌, refl, ◌∙◌, sym, ap, subst, ◌⊎◌, inl, inr, Bool, true,
  false, ◌&&◌, some, List, [], ◌∷◌, ◌++◌, ◌==◌, get_or, length, length-append, All, Bool-cases,
  arith,
}
use epita_42sh.Builtins.Cd.Join.{double_round, dot_round, enter_round}
use epita_42sh.Builtins.Cd.Path.{
  rest_of, render, pop, enter, resolve, path_of, Clean, Named, rest_of-no_nul,
}
use epita_42sh.Builtins.Cd.Resolve.{
  at, remove_round, enter_name, finish_rounds, leave_rounds, first_slash,
}
use epita_42sh.Builtins.Cd.{join_loop, join_step}

-- A component that is no name, by its characters.
abbrev no_name : Str → Bool
no_name [] = true
no_name (x ∷ []) = x == b'.'
no_name (x ∷ y ∷ []) = (x == b'.') && (y == b'.')
no_name (x ∷ y ∷ z ∷ c) = false

ne_test : (x y : ℕ) → x ≢ y → (x == y) ≡ false
ne_test x y h = ground arith

and_first : (p q r : Bool) → (p && q) ≡ false → (p && (q && r)) ≡ false
and_first true true r h = cc
and_first true false r h = refl
and_first false q r h = refl

and_second : (p q : Bool) → q ≡ false → (p && q) ≡ false
and_second true q h = h
and_second false q h = refl

name_round :
    (c : Str) (cs : List Str) (l j : Str)
    → Clean c
    → no_name c ≡ false
    → join_step (at l (rest_of (c ∷ cs)) j) (length l)
      ≡ some (at l (rest_of (c ∷ cs)) j, length l + 1)
name_round [] cs l j clean h = absurd (true_ne h)
  where
    true_ne : ◌≢◌ {A = Bool} true false
    true_ne e = cc
name_round (x ∷ []) cs l j clean h =
    enter_round l (x ∷ (rest_of cs ++ 0 ∷ j)) (ne_test x b'/' clean.0.1) (rw h refl) (rw h refl)
name_round (x ∷ y ∷ []) cs l j clean h =
    enter_round l (x ∷ y ∷ (rest_of cs ++ 0 ∷ j)) (ne_test x b'/' clean.0.1)
      (and_second (x == b'.') (y == b'/') (ne_test y b'/' clean.1.0.1))
      (and_first (x == b'.') (y == b'.') (get_or (rest_of cs ++ 0 ∷ j) 0 0 == b'/') h)
name_round (x ∷ y ∷ z ∷ c) cs l j clean h =
    enter_round l (x ∷ y ∷ z ∷ ((c ++ rest_of cs) ++ 0 ∷ j)) (ne_test x b'/' clean.0.1)
      (and_second (x == b'.') (y == b'/') (ne_test y b'/' clean.1.0.1))
      (and_second (x == b'.') ((y == b'.') && (z == b'/'))
        (and_second (y == b'.') (z == b'/') (ne_test z b'/' clean.1.1.0.1)))

enter-name : (stack : List Str) (c : Str) → no_name c ≡ false → enter stack c ≡ c ∷ stack
unfolding enter
enter-name stack [] h = cc
enter-name stack (x ∷ []) h = ground arith
enter-name stack (x ∷ y ∷ []) h = ground arith
enter-name stack (x ∷ y ∷ z ∷ c) h = ground arith

-- The loop that stands behind a stack resolves the components `cs` from it.
abbrev Resolves : List Str → List Str → List Str → Type 0
Resolves cs left stack =
    (f : ℕ) (j : Str)
    → length (rest_of cs) < f
    → join_loop f (at (render stack) (rest_of cs) j) (length (render stack)) ≡ some (path_of left)

-- A component that is a name, given the loop behind it.
Resolves-name :
    (c : Str) (cs left stack : List Str)
    → Clean c
    → no_name c ≡ false
    → Resolves cs left (c ∷ stack)
    → Resolves (c ∷ cs) left stack
Resolves-name c cs left stack clean h rest zero j lt = absurd (omega arith)
Resolves-name c cs left stack clean h rest (suc f) j lt =
    let len = length-append c (rest_of cs) in
    enter_name c cs stack f j clean (name_round c cs (render stack) j clean h) (omega arith)
    ∙ rest (f - length c) j (omega arith)

Resolves-empty :
    (cs left stack : List Str)
    → All Clean cs
    → Resolves cs left stack
    → Resolves ([] ∷ cs) left stack
Resolves-empty cs left stack clean rest zero j lt = absurd (omega arith)
Resolves-empty cs left stack clean rest (suc f) j lt =
    let l = render stack in
    let (k, e) =
      remove_round f l l b'/' [] (rest_of cs) (rest_of cs) j (rest_of-no_nul cs clean) refl
        (double_round l (rest_of cs ++ 0 ∷ j) (first_slash cs (0 ∷ j))) in
    e ∙ rest f k (omega arith)

Resolves-dot :
    (cs left stack : List Str)
    → All Clean cs
    → Resolves cs left stack
    → Resolves (codes "." ∷ cs) left stack
Resolves-dot cs left stack clean rest zero j lt = absurd (omega arith)
Resolves-dot cs left stack clean rest (suc f) j lt =
    let l = render stack in
    let (k, e) =
      remove_round f l l b'/' (codes ".") (rest_of cs) (b'.' ∷ rest_of cs) j
        (rest_of-no_nul cs clean) refl
        (dot_round l (b'.' ∷ (rest_of cs ++ 0 ∷ j)) refl (first_slash cs (0 ∷ j))) in
    e ∙ rest f k (omega arith)

Resolves-dots :
    (cs left stack : List Str)
    → All Clean cs
    → All Named stack
    → Resolves cs left (pop stack)
    → Resolves (codes ".." ∷ cs) left stack
Resolves-dots cs left stack clean named rest zero j lt = absurd (omega arith)
Resolves-dots cs left stack clean named rest (suc f) j lt =
    let (k, e) = leave_rounds cs stack f j clean named in e ∙ rest f k (omega arith)

pop-Named : (stack : List Str) → All Named stack → All Named (pop stack)
unfolding pop
pop-Named [] h = h
pop-Named (c ∷ stack) h = h.1

-- The cases of a component: nothing, `.`, `..`, or a name.
pub component_cases :
    (c : Str) → (c ≡ []) ⊎ ((c ≡ codes ".") ⊎ ((c ≡ codes "..") ⊎ ((no_name c ≡ false) × (c ≢ []))))
component_cases [] = inl refl
component_cases (x ∷ []) = elim (Bool-cases (x == b'.')) [
  | inl e ↦ let is : x ≡ b'.' = ground arith in inr (inl (ap (λ x. x ∷ []) is))
  | inr e ↦ inr (inr (inr (e, λ h. cc)))
]
component_cases (x ∷ y ∷ []) = elim (Bool-cases ((x == b'.') && (y == b'.'))) [
  | inl e ↦
      let is : x ≡ b'.' = ground arith in let is' : y ≡ b'.' = ground arith in inr (inr (inl cc))
  | inr e ↦ inr (inr (inr (e, λ h. cc)))
]
component_cases (x ∷ y ∷ z ∷ c) = inr (inr (inr (refl, λ h. cc)))

pub join_loop-resolve :
    (cs stack : List Str) → All Clean cs → All Named stack → Resolves cs (resolve stack cs) stack
unfolding resolve enter
join_loop-resolve [] stack clean named zero j lt = absurd (omega arith)
join_loop-resolve [] stack clean named (suc zero) j lt = absurd (omega arith)
join_loop-resolve [] stack clean named (suc (suc f)) j lt = finish_rounds stack f j named
join_loop-resolve (c ∷ cs) stack clean named f j lt = elim (component_cases c) [
  | inl e ↦
      subst (λ c. Resolves (c ∷ cs) (resolve (enter stack c) cs) stack) (sym e)
        (Resolves-empty cs (resolve stack cs) stack clean.1
          (join_loop-resolve cs stack clean.1 named))
        f j lt
  | inr (inl e) ↦
      subst (λ c. Resolves (c ∷ cs) (resolve (enter stack c) cs) stack) (sym e)
        (Resolves-dot cs (resolve stack cs) stack clean.1
          (join_loop-resolve cs stack clean.1 named))
        f j lt
  | inr (inr (inl e)) ↦
      subst (λ c. Resolves (c ∷ cs) (resolve (enter stack c) cs) stack) (sym e)
        (Resolves-dots cs (resolve (pop stack) cs) stack clean.1 named
          (join_loop-resolve cs (pop stack) clean.1 (pop-Named stack named)))
        f j lt
  | inr (inr (inr (h, ne))) ↦
      subst (λ s. Resolves (c ∷ cs) (resolve s cs) stack) (sym (enter-name stack c h))
        (Resolves-name c cs (resolve (c ∷ stack) cs) stack clean.0 h
          (join_loop-resolve cs (c ∷ stack) clean.1 ((clean.0, ne), named)))
        f j lt
]
