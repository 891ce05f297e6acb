-- ===== src/Builtins/Cd/Path.antt =====
-- Paths as lists of components: what `cd` makes of `.`, `..` and empty components.
use mathlib.Core.List.{append_assoc}
use epita_42sh.Base.Text.{Str, codes, str_eq}
use epita_42sh.Base.{
  ℕ, zero, suc, ◌<◌, ◌≡◌, ◌≢◌, refl, ◌∙◌, sym, ap, ◌||◌, List, [], ◌∷◌, ◌++◌, if◌then◌else◌, is_nil,
  get_or, length, All, All-append, arith,
}

-- The text of the components that are still to be read, the last slash included.
abbrev pub rest_of : List Str → Str
rest_of [] = b'/' ∷ []
rest_of (c ∷ cs) = b'/' ∷ (c ++ rest_of cs)

-- The text of a stack of components, the bottom first.
abbrev pub render : List Str → Str
render [] = []
render (c ∷ stack) = render stack ++ b'/' ∷ c

unfoldable pub pop : List Str → List Str
pop [] = []
pop (c ∷ stack) = stack

-- One component: nothing, the parent, or a directory below.
unfoldable pub enter : List Str → Str → List Str
unfolding pop str_eq
enter stack c =
    if is_nil c || str_eq c (codes ".")
    then stack
    else if str_eq c (codes "..")
    then pop stack
    else c ∷ stack

unfoldable pub resolve : List Str → List Str → List Str
resolve stack [] = stack
resolve stack (c ∷ cs) = resolve (enter stack c) cs

-- The absolute path of a stack, `/` for the empty one.
unfoldable pub path_of : List Str → Str
path_of [] = b'/' ∷ []
path_of (c ∷ stack) = render (c ∷ stack)

-- A component has neither a NUL nor a slash.
abbrev pub Clean : Str → Type 0
Clean = All (λ c. (c ≢ 0) × (c ≢ b'/'))

abbrev pub Named : Str → Type 0
Named c = Clean c × (c ≢ [])

pub All-get_or :
    (P : ℕ → Type 0) (xs : Str) (i d : ℕ) → All P xs → i < length xs → P (get_or xs i d)
All-get_or P [] i d h lt = absurd (omega arith)
All-get_or P (x ∷ xs) zero d h lt = h.0
All-get_or P (x ∷ xs) (suc i) d h lt = All-get_or P xs i d h.1 (omega arith)

pub slash_ne : ◌≢◌ {A = ℕ} b'/' 0
slash_ne h = omega arith

pub Clean-no_nul : (c : Str) → Clean c → All (λ x. x ≢ 0) c
Clean-no_nul [] h = h
Clean-no_nul (x ∷ c) h = (h.0.0, Clean-no_nul c h.1)

pub rest_of-no_nul : (cs : List Str) → All Clean cs → All (λ x. x ≢ 0) (rest_of cs)
rest_of-no_nul [] h = (slash_ne, tt)
rest_of-no_nul (c ∷ cs) h =
    (slash_ne, All-append (λ x. x ≢ 0) c (rest_of cs) (Clean-no_nul c h.0) (rest_of-no_nul cs h.1))

pub render-no_nul : (stack : List Str) → All Named stack → All (λ x. x ≢ 0) (render stack)
render-no_nul [] h = tt
render-no_nul (c ∷ stack) h =
    All-append (λ x. x ≢ 0) (render stack) (b'/' ∷ c) (render-no_nul stack h.1)
      (slash_ne, Clean-no_nul c h.0.0)

-- The character behind the first slash of a path is no NUL.
pub render-second :
    (c : Str) (stack : List Str) (x : Str)
    → All Named (c ∷ stack)
    → get_or (render (c ∷ stack) ++ x) 1 0 ≢ 0
render-second [] [] x h e = h.0.1 refl
render-second (a ∷ c) [] x h e = h.0.0.0.0 e
render-second c (d ∷ stack) x h e =
    render-second d stack (b'/' ∷ (c ++ x)) h.1
      (ap (λ t. get_or t 1 0) (sym (append_assoc (render (d ∷ stack)) (b'/' ∷ c) x)) ∙ e)

pub slash_tail : List Str → Str
slash_tail [] = []
slash_tail (c ∷ cs) = c ++ rest_of cs

-- The text starts with a slash.
pub rest_of-slash : (cs : List Str) → rest_of cs ≡ b'/' ∷ slash_tail cs
unfolding slash_tail
rest_of-slash [] = refl
rest_of-slash (c ∷ cs) = refl
