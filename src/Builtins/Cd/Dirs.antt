-- ===== src/Builtins/Cd/Dirs.antt =====
-- `__join_dirs` on whole paths, with the buffers that it fills.
use mathlib.Core.List.{append_assoc}
use epita_42sh.Base.Text.{Str}
use epita_42sh.Base.{
  ℕ, ◌+◌, ◌<◌, ◌≤◌, ◌≡◌, ◌≢◌, refl, ◌∙◌, sym, ap, Bool, true, false, some, List, [], ◌∷◌, ◌++◌,
  ◌==◌, is_nil, take_all, length, length-append, All, All-append, arith,
}
use epita_42sh.Builtins.Cd.Components.{join_loop-resolve}
use epita_42sh.Builtins.Cd.Path.{rest_of, resolve, path_of, Clean}
use epita_42sh.Builtins.Cd.{joined, join_dirs}

-- The text of an absolute path.
abbrev pub slashed : List Str → Str
slashed [] = []
slashed (c ∷ cs) = b'/' ∷ (c ++ slashed cs)

slashed-rest_of : (cs : List Str) → slashed cs ++ b'/' ∷ [] ≡ rest_of cs
slashed-rest_of [] = refl
slashed-rest_of (c ∷ cs) =
    ap (λ t. b'/' ∷ t)
      (append_assoc c (slashed cs) (b'/' ∷ []) ∙ ap (λ t. c ++ t) (slashed-rest_of cs))

slashed-append : (cs ds : List Str) → slashed (cs ++ ds) ≡ slashed cs ++ slashed ds
slashed-append [] ds = refl
slashed-append (a ∷ cs) ds =
    ap (λ t. b'/' ∷ t)
      (ap (λ t. a ++ t) (slashed-append cs ds) ∙ sym (append_assoc a (slashed cs) (slashed ds)))

-- The loop on a buffer that holds a path.
join_dirs-loop :
    (a b : Str) (cs : List Str)
    → is_nil a ≡ false
    → is_nil b ≡ false
    → joined a b ≡ rest_of cs
    → All Clean cs
    → join_dirs a b ≡ some (path_of (resolve [] cs))
unfolding join_dirs
join_dirs-loop a b cs na nb e clean =
    rw (join_dirs, na, nb, e)
      (join_loop-resolve cs [] clean tt (length (rest_of cs ++ 0 ∷ [])) []
        (omega (arith, length-append (rest_of cs) (0 ∷ []))))

true_ne_false : ◌≢◌ {A = Bool} true false
true_ne_false e = cc

joined-relative :
    (a : Str) (x : ℕ) (b : Str)
    → x ≢ b'/'
    → length a + length (x ∷ b) + 2 ≤ 8192
    → joined a (x ∷ b) ≡ a ++ b'/' ∷ ((x ∷ b) ++ b'/' ∷ [])
unfolding joined
joined-relative a x b ne fits =
    let e : (x == b'/') ≡ false = ground arith in
    rw (joined, e)
      (take_all 8192 (a ++ b'/' ∷ ((x ∷ b) ++ b'/' ∷ [])) (
        omega (
          arith,
          length-append a (b'/' ∷ ((x ∷ b) ++ b'/' ∷ [])),
          length-append (x ∷ b) (b'/' ∷ []),
        )))

-- An absolute path whose components are clean, and which fits the buffer, is resolved from the
-- root, whatever the first path is.
pub join_dirs-absolute :
    (a c : Str) (cs : List Str)
    → is_nil a ≡ false
    → All Clean (c ∷ cs)
    → length (slashed (c ∷ cs)) < 4094
    → join_dirs a (slashed (c ∷ cs)) ≡ some (path_of (resolve [] (c ∷ cs)))
unfolding joined
join_dirs-absolute a c cs na clean fits =
    join_dirs-loop a (slashed (c ∷ cs)) (c ∷ cs) na refl
      (take_all 4094 (slashed (c ∷ cs) ++ b'/' ∷ [])
          (omega (arith, length-append (slashed (c ∷ cs)) (b'/' ∷ [])))
        ∙ slashed-rest_of (c ∷ cs))
      clean

-- A relative path below an absolute one, both with clean components: the components of both are
-- resolved from the root when they fit the buffer.
pub join_dirs-relative :
    (a b : Str) (cs ds : List Str)
    → All Clean (a ∷ cs)
    → All Clean (b ∷ ds)
    → is_nil b ≡ false
    → length (slashed (a ∷ cs)) + length (b ++ slashed ds) + 2 ≤ 8192
    → join_dirs (slashed (a ∷ cs)) (b ++ slashed ds)
      ≡ some (path_of (resolve [] ((a ∷ cs) ++ (b ∷ ds))))
join_dirs-relative a [] cs ds ca cb nb fits = absurd (true_ne_false nb)
join_dirs-relative a (x ∷ b) cs ds ca cb nb fits =
    join_dirs-loop (slashed (a ∷ cs)) (x ∷ (b ++ slashed ds)) ((a ∷ cs) ++ ((x ∷ b) ∷ ds)) refl refl
      (joined-relative (slashed (a ∷ cs)) x (b ++ slashed ds) cb.0.0.1 fits
        ∙ sym (append_assoc (slashed (a ∷ cs)) (slashed ((x ∷ b) ∷ ds)) (b'/' ∷ []))
        ∙ ap (λ t. t ++ b'/' ∷ []) (sym (slashed-append (a ∷ cs) ((x ∷ b) ∷ ds)))
        ∙ slashed-rest_of ((a ∷ cs) ++ ((x ∷ b) ∷ ds)))
      (All-append Clean (a ∷ cs) ((x ∷ b) ∷ ds) ca cb)
