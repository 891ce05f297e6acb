-- ===== src/Builtins/Cd/Tests.antt =====
-- Runs of `cd`.
use epita_42sh.Base.Text.{Str, codes, str_eq, str_eq_refl, str_eq_sound}
use epita_42sh.Base.{
  ◌≡◌, ◌≢◌, refl, true, Option, none, some, [], ◌∷◌, ◌++◌, All, if◌then◌else◌, inl, inr, Bool-cases,
  arith,
}
use epita_42sh.Builtins.Cd.Dirs.{slashed, join_dirs-relative, join_dirs-absolute}
use epita_42sh.Builtins.Cd.Laws.{EnvLaws, Outcome, bi_cd-relative}
use epita_42sh.Builtins.Cd.Path.{Clean, path_of, resolve}
use epita_42sh.Builtins.Cd.{Os, join_dirs, join_step, bi_cd}
use epita_42sh.Builtins.{Run}
use epita_42sh.Symtab.Tests.{x_table, x_table-IsValid}
use epita_42sh.Utils.Copy.{my_strcpy}
use epita_42sh.Utils.Vec.{c_string}

joins : join_dirs (codes "/a/b") (codes ".././/c/..//d") ≡ some (codes "/a/d")
unfolding join_dirs join_step my_strcpy c_string
joins = refl

joins_root : join_dirs (codes "/a") (codes "../../..") ≡ some (codes "/")
unfolding join_dirs join_step my_strcpy c_string
joins_root = refl

joins_absolute : join_dirs (codes "/a") (codes "/") ≡ some (codes "/")
unfolding join_dirs join_step my_strcpy c_string
joins_absolute = refl

-- An environment as a function, in a kernel that has every directory.
abbrev Env : Type 0
Env = Str → Option Str

os : Os Env
os = record {
  getenv = λ e k. e k;
  setenv = λ e k v k'. if str_eq k k' then some v else e k';
  getcwd = λ e. some (codes "/");
  chdir = λ e dir. (e, true);
  strerror = λ e. codes "error";
}

os-EnvLaws : EnvLaws os
unfolding os
os-EnvLaws = record {
  set = λ e k v. rw (str_eq_refl k) refl;
  keep = λ e k v k' ne. apart e k v k' ne;
}
  where
    apart : (e : Env) (k v k' : Str) → k ≢ k' → (if str_eq k k' then some v else e k') ≡ e k'
    apart e k v k' ne = elim (Bool-cases (str_eq k k')) [
      | inl h ↦ absurd (ne (str_eq_sound k k' h))
      | inr h ↦ rw h refl
    ]

env : Env
env k = if str_eq k (codes "PWD") then some (codes "/a") else none

a_Clean : All Clean (codes "a" ∷ [])
a_Clean = (((λ e. omega arith, λ e. omega arith), tt), tt)

parent_Clean : All Clean (codes ".." ∷ codes "b" ∷ [])
parent_Clean = (
  ((λ e. omega arith, λ e. omega arith), ((λ e. omega arith, λ e. omega arith), tt)),
  (((λ e. omega arith, λ e. omega arith), tt), tt),
)

bi_cd-relative_example :
    (r : Env × Run) × (bi_cd os env x_table
        (codes "cd" ∷ (codes ".." ++ slashed (codes "b" ∷ [])) ∷ [])
      ≡ some r)
    × Outcome os x_table
        (slashed (codes "a" ∷ []))
        (path_of (resolve [] ((codes "a" ∷ []) ++ (codes ".." ∷ codes "b" ∷ []))))
        env
        true
        r
unfolding os env str_eq
bi_cd-relative_example =
    bi_cd-relative os os-EnvLaws env env x_table (codes "cd") (codes "a") (codes "..") []
      (codes "b" ∷ []) [] true x_table-IsValid refl a_Clean parent_Clean refl refl (omega arith)
      (omega arith) refl

join_dirs-relative_example :
    join_dirs (slashed (codes "a" ∷ [])) (codes ".." ++ slashed (codes "b" ∷ []))
    ≡ some (path_of (resolve [] ((codes "a" ∷ []) ++ (codes ".." ∷ codes "b" ∷ []))))
join_dirs-relative_example =
    join_dirs-relative (codes "a") (codes "..") [] (codes "b" ∷ []) a_Clean parent_Clean refl
      (omega arith)

join_dirs-absolute_example :
    join_dirs (codes "/c") (slashed (codes ".." ∷ codes "b" ∷ []))
    ≡ some (path_of (resolve [] (codes ".." ∷ codes "b" ∷ [])))
join_dirs-absolute_example =
    join_dirs-absolute (codes "/c") (codes "..") (codes "b" ∷ []) refl parent_Clean (omega arith)
