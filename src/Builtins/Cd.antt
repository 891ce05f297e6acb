-- ===== src/Builtins/Cd.antt =====
-- The builtin of bi_cd.c. The calls of libc and of the kernel are the operations of an `Os`.
mod Tests
pub mod Path
pub mod Join
pub mod Resolve
pub mod Components
pub mod Dirs
pub mod Laws
use epita_42sh.Ast.{null}
use epita_42sh.Base.Text.{Str, codes, str_eq}
use epita_42sh.Base.{
  ℕ, zero, suc, ◌+◌, ◌-◌, Bool, true, false, ◌&&◌, ◌||◌, Option, none, some, List, [], ◌∷◌, ◌++◌,
  if◌then◌else◌, ◌==◌, ltb, is_nil, get_or, set, length, take,
}
use epita_42sh.Builtins.{Run, start}
use epita_42sh.Symtab.{Symtab, kv_word, symtab_add, set_exported}
use epita_42sh.Utils.Copy.{my_strcpy}
use epita_42sh.Utils.Vec.{c_string}

abbrev pub path_max : ℕ
path_max = 4096

-- The backward walk to a slash; `none` is a walk in front of the buffer.
pub walk_back : Str → ℕ → Option ℕ
walk_back m zero = if get_or m 0 0 == b'/' then some 0 else none
walk_back m (suc i) = if get_or m (suc i) 0 == b'/' then some (suc i) else walk_back m i

-- One round of the loop of `__join_dirs`, at a character that is no NUL.
pub join_step : Str → ℕ → Option (Str × ℕ)
unfolding walk_back
join_step m seek =
    if get_or m seek 0 == b'/'
    then if get_or m (seek + 1) 0 == b'/'
      then some (my_strcpy m (seek + 1) seek, seek)
      else if get_or m (seek + 1) 0 == b'.' && get_or m (seek + 2) 0 == b'/'
      then some (my_strcpy m (seek + 2) seek, seek)
      else if get_or m (seek + 1) 0 == b'.'
          && (get_or m (seek + 2) 0 == b'.' && get_or m (seek + 3) 0 == b'/')
      then elim (walk_back m (seek - 1)) [
        | none ↦ none
        | some dest ↦ some (my_strcpy m (seek + 3) dest, dest)
      ]
      else some (m, seek + 1)
    else some (m, seek + 1)

-- The loop, and the text that it leaves without its last slash.
pub join_loop : ℕ → Str → ℕ → Option Str
join_loop zero m seek = none
join_loop (suc f) m seek = elim (get_or m seek 0) [
  | zero ↦ some (c_string (if get_or m 1 0 == 0 then m else set m (seek - 1) 0))
  | suc c ↦ elim (join_step m seek) [ none ↦ none | some (m', seek') ↦ join_loop f m' seek' ]
]

-- What the two calls of `snprintf` leave in the buffer.
pub joined : Str → Str → Str
joined a b =
    if get_or b 0 0 == b'/'
    then take 4094 (b ++ b'/' ∷ [])
    else take 8192 (a ++ b'/' ∷ (b ++ b'/' ∷ []))

-- `__join_dirs`; `none` is a failed assertion or a walk out of the buffer.
pub join_dirs : Str → Str → Option Str
unfolding join_loop joined
join_dirs a b =
    if is_nil a || is_nil b
    then none
    else join_loop (length (joined a b ++ 0 ∷ [])) (joined a b ++ 0 ∷ []) 0

-- What the builtin asks of libc and of the kernel. `chdir` gives the state behind the call, with
-- its errno, and whether it succeeded.
pub record Os {ℓ} (E : Type ℓ) : Type ℓ where
  pub getenv : E → Str → Option Str
  pub setenv : E → Str → Str → E
  pub getcwd : E → Option Str
  pub chdir : E → Str → E × Bool
  pub strerror : E → Str

-- `perror(s)`
abbrev pub perror : Str → Str → Str
perror s message = s ++ (codes ": " ++ (message ++ codes "\n"))

-- `symtab_add(s, key, KV_WORD, value)->value.word.exported = 1`
pub add_exported : Symtab → Str → Str → Symtab
unfolding symtab_add set_exported
add_exported st key value =
    let (st', a) = symtab_add st key kv_word (some value) null in set_exported a st'

module _ {ℓ} {E : Type ℓ} (os : Os E) where
  -- `__get_working_directory`, into a buffer of `PATH_MAX` bytes; `none` is an overflow of it or
  -- a failed assertion.
  pub get_working_directory : E → Option Str
  get_working_directory e = elim (os.getenv e (codes "PWD")) [
    | some pwd ↦ if ltb (length pwd) path_max then some pwd else none
    | none ↦ os.getcwd e
  ]

  -- The part of `__chdir` behind the call of `chdir`.
  pub moved : Symtab → Str → Str → E × Bool → E × Run
  unfolding add_exported start
  moved st old_pwd new_pwd (e, false) = (
    e,
    record (start st) {
      err = codes "cd to dir " ++ (new_pwd ++ (codes " - " ++ perror (codes "cd") (os.strerror e)));
      ret = 1;
    },
  )
  moved st old_pwd new_pwd (e, true) = (
    os.setenv (os.setenv e (codes "PWD") new_pwd) (codes "OLDPWD") old_pwd,
    start (add_exported (add_exported st (codes "PWD") new_pwd) (codes "OLDPWD") old_pwd),
  )

  -- `__chdir`; NULL is `none`.
  pub change_dir : E → Symtab → Option Str → Option (E × Run)
  unfolding get_working_directory join_dirs moved start
  change_dir e st none =
      some
        (e, record (start st) { err = perror (codes "cd : dir was NULL") (os.strerror e); ret = 1 })
  change_dir e st (some dir) = elim (get_working_directory e) [
    | none ↦ none
    | some old_pwd ↦ elim (join_dirs old_pwd dir) [
      | none ↦ none
      | some new_pwd ↦ some (moved st old_pwd new_pwd (os.chdir e new_pwd))
    ]
  ]

  -- What `cd -` prints first.
  abbrev pub print_first : Str → E × Run → E × Run
  print_first s (e, r) = (e, record r { out = s ++ r.out })

  -- `bi_cd`, with its own name first. `none` stands for an assertion that fails, a buffer that
  -- overflows, and `cd -` with no OLDPWD, which prints NULL.
  pub bi_cd : E → Symtab → List Str → Option (E × Run)
  unfolding change_dir start
  bi_cd e st [] = none
  bi_cd e st (name ∷ []) = elim (os.getenv e (codes "HOME")) [
    | none ↦ some (e, start st)
    | some home ↦ if is_nil home then some (e, start st) else change_dir e st (some home)
  ]
  bi_cd e st (name ∷ dir ∷ args) =
      if str_eq dir (codes "-")
      then elim (os.getenv e (codes "OLDPWD")) [
        | none ↦ none
        | some old ↦ elim (change_dir e st (some old)) [
          | none ↦ none
          | some r ↦ some (print_first (old ++ codes "\n") r)
        ]
      ]
      else change_dir e st (some dir)
