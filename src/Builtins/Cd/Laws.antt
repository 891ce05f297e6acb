-- ===== src/Builtins/Cd/Laws.antt =====
-- `__chdir` and `bi_cd`: the environment and the symbol table agree on the new directory.
use epita_42sh.Base.Text.{Str, codes, str_eq}
use epita_42sh.Base.{
  ℕ, ◌≡◌, ◌≢◌, refl, ◌∙◌, ap, Bool, true, false, some, List, [], ◌∷◌, ◌++◌, get_or, length, ◌<◌,
  is_nil, All, lt→ltb, arith,
}
use epita_42sh.Builtins.Cd.{
  Os, add_exported, get_working_directory, moved, change_dir, join_dirs, bi_cd, path_max,
}
use epita_42sh.Builtins.Cd.Dirs.{slashed, join_dirs-relative}
use epita_42sh.Builtins.Cd.Path.{Clean, path_of, resolve}
use epita_42sh.Builtins.Export.{Effect, add_exported-Effect}
use epita_42sh.Builtins.{Run, start}
use epita_42sh.Symtab.Entry.{same_entry}
use epita_42sh.Symtab.Valid.{IsValid}
use epita_42sh.Symtab.{KvPair, Symtab, SymKind, kv_word, symtab_lookup}

-- What libc promises of `setenv`.
pub record EnvLaws {ℓ} {E : Type ℓ} (os : Os E) : Type ℓ where
  pub set : (e : E) (k v : Str) → os.getenv (os.setenv e k v) k ≡ some v
  pub keep : (e : E) (k v k' : Str) → k ≢ k' → os.getenv (os.setenv e k v) k' ≡ os.getenv e k'

-- A variable that the environment and the table both have, exported, with the value.
pub record Agrees {ℓ} {E : Type ℓ} (os : Os E) (e : E) (st : Symtab) (key value : Str)
    : Type ℓ where
  pub env : os.getenv e key ≡ some value
  pub node : KvPair
  pub found : symtab_lookup st key kv_word ≡ some node
  pub word : node.word ≡ some value
  pub exported : node.exported ≡ true

-- A directory was entered.
pub record Entered {ℓ} {E : Type ℓ} (os : Os E) (st : Symtab) (old_pwd new_pwd : Str) (r : E × Run)
    : Type ℓ where
  pub valid : IsValid r.1.st
  pub pwd : Agrees os r.0 r.1.st (codes "PWD") new_pwd
  pub old : Agrees os r.0 r.1.st (codes "OLDPWD") old_pwd
  pub ret : r.1.ret ≡ 0
  pub others :
      (key : Str) (kind : SymKind)
      → same_entry (codes "PWD") kv_word key kind ≡ false
      → same_entry (codes "OLDPWD") kv_word key kind ≡ false
      → symtab_lookup r.1.st key kind ≡ symtab_lookup st key kind

pwd_ne : codes "OLDPWD" ≢ codes "PWD"
pwd_ne h = first_ne (ap (λ s. get_or s 0 0) h)
  where
    first_ne : ◌≢◌ {A = ℕ} b'O' b'P'
    first_ne e = omega arith

add_exported-agrees :
    (st : Symtab) (key value : Str)
    → IsValid st
    → Effect st key (some value) (add_exported st key value)
unfolding add_exported
add_exported-agrees st key value v = add_exported-Effect st key value v

-- What `cd` leaves when the kernel's answer is `ok`, with the state `e` behind it.
pub data Outcome {ℓ} {E : Type ℓ} (os : Os E) (st : Symtab) (old_pwd new_pwd : Str) (e : E)
    : Bool → E × Run → Type ℓ where
  entered : {r : E × Run} → Entered os st old_pwd new_pwd r → Outcome os st old_pwd new_pwd e true r
  refused :
      {r : E × Run}
      → r.0 ≡ e
      → r.1.st ≡ st
      → r.1.ret ≡ 1
      → r.1.out ≡ []
      → Outcome os st old_pwd new_pwd e false r

module _ {ℓ} {E : Type ℓ} (os : Os E) (laws : EnvLaws os) where
  moved-Entered :
      (st : Symtab) (old_pwd new_pwd : Str) (e : E)
      → IsValid st
      → Entered os st old_pwd new_pwd (moved os st old_pwd new_pwd (e, true))
  unfolding moved start str_eq
  moved-Entered st old_pwd new_pwd e v =
      let x = add_exported-agrees st (codes "PWD") new_pwd v in
      let y =
        add_exported-agrees (add_exported st (codes "PWD") new_pwd) (codes "OLDPWD") old_pwd
          x.valid in
      record {
        valid = y.valid;
        pwd = record {
          env =
              laws.keep (os.setenv e (codes "PWD") new_pwd) (codes "OLDPWD") old_pwd (codes "PWD")
                pwd_ne
              ∙ laws.set e (codes "PWD") new_pwd;
          node = x.node;
          found = y.others (codes "PWD") kv_word refl ∙ x.self;
          word = x.word;
          exported = x.exported;
        };
        old = record {
          env = laws.set (os.setenv e (codes "PWD") new_pwd) (codes "OLDPWD") old_pwd;
          node = y.node;
          found = y.self;
          word = y.word;
          exported = y.exported;
        };
        ret = refl;
        others = λ k t a b. y.others k t b ∙ x.others k t a;
      }

  moved-Outcome :
      (st : Symtab) (old_pwd new_pwd : Str) (e : E) (ok : Bool)
      → IsValid st
      → Outcome os st old_pwd new_pwd e ok (moved os st old_pwd new_pwd (e, ok))
  unfolding moved start
  moved-Outcome st old_pwd new_pwd e true v = entered (moved-Entered st old_pwd new_pwd e v)
  moved-Outcome st old_pwd new_pwd e false v = refused refl refl refl refl

  bi_cd-dir :
      (e e' : E) (st : Symtab) (name dir old_pwd new_pwd : Str) (args : List Str) (ok : Bool)
      → IsValid st
      → str_eq dir (codes "-") ≡ false
      → os.getenv e (codes "PWD") ≡ some old_pwd
      → length old_pwd < path_max
      → join_dirs old_pwd dir ≡ some new_pwd
      → os.chdir e new_pwd ≡ (e', ok)
      → (r : E × Run) × (bi_cd os e st (name ∷ dir ∷ args) ≡ some r)
        × Outcome os st old_pwd new_pwd e' ok r
  unfolding bi_cd
  bi_cd-dir e e' st name dir old_pwd new_pwd args ok v plain env fits joins answer = (
    moved os st old_pwd new_pwd (e', ok),
    rw
        (
          bi_cd,
          plain,
          change_dir,
          get_working_directory,
          env,
          lt→ltb (length old_pwd) path_max fits,
          joins,
          answer,
        )
        refl,
    moved-Outcome st old_pwd new_pwd e' ok v,
  )

  -- `cd` to a relative path, on a well-formed table, when PWD is an absolute path whose components
  -- are clean and the paths fit their buffers: it asks the kernel for the components of both,
  -- resolved from the root. When the kernel agrees, PWD and OLDPWD are, in the environment and
  -- exported in the table, the new directory and the one before, every other entry is untouched, and
  -- the value is 0; when it refuses, the table stays and the value is 1.
  pub bi_cd-relative :
      (e e' : E) (st : Symtab) (name a b : Str) (cs ds args : List Str) (ok : Bool)
      → IsValid st
      → os.getenv e (codes "PWD") ≡ some (slashed (a ∷ cs))
      → All Clean (a ∷ cs)
      → All Clean (b ∷ ds)
      → is_nil b ≡ false
      → str_eq (b ++ slashed ds) (codes "-") ≡ false
      → length (slashed (a ∷ cs)) < path_max
      → length (b ++ slashed ds) < path_max
      → os.chdir e (path_of (resolve [] ((a ∷ cs) ++ (b ∷ ds)))) ≡ (e', ok)
      → (r : E × Run) × (bi_cd os e st (name ∷ (b ++ slashed ds) ∷ args) ≡ some r)
        × Outcome os st (slashed (a ∷ cs)) (path_of (resolve [] ((a ∷ cs) ++ (b ∷ ds)))) e' ok r
  bi_cd-relative e e' st name a b cs ds args ok v env ca cb nb plain fits fits' answer =
      bi_cd-dir e e' st name (b ++ slashed ds) (slashed (a ∷ cs))
        (path_of (resolve [] ((a ∷ cs) ++ (b ∷ ds)))) args ok v plain env fits
        (join_dirs-relative a b cs ds ca cb nb (omega arith)) answer
