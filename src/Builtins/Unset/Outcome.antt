-- ===== src/Builtins/Unset/Outcome.antt =====
-- The whole of `bi_unset`: bi_unset.c.
use epita_42sh.Base.Text.{Str}
use epita_42sh.Base.{◌≡◌, refl, Bool, true, false, List, ◌∷◌}
use epita_42sh.Builtins.Unset.{Unset, unset_args-Unset}
use epita_42sh.Builtins.Unset.Options.{options_of, keys_of, all_legal, mode_of, parse_args-said}
use epita_42sh.Builtins.{Run, bi_unset}
use epita_42sh.Symtab.Valid.{IsValid}
use epita_42sh.Symtab.{Symtab}

-- The outcome of `unset` by what its options are, and whether they are legal.
abbrev pub UnsetOutcome : Symtab → List Str → Bool → Run → Type 0
UnsetOutcome st args false r = (r.st ≡ st) × (r.ret ≡ 2)
UnsetOutcome st args true r = Unset (mode_of (options_of args)) (keys_of args) st r.st × (r.ret ≡ 0)

-- `unset` on a well-formed table; its options are the arguments in front that start with a dash. If
-- one of them is a dash alone or has a letter that is not `f` or `v`, the table is left alone and
-- the builtin returns 2; otherwise it returns 0, each of the other arguments is gone as a variable,
-- unless there is an `f` and no `v`, and as a function if there is an `f`; all the rest is found as before.
pub bi_unset-Unset :
    (st : Symtab) (name : Str) (args : List Str)
    → IsValid st
    → UnsetOutcome st args (all_legal (options_of args)) (bi_unset st (name ∷ args))
unfolding bi_unset
bi_unset-Unset st name args v = go (all_legal (options_of args)) refl
  where
    go :
        (b : Bool)
        → all_legal (options_of args) ≡ b
        → UnsetOutcome st args b (bi_unset st (name ∷ args))
    go false e = rw (parse_args-said args, bi_unset, e) (refl, refl)
    go true e =
        rw (parse_args-said args, bi_unset, e)
          (unset_args-Unset (mode_of (options_of args)) (keys_of args) st v, refl)
