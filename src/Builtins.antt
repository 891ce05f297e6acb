-- ===== src/Builtins.antt =====
-- The builtins that work on the symbol table: bi_alias.c, bi_export.c, bi_unalias.c and bi_unset.c.
-- A builtin gets its arguments without the NULL at the end, its own name first.
mod Tests
pub mod Unset
pub mod Unalias
pub mod Export
pub mod Echo
pub mod Cd
use epita_42sh.Ast.{null}
use epita_42sh.Base.Text.{Str, codes, str_eq, split_at}
use epita_42sh.Base.{
  ℕ, Bool, true, false, ◌&&◌, ◌||◌, Option, none, some, List, [], ◌∷◌, ◌++◌, if◌then◌else◌, ◌==◌,
}
use epita_42sh.Symtab.Print.{symtab_print}
use epita_42sh.Symtab.{
  KvPair, Symtab, SymKind, kv_word, kv_func, kv_alias, kind_eq, symtab_lookup, symtab_add,
  symtab_del, set_exported,
}

-- The table, what was printed, and the value that the builtin returns.
pub record Run : Type 0 where
  pub st : Symtab
  pub out : Str
  pub err : Str
  pub ret : ℕ

pub start : Symtab → Run
start st = record { st = st; out = []; err = []; ret = 0 }

-- What `%s` prints; glibc writes `(null)` for NULL.
print_string : Option Str → Str
print_string none = codes "(null)"
print_string (some s) = s

print_alias : KvPair → Run → Run
unfolding print_string
print_alias kv r = record r {
  out = r.out ++ (kv.key ++ (codes "='" ++ (print_string kv.word ++ codes "'\n")));
}

print_chain_aliases : List KvPair → Run → Run
unfolding print_alias
print_chain_aliases [] r = r
print_chain_aliases (kv ∷ c) r =
    print_chain_aliases c (if kind_eq kv.kind kv_alias then print_alias kv r else r)

print_all_aliases : List (List KvPair) → Run → Run
unfolding print_chain_aliases
print_all_aliases [] r = r
print_all_aliases (c ∷ cs) r = print_all_aliases cs (print_chain_aliases c r)

-- `if (!pair || pair->type != kind)` fails.
pub of_kind : SymKind → Option KvPair → Option KvPair
of_kind kind none = none
of_kind kind (some kv) = if kind_eq kv.kind kind then some kv else none

alias_arg : Str → Run → Run
unfolding of_kind print_alias symtab_add
alias_arg arg r = elim (split_at b'=' arg) [
  | some (key, value) ↦ record r { st = (symtab_add r.st key kv_alias (some value) null).0 }
  | none ↦ elim (of_kind kv_alias (symtab_lookup r.st arg kv_alias)) [
    | none ↦ record r { err = r.err ++ (codes "alias: " ++ (arg ++ codes " not found\n")); ret = 1 }
    | some kv ↦ print_alias kv r
  ]
]

alias_args : List Str → Run → Run
unfolding alias_arg
alias_args [] r = r
alias_args (arg ∷ args) r = alias_args args (alias_arg arg r)

pub bi_alias : Symtab → List Str → Run
unfolding alias_args print_all_aliases start
bi_alias st [] = start st
bi_alias st (name ∷ []) = print_all_aliases st.data_ (start st)
bi_alias st (name ∷ (arg ∷ args)) = alias_args (arg ∷ args) (start st)

pub export_arg : Str → Symtab → Symtab
unfolding symtab_add set_exported
export_arg arg st = elim (split_at b'=' arg) [
  | some (key, value) ↦
      let (st', a) = symtab_add st key kv_word (some value) null in set_exported a st'
  | none ↦ elim (symtab_lookup st arg kv_word) [
    | some kv ↦ set_exported kv.addr st
    | none ↦ let (st', a) = symtab_add st arg kv_word (some []) null in set_exported a st'
  ]
]

pub export_args : List Str → Symtab → Symtab
unfolding export_arg
export_args [] st = st
export_args (arg ∷ args) st = export_args args (export_arg arg st)

pub bi_export : Symtab → List Str → Run
unfolding export_args start symtab_print
bi_export st [] = start st
bi_export st (name ∷ []) = record (start st) { out = symtab_print st }
bi_export st (name ∷ (arg ∷ args)) = start (export_args (arg ∷ args) st)

-- The loop saves `next` before a node goes, and only the node's own bucket changes: it runs over
-- the nodes that the bucket had.
pub delete_chain_aliases : List KvPair → Symtab → Symtab
delete_chain_aliases [] st = st
delete_chain_aliases (kv ∷ c) st =
    delete_chain_aliases c (if kind_eq kv.kind kv_alias then symtab_del st kv else st)

pub delete_all_aliases : List (List KvPair) → Symtab → Symtab
unfolding delete_chain_aliases
delete_all_aliases [] st = st
delete_all_aliases (c ∷ cs) st = delete_all_aliases cs (delete_chain_aliases c st)

-- `symtab_lookup`, the test of the type, and `symtab_del`; the flag says whether it was there.
pub remove : Str → SymKind → Symtab → Symtab × Bool
unfolding of_kind
remove key kind st = elim (of_kind kind (symtab_lookup st key kind)) [
  | none ↦ (st, false)
  | some kv ↦ (symtab_del st kv, true)
]

unalias_args : List Str → Run → Run
unfolding remove
unalias_args [] r = r
unalias_args (arg ∷ args) r =
    let (st, there) = remove arg kv_alias r.st in
    unalias_args args (
      if there then record r { st = st } else record r {
        err = r.err ++ (codes "unalias: " ++ (arg ++ codes " not found\n"));
        ret = 1;
      })

pub bi_unalias : Symtab → List Str → Run
unfolding unalias_args delete_all_aliases start
bi_unalias st [] = start st
bi_unalias st (name ∷ []) = start st
bi_unalias st (name ∷ (arg ∷ args)) =
    if str_eq arg (codes "-a")
    then start (delete_all_aliases st.data_ st)
    else unalias_args (arg ∷ args) (start st)

-- The bits WORD and FUNC of the mode of `unset`; DEFAULT_MODE has neither.
pub record Mode : Type 0 where
  pub word : Bool
  pub func : Bool

-- The letters of one option; `none` is an illegal one.
pub parse_option : Str → Mode → Option Mode
parse_option [] m = some m
parse_option (c ∷ s) m =
    let as_func = parse_option s (record m { func = true }) in
    let as_word = parse_option s (record m { word = true }) in
    if c == b'f' then as_func else if c == b'v' then as_word else none

-- The arguments behind the options, with the mode; `none` is `*ret = 2` with NULL.
pub parse_args : List Str → Mode → Option (List Str × Mode)
unfolding parse_option
parse_args [] m = some ([], m)
parse_args ([] ∷ args) m = some ([] ∷ args, m)
parse_args ((c ∷ s) ∷ args) m =
    let next : Option (List Str × Mode) = elim (parse_option s m) [
      | none ↦ none
      | some m' ↦ parse_args args m'
    ] in
    if c == b'-' then elim s [ [] ↦ none | _ ↦ next ] else some ((c ∷ s) ∷ args, m)

pub unset_arg : Mode → Str → Symtab → Symtab
unfolding remove
unset_arg m key st =
    let default_mode = if m.word then false else if m.func then false else true in
    let st' = if default_mode || m.word then (remove key kv_word st).0 else st in
    if m.func then (remove key kv_func st').0 else st'

pub unset_args : Mode → List Str → Symtab → Symtab
unfolding unset_arg
unset_args m [] st = st
unset_args m (key ∷ args) st = unset_args m args (unset_arg m key st)

-- The messages of `unset` are left out.
pub bi_unset : Symtab → List Str → Run
unfolding parse_args unset_args start
bi_unset st [] = start st
bi_unset st (name ∷ args) = elim (parse_args args (record { word = false; func = false })) [
  | none ↦ record (start st) { ret = 2 }
  | some (keys, m) ↦ start (unset_args m keys st)
]
