-- ===== src/Builtins/Unalias.antt =====
-- `unalias -a` of bi_unalias.c removes the aliases and nothing else.
use epita_42sh.Base.Text.{Str, codes, str_eq_refl}
use epita_42sh.Base.{
  ◌≤◌, ◌≡◌, refl, ◌∙◌, sym, ap, subst, inl, inr, true, false, none, some, List, [], ◌∷◌, ◌++◌,
  flatten, Bool-cases, arith,
}
use epita_42sh.Builtins.{start, delete_chain_aliases, delete_all_aliases, bi_unalias}
use epita_42sh.Symtab.Clone.{wanted_self}
use epita_42sh.Symtab.Del.{Deletes, symtab_del-Deletes}
use epita_42sh.Symtab.Entry.{
  same_entry, same_entry_sound, kind_eq_refl, kind_eq_sound, wanted_parts, wanted_other,
}
use epita_42sh.Symtab.Nodes.{count, bit, find-eq-none}
use epita_42sh.Symtab.Valid.{nodes, wanted, bad_hash, IsValid, symtab_lookup-nodes}
use epita_42sh.Symtab.{KvPair, Symtab, SymKind, kv_alias, kind_eq, find, symtab_lookup, symtab_del}

-- `st'` is `st` without its aliases.
pub record Leaves (st st' : Symtab) : Type 0 where
  pub valid : IsValid st'
  pub aliases : (key : Str) → symtab_lookup st' key kv_alias ≡ none
  pub others :
      (key : Str) (kind : SymKind)
      → kind_eq kv_alias kind ≡ false
      → symtab_lookup st' key kind ≡ symtab_lookup st key kind

abbrev Lists : List KvPair → Symtab → Type 0
Lists l st = (key : Str) → symtab_lookup st key kv_alias ≡ find (wanted key kv_alias) l

abbrev Once : List KvPair → Type 0
Once l = (key : Str) → count (wanted key kv_alias) l ≤ 1

not_alias :
    (kv : KvPair) (key : Str) → kind_eq kv.kind kv_alias ≡ false → wanted key kv_alias kv ≡ false
not_alias kv key ne = elim (Bool-cases (wanted key kv_alias kv)) [
  | inr e ↦ e
  | inl e ↦
      let same : kind_eq kv.kind kv_alias ≡ true =
        rw (wanted_parts key kv_alias kv e).2 (kind_eq_refl kv_alias) in
      cc
]

-- One alias goes.
module _ (kv : KvPair) (l : List KvPair) (st : Symtab) (v : IsValid st)
    (asked : wanted kv.key kv.kind kv ≡ true) (alias : kv.kind ≡ kv_alias) (once : Once (kv ∷ l))
    (lists : Lists (kv ∷ l) st) where
  asked_alias : wanted kv.key kv_alias kv ≡ true
  asked_alias = subst (λ k. wanted kv.key k kv ≡ true) alias asked

  there : symtab_lookup st kv.key kv_alias ≡ some kv
  unfolding find
  there = lists kv.key ∙ rw asked_alias

  deleted : Deletes st kv.key kv_alias kv
  deleted = symtab_del-Deletes st kv.key kv_alias kv v there

  deleted-Lists : Lists l (symtab_del st kv)
  unfolding find count
  deleted-Lists key = elim (Bool-cases (same_entry kv.key kv_alias key kv_alias)) [
    | inl e ↦
        let (same, _) = same_entry_sound kv.key key kv_alias kv_alias e in
        let few : count (wanted kv.key kv_alias) l ≡ 0 =
          ground (arith, once kv.key, ap bit asked_alias) in
        rw (← same, deleted.gone) (sym (find-eq-none (wanted kv.key kv_alias) l few))
    | inr ne ↦
        let past : find (wanted key kv_alias) (kv ∷ l) ≡ find (wanted key kv_alias) l =
          rw (wanted_other kv.key key kv_alias kv_alias kv asked_alias ne) in
        deleted.others key kv_alias ne ∙ lists key ∙ past
  ]

delete_chain-Leaves :
    (l : List KvPair) (st : Symtab)
    → IsValid st
    → count bad_hash l ≡ 0
    → Once l
    → Lists l st
    → Leaves st (delete_chain_aliases l st)
unfolding delete_chain_aliases count find
delete_chain-Leaves [] st v good once lists = record {
  valid = v;
  aliases = lists;
  others = λ k t ne. refl;
}
delete_chain-Leaves (kv ∷ l) st v good once lists = elim (Bool-cases (kind_eq kv.kind kv_alias)) [
  | inr other ↦
      let past : Lists l st = λ k. lists k ∙ (rw (not_alias kv k other)) in
      let r = delete_chain-Leaves l st v (ground arith) (λ k. omega (arith, once k)) past in
      rw other r
  | inl is_alias ↦
      let alias = kind_eq_sound kv.kind kv_alias is_alias in
      let asked = wanted_self kv (ground arith) in
      let d = deleted kv l st v asked alias once lists in
      let r =
        delete_chain-Leaves l (symtab_del st kv) d.valid (ground arith) (λ k. omega (arith, once k))
          (deleted-Lists kv l st v asked alias once lists) in
      rw is_alias (record {
        valid = r.valid;
        aliases = r.aliases;
        others = λ k t ne. r.others k t ne ∙ d.others k t (rw ne (ground arith));
      })
]

delete_chain-append :
    (a b : List KvPair) (st : Symtab)
    → delete_chain_aliases (a ++ b) st ≡ delete_chain_aliases b (delete_chain_aliases a st)
unfolding delete_chain_aliases
delete_chain-append [] b st = refl
delete_chain-append (kv ∷ a) b st = delete_chain-append a b _

-- The two nested loops are one loop over the nodes.
delete_all-flatten :
    (d : List (List KvPair)) (st : Symtab)
    → delete_all_aliases d st ≡ delete_chain_aliases (flatten d) st
unfolding delete_all_aliases delete_chain_aliases flatten
delete_all-flatten [] st = refl
delete_all-flatten (c ∷ d) st =
    delete_all-flatten d (delete_chain_aliases c st) ∙ sym (delete_chain-append c (flatten d) st)

-- `unalias -a` on a well-formed table returns 0 and leaves a well-formed table with no alias, where words and functions
-- are found as before.
pub bi_unalias-all :
    (st : Symtab) (name : Str) (rest : List Str)
    → IsValid st
    → Leaves st (bi_unalias st (name ∷ (codes "-a" ∷ rest))).st
      × ((bi_unalias st (name ∷ (codes "-a" ∷ rest))).ret ≡ 0)
unfolding bi_unalias start
bi_unalias-all st name rest v =
    let l =
      delete_chain-Leaves (nodes st) st v v.hashed (λ k. v.unique k kv_alias)
        (λ k. symtab_lookup-nodes st k kv_alias v.buckets) in
    rw (str_eq_refl (codes "-a")) (rw (delete_all-flatten st.data_ st) l, refl)
