-- ===== src/Builtins/Unset.antt =====
-- `bi_unset` of bi_unset.c and `bi_unalias` of bi_unalias.c: which entries they remove.
pub mod Options
pub mod Outcome
use epita_42sh.Base.Text.{Str, str_eq}
use epita_42sh.Base.{
  ◌≡◌, refl, ◌∙◌, sym, ◌⊎◌, inl, inr, subst, Bool, true, false, not, ◌||◌, Option, none, some, List,
  [], ◌∷◌, All, if◌then◌else◌, Bool-cases, arith,
}
use epita_42sh.Builtins.{Mode, Run, of_kind, remove, parse_args, unset_arg, unset_args, bi_unset}
use epita_42sh.Symtab.Del.{symtab_del-Deletes}
use epita_42sh.Symtab.Entry.{same_entry, same_entry_sound, kind_eq_refl, wanted_parts}
use epita_42sh.Symtab.Nodes.{find_holds}
use epita_42sh.Symtab.Valid.{nodes, wanted, IsValid, symtab_lookup-nodes}
use epita_42sh.Symtab.{KvPair, Symtab, SymKind, kv_word, kv_func, kv_alias, kind_eq, symtab_lookup}

-- One removal: the entry is gone, the others are found as before.
record Removed (st : Symtab) (key : Str) (kind : SymKind) (st' : Symtab) : Type 0 where
  valid : IsValid st'
  gone : symtab_lookup st' key kind ≡ none
  others :
      (key' : Str) (kind' : SymKind)
      → same_entry key kind key' kind' ≡ false
      → symtab_lookup st' key' kind' ≡ symtab_lookup st key' kind'

remove-Removed :
    (st : Symtab) (key : Str) (kind : SymKind)
    → IsValid st
    → Removed st key kind (remove key kind st).0
unfolding remove of_kind
remove-Removed st key kind v = go (symtab_lookup st key kind) refl
  where
    go :
        (o : Option KvPair)
        → symtab_lookup st key kind ≡ o
        → Removed st key kind (remove key kind st).0
    go none e = rw (e, remove) (record { valid = v; gone = e; others = λ k t ne. refl })
    go (some kv) e =
        let found = sym (symtab_lookup-nodes st key kind v.buckets) ∙ e in
        let asked = find_holds (wanted key kind) (nodes st) kv found in
        let d = symtab_del-Deletes st key kind kv v e in
        let same : kind_eq kv.kind kind ≡ true =
          rw (wanted_parts key kind kv asked).2 (kind_eq_refl kind) in
        rw (e, remove, same, of_kind) (record { valid = d.valid; gone = d.gone; others = d.others })

-- Which kinds of entries a mode of `unset` is about: words by default and with `-v`, functions
-- with `-f`, aliases never.
abbrev targets : Mode → SymKind → Bool
targets m kv_word = m.word || not m.func
targets m kv_func = m.func
targets m kv_alias = false

-- All the keys are gone in the kinds aimed at; the rest is found as before.
pub record Unset (m : Mode) (keys : List Str) (st st' : Symtab) : Type 0 where
  pub valid : IsValid st'
  pub gone :
      (kind : SymKind) → targets m kind ≡ true → All (λ key. symtab_lookup st' key kind ≡ none) keys
  pub absent :
      (key : Str) (kind : SymKind)
      → symtab_lookup st key kind ≡ none
      → symtab_lookup st' key kind ≡ none
  pub others :
      (key : Str) (kind : SymKind)
      → (targets m kind ≡ false) ⊎ All (λ k. str_eq k key ≡ false) keys
      → symtab_lookup st' key kind ≡ symtab_lookup st key kind

-- One of the two tests of the loop body.
record Maybe (b : Bool) (key : Str) (kind : SymKind) (st st' : Symtab) : Type 0 where
  valid : IsValid st'
  gone : b ≡ true → symtab_lookup st' key kind ≡ none
  absent : (k : Str) (t : SymKind) → symtab_lookup st k t ≡ none → symtab_lookup st' k t ≡ none
  others :
      (k : Str) (t : SymKind)
      → (b ≡ false) ⊎ (same_entry key kind k t ≡ false)
      → symtab_lookup st' k t ≡ symtab_lookup st k t

Maybe-remove :
    (b : Bool) (key : Str) (kind : SymKind) (st : Symtab)
    → IsValid st
    → Maybe b key kind st (if b then (remove key kind st).0 else st)
Maybe-remove false key kind st v = record {
  valid = v;
  gone = λ h. cc;
  absent = λ k t e. e;
  others = λ k t h. refl;
}
Maybe-remove true key kind st v =
    let r = remove-Removed st key kind v in
    record {
      valid = r.valid;
      gone = λ h. r.gone;
      absent = λ k t e. elim (Bool-cases (same_entry key kind k t)) [
        | inl same ↦ let (a, b) = same_entry_sound key k kind t same in rw (← a, ← b) r.gone
        | inr ne ↦ r.others k t ne ∙ e
      ];
      others = λ k t h. elim h [ inl e ↦ absurd (cc) | inr ne ↦ r.others k t ne ];
    }

-- The test for words, then the one for functions.
module _ (m : Mode) (key : Str) (st st' st'' : Symtab)
    (a : Maybe (targets m kv_word) key kv_word st st')
    (b : Maybe (targets m kv_func) key kv_func st' st'') where
  both_gone : (kind : SymKind) → targets m kind ≡ true → symtab_lookup st'' key kind ≡ none
  both_gone kv_word h = b.absent key kv_word (a.gone h)
  both_gone kv_func h = b.gone h
  both_gone kv_alias h = cc

  spared :
      (k : Str) (kind kind' : SymKind)
      → (targets m kind ≡ false) ⊎ (str_eq key k ≡ false)
      → (targets m kind' ≡ false) ⊎ (same_entry key kind' k kind ≡ false)
  unfolding kind_eq
  spared k kind kind' (inr ne) = inr (rw ne)
  spared k kv_word kv_word (inl e) = inl e
  spared k kv_func kv_func (inl e) = inl e
  spared k kv_alias kv_alias (inl e) = inl e
  spared k kind kind' (inl e) = inr (ground arith)

  both_others :
      (k : Str) (kind : SymKind)
      → (targets m kind ≡ false) ⊎ (str_eq key k ≡ false)
      → symtab_lookup st'' k kind ≡ symtab_lookup st k kind
  both_others k kind h =
      b.others k kind (spared k kind kv_func h) ∙ a.others k kind (spared k kind kv_word h)

-- The first test of the loop body.
abbrev as_word : Mode → Bool
as_word m = (if m.word then false else if m.func then false else true) || m.word

as_word-targets :
    (word func : Bool) → as_word (record { word = word; func = func }) ≡ (word || not func)
as_word-targets true func = refl
as_word-targets false true = refl
as_word-targets false false = refl

unset_arg-Unset :
    (m : Mode) (key : Str) (st : Symtab) → IsValid st → Unset m (key ∷ []) st (unset_arg m key st)
unfolding unset_arg
unset_arg-Unset m key st v =
    let st' = if as_word m then (remove key kv_word st).0 else st in
    let a : Maybe (targets m kv_word) key kv_word st st' =
      subst (λ b. Maybe b key kv_word st st') (as_word-targets m.word m.func)
        (Maybe-remove (as_word m) key kv_word st v) in
    let b = Maybe-remove (targets m kv_func) key kv_func st' a.valid in
    record {
      valid = b.valid;
      gone = λ kind h. (both_gone m key st st' _ a b kind h, tt);
      absent = λ k t e. b.absent k t (a.absent k t e);
      others =
          λ k t h. both_others m key st st' _ a b k t (elim h [ inl e ↦ inl e | inr e ↦ inr e.0 ]);
    }

pub unset_args-Unset :
    (m : Mode) (keys : List Str) (st : Symtab) → IsValid st → Unset m keys st (unset_args m keys st)
unfolding unset_args
unset_args-Unset m [] st v = record {
  valid = v;
  gone = λ kind h. tt;
  absent = λ k t e. e;
  others = λ k t h. refl;
}
unset_args-Unset m (key ∷ keys) st v =
    let x = unset_arg-Unset m key st v in
    let rest = unset_args-Unset m keys (unset_arg m key st) x.valid in
    record {
      valid = rest.valid;
      gone = λ kind h. (rest.absent key kind (x.gone kind h).0, rest.gone kind h);
      absent = λ k t e. rest.absent k t (x.absent k t e);
      others = λ k t h.
          rest.others k t (elim h [ inl e ↦ inl e | inr e ↦ inr e.1 ])
          ∙ x.others k t (elim h [ inl e ↦ inl e | inr e ↦ inr (e.0, tt) ]);
    }
