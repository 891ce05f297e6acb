-- ===== src/Builtins/Export.antt =====
-- `bi_export` of bi_export.c: what `export` leaves in the table.
use epita_42sh.Ast.{null}
use epita_42sh.Base.Text.{Str, split_at, str_eq, str_eq_sound}
use epita_42sh.Base.{
  ◌≡◌, refl, sym, ap, ◌∙◌, ◌⊎◌, if◌then◌else◌, inl, inr, true, false, Option, none, some, List, [],
  ◌∷◌, All, Bool-cases,
}
use epita_42sh.Builtins.{export_arg, export_args, bi_export}
use epita_42sh.Symtab.Add.{symtab_add-Adds}
use epita_42sh.Symtab.Exported.{set_exported-Exports}
use epita_42sh.Symtab.Entry.{same_entry, same_entry_sound, added}
use epita_42sh.Symtab.Valid.{IsValid}
use epita_42sh.Symtab.{
  KvPair, Symtab, SymKind, kv_word, symtab_lookup, symtab_add, set_exported, set_kv,
}

-- The variable that an argument of `export` names.
abbrev export_name : Str → Str
export_name arg = elim (split_at b'=' arg) [ some (key, value) ↦ key | none ↦ arg ]

-- The value of a variable, empty for one that is not there.
abbrev pub word_of : Option KvPair → Option Str
word_of (some kv) = kv.word
word_of none = some []

abbrev pub value_of : Symtab → Str → Option Str
value_of st key = word_of (symtab_lookup st key kv_word)

-- The value that it has afterwards.
abbrev export_value : Symtab → Str → Option Str
export_value st arg = elim (split_at b'=' arg) [
  | some (key, value) ↦ some value
  | none ↦ value_of st arg
]

abbrev IsExported : Symtab → Str → Type 0
IsExported st key = (kv : KvPair) × (symtab_lookup st key kv_word ≡ some kv) × (kv.exported ≡ true)

pub record Effect (st : Symtab) (key : Str) (w : Option Str) (st' : Symtab) : Type 0 where
  pub valid : IsValid st'
  pub node : KvPair
  pub self : symtab_lookup st' key kv_word ≡ some node
  pub exported : node.exported ≡ true
  pub word : node.word ≡ w
  pub others :
      (key' : Str) (kind' : SymKind)
      → same_entry key kv_word key' kind' ≡ false
      → symtab_lookup st' key' kind' ≡ symtab_lookup st key' kind'

added-word :
    (st : Symtab) (key value : Str) → (added st key kv_word (some value) null).word ≡ some value
unfolding set_kv
added-word st key value = go (symtab_lookup st key kv_word) refl
  where
    go :
        (o : Option KvPair)
        → symtab_lookup st key kv_word ≡ o
        → (added st key kv_word (some value) null).word ≡ some value
    go none e = rw (e, added)
    go (some kv) e = rw (e, added)

-- `symtab_add(...)->value.word.exported = true`
pub add_exported-Effect :
    (st : Symtab) (key value : Str)
    → IsValid st
    → let r = symtab_add st key kv_word (some value) null in
      Effect st key (some value) (set_exported r.1 r.0)
add_exported-Effect st key value v =
    let r = symtab_add-Adds st key kv_word (some value) null v in
    let e =
      set_exported-Exports (symtab_add st key kv_word (some value) null).0 key kv_word _ r.valid
        r.self in
    rw r.pointer (record {
      valid = e.valid;
      node = record (added st key kv_word (some value) null) { exported = true };
      self = e.self;
      exported = refl;
      word = added-word st key value;
      others = λ k t ne. e.others k t ne ∙ r.others k t ne;
    })

-- One argument of `export`, in each of its three cases.
export_arg-Effect :
    (st : Symtab) (arg : Str)
    → IsValid st
    → Effect st (export_name arg) (export_value st arg) (export_arg arg st)
unfolding export_arg
export_arg-Effect st arg v = go (split_at b'=' arg) refl (symtab_lookup st arg kv_word) refl
  where
    go :
        (o : Option (Str × Str))
        → split_at b'=' arg ≡ o
        → (l : Option KvPair) → symtab_lookup st arg kv_word ≡ l
        → Effect st (export_name arg) (export_value st arg) (export_arg arg st)
    go (some (key, value)) e l e' =
        rw (e, export_name, export_value, export_arg) (add_exported-Effect st key value v)
    go none e none e' =
        rw (e, e', export_name, export_value, export_arg) (add_exported-Effect st arg [] v)
    go none e (some kv) e' =
        let x = set_exported-Exports st arg kv_word kv v e' in
        rw (e, e', export_name, export_value, export_arg)
          (record {
            valid = x.valid;
            node = record kv { exported = true };
            self = x.self;
            exported = refl;
            word = refl;
            others = x.others;
          })

-- A variable that is exported stays exported, whatever is exported next.
keeps_IsExported :
    (st st' : Symtab) (key key' : Str) (w : Option Str)
    → Effect st key w st'
    → IsExported st key'
    → IsExported st' key'
keeps_IsExported st st' key key' w x (kv, e, flag) =
    elim (Bool-cases (same_entry key kv_word key' kv_word)) [
      | inl same ↦
          let (k, _) = same_entry_sound key key' kv_word kv_word same in
          rw (← k) (x.node, x.self, x.exported)
      | inr ne ↦ (kv, x.others key' kv_word ne ∙ e, flag)
    ]

-- What one argument makes of the value of a variable, by its two sides of `=`.
abbrev pub given : Option (Str × Str) → Str → Option Str → Option Str
given (some (name, value)) key w = if str_eq name key then some value else w
given none key w = w

-- What arguments make of it: the last `key=value` gives it, if there is one.
abbrev pub last_value : List Str → Str → Option Str → Option Str
last_value [] key w = w
last_value (arg ∷ args) key w = last_value args key (given (split_at b'=' arg) key w)

-- An argument that has a value gives it to the variable; one without keeps the value.
export_arg-value :
    (st : Symtab) (arg key : Str)
    → IsValid st
    → value_of (export_arg arg st) key ≡ last_value (arg ∷ []) key (value_of st key)
export_arg-value st arg key v = go (split_at b'=' arg) refl (export_arg-Effect st arg v)
  where
    after :
        (name : Str) (w : Option Str) (st' : Symtab)
        → Effect st name w st'
        → value_of st' key ≡ (if str_eq name key then w else value_of st key)
    after name w st' x = elim (Bool-cases (str_eq name key)) [
      | inl same ↦
          let e : name ≡ key = str_eq_sound name key same in
          let found : symtab_lookup st' key kv_word ≡ some x.node = rw (← e) x.self in
          rw same (ap word_of found ∙ x.word)
      | inr ne ↦
          let apart : same_entry name kv_word key kv_word ≡ false = rw ne refl in
          rw ne (ap word_of (x.others key kv_word apart))
    ]

    go :
        (o : Option (Str × Str))
        → split_at b'=' arg ≡ o
        → Effect st (export_name arg) (export_value st arg) (export_arg arg st)
        → value_of (export_arg arg st) key ≡ last_value (arg ∷ []) key (value_of st key)
    go (some (name, value)) e x =
        after name (some value) (export_arg arg st) (rw (e, export_name, export_value) at x)
        ∙ ap (λ o. given o key (value_of st key)) (sym e)
    go none e x =
        after arg (value_of st arg) (export_arg arg st) (rw (e, export_name, export_value) at x)
        ∙ own (Bool-cases (str_eq arg key))
        ∙ ap (λ o. given o key (value_of st key)) (sym e)
      where
        own :
            (str_eq arg key ≡ true) ⊎ (str_eq arg key ≡ false)
            → (if str_eq arg key then value_of st arg else value_of st key) ≡ value_of st key
        own (inl same) = rw same (ap (value_of st) (str_eq_sound arg key same))
        own (inr ne) = rw ne refl

pub record Exported (st : Symtab) (args : List Str) (st' : Symtab) : Type 0 where
  pub valid : IsValid st'
  pub all : All (λ arg. IsExported st' (export_name arg)) args
  pub kept : (key : Str) → IsExported st key → IsExported st' key
  pub values : (key : Str) → value_of st' key ≡ last_value args key (value_of st key)
  pub others :
      (key : Str) (kind : SymKind)
      → All (λ arg. same_entry (export_name arg) kv_word key kind ≡ false) args
      → symtab_lookup st' key kind ≡ symtab_lookup st key kind

export_args-Exported :
    (args : List Str) (st : Symtab) → IsValid st → Exported st args (export_args args st)
unfolding export_args
export_args-Exported [] st v = record {
  valid = v;
  all = tt;
  kept = λ k x. x;
  values = λ k. refl;
  others = λ k t none_named. refl;
}
export_args-Exported (arg ∷ args) st v =
    let x = export_arg-Effect st arg v in
    let rest = export_args-Exported args (export_arg arg st) x.valid in
    record {
      valid = rest.valid;
      all = (rest.kept (export_name arg) (x.node, x.self, x.exported), rest.all);
      kept = λ k e. rest.kept k (keeps_IsExported st (export_arg arg st) (export_name arg) k _ x e);
      values = λ k. rest.values k ∙ ap (last_value args k) (export_arg-value st arg k v);
      others = λ k t apart. rest.others k t apart.1 ∙ x.others k t apart.0;
    }

-- `export` with any arguments, on a well-formed table: the table stays well-formed, each variable
-- that is named is there and exported, what was exported stays so, the value of each variable is the
-- one that the last argument that has one for it gives, or else the one that it had (empty if it
-- was not there), every other entry is untouched, and the builtin returns 0.
pub bi_export-Exported :
    (st : Symtab) (name : Str) (args : List Str)
    → IsValid st
    → Exported st args (bi_export st (name ∷ args)).st × ((bi_export st (name ∷ args)).ret ≡ 0)
unfolding bi_export
bi_export-Exported st name [] v = (export_args-Exported [] st v, refl)
bi_export-Exported st name (arg ∷ args) v = (export_args-Exported (arg ∷ args) st v, refl)
