-- ===== src/Symtab/Clone.antt =====
-- `symtab_clone` of symtab_utils.c: the clone of a table has the same entries.
use mathlib.Core.Option
use epita_42sh.Ast.{Tree}
use epita_42sh.Base.Text.{Str, str_eq_refl}
use epita_42sh.Base.{
  ℕ, ◌+◌, ◌≤◌, ◌≡◌, ◌≢◌, refl, ◌∙◌, sym, ap, inl, inr, Bool, true, false, Option, none, some,
  or_else, List, [], ◌∷◌, ◌++◌, flatten, Bool-cases, arith,
}
use epita_42sh.Symtab.Add.{symtab_add-Adds}
use epita_42sh.Symtab.Entry.{same_entry, same_entry_sound, wanted_other, kind_eq_refl, added}
use epita_42sh.Symtab.Nodes.{count, find-eq-none}
use epita_42sh.Symtab.Valid.{nodes, bad_hash, wanted, IsValid, symtab_lookup-nodes}
use epita_42sh.Symtab.{
  KvPair, Symtab, SymKind, kv_word, kv_func, kv_alias, find, matches, symtab_lookup, symtab_add,
  symtab_new, set_exported, set_kv, fresh_kv, clone_kv, copy_flag, clone_chain, clone_buckets,
  symtab_clone,
}
use epita_42sh.Symtab.Exported.{
  symtab_new-nodes, symtab_new-IsValid, export_kv, set_exported-Exports,
}

-- What an entry holds for the code that looks it up.
pub data Content : Type 0 where
  text : (word : Option Str) (exported : Bool) → Content
  body : (func : Tree) → Content

content_of : SymKind → Option Str → Bool → Tree → Content
content_of kv_func w exported f = body f
content_of _ w exported f = text w exported

content : KvPair → Content
unfolding content_of
content kv = content_of kv.kind kv.word kv.exported kv.func

pub entry : Symtab → Str → SymKind → Option Content
unfolding content
entry st key kind = Option.map content (symtab_lookup st key kind)

abbrev present {ℓ} : {A : Type ℓ} → Option A → ℕ
present none = 0
present (some _) = 1

-- One round of the loop makes one entry, and leaves the others.
record Copies (key : Str) (kind : SymKind) (e : Content) (c c' : Symtab) : Type 0 where
  valid : IsValid c'
  self : entry c' key kind ≡ some e
  others :
      (key' : Str) (kind' : SymKind)
      → same_entry key kind key' kind' ≡ false
      → entry c' key' kind' ≡ entry c key' kind'

module _ (key : Str) (w : Option Str) (f : Tree) (c : Symtab) (v : IsValid c) where
  added_fresh :
      (kind : SymKind)
      → symtab_lookup c key kind ≡ none
      → added c key kind w f ≡ set_kv kind w f (fresh_kv c.next_addr key)
  added_fresh kind absent = rw (absent, added)

  content-fresh :
      (kind : SymKind)
      → content (set_kv kind w f (fresh_kv c.next_addr key)) ≡ content_of kind w false f
  unfolding content set_kv fresh_kv
  content-fresh kv_word = refl
  content-fresh kv_alias = refl
  content-fresh kv_func = refl

  content-export :
      (kind : SymKind)
      → kind ≢ kv_func
      → content (export_kv (set_kv kind w f (fresh_kv c.next_addr key))) ≡ content_of kind w true f
  unfolding content set_kv fresh_kv
  content-export kv_word ne = refl
  content-export kv_alias ne = refl
  content-export kv_func ne = absurd (ne refl)

  -- Behind `symtab_add`, before the flag is copied.
  plain :
      (kind : SymKind)
      → symtab_lookup c key kind ≡ none
      → Copies key kind (content_of kind w false f) c (symtab_add c key kind w f).0
  unfolding entry
  plain kind absent =
      let r = symtab_add-Adds c key kind w f v in
      record {
        valid = r.valid;
        self = rw (r.self, added_fresh kind absent) (ap some (content-fresh kind));
        others = λ k t ne. ap (Option.map content) (r.others k t ne);
      }

  flagged :
      (kind : SymKind)
      → symtab_lookup c key kind ≡ none
      → kind ≢ kv_func
      → let r = symtab_add c key kind w f in
        Copies key kind (content_of kind w true f) c (set_exported r.1 r.0)
  unfolding entry
  flagged kind absent ne =
      let r = symtab_add-Adds c key kind w f v in
      let e = set_exported-Exports (symtab_add c key kind w f).0 key kind _ r.valid r.self in
      rw r.pointer (record {
        valid = e.valid;
        self = rw (e.self, added_fresh kind absent) (ap some (content-export kind ne));
        others = λ k t ne. ap (Option.map content) (e.others k t ne ∙ r.others k t ne);
      })

  copies :
      (kind : SymKind) (exported : Bool)
      → symtab_lookup c key kind ≡ none
      → let r = symtab_add c key kind w f in
        Copies key kind (content_of kind w exported f) c (copy_flag kind exported r.1 r.0)
  unfolding copy_flag content_of
  copies kv_func exported absent = plain kv_func absent
  copies kv_word true absent = flagged kv_word absent (cc)
  copies kv_word false absent = plain kv_word absent
  copies kv_alias true absent = flagged kv_alias absent (cc)
  copies kv_alias false absent = plain kv_alias absent

clone_kv-Copies :
    (kv : KvPair) (c : Symtab)
    → IsValid c
    → symtab_lookup c kv.key kv.kind ≡ none
    → Copies kv.key kv.kind (content kv) c (clone_kv kv c)
unfolding clone_kv content
clone_kv-Copies kv c v absent = copies kv.key kv.word kv.func c v kv.kind kv.exported absent

pub wanted_self : (kv : KvPair) → bad_hash kv ≡ false → wanted kv.key kv.kind kv ≡ true
unfolding matches
wanted_self kv h = ground (arith, str_eq_refl kv.key, kind_eq_refl kv.kind)

-- The inner loop: the entries of the chain join those of the clone.
record Cloned (l : List KvPair) (c c' : Symtab) : Type 0 where
  valid : IsValid c'
  entries :
      (key : Str) (kind : SymKind)
      → entry c' key kind
        ≡ or_else (Option.map content (find (wanted key kind) l)) (entry c key kind)

abbrev Fits : List KvPair → Symtab → Type 0
Fits l c = (key : Str) (kind : SymKind) → count (wanted key kind) l + present (entry c key kind) ≤ 1

lookup_of_entry :
    (c : Symtab) (key : Str) (kind : SymKind)
    → present (entry c key kind) ≡ 0
    → symtab_lookup c key kind ≡ none
unfolding entry
lookup_of_entry c key kind h = ground arith

module _ (kv : KvPair) (l : List KvPair) (c c' : Symtab) (asked : wanted kv.key kv.kind kv ≡ true)
    (fits : Fits (kv ∷ l) c) (step : Copies kv.key kv.kind (content kv) c c') where
  step-Fits : Fits l c'
  unfolding count
  step-Fits k t = elim (Bool-cases (same_entry kv.key kv.kind k t)) [
    | inr ne ↦ rw (step.others k t ne) (omega (arith, fits k t))
    | inl e ↦
        let (a, b) = same_entry_sound kv.key k kv.kind t e in
        rw (← a, ← b, step.self) (ground (arith, fits kv.key kv.kind))
  ]

  step-entry :
      (k : Str) (t : SymKind)
      → or_else (Option.map content (find (wanted k t) l)) (entry c' k t)
        ≡ or_else (Option.map content (find (wanted k t) (kv ∷ l))) (entry c k t)
  unfolding find or_else
  step-entry k t = elim (Bool-cases (same_entry kv.key kv.kind k t)) [
    | inr ne ↦ rw (step.others k t ne, wanted_other kv.key k kv.kind t kv asked ne)
    | inl e ↦
        let (a, b) = same_entry_sound kv.key k kv.kind t e in
        let few : count (wanted kv.key kv.kind) l ≡ 0 =
          unfold count in ground (arith, fits kv.key kv.kind) in
        rw (← a, ← b, step.self, asked, find-eq-none (wanted kv.key kv.kind) l few)
  ]

clone_chain-Cloned :
    (l : List KvPair) (c : Symtab)
    → IsValid c
    → count bad_hash l ≡ 0
    → Fits l c
    → Cloned l c (clone_chain l c)
unfolding clone_chain count
clone_chain-Cloned [] c v good fits = record {
  valid = v;
  entries = λ k t. unfold find or_else in refl;
}
clone_chain-Cloned (kv ∷ l) c v good fits =
    let asked : wanted kv.key kv.kind kv ≡ true = wanted_self kv (ground arith) in
    let absent : symtab_lookup c kv.key kv.kind ≡ none =
      lookup_of_entry c kv.key kv.kind (ground (arith, fits kv.key kv.kind)) in
    let step = clone_kv-Copies kv c v absent in
    let rest =
      clone_chain-Cloned l (clone_kv kv c) step.valid (ground arith)
        (step-Fits kv l c (clone_kv kv c) asked fits step) in
    record {
      valid = rest.valid;
      entries = λ k t. rest.entries k t ∙ step-entry kv l c (clone_kv kv c) asked fits step k t;
    }

clone_chain-append :
    (a b : List KvPair) (c : Symtab) → clone_chain (a ++ b) c ≡ clone_chain b (clone_chain a c)
unfolding clone_chain
clone_chain-append [] b c = refl
clone_chain-append (kv ∷ a) b c = clone_chain-append a b (clone_kv kv c)

-- The two nested loops are one loop over the nodes.
clone_buckets-flatten :
    (d : List (List KvPair)) (c : Symtab) → clone_buckets d c ≡ clone_chain (flatten d) c
unfolding clone_buckets clone_chain flatten
clone_buckets-flatten [] c = refl
clone_buckets-flatten (x ∷ d) c =
    clone_buckets-flatten d (clone_chain x c) ∙ sym (clone_chain-append x (flatten d) c)

entry-new : (key : Str) (kind : SymKind) → entry symtab_new key kind ≡ none
unfolding entry find
entry-new key kind =
    rw (symtab_lookup-nodes symtab_new key kind symtab_new-IsValid.buckets, symtab_new-nodes)

or_else-entry :
    (st : Symtab) (k : Str) (t : SymKind)
    → IsValid st
    → or_else (Option.map content (find (wanted k t) (nodes st))) (entry symtab_new k t)
      ≡ entry st k t
unfolding or_else entry
or_else-entry st k t v =
    rw (entry-new k t, ← symtab_lookup-nodes st k t v.buckets) (right_none (entry st k t))
  where
    right_none : (o : Option Content) → or_else o none ≡ o
    right_none none = refl
    right_none (some x) = refl

-- The clone of a well-formed table is well-formed and has the same entries: the same keys with the
-- same words, export flags and functions.
pub symtab_clone-entry :
    (st : Symtab)
    → IsValid st
    → IsValid (symtab_clone st)
      × ((key : Str) (kind : SymKind) → entry (symtab_clone st) key kind ≡ entry st key kind)
unfolding symtab_clone
symtab_clone-entry st v =
    let r =
      clone_chain-Cloned (nodes st) symtab_new symtab_new-IsValid v.hashed
        (λ k t. rw (entry-new k t) (omega (arith, v.unique k t))) in
    rw (clone_buckets-flatten st.data_ symtab_new)
      (r.valid, λ k t. r.entries k t ∙ or_else-entry st k t v)
