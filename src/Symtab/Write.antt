-- ===== src/Symtab/Write.antt =====
-- A write through a pointer to a node: `__setkv`, and `->value.word.exported = true`.
use mathlib.Core.List.{map-append}
use mathlib.Core.Option
use epita_42sh.Base.Text.{Str}
use epita_42sh.Base.{
  ℕ, ◌≤◌, ◌≡◌, refl, if◌then◌else◌, ◌∙◌, sym, ap, Bool, true, false, some, List, [], ◌∷◌, map,
  flatten, ◌==◌, Bool-cases, ◌⊎◌, inl, inr, All, length-map, get_or-map, arith,
}
use epita_42sh.Symtab.Nodes.{bit, count, at, count_of_find}
use epita_42sh.Symtab.Rehash.{Home}
use epita_42sh.Symtab.Valid.{nodes, bad_hash, wanted, IsPlaced, IsValid, symtab_lookup-nodes}
use epita_42sh.Symtab.{KvPair, Symtab, SymKind, matches, find, symtab_lookup, write_kv, write_node}

module _ (q : KvPair → Bool) (g : KvPair → KvPair) where
  -- A predicate that the change does not concern.
  abbrev Keeps : List KvPair → Type 0
  Keeps = All (λ n. q (g n) ≡ q n)

  count-map : (l : List KvPair) → Keeps l → count q (map g l) ≡ count q l
  unfolding count
  count-map [] k = refl
  count-map (n ∷ l) k = omega (arith, ap bit k.0, count-map l k.1)

  find-map : (l : List KvPair) → Keeps l → find q (map g l) ≡ Option.map g (find q l)
  unfolding find
  find-map [] k = refl
  find-map (n ∷ l) k = rw (k.0, find-map l k.1) (ground arith)

map-flatten :
    (g : KvPair → KvPair) (d : List (List KvPair)) → flatten (map (map g) d) ≡ map g (flatten d)
unfolding flatten
map-flatten g [] = refl
map-flatten g (c ∷ d) = rw (map-flatten g d) (sym (map-append g c (flatten d)))

pub nodes-write_node :
    (a : ℕ) (f : KvPair → KvPair) (st : Symtab)
    → nodes (write_node a f st) ≡ map (write_kv a f) (nodes st)
unfolding write_node
nodes-write_node a f st = map-flatten (write_kv a f) st.data_

module _ (a : ℕ) (f : KvPair → KvPair) where
  Home-map :
      (capacity b : ℕ) (c : List KvPair)
      → ((n : KvPair) → (f n).hkey ≡ n.hkey)
      → Home capacity b c
      → Home capacity b (map (write_kv a f) c)
  Home-map capacity b [] e h = tt
  Home-map capacity b (n ∷ c) e h = (ground (arith, e n), Home-map capacity b c e h.1)

  -- A write that keeps the hash of each node keeps the nodes in their buckets.
  pub write_node-IsPlaced :
      (st : Symtab)
      → ((n : KvPair) → (f n).hkey ≡ n.hkey)
      → IsPlaced st
      → IsPlaced (write_node a f st)
  unfolding write_node
  write_node-IsPlaced st e v = record {
    width = length-map (map (write_kv a f)) st.data_ ∙ v.width;
    pos = v.pos;
    placed = λ b.
        rw (get_or-map (map (write_kv a f)) st.data_ b [])
          (Home-map st.capacity b _ e (v.placed b));
  }

none_at :
    (a : ℕ) (kv : KvPair) (l : List KvPair)
    → count (at a) l ≡ 0
    → All (λ n. (n.addr == a) ≡ true → n ≡ kv) l
unfolding count
none_at a kv [] h = tt
none_at a kv (n ∷ l) h = (ground arith, none_at a kv l (omega arith))

-- The node that a search gave is the only one at its address.
only_at :
    (p : KvPair → Bool) (kv : KvPair) (l : List KvPair)
    → find p l ≡ some kv
    → count (at kv.addr) l ≤ 1
    → All (λ n. (n.addr == kv.addr) ≡ true → n ≡ kv) l
unfolding find count
only_at p kv [] h few = tt
only_at p kv (n ∷ l) h few = elim (Bool-cases (p n)) [
  | inl e ↦ let same : n ≡ kv = ground arith in (λ _. same, none_at kv.addr kv l (ground arith))
  | inr e ↦
      let h' : find p l ≡ some kv = ground arith in
      let more = count_of_find p (at kv.addr) l kv h' (ground arith) in
      (ground arith, only_at p kv l h' (omega arith))
]

Keeps-of_only :
    (q : KvPair → Bool) (f : KvPair → KvPair) (kv : KvPair) (l : List KvPair)
    → All (λ n. (n.addr == kv.addr) ≡ true → n ≡ kv) l
    → q (f kv) ≡ q kv
    → Keeps q (write_kv kv.addr f) l
Keeps-of_only q f kv [] only e = tt
Keeps-of_only q f kv (n ∷ l) only e =
    (here (Bool-cases (n.addr == kv.addr)), Keeps-of_only q f kv l only.1 e)
  where
    here :
        ((n.addr == kv.addr) ≡ true) ⊎ ((n.addr == kv.addr) ≡ false)
        → q (write_kv kv.addr f n) ≡ q n
    here (inl h) = rw (h, only.0 h) e
    here (inr h) = rw h

-- A search that `kv` does not answer, before and after the change.
find-map_other :
    (q : KvPair → Bool) (f : KvPair → KvPair) (kv : KvPair) (l : List KvPair)
    → All (λ n. (n.addr == kv.addr) ≡ true → n ≡ kv) l
    → q kv ≡ false
    → q (f kv) ≡ false
    → find q (map (write_kv kv.addr f) l) ≡ find q l
unfolding find
find-map_other q f kv [] only e e' = refl
find-map_other q f kv (n ∷ l) only e e' =
    rw (find-map_other q f kv l only.1 e e') (here (Bool-cases (n.addr == kv.addr)))
  where
    here :
        ((n.addr == kv.addr) ≡ true) ⊎ ((n.addr == kv.addr) ≡ false)
        → (let m = write_kv kv.addr f n in if q m then some m else find q l)
          ≡ (if q n then some n else find q l)
    here (inl h) = rw (h, only.0 h, e, e')
    here (inr h) = rw h

-- A change to the node `kv` that leaves its place in the table alone.
pub record Gentle (f : KvPair → KvPair) (kv : KvPair) : Type 0 where
  pub addr : (n : KvPair) → (f n).addr ≡ n.addr
  pub hkey : (n : KvPair) → (f n).hkey ≡ n.hkey
  pub key : (n : KvPair) → (f n).key ≡ n.key
  pub kind : (f kv).kind ≡ kv.kind

module _ (st : Symtab) (p : KvPair → Bool) (kv : KvPair) (f : KvPair → KvPair) (v : IsValid st)
    (found : find p (nodes st) ≡ some kv) (gentle : Gentle f kv) where
  keeps : (q : KvPair → Bool) → q (f kv) ≡ q kv → Keeps q (write_kv kv.addr f) (nodes st)
  keeps q e = Keeps-of_only q f kv (nodes st) (only_at p kv (nodes st) found (v.apart kv.addr)) e

  same_count :
      (q : KvPair → Bool)
      → q (f kv) ≡ q kv
      → count q (nodes (write_node kv.addr f st)) ≡ count q (nodes st)
  same_count q e =
      rw (nodes-write_node kv.addr f st) (count-map q (write_kv kv.addr f) (nodes st) (keeps q e))

  same_wanted : (key : Str) (kind : SymKind) → wanted key kind (f kv) ≡ wanted key kind kv
  unfolding matches
  same_wanted key kind = rw (gentle.hkey kv, gentle.key kv, gentle.kind)

  -- The table stays well-formed.
  pub write_node-IsValid : IsValid (write_node kv.addr f st)
  unfolding write_node
  write_node-IsValid = record {
    buckets = write_node-IsPlaced kv.addr f st gentle.hkey v.buckets;
    hashed = same_count bad_hash (rw (gentle.hkey kv, gentle.key kv)) ∙ v.hashed;
    unique =
        λ key kind. rw (same_count (wanted key kind) (same_wanted key kind)) (v.unique key kind);
    apart = λ a. rw (same_count (at a) (rw (gentle.addr kv))) (v.apart a);
    unused = λ a h. same_count (at a) (rw (gentle.addr kv)) ∙ v.unused a h;
  }

  -- Every lookup finds the node that it found before, and the changed one in place of `kv`.
  pub symtab_lookup-write_node :
      (key : Str) (kind : SymKind)
      → symtab_lookup (write_node kv.addr f st) key kind
        ≡ Option.map (write_kv kv.addr f) (symtab_lookup st key kind)
  symtab_lookup-write_node key kind =
      rw
        (
          symtab_lookup-nodes (write_node kv.addr f st) key kind write_node-IsValid.buckets,
          symtab_lookup-nodes st key kind v.buckets,
          nodes-write_node kv.addr f st,
        )
        (find-map (wanted key kind) (write_kv kv.addr f) (nodes st)
          (keeps (wanted key kind) (same_wanted key kind)))

  pub symtab_lookup-write_other :
      (key : Str) (kind : SymKind)
      → wanted key kind kv ≡ false
      → symtab_lookup (write_node kv.addr f st) key kind ≡ symtab_lookup st key kind
  symtab_lookup-write_other key kind e =
      rw
        (
          symtab_lookup-nodes (write_node kv.addr f st) key kind write_node-IsValid.buckets,
          symtab_lookup-nodes st key kind v.buckets,
          nodes-write_node kv.addr f st,
        )
        (find-map_other (wanted key kind) f kv (nodes st)
          (only_at p kv (nodes st) found (v.apart kv.addr)) e (same_wanted key kind ∙ e))
