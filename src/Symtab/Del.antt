-- ===== src/Symtab/Del.antt =====
-- `symtab_del` of symtab_ops.c: which entries are there behind it.
use mathlib.Core.List.{append-nil}
use native.Mathlib.Decide.{ℕ_discrete}
use native.Mathlib.Nat.{mod-lt}
use epita_42sh.Base.Text.{Str}
use epita_42sh.Base.{
  ℕ, ◌+◌, ◌%◌, ◌≤◌, ◌<◌, ◌≡◌, refl, ◌∙◌, sym, ap, inl, inr, Bool, true, false, none, some, List, [],
  ◌∷◌, ◌++◌, flatten, ◌==◌, ==_iff, Bool-cases, get_or, set, length, length-set, set-set,
  get_or-set_self, get_or-set_ne, arith,
}
use epita_42sh.Symtab.Entry.{same_entry, wanted_parts, wanted_other}
use epita_42sh.Symtab.Nodes.{
  bit, count, at, count-append, count_of_find, find_holds, find-eq-none, Same, Same-refl,
  Same-trans, Same-swap, Same-append, Same-append_right, flatten-set-Same,
}
use epita_42sh.Symtab.Rehash.{Home, take_out}
use epita_42sh.Symtab.Valid.{nodes, bad_hash, wanted, IsPlaced, IsValid, symtab_lookup-nodes}
use epita_42sh.Symtab.{KvPair, Symtab, SymKind, find, symtab_lookup, unlink, symtab_del}

unlink-Home :
    (capacity b a : ℕ) (c : List KvPair) → Home capacity b c → Home capacity b (unlink a c)
unfolding unlink
unlink-Home capacity b a [] h = tt
unlink-Home capacity b a (n ∷ c) h = elim (Bool-cases (n.addr == a)) [
  | inl e ↦ rw e h.1
  | inr e ↦ rw e (h.0, unlink-Home capacity b a c h.1)
]

-- A chain without a node that a search found is the chain with that node taken out.
unlink-Same :
    (p q : KvPair → Bool) (kv : KvPair) (c : List KvPair)
    → find p c ≡ some kv
    → count (at kv.addr) c ≤ 1
    → Same q c (kv ∷ unlink kv.addr c)
unfolding find count unlink
unlink-Same p q kv [] h few = cc
unlink-Same p q kv (n ∷ c) h few = elim (Bool-cases (p n)) [
  | inl e ↦
      let same : n ≡ kv = ground arith in
      rw (← same, (==_iff n.addr n.addr).1 refl) (Same-refl q (n ∷ c))
  | inr e ↦
      let h' : find p c ≡ some kv = ground arith in
      let more = count_of_find p (at kv.addr) c kv h' (ground arith) in
      let elsewhere : (n.addr == kv.addr) ≡ false = ground arith in
      rw elsewhere (
        Same-trans q (Same-append q (n ∷ []) (unlink-Same p q kv c h' (omega arith)))
          (Same-swap q (n ∷ []) (kv ∷ []) (unlink kv.addr c)))
]

-- The removal of one entry of the finite map.
pub record Deletes (st : Symtab) (key : Str) (kind : SymKind) (kv : KvPair) : Type 0 where
  pub valid : IsValid (symtab_del st kv)
  pub gone : symtab_lookup (symtab_del st kv) key kind ≡ none
  pub others :
      (key' : Str) (kind' : SymKind)
      → same_entry key kind key' kind' ≡ false
      → symtab_lookup (symtab_del st kv) key' kind' ≡ symtab_lookup st key' kind'

module _ (st : Symtab) (key : Str) (kind : SymKind) (kv : KvPair) (v : IsValid st)
    (here : symtab_lookup st key kind ≡ some kv) where
  abbrev index : ℕ
  index = kv.hkey % st.capacity

  abbrev chain : List KvPair
  chain = get_or st.data_ index []

  index_lt : index < length st.data_
  index_lt = rw v.buckets.width (mod-lt kv.hkey v.buckets.pos)

  is_wanted : wanted key kind kv ≡ true
  is_wanted =
      find_holds (wanted key kind) (nodes st) kv
        (sym (symtab_lookup-nodes st key kind v.buckets) ∙ here)

  in_chain : find (wanted key kind) chain ≡ some kv
  unfolding symtab_lookup
  in_chain = simp (wanted_parts key kind kv is_wanted).0 here

  -- The nodes of the table are the removed one and those that are left.
  del-Same : (q : KvPair → Bool) → Same q (nodes st) (kv ∷ nodes (symtab_del st kv))
  unfolding symtab_del
  del-Same q =
      let u = unlink kv.addr chain in
      let rest = set st.data_ index [] in
      let others = flatten rest in
      let few : count (at kv.addr) chain ≤ 1 = omega (
        arith,
        (take_out (at kv.addr) st.data_ index index_lt).counts,
        count-append (at kv.addr) chain others,
        v.apart kv.addr,
      ) in
      let back = flatten-set-Same q rest index u (rw (length-set st.data_ index []) index_lt) in
      let put_back : Same q (u ++ others) (flatten (set st.data_ index u)) =
        rw
          (get_or-set_self st.data_ index [] [] index_lt, append-nil u, set-set st.data_ index [] u)
          at back in
      Same-trans q (take_out q st.data_ index index_lt) (
        Same-trans q
          (Same-append_right q others (unlink-Same (wanted key kind) q kv chain in_chain few))
          (Same-append q (kv ∷ []) put_back))

  del-count :
      (q : KvPair → Bool) → bit (q kv) + count q (nodes (symtab_del st kv)) ≡ count q (nodes st)
  unfolding count
  del-count q = (del-Same q).counts

  del-IsPlaced : IsPlaced (symtab_del st kv)
  unfolding symtab_del
  del-IsPlaced = record {
    width = length-set st.data_ index _ ∙ v.buckets.width;
    pos = v.buckets.pos;
    placed = λ b. elim (ℕ_discrete index b) [
      | yes e ↦
          rw (← e, get_or-set_self st.data_ index (unlink kv.addr chain) [] index_lt)
            (unlink-Home st.capacity index kv.addr chain (v.buckets.placed index))
      | no ne ↦
          rw (get_or-set_ne st.data_ index b (unlink kv.addr chain) [] ne) (v.buckets.placed b)
    ];
  }

  -- `symtab_del` of a node that a lookup found in a well-formed table leaves a well-formed table
  -- where the key and kind are not found and every other entry is found as before.
  pub symtab_del-Deletes : Deletes st key kind kv
  unfolding find
  symtab_del-Deletes =
      let next : (symtab_del st kv).next_addr ≡ st.next_addr = unfold symtab_del in refl in
      record {
        valid = record {
          buckets = del-IsPlaced;
          hashed = omega (arith, del-count bad_hash, v.hashed);
          unique = λ k t. omega (arith, del-count (wanted k t), v.unique k t);
          apart = λ a. omega (arith, del-count (at a), v.apart a);
          unused = λ a h. omega (arith, del-count (at a), v.unused a);
        };
        gone =
            symtab_lookup-nodes (symtab_del st kv) key kind del-IsPlaced
            ∙ find-eq-none (wanted key kind) (nodes (symtab_del st kv))
                (omega (arith, del-count (wanted key kind), v.unique key kind, ap bit is_wanted));
        others = λ key' kind' ne.
            symtab_lookup-nodes (symtab_del st kv) key' kind' del-IsPlaced
            ∙ (rw (wanted_other key key' kind kind' kv is_wanted ne) at
                ((del-Same (wanted key' kind')).finds (v.unique key' kind')))
            ∙ sym (symtab_lookup-nodes st key' kind' v.buckets);
      }
