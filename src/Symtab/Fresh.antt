-- ===== src/Symtab/Fresh.antt =====
-- `symtab_add` of symtab_ops.c for a key that is not in the table: a node is linked, the table grows if
-- it is too full, and the value is written.
use mathlib.Core.Option
use native.Mathlib.Nat.{mod-lt}
use epita_42sh.Ast.{Tree}
use epita_42sh.Base.Text.{Str, str_eq_refl, str_eq_sound}
use epita_42sh.Base.{
  ℕ, ◌+◌, ◌*◌, ◌/◌, ◌%◌, ◌≤◌, ◌<◌, ◌≡◌, refl, ◌∙◌, sym, ap, ◌⊎◌, inl, inr, Bool, true, false,
  Option, none, some, List, [], ◌∷◌, map, if◌then◌else◌, ◌==◌, ==_iff, ltb, Bool-cases, length,
  length-set, arith,
}
use epita_42sh.Symtab.Nodes.{bit, count, at, count-eq-zero, Same, Same-trans, flatten-set-Same}
use epita_42sh.Symtab.Rehash.{push_Home}
use epita_42sh.Symtab.Valid.{
  nodes, bad_hash, wanted, IsPlaced, IsValid, symtab_lookup-nodes, symtab_realloc-Regrouped,
}
use epita_42sh.Symtab.Write.{write_node-IsPlaced, nodes-write_node}
use epita_42sh.Symtab.{
  KvPair, Symtab, SymKind, hash, matches, find, symtab_lookup, write_kv, write_node, set_kv,
  fresh_kv, link_fresh, insert_fresh, u64,
}
use epita_42sh.Symtab.Entry.{
  same_entry, wanted_other, kind_eq_sound, kind_eq_refl, set_kv-addr, set_kv-hkey, set_kv-key,
  set_kv-kind, Adds,
}

link_fresh-Regrouped :
    (st : Symtab) (key : Str)
    → IsPlaced st
    → IsPlaced (link_fresh st key)
      × ((p : KvPair → Bool)
          → Same p (fresh_kv st.next_addr key ∷ nodes st) (nodes (link_fresh st key)))
unfolding link_fresh
link_fresh-Regrouped st key v =
    let i = hash key % st.capacity in
    let lt : i < length st.data_ = rw v.width (mod-lt (hash key) v.pos) in
    (
      record {
        width = length-set st.data_ i _ ∙ v.width;
        pos = v.pos;
        placed = λ b. push_Home st.capacity b (fresh_kv st.next_addr key) st.data_ (v.placed b);
      },
      λ p. flatten-set-Same p st.data_ i (fresh_kv st.next_addr key ∷ []) lt,
    )

-- The new node joins the others, whether or not the table grows.
insert_fresh-Regrouped :
    (st : Symtab) (key : Str)
    → IsPlaced st
    → IsPlaced (insert_fresh st key)
      × ((insert_fresh st key).next_addr ≡ st.next_addr + 1)
      × ((p : KvPair → Bool)
          → Same p (fresh_kv st.next_addr key ∷ nodes st) (nodes (insert_fresh st key)))
unfolding insert_fresh
insert_fresh-Regrouped st key v =
    let mid = link_fresh st key in
    let (placed, same) = link_fresh-Regrouped st key v in
    let next : mid.next_addr ≡ st.next_addr + 1 = unfold link_fresh in refl in
    elim (Bool-cases (ltb 75 ((100 * mid.size) % u64 / mid.capacity))) [
      | inl e ↦
          let r = symtab_realloc-Regrouped mid ((mid.capacity * 2) % u64) placed in
          rw e (r.buckets, r.next ∙ next, λ p. Same-trans p (same p) (r.same p))
      | inr e ↦ rw e (placed, next, same)
    ]

-- Nodes without the address are not changed by a write there.
module _ (a : ℕ) (f : KvPair → KvPair) (q : KvPair → Bool) where
  count-untouched :
      (l : List KvPair)
      → count (at a) l ≡ 0
      → (count (λ n. q (write_kv a f n)) l ≡ count q l)
        × (Option.map (write_kv a f) (find (λ n. q (write_kv a f n)) l) ≡ find q l)
  unfolding count find
  count-untouched [] h = (refl, refl)
  count-untouched (n ∷ l) h =
      let (c, d) = count-untouched l (omega arith) in
      let elsewhere : (n.addr == a) ≡ false = ground arith in
      rw elsewhere (rw c (refl), split (Bool-cases (q n)) elsewhere d)
    where
      split :
          (q n ≡ true) ⊎ (q n ≡ false)
          → (n.addr == a) ≡ false
          → Option.map (write_kv a f) (find (λ n. q (write_kv a f n)) l) ≡ find q l
          → Option.map (write_kv a f) (if q n then some n else find (λ n. q (write_kv a f n)) l)
            ≡ (if q n then some n else find q l)
      split (inl t) e d = rw (t, e)
      split (inr t) e d = rw t d

  count-map_compose :
      (l : List KvPair) → count q (map (write_kv a f) l) ≡ count (λ n. q (write_kv a f n)) l
  unfolding count
  count-map_compose [] = refl
  count-map_compose (n ∷ l) = omega (arith, count-map_compose l)

  find-map_compose :
      (l : List KvPair)
      → find q (map (write_kv a f) l) ≡ Option.map (write_kv a f) (find (λ n. q (write_kv a f n)) l)
  unfolding find
  find-map_compose [] = refl
  find-map_compose (n ∷ l) = rw (find-map_compose l) (ground arith)

module _ (st : Symtab) (key : Str) (kind : SymKind) (w : Option Str) (t : Tree) (v : IsValid st)
    (absent : symtab_lookup st key kind ≡ none) where
  abbrev write : KvPair → KvPair
  write = write_kv st.next_addr (set_kv kind w t)

  abbrev new : KvPair
  new = set_kv kind w t (fresh_kv st.next_addr key)

  abbrev result : Symtab
  result = write_node st.next_addr (set_kv kind w t) (insert_fresh st key)

  write-fresh_kv : write (fresh_kv st.next_addr key) ≡ new
  unfolding fresh_kv
  write-fresh_kv = ground arith

  -- The table behind `symtab_add` has the new node and the nodes from before.
  result-Same : (q : KvPair → Bool) → Same q (new ∷ nodes st) (nodes result)
  unfolding count find
  result-Same q =
      let q' : KvPair → Bool = λ n. q (write n) in
      let l = nodes (insert_fresh st key) in
      let before = (insert_fresh-Regrouped st key v.buckets).2 q' in
      let (few, found) =
        count-untouched st.next_addr (set_kv kind w t) q (nodes st)
          (v.unused st.next_addr (omega arith)) in
      let head : bit (q' (fresh_kv st.next_addr key)) ≡ bit (q new) =
        ap (λ n. bit (q n)) write-fresh_kv in
      rw (nodes-write_node st.next_addr (set_kv kind w t) (insert_fresh st key)) (record {
        counts = omega (arith, count-map_compose st.next_addr (set_kv kind w t) q l, before.counts);
        finds = λ h.
            find-map_compose st.next_addr (set_kv kind w t) q l
            ∙ ap (Option.map write) (before.finds (omega arith))
            ∙ head_or_rest (Bool-cases (q new)) found;
      })
    where
      head_or_rest :
          (q new ≡ true) ⊎ (q new ≡ false)
          → Option.map write (find (λ n. q (write n)) (nodes st)) ≡ find q (nodes st)
          → Option.map write (find (λ n. q (write n)) (fresh_kv st.next_addr key ∷ nodes st))
            ≡ find q (new ∷ nodes st)
      head_or_rest (inl e) found = rw (write-fresh_kv, e) (ap some write-fresh_kv)
      head_or_rest (inr e) found = rw (write-fresh_kv, e) found

  result-at :
      (a : ℕ) → count (at a) (nodes result) ≡ bit (st.next_addr == a) + count (at a) (nodes st)
  unfolding count fresh_kv
  result-at a = rw ((result-Same (at a)).counts, set_kv-addr)

  -- No node answers for the key and the kind but the new one.
  absent_count : count (wanted key kind) (nodes st) ≡ 0
  absent_count =
      count-eq-zero (wanted key kind) (nodes st)
        (sym (symtab_lookup-nodes st key kind v.buckets) ∙ absent)

  wanted-new : wanted key kind new ≡ true
  unfolding matches fresh_kv
  wanted-new =
      rw (set_kv-hkey, set_kv-key, set_kv-kind) (ground (arith, str_eq_refl key, kind_eq_refl kind))

  result_unique : (key' : Str) (kind' : SymKind) → count (wanted key' kind') (new ∷ nodes st) ≤ 1
  unfolding count
  result_unique key' kind' = elim (Bool-cases (same_entry key kind key' kind')) [
    | inr ne ↦
        ground (arith, wanted_other key key' kind kind' new wanted-new ne, v.unique key' kind')
    | inl e ↦
        let k : key ≡ key' = ground (arith, str_eq_sound key key') in
        let t : kind ≡ kind' = ground (arith, kind_eq_sound kind kind') in
        let none_else : count (wanted key' kind') (nodes st) ≡ 0 = rw (← k, ← t) absent_count in
        ground arith
  ]

  result-IsPlaced : IsPlaced result
  result-IsPlaced =
      write_node-IsPlaced st.next_addr (set_kv kind w t) (insert_fresh st key)
        (set_kv-hkey kind w t) (insert_fresh-Regrouped st key v.buckets).0

  result-hashed : count bad_hash (nodes result) ≡ 0
  unfolding count fresh_kv
  result-hashed =
      (result-Same bad_hash).counts
      ∙ rw (set_kv-hkey, set_kv-key, (==_iff (hash key) (hash key)).1 refl)
          (omega (arith, v.hashed))

  result-next : result.next_addr ≡ st.next_addr + 1
  unfolding write_node
  result-next = (insert_fresh-Regrouped st key v.buckets).1

  result-lookup :
      (key' : Str) (kind' : SymKind)
      → symtab_lookup result key' kind' ≡ find (wanted key' kind') (new ∷ nodes st)
  result-lookup key' kind' =
      symtab_lookup-nodes result key' kind' result-IsPlaced
      ∙ (result-Same (wanted key' kind')).finds (result_unique key' kind')

  pub fresh-Adds : Adds st key kind new (result, st.next_addr)
  unfolding count find fresh_kv
  fresh-Adds = record {
    valid = record {
      buckets = result-IsPlaced;
      hashed = result-hashed;
      unique = λ k t. omega (arith, (result-Same (wanted k t)).counts, result_unique k t);
      apart = λ a. ground (arith, result-at a, v.apart a, v.unused a);
      unused = λ a h. ground (arith, result-at a, v.unused a, result-next);
    };
    pointer = sym (set_kv-addr kind w t (fresh_kv st.next_addr key));
    self = result-lookup key kind ∙ rw wanted-new;
    others = λ key' kind' ne.
        result-lookup key' kind'
        ∙ rw (wanted_other key key' kind kind' new wanted-new ne)
            (sym (symtab_lookup-nodes st key' kind' v.buckets));
  }
