-- ===== src/Symtab/Valid.antt =====
-- The well-formed tables of symtab.h, and what `symtab_lookup` and `symtab_realloc` make of one.
use epita_42sh.Base.Text.{Str}
use epita_42sh.Base.{
  ℕ, zero, suc, ◌-◌, ◌%◌, ◌≤◌, ◌<◌, ◌≡◌, ◌≢◌, refl, ◌∙◌, sym, ap, inl, inr, Bool, not, Option, none,
  some, or_else, List, [], ◌∷◌, ◌++◌, flatten, ◌==◌, ==_iff, leb, Bool-cases, get_or, replicate,
  length, length-append, length-replicate, get_or-replicate, arith,
}
use epita_42sh.Symtab.Nodes.{count, at, find-append, find-eq-none, Same, Same-refl}
use epita_42sh.Symtab.Rehash.{Home, length-rehash_from, rehash_from-Same, rehash_from-Home}
use epita_42sh.Symtab.{KvPair, Symtab, SymKind, hash, matches, find, symtab_lookup, symtab_realloc}

-- All the nodes of a table.
abbrev pub nodes : Symtab → List KvPair
nodes st = flatten st.data_

abbrev pub bad_hash : KvPair → Bool
bad_hash kv = not (kv.hkey == hash kv.key)

abbrev pub wanted : Str → SymKind → KvPair → Bool
wanted key kind = matches (hash key) key kind

-- The buckets: their number, and that each node is in the bucket of its hash.
pub record IsPlaced (st : Symtab) : Type 0 where
  pub width : length st.data_ ≡ st.capacity
  pub pos : 0 < st.capacity
  pub placed : (b : ℕ) → Home st.capacity b (get_or st.data_ b [])

-- The nodes: each has the hash of its key, there is one for a key and a kind, and one at an
-- address, none of them at an address still to be given out.
pub record IsValid (st : Symtab) : Type 0 where
  pub buckets : IsPlaced st
  pub hashed : count bad_hash (nodes st) ≡ 0
  pub unique : (key : Str) (kind : SymKind) → count (wanted key kind) (nodes st) ≤ 1
  pub apart : (a : ℕ) → count (at a) (nodes st) ≤ 1
  pub unused : (a : ℕ) → st.next_addr ≤ a → count (at a) (nodes st) ≡ 0

module _ (p : KvPair → Bool) where
  find-flatten-none :
      (data_ : List (List KvPair))
      → ((i : ℕ) → count p (get_or data_ i []) ≡ 0)
      → find p (flatten data_) ≡ none
  unfolding flatten find or_else
  find-flatten-none [] h = refl
  find-flatten-none (c ∷ cs) h =
      rw (find-append p c (flatten cs), find-eq-none p c (h 0))
        (find-flatten-none cs (λ i. h (suc i)))

  -- Nodes that satisfy the predicate in one bucket only are found there.
  pub find-flatten_home :
      (data_ : List (List KvPair)) (j : ℕ)
      → ((i : ℕ) → i ≢ j → count p (get_or data_ i []) ≡ 0)
      → find p (flatten data_) ≡ find p (get_or data_ j [])
  unfolding flatten find or_else
  find-flatten_home [] j h = refl
  find-flatten_home (c ∷ cs) zero h =
      rw (find-append p c (flatten cs), find-flatten-none cs (λ i. h (suc i) (omega arith)))
        (or_else-none (find p c))
    where
      or_else-none : (o : Option KvPair) → or_else o none ≡ o
      or_else-none none = refl
      or_else-none (some x) = refl
  find-flatten_home (c ∷ cs) (suc j) h =
      rw (find-append p c (flatten cs), find-eq-none p c (h 0 (omega arith)))
        (find-flatten_home cs j (λ i ne. h (suc i) (omega arith)))

-- A chain of another bucket holds no node with this hash.
Home-count :
    (capacity b hkey : ℕ) (key : Str) (kind : SymKind) (c : List KvPair)
    → Home capacity b c
    → b ≢ hkey % capacity
    → count (matches hkey key kind) c ≡ 0
unfolding count matches
Home-count capacity b hkey key kind [] h ne = refl
Home-count capacity b hkey key kind (kv ∷ c) h ne =
    ground (arith, Home-count capacity b hkey key kind c, ==_iff kv.hkey hkey)

-- A lookup in the bucket of the hash is a search through the whole table.
pub symtab_lookup-nodes :
    (st : Symtab) (key : Str) (kind : SymKind)
    → IsPlaced st
    → symtab_lookup st key kind ≡ find (wanted key kind) (nodes st)
unfolding symtab_lookup
symtab_lookup-nodes st key kind v = sym (
    find-flatten_home (wanted key kind) st.data_ (hash key % st.capacity)
      (λ i ne. Home-count st.capacity i (hash key) key kind _ (v.placed i) ne))

flatten-grown : (d : List (List KvPair)) (n : ℕ) → flatten (d ++ replicate n []) ≡ flatten d
unfolding flatten
flatten-grown [] zero = refl
flatten-grown [] (suc n) = flatten-grown [] n
flatten-grown (c ∷ d) n = ap (λ r. c ++ r) (flatten-grown d n)

get_or-grown :
    (d : List (List KvPair)) (n b : ℕ) → length d ≤ b → get_or (d ++ replicate n []) b [] ≡ []
get_or-grown [] n b h = get_or-replicate n b []
get_or-grown (c ∷ d) n zero h = absurd (omega arith)
get_or-grown (c ∷ d) n (suc b) h = get_or-grown d n b (omega arith)

-- A table with the same nodes, each of them in the bucket where a lookup looks for it.
pub record Regrouped (st st' : Symtab) (l : List KvPair) : Type 0 where
  pub buckets : IsPlaced st'
  pub next : st'.next_addr ≡ st.next_addr
  pub same : (p : KvPair → Bool) → Same p l (nodes st')

-- On a table whose nodes stand where lookups look for them, `symtab_realloc` keeps the nodes,
-- whatever the capacity asked for, and puts each one where a lookup with the new capacity looks for it.
pub symtab_realloc-Regrouped :
    (st : Symtab) (capacity : ℕ)
    → IsPlaced st
    → Regrouped st (symtab_realloc st capacity) (nodes st)
unfolding symtab_realloc
symtab_realloc-Regrouped st capacity v = elim (Bool-cases (leb capacity st.capacity)) [
  | inl small ↦ rw small (record { buckets = v; next = refl; same = λ p. Same-refl p (nodes st) })
  | inr large ↦
      let n = capacity - st.capacity in
      let grown = st.data_ ++ replicate n [] in
      let more : st.capacity < capacity = ground arith in
      let wide : length grown ≡ capacity = omega (
        arith,
        length-append st.data_ (replicate {A = List KvPair} n []),
        length-replicate {A = List KvPair} n [],
        v.width,
      ) in
      rw large (record {
        buckets = record {
          width = length-rehash_from st.capacity 0 capacity grown st.size ∙ wide;
          pos = omega arith;
          placed = λ b.
              rehash_from-Home capacity b st.capacity 0 grown st.size (omega arith) (λ outside.
                rw
                  (get_or-grown st.data_ n b (elim outside [
                    | inl h ↦ absurd (omega arith)
                    | inr h ↦ omega (arith, v.width)
                  ]))
                  tt);
        };
        next = refl;
        same = λ p. rw (flatten-grown st.data_ n) at (
            rehash_from-Same p st.capacity 0 capacity grown st.size (omega arith) (omega arith)
              (omega arith));
      })
]
