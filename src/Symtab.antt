-- ===== src/Symtab.antt =====
-- The symbol table: include/symtab.h, symtab_alloc.c, symtab_ops.c and symtab_utils.c.
-- A node is known by its address, and `next_addr` is the next address that `zalloc` returns; a
-- pointer to a node is its address. A node's chain is the list of the nodes from the bucket on.
pub mod Nodes
pub mod Rehash
pub mod Valid
pub mod Write
pub mod Entry
pub mod Fresh
pub mod Add
pub mod Del
pub mod Exported
pub mod Clone
pub mod Print
pub mod Tests
use Prim.Native.Nat.{bit_xor}
use epita_42sh.Ast.{Tree, null}
use epita_42sh.Base.Text.{Str, str_eq, split_at}
use epita_42sh.Base.{
  ℕ, zero, suc, ◌+◌, ◌-◌, ◌*◌, ◌/◌, ◌%◌, ◌^◌, Bool, true, false, ◌&&◌, Option, none, some, List, [],
  ◌∷◌, ◌++◌, map, if◌then◌else◌, ltb, leb, ◌==◌, is_nil, get_or, set, replicate, length,
}

pub data SymKind : Type 0 where
  kv_word kv_func kv_alias : SymKind

unfoldable pub kind_eq : SymKind → SymKind → Bool
kind_eq kv_word kv_word = true
kind_eq kv_func kv_func = true
kind_eq kv_alias kv_alias = true
kind_eq _ _ = false

-- `struct kvpair`. The members of `union symval` are fields of their own.
pub record KvPair : Type 0 where
  pub addr : ℕ
  pub kind : SymKind
  pub hkey : ℕ
  pub key : Str
  pub word : Option Str
  pub exported : Bool
  pub func : Tree

pub record Symtab : Type 0 where
  pub capacity : ℕ
  pub size : ℕ
  pub data_ : List (List KvPair)
  pub next_addr : ℕ

abbrev u32 : ℕ
u32 = 2 ^ 32

abbrev pub u64 : ℕ
u64 = 2 ^ 64

abbrev default_capacity : ℕ
default_capacity = 16

-- `hkey += key[i]`: `char` is signed, so a byte from 128 on is extended by ones.
char_value : ℕ → ℕ
char_value c = if ltb c 128 then c else c + u32 - 256

hash_loop : ℕ → Str → ℕ
unfolding char_value
hash_loop hkey [] = hkey
hash_loop hkey (c ∷ key) =
    let a = (hkey + char_value c) % u32 in
    let b = (a + a * 2 ^ 10) % u32 in hash_loop (bit_xor b (b / 2 ^ 6)) key

-- Jenkins's one_at_a_time hash on `uint32_t`.
unfoldable pub hash : Str → ℕ
unfolding hash_loop
hash key =
    let h = hash_loop 0 key in
    let a = (h + h * 2 ^ 3) % u32 in let b = bit_xor a (a / 2 ^ 11) in (b + b * 2 ^ 15) % u32

-- `__setkv`: the member of the union that is written depends on the new type.
unfoldable pub set_kv : SymKind → Option Str → Tree → KvPair → KvPair
set_kv kv_word w f kv = record kv { kind = kv_word; word = w }
set_kv kv_alias w f kv = record kv { kind = kv_alias; word = w }
set_kv kv_func w f kv = record kv { kind = kv_func; func = f }

-- The test of the loop in `symtab_lookup`.
unfoldable pub matches : ℕ → Str → SymKind → KvPair → Bool
matches hkey key kind kv = (kv.hkey == hkey) && (str_eq kv.key key && kind_eq kv.kind kind)

unfoldable pub find : (KvPair → Bool) → List KvPair → Option KvPair
find p [] = none
find p (kv ∷ c) = if p kv then some kv else find p c

unfoldable pub symtab_lookup : Symtab → Str → SymKind → Option KvPair
unfolding find matches
symtab_lookup st key kind =
    let hkey = hash key in find (matches hkey key kind) (get_or st.data_ (hkey % st.capacity) [])

-- The walk of `symtab_realloc` along bucket `i`, which is held apart as `kept ++ rest`: `rest` is
-- what `*kvp` points to. A node that leaves goes to the front of its new bucket.
pub rehash_chain :
    ℕ → ℕ → List KvPair → List KvPair → List (List KvPair) → ℕ → List (List KvPair) × ℕ
rehash_chain i capacity kept [] data_ size = (set data_ i kept, size)
rehash_chain i capacity kept (kv ∷ rest) data_ size =
    let j = kv.hkey % capacity in
    let stay = rehash_chain i capacity (kept ++ kv ∷ []) rest data_ size in
    let bucket = get_or data_ j [] in
    let move = rehash_chain i capacity kept rest (set data_ j (kv ∷ bucket)) (
      if is_nil kept && (is_nil rest && (if is_nil bucket then false else true))
      then (size + u64 - 1) % u64
      else size) in
    if i == j then stay else move

-- The loop over the old buckets, with `n` of them left from `i` on.
pub rehash_from : ℕ → ℕ → ℕ → List (List KvPair) → ℕ → List (List KvPair) × ℕ
unfolding rehash_chain
rehash_from zero i capacity data_ size = (data_, size)
rehash_from (suc n) i capacity data_ size =
    let (d, s) = rehash_chain i capacity [] (get_or data_ i []) (set data_ i []) size in
    rehash_from n (suc i) capacity d s

pub symtab_realloc : Symtab → ℕ → Symtab
unfolding rehash_from
symtab_realloc st capacity =
    let grown = st.data_ ++ replicate (capacity - st.capacity) [] in
    let (d, s) = rehash_from st.capacity 0 capacity grown st.size in
    if leb capacity st.capacity then st else record st { capacity = capacity; size = s; data_ = d }

unfoldable pub symtab_new : Symtab
symtab_new = record {
  capacity = default_capacity;
  size = 0;
  data_ = replicate default_capacity [];
  next_addr = 0;
}

-- A write through a pointer to a node, wherever the node is.
abbrev pub write_kv : ℕ → (KvPair → KvPair) → KvPair → KvPair
write_kv a f kv = if kv.addr == a then f kv else kv

pub write_node : ℕ → (KvPair → KvPair) → Symtab → Symtab
write_node a f st = record st { data_ = map (map (write_kv a f)) st.data_ }

-- `zalloc(sizeof(struct kvpair))` with the key and the hash filled in; the type 0 is KV_WORD.
pub fresh_kv : ℕ → Str → KvPair
fresh_kv a key = record {
  addr = a;
  kind = kv_word;
  hkey = hash key;
  key = key;
  word = none;
  exported = false;
  func = null;
}

-- A new node at the front of its bucket; `size` counts the buckets in use.
pub link_fresh : Symtab → Str → Symtab
unfolding fresh_kv
link_fresh st key =
    let i = hash key % st.capacity in
    let bucket = get_or st.data_ i [] in
    record st {
      size = if is_nil bucket then (st.size + 1) % u64 else st.size;
      data_ = set st.data_ i (fresh_kv st.next_addr key ∷ bucket);
      next_addr = st.next_addr + 1;
    }

-- The branch of `symtab_add` for a key that is not there, up to the write of the value.
pub insert_fresh : Symtab → Str → Symtab
unfolding link_fresh symtab_realloc
insert_fresh st key =
    let st' = link_fresh st key in
    if ltb 75 ((100 * st'.size) % u64 / st'.capacity)
    then symtab_realloc st' ((st'.capacity * 2) % u64)
    else st'

-- Returns the table and the pointer to the node.
unfoldable pub symtab_add : Symtab → Str → SymKind → Option Str → Tree → Symtab × ℕ
unfolding symtab_lookup insert_fresh set_kv write_node
symtab_add st key kind w f = elim (symtab_lookup st key kind) [
  | some kv ↦ (write_node kv.addr (set_kv kind w f) st, kv.addr)
  | none ↦ (write_node st.next_addr (set_kv kind w f) (insert_fresh st key), st.next_addr)
]

-- The unlinking of a node from a chain.
pub unlink : ℕ → List KvPair → List KvPair
unlink a [] = []
unlink a (kv ∷ c) = if kv.addr == a then c else kv ∷ unlink a c

pub symtab_del : Symtab → KvPair → Symtab
unfolding unlink
symtab_del st pair =
    let index = pair.hkey % st.capacity in
    record st {
      data_ = set st.data_ index (unlink pair.addr (get_or st.data_ index []));
      size = (st.size + u64 - 1) % u64;
    }

-- `->value.word.exported = 1`
unfoldable pub set_exported : ℕ → Symtab → Symtab
unfolding write_node
set_exported a st = write_node a (λ kv. record kv { exported = true }) st

-- `envp` as the list of its strings. An entry without `=` makes the source write through NULL:
-- the result is `none`.
unfoldable pub symtab_fill_with_env_vars : Symtab → List Str → Option Symtab
unfolding symtab_add set_exported
symtab_fill_with_env_vars st [] = some st
symtab_fill_with_env_vars st (env ∷ envp) = elim (split_at b'=' env) [
  | none ↦ none
  | some (key, val) ↦
      let (st', a) = symtab_add st key kv_word (some val) null in
      symtab_fill_with_env_vars (set_exported a st') envp
]

-- `if (exported) kvclone->value.word.exported = true`; `exported` is false for a function.
pub copy_flag : SymKind → Bool → ℕ → Symtab → Symtab
unfolding set_exported
copy_flag kv_func exported a clone = clone
copy_flag _ exported a clone = if exported then set_exported a clone else clone

-- One round of the inner loop of `symtab_clone`. The clone of a tree is an equal tree; a NULL word,
-- which `strdup` does not take, stays NULL here.
unfoldable pub clone_kv : KvPair → Symtab → Symtab
unfolding symtab_add copy_flag
clone_kv kv clone =
    let (st, a) = symtab_add clone kv.key kv.kind kv.word kv.func in
    copy_flag kv.kind kv.exported a st

unfoldable pub clone_chain : List KvPair → Symtab → Symtab
unfolding clone_kv
clone_chain [] clone = clone
clone_chain (kv ∷ c) clone = clone_chain c (clone_kv kv clone)

unfoldable pub clone_buckets : List (List KvPair) → Symtab → Symtab
unfolding clone_chain
clone_buckets [] clone = clone
clone_buckets (c ∷ cs) clone = clone_buckets cs (clone_chain c clone)

unfoldable pub symtab_clone : Symtab → Symtab
unfolding clone_buckets symtab_new
symtab_clone st = clone_buckets st.data_ symtab_new
