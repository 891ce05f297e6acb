-- ===== src/Symtab/Exported.antt =====
-- The empty table of symtab_alloc.c, and the writes of the export flag in symtab_utils.c.
use epita_42sh.Base.Text.{Str}
use epita_42sh.Base.{
  none, ◌≡◌, refl, ◌∙◌, sym, true, false, some, List, [], flatten, get_or-replicate, arith,
}
use epita_42sh.Symtab.Entry.{same_entry, wanted_other}
use epita_42sh.Symtab.Nodes.{count, find_holds}
use epita_42sh.Symtab.Valid.{nodes, wanted, IsValid, symtab_lookup-nodes}
use epita_42sh.Symtab.Write.{
  Gentle, write_node-IsValid, symtab_lookup-write_node, symtab_lookup-write_other,
}
use epita_42sh.Symtab.{KvPair, Symtab, SymKind, find, symtab_lookup, symtab_new, set_exported}

-- The empty table is well-formed and holds nothing.
pub symtab_new-nodes : nodes symtab_new ≡ []
unfolding symtab_new flatten
symtab_new-nodes = refl

pub symtab_new-IsValid : IsValid symtab_new
unfolding count
symtab_new-IsValid = record {
  buckets = record {
    width = unfold symtab_new in refl;
    pos = unfold symtab_new in omega arith;
    placed = λ b. unfold symtab_new in rw (get_or-replicate {A = List KvPair} 16 b []) tt;
  };
  hashed = rw symtab_new-nodes refl;
  unique = λ k t. rw symtab_new-nodes (omega arith);
  apart = λ a. rw symtab_new-nodes (omega arith);
  unused = λ a h. rw symtab_new-nodes refl;
}

pub symtab_new-lookup : (key : Str) (kind : SymKind) → symtab_lookup symtab_new key kind ≡ none
unfolding find
symtab_new-lookup key kind =
    rw (symtab_lookup-nodes symtab_new key kind symtab_new-IsValid.buckets, symtab_new-nodes) refl

-- One entry is exported, and all the others are as before.
pub record Exports (st : Symtab) (key : Str) (kind : SymKind) (kv : KvPair) (st' : Symtab)
    : Type 0 where
  pub valid : IsValid st'
  pub self : symtab_lookup st' key kind ≡ some (record kv { exported = true })
  pub others :
      (key' : Str) (kind' : SymKind)
      → same_entry key kind key' kind' ≡ false
      → symtab_lookup st' key' kind' ≡ symtab_lookup st key' kind'

abbrev pub export_kv : KvPair → KvPair
export_kv kv = record kv { exported = true }

-- Writing `->value.word.exported = true` through the pointer that a lookup in a well-formed table
-- returned keeps the table well-formed, exports that entry, and leaves every other one as it was.
pub set_exported-Exports :
    (st : Symtab) (key : Str) (kind : SymKind) (kv : KvPair)
    → IsValid st
    → symtab_lookup st key kind ≡ some kv
    → Exports st key kind kv (set_exported kv.addr st)
unfolding set_exported
set_exported-Exports st key kind kv v here =
    let found = sym (symtab_lookup-nodes st key kind v.buckets) ∙ here in
    let asked = find_holds (wanted key kind) (nodes st) kv found in
    let gentle : Gentle export_kv kv = record {
      addr = λ n. refl;
      hkey = λ n. refl;
      key = λ n. refl;
      kind = refl;
    } in
    record {
      valid = write_node-IsValid st (wanted key kind) kv export_kv v found gentle;
      self =
          rw (symtab_lookup-write_node st (wanted key kind) kv export_kv v found gentle, here)
            (ground arith);
      others = λ key' kind' ne.
          symtab_lookup-write_other st (wanted key kind) kv export_kv v found gentle key' kind'
            (wanted_other key key' kind kind' kv asked ne);
    }
