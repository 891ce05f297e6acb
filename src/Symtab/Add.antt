-- ===== src/Symtab/Add.antt =====
-- `symtab_add` of symtab_ops.c implements the assignment to a key of a finite map.
use epita_42sh.Ast.{Tree}
use epita_42sh.Base.Text.{Str}
use epita_42sh.Base.{◌≡◌, ◌∙◌, sym, inl, inr, true, Option, some, Option-cases, arith}
use epita_42sh.Symtab.Nodes.{find_holds}
use epita_42sh.Symtab.Valid.{nodes, wanted, IsValid, symtab_lookup-nodes}
use epita_42sh.Symtab.Write.{
  Gentle, write_node-IsValid, symtab_lookup-write_node, symtab_lookup-write_other,
}
use epita_42sh.Symtab.Fresh.{fresh-Adds}
use epita_42sh.Symtab.{KvPair, Symtab, SymKind, find, symtab_lookup, write_node, set_kv, symtab_add}
use epita_42sh.Symtab.Entry.{
  wanted_parts, wanted_other, set_kv-addr, set_kv-hkey, set_kv-key, set_kv-kind, Adds, added,
}

module _ (st : Symtab) (key : Str) (kind : SymKind) (w : Option Str) (t : Tree)
    (v : IsValid st) where
  -- A key that is there: its node gets the new value.
  module _ (kv : KvPair) (here : symtab_lookup st key kind ≡ some kv) where
    found : find (wanted key kind) (nodes st) ≡ some kv
    found = sym (symtab_lookup-nodes st key kind v.buckets) ∙ here

    is_wanted : wanted key kind kv ≡ true
    is_wanted = find_holds (wanted key kind) (nodes st) kv found

    gentle : Gentle (set_kv kind w t) kv
    gentle = record {
      addr = set_kv-addr kind w t;
      hkey = set_kv-hkey kind w t;
      key = set_kv-key kind w t;
      kind = set_kv-kind kind w t kv ∙ sym (wanted_parts key kind kv is_wanted).2;
    }

    overwrite-Adds :
        Adds st key kind (set_kv kind w t kv) (write_node kv.addr (set_kv kind w t) st, kv.addr)
    overwrite-Adds = record {
      valid = write_node-IsValid st (wanted key kind) kv (set_kv kind w t) v found gentle;
      pointer = sym (set_kv-addr kind w t kv);
      self =
          rw
            (
              symtab_lookup-write_node st (wanted key kind) kv (set_kv kind w t) v found gentle,
              here,
            )
            (ground arith);
      others = λ key' kind' ne.
          symtab_lookup-write_other st (wanted key kind) kv (set_kv kind w t) v found gentle key'
            kind' (wanted_other key key' kind kind' kv is_wanted ne);
    }

-- On a well-formed table, `symtab_add` returns a well-formed table and a pointer to a node with the
-- new value, which a lookup of the key and kind finds, and every other entry is found as before.
pub symtab_add-Adds :
    (st : Symtab) (key : Str) (kind : SymKind) (w : Option Str) (t : Tree)
    → IsValid st
    → Adds st key kind (added st key kind w t) (symtab_add st key kind w t)
unfolding symtab_add
symtab_add-Adds st key kind w t v = elim (Option-cases (symtab_lookup st key kind)) [
  | inl e ↦ rw (e, symtab_add, added) (fresh-Adds st key kind w t v e)
  | inr (kv, e) ↦ rw (e, symtab_add, added) (overwrite-Adds st key kind w t v kv e)
]
