-- ===== src/Symtab/Tests.antt =====
-- The theorems on the symbol table at concrete tables.
use epita_42sh.Ast.{null}
use epita_42sh.Base.Text.{Str, codes}
use epita_42sh.Base.{◌≡◌, Option, some}
use epita_42sh.Symtab.Add.{symtab_add-Adds}
use epita_42sh.Symtab.Exported.{symtab_new-IsValid, Exports, set_exported-Exports}
use epita_42sh.Symtab.Clone.{entry, symtab_clone-entry}
use epita_42sh.Symtab.Del.{Deletes, symtab_del-Deletes}
use epita_42sh.Symtab.Entry.{Adds, added}
use epita_42sh.Symtab.Valid.{nodes, IsValid, Regrouped, symtab_realloc-Regrouped}
use epita_42sh.Symtab.{
  KvPair, Symtab, SymKind, kv_word, kv_alias, symtab_new, symtab_add, symtab_realloc, symtab_clone,
  set_exported,
}

abbrev x_key : Str
x_key = codes "x"

abbrev one : Option Str
one = some (codes "1")

-- The table of `x=1`.
abbrev pub x_table : Symtab
x_table = (symtab_add symtab_new x_key kv_word one null).0

abbrev x_node : KvPair
x_node = added symtab_new x_key kv_word one null

x_Adds : Adds symtab_new x_key kv_word x_node (symtab_add symtab_new x_key kv_word one null)
x_Adds = symtab_add-Adds symtab_new x_key kv_word one null symtab_new-IsValid

pub x_table-IsValid : IsValid x_table
x_table-IsValid = x_Adds.valid

symtab_add-Adds_example :
    Adds x_table x_key kv_alias
      (added x_table x_key kv_alias one null)
      (symtab_add x_table x_key kv_alias one null)
symtab_add-Adds_example = symtab_add-Adds x_table x_key kv_alias one null x_table-IsValid

symtab_del-Deletes_example : Deletes x_table x_key kv_word x_node
symtab_del-Deletes_example =
    symtab_del-Deletes x_table x_key kv_word x_node x_table-IsValid x_Adds.self

set_exported-Exports_example :
    Exports x_table x_key kv_word x_node (set_exported x_node.addr x_table)
set_exported-Exports_example =
    set_exported-Exports x_table x_key kv_word x_node x_table-IsValid x_Adds.self

symtab_clone-entry_example :
    IsValid (symtab_clone x_table)
    × ((key : Str) (kind : SymKind)
        → entry (symtab_clone x_table) key kind ≡ entry x_table key kind)
symtab_clone-entry_example = symtab_clone-entry x_table x_table-IsValid

symtab_realloc-Regrouped_example : Regrouped x_table (symtab_realloc x_table 32) (nodes x_table)
symtab_realloc-Regrouped_example = symtab_realloc-Regrouped x_table 32 x_table-IsValid.buckets
