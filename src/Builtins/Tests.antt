-- ===== src/Builtins/Tests.antt =====
-- The theorems on the builtins at a concrete table.
use epita_42sh.Base.Text.{Str, codes}
use epita_42sh.Base.{◌≡◌, true, List, [], ◌∷◌}
use epita_42sh.Builtins.Export.{Exported, bi_export-Exported}
use epita_42sh.Builtins.Unalias.{Leaves, bi_unalias-all}
use epita_42sh.Builtins.Unset.Outcome.{UnsetOutcome, bi_unset-Unset}
use epita_42sh.Builtins.{bi_export, bi_unalias, bi_unset}
use epita_42sh.Symtab.Tests.{x_table, x_table-IsValid}

abbrev export_args_of : List Str
export_args_of = codes "y=2" ∷ codes "x" ∷ []

bi_export-Exported_example :
    Exported x_table export_args_of (bi_export x_table (codes "export" ∷ export_args_of)).st
    × ((bi_export x_table (codes "export" ∷ export_args_of)).ret ≡ 0)
bi_export-Exported_example =
    bi_export-Exported x_table (codes "export") export_args_of x_table-IsValid

abbrev unset_args_of : List Str
unset_args_of = codes "-v" ∷ codes "-fv" ∷ codes "x" ∷ codes "-y" ∷ []

bi_unset-Unset_example :
    UnsetOutcome x_table unset_args_of true (bi_unset x_table (codes "unset" ∷ unset_args_of))
bi_unset-Unset_example = bi_unset-Unset x_table (codes "unset") unset_args_of x_table-IsValid

bi_unalias-all_example :
    Leaves x_table (bi_unalias x_table (codes "unalias" ∷ (codes "-a" ∷ []))).st
    × ((bi_unalias x_table (codes "unalias" ∷ (codes "-a" ∷ []))).ret ≡ 0)
bi_unalias-all_example = bi_unalias-all x_table (codes "unalias") [] x_table-IsValid
