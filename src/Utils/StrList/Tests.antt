-- ===== src/Utils/StrList/Tests.antt =====
-- Three strings in a list with room for one.
use epita_42sh.Base.Text.{Str, codes}
use epita_42sh.Base.{◌≡◌, Option, none, some, List, [], ◌∷◌, arith}
use epita_42sh.Utils.StrList.Laws.{push_strings-new}
use epita_42sh.Utils.StrList.{StrList, elements, list_new, push_strings}

abbrev three_strings : List (Option Str)
three_strings = some (codes "ls") ∷ some [] ∷ none ∷ []

push_strings-new_example :
    (m : StrList) × (push_strings none (list_new 1) three_strings ≡ some m)
    × (elements m ≡ three_strings)
push_strings-new_example = push_strings-new none 1 three_strings (omega arith) (omega arith)
