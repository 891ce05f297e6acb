-- ===== src/Utils/StrList.antt =====
-- The list of strings of list.c and include/list.h. A cell that was allocated and not written holds
-- `junk`; an access outside of the array is `none`.
pub mod Laws
mod Tests
use epita_42sh.Base.Text.{Str}
use epita_42sh.Base.{
  ℕ, zero, suc, ◌+◌, ◌-◌, ◌*◌, ◌%◌, ◌^◌, Option, none, some, List, [], ◌∷◌, ◌++◌, if◌then◌else◌,
  ◌==◌, ltb, length, set, take, replicate,
}

-- `struct list`; an element is NULL or a string.
pub record StrList : Type 0 where
  pub data_ : List (Option Str)
  pub capacity : ℕ
  pub size : ℕ

-- The elements up to the size.
abbrev pub elements : StrList → List (Option Str)
elements l = take l.size l.data_

-- `zalloc` clears the array.
unfoldable pub list_new : ℕ → StrList
list_new capacity = record { data_ = replicate capacity none; capacity = capacity; size = 0 }

-- `xrealloc` to the doubled capacity.
unfoldable pub list_grow : Option Str → StrList → StrList
list_grow junk l =
    let capacity = (l.capacity * 2) % 2 ^ 32 in
    record l {
      data_ = take capacity (l.data_ ++ replicate (capacity - l.capacity) junk);
      capacity = capacity;
    }

unfoldable pub list_push : Option Str → StrList → Option Str → Option StrList
unfolding list_grow
list_push junk l s =
    let m = if l.size == l.capacity then list_grow junk l else l in
    if ltb m.size (length m.data_)
    then some (record m { data_ = set m.data_ m.size s; size = (m.size + 1) % 2 ^ 32 })
    else none

-- `list_push` of several strings, first to last.
unfoldable pub push_strings : Option Str → StrList → List (Option Str) → Option StrList
push_strings junk l [] = some l
push_strings junk l (s ∷ ss) = elim (list_push junk l s) [
  | none ↦ none
  | some m ↦ push_strings junk m ss
]
