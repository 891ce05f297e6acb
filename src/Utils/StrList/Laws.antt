-- ===== src/Utils/StrList/Laws.antt =====
-- What a list of strings holds behind pushes and growths of its array.
use mathlib.Core.List.{append_assoc, append-nil}
use native.Mathlib.Numerals.{add-one}
use epita_42sh.Base.Text.{Str}
use epita_42sh.Base.{
  ℕ, ◌+◌, ◌-◌, ◌*◌, ◌%◌, ◌^◌, ◌≤◌, ◌<◌, ◌≡◌, refl, ap, sym, ◌∙◌, inl, inr, true, Option, none, some,
  List, [], ◌∷◌, ◌++◌, ◌==◌, ltb, lt→ltb, Bool-cases, length, set, replicate, length-append,
  length-replicate, length-set, length-take, take-append, take-set, take-take, arith,
}
use epita_42sh.Utils.StrList.{StrList, elements, list_new, list_grow, list_push, push_strings}

pub record IsValid (l : StrList) : Type 0 where
  pub cells : length l.data_ ≡ l.capacity
  pub fits : l.size ≤ l.capacity
  pub positive : 0 < l.capacity

list_grow_lem :
    (junk : Option Str) (l : StrList)
    → IsValid l
    → l.capacity < 2 ^ 31
    → IsValid (list_grow junk l)
      × (l.size < (list_grow junk l).capacity)
      × (elements (list_grow junk l) ≡ elements l)
unfolding list_grow
list_grow_lem junk l ok small =
    let n = (l.capacity * 2) % 2 ^ 32 in
    let doubled : n ≡ l.capacity * 2 = omega arith in
    let added = replicate (n - l.capacity) junk in
    let long : length (l.data_ ++ added) ≡ n = omega (
      arith,
      length-append l.data_ added,
      length-replicate (n - l.capacity) junk,
      ok.cells,
      ok.positive,
    ) in
    (
      record {
        cells = length-take n (l.data_ ++ added) (omega arith);
        fits = omega (arith, ok.fits);
        positive = omega (arith, ok.positive);
      },
      omega (arith, ok.fits, ok.positive),
      take-take l.size n (l.data_ ++ added) (omega (arith, ok.fits))
          ∙ take-append l.size l.data_ added (omega (arith, ok.fits, ok.cells)),
    )

-- The write at the end, with room for it.
write_end :
    (m : StrList) (s : Option Str)
    → IsValid m
    → m.size < m.capacity
    → m.size < 2 ^ 31
    → let r = record m { data_ = set m.data_ m.size s; size = (m.size + 1) % 2 ^ 32 } in
      IsValid r × (elements r ≡ elements m ++ s ∷ []) × (r.size ≡ m.size + 1)
write_end m s ok room small =
    let next : (m.size + 1) % 2 ^ 32 ≡ m.size + 1 = omega arith in
    (
      record {
        cells = length-set m.data_ m.size s ∙ ok.cells;
        fits = omega arith;
        positive = ok.positive;
      },
      rw (next, add-one, take-set m.data_ m.size s (omega (arith, ok.cells))) refl,
      next,
    )

-- What a push gives: no write outside of the array, and one element more.
abbrev pub Pushed : StrList → Option Str → Option StrList → Type 0
Pushed l s o =
    (m : StrList) × (o ≡ some m)
    × IsValid m
    × (elements m ≡ elements l ++ s ∷ [])
    × (m.size ≡ l.size + 1)

list_push_lem :
    (junk : Option Str) (l : StrList) (s : Option Str)
    → IsValid l
    → l.size < 2 ^ 31
    → Pushed l s (list_push junk l s)
unfolding list_push
list_push_lem junk l s ok small = elim (Bool-cases (l.size == l.capacity)) [
  | inl full ↦
      let (ok', room, text) = list_grow_lem junk l ok (ground arith) in
      let (valid, more, size) = write_end (list_grow junk l) s ok' room (omega arith) in
      let fits : ltb l.size (length (list_grow junk l).data_) ≡ true =
        lt→ltb l.size (length (list_grow junk l).data_) (omega (arith, ok'.cells)) in
      (_, rw (full, fits) refl, valid, more ∙ ap (λ xs. xs ++ s ∷ []) text, size)
  | inr free ↦
      let room : l.size < l.capacity = ground (arith, ok.fits) in
      let (valid, more, size) = write_end l s ok room small in
      let fits : ltb l.size (length l.data_) ≡ true =
        lt→ltb l.size (length l.data_) (omega (arith, ok.cells)) in
      (_, rw (free, fits) refl, valid, more, size)
]

push_first :
    (junk : Option Str) (l m : StrList) (s : Option Str) (ss : List (Option Str))
    → list_push junk l s ≡ some m
    → push_strings junk l (s ∷ ss) ≡ push_strings junk m ss
unfolding push_strings
push_first junk l m s ss e = ap (λ o. elim o [ none ↦ none | some r ↦ push_strings junk r ss ]) e

push_strings_lem :
    (junk : Option Str) (ss : List (Option Str)) (l : StrList)
    → IsValid l
    → l.size + length ss ≤ 2 ^ 31
    → (m : StrList) × (push_strings junk l ss ≡ some m)
      × IsValid m
      × (elements m ≡ elements l ++ ss)
unfolding push_strings
push_strings_lem junk [] l ok small = (l, refl, ok, sym (append-nil (elements l)))
push_strings_lem junk (s ∷ ss) l ok small =
    let (m, pushed, ok', text, size) = list_push_lem junk l s ok (omega arith) in
    let (r, all, ok'', text') = push_strings_lem junk ss m ok' (omega arith) in
    (
      r,
      push_first junk l m s ss pushed ∙ all,
      ok'',
      text' ∙ ap (λ xs. xs ++ ss) text ∙ append_assoc (elements l) (s ∷ []) ss,
    )

list_new-IsValid : (capacity : ℕ) → 0 < capacity → IsValid (list_new capacity)
unfolding list_new
list_new-IsValid capacity h = record {
  cells = length-replicate capacity none;
  fits = omega arith;
  positive = h;
}

-- A new list with room for one string at least, into which up to 2^31 strings are pushed: no push
-- writes outside of the array, whatever is in the cells that the growth leaves unwritten, and the
-- list holds the strings in their order.
pub push_strings-new :
    (junk : Option Str) (capacity : ℕ) (ss : List (Option Str))
    → 0 < capacity
    → length ss ≤ 2 ^ 31
    → (m : StrList) × (push_strings junk (list_new capacity) ss ≡ some m) × (elements m ≡ ss)
unfolding list_new
push_strings-new junk capacity ss h small =
    let (m, pushed, ok, text) =
      push_strings_lem junk ss (list_new capacity) (list_new-IsValid capacity h) (omega arith) in
    (m, pushed, text)
