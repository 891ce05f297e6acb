-- ===== src/Symtab/Print.antt =====
-- What `symtab_print` of symtab_utils.c prints. What `%s` prints for NULL is glibc's `(null)`.
use epita_42sh.Base.Text.{Str, codes}
use epita_42sh.Base.{
  ℕ, zero, suc, ◌+◌, ◌/◌, ◌%◌, Option, none, some, List, [], ◌∷◌, ◌++◌, if◌then◌else◌, ◌==◌,
}
use epita_42sh.Symtab.{KvPair, Symtab, kv_func}

-- The decimal digits of a number below `10 ^ n`, or below 10 for `n` 0.
unfoldable pub digits : ℕ → ℕ → Str
digits zero n = (b'0' + n % 10) ∷ []
digits (suc f) n =
    let high = digits f (n / 10) in
    if n / 10 == 0 then (b'0' + n % 10) ∷ [] else high ++ (b'0' + n % 10) ∷ []

unfoldable pub string_or_null : Option Str → Str
string_or_null none = codes "(null)"
string_or_null (some s) = s

unfoldable pub print_chain : List KvPair → Str
unfolding string_or_null
print_chain [] = []
print_chain (kv ∷ c) =
    let value : Str = elim kv.kind [ kv_func ↦ codes "function" | _ ↦ string_or_null kv.word ] in
    codes " --> " ++ (kv.key ++ (codes " = " ++ (value ++ print_chain c)))

-- The lines of `symtab_print` from the bucket `i` on.
unfoldable pub print_buckets : ℕ → List (List KvPair) → Str
unfolding digits print_chain
print_buckets i [] = []
print_buckets i (c ∷ cs) =
    b'[' ∷ (digits 20 i ++ (b']' ∷ (print_chain c ++ (codes "\n" ++ print_buckets (suc i) cs))))

unfoldable pub symtab_print : Symtab → Str
unfolding print_buckets
symtab_print st = print_buckets 0 st.data_
