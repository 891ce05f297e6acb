-- ===== src/Symtab/Entry.antt =====
-- Entries of the table: a key with a kind, and what `symtab_add` makes of one.
use epita_42sh.Ast.{Tree}
use epita_42sh.Base.Text.{Str, str_eq, str_eq_refl, str_eq_sound}
use epita_42sh.Base.{
  ℕ, ◌≡◌, refl, ◌∙◌, sym, inl, inr, Bool, true, false, ◌&&◌, Option, none, some, ==_iff, Bool-cases,
  arith,
}
use epita_42sh.Symtab.Valid.{wanted, IsValid}
use epita_42sh.Symtab.{
  KvPair, Symtab, SymKind, kv_word, kv_func, kv_alias, hash, kind_eq, matches, symtab_lookup,
  set_kv, fresh_kv,
}

pub kind_eq_sound : (a b : SymKind) → kind_eq a b ≡ true → a ≡ b
unfolding kind_eq
kind_eq_sound a b h = ground arith

pub kind_eq_refl : (a : SymKind) → kind_eq a a ≡ true
unfolding kind_eq
kind_eq_refl a = ground arith

-- Two pairs of a key and a kind are one entry of the table.
abbrev pub same_entry : Str → SymKind → Str → SymKind → Bool
same_entry key kind key' kind' = str_eq key key' && kind_eq kind kind'

pub same_entry_sound :
    (key key' : Str) (kind kind' : SymKind)
    → same_entry key kind key' kind' ≡ true
    → (key ≡ key') × (kind ≡ kind')
same_entry_sound key key' kind kind' h =
    ground (arith, str_eq_sound key key', kind_eq_sound kind kind')

pub wanted_parts :
    (key : Str) (kind : SymKind) (kv : KvPair)
    → wanted key kind kv ≡ true
    → (kv.hkey ≡ hash key) × (kv.key ≡ key) × (kv.kind ≡ kind)
unfolding matches
wanted_parts key kind kv h =
    ground (arith, str_eq_sound kv.key key, kind_eq_sound kv.kind kind, ==_iff kv.hkey (hash key))

pub wanted_other :
    (key key' : Str) (kind kind' : SymKind) (kv : KvPair)
    → wanted key kind kv ≡ true
    → same_entry key kind key' kind' ≡ false
    → wanted key' kind' kv ≡ false
wanted_other key key' kind kind' kv h ne = elim (Bool-cases (wanted key' kind' kv)) [
  | inr e ↦ e
  | inl e ↦
      let (a, b, c) = wanted_parts key kind kv h in
      let (a', b', c') = wanted_parts key' kind' kv e in
      let k : key ≡ key' = sym b ∙ b' in
      let t : kind ≡ kind' = sym c ∙ c' in
      ground (arith, rw (k, t) at ne, str_eq_refl key', kind_eq_refl kind')
]

-- What `symtab_add` does in the finite map of the table: `kv` is the node that it returns.
pub record Adds (st : Symtab) (key : Str) (kind : SymKind) (kv : KvPair) (r : Symtab × ℕ)
    : Type 0 where
  pub valid : IsValid r.0
  pub pointer : r.1 ≡ kv.addr
  pub self : symtab_lookup r.0 key kind ≡ some kv
  pub others :
      (key' : Str) (kind' : SymKind)
      → same_entry key kind key' kind' ≡ false
      → symtab_lookup r.0 key' kind' ≡ symtab_lookup st key' kind'

-- The node that `symtab_add` leaves: the old one or a fresh one, with the value written.
abbrev pub added : Symtab → Str → SymKind → Option Str → Tree → KvPair
added st key kind w f = elim (symtab_lookup st key kind) [
  | some kv ↦ set_kv kind w f kv
  | none ↦ set_kv kind w f (fresh_kv st.next_addr key)
]

pub set_kv-addr :
    (kind : SymKind) (w : Option Str) (t : Tree) (n : KvPair) → (set_kv kind w t n).addr ≡ n.addr
unfolding set_kv
set_kv-addr kv_word w t n = refl
set_kv-addr _ w t n = refl

pub set_kv-hkey :
    (kind : SymKind) (w : Option Str) (t : Tree) (n : KvPair) → (set_kv kind w t n).hkey ≡ n.hkey
unfolding set_kv
set_kv-hkey kv_word w t n = refl
set_kv-hkey _ w t n = refl

pub set_kv-key :
    (kind : SymKind) (w : Option Str) (t : Tree) (n : KvPair) → (set_kv kind w t n).key ≡ n.key
unfolding set_kv
set_kv-key kv_word w t n = refl
set_kv-key _ w t n = refl

pub set_kv-kind :
    (kind : SymKind) (w : Option Str) (t : Tree) (n : KvPair) → (set_kv kind w t n).kind ≡ kind
unfolding set_kv
set_kv-kind kv_word w t n = refl
set_kv-kind kv_alias w t n = refl
set_kv-kind kv_func w t n = refl
