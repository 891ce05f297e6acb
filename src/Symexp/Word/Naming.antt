-- ===== src/Symexp/Word/Naming.antt =====
-- The rounds of `symexp_word` over `${name}`.
use mathlib.Core.List.{append_assoc, append-nil}
use epita_42sh.Base.Text.{Str, codes, str_eq}
use epita_42sh.Base.{
  ℕ, suc, ◌+◌, ◌<◌, ◌≤◌, ◌≡◌, refl, ◌∙◌, sym, subst, inl, inr, Bool, true, false, ◌&&◌, ◌||◌,
  Option, none, some, [], ◌∷◌, ◌++◌, ◌==◌, ltb, leb, lt→ltb, take, take_all, length, length-append,
  All, arith, Option-cases,
}
use epita_42sh.Symexp.Word.{exp_step, kind_of, collect, acquire, end_symbol, dollar, close, symbol}
use epita_42sh.Symexp.Word.Laws.{at, Reaches, Reaches-join, Reaches-cons, Reaches-step}
use epita_42sh.Symexp.{
  Ctx, Host, Exp, is_digit, is_int, all_digits, quit_dollar_mode, search_sym, search_name,
  exp_single_char,
}
use epita_42sh.Symtab.Entry.{wanted_parts}
use epita_42sh.Symtab.Nodes.{find_holds}
use epita_42sh.Symtab.Valid.{IsValid, nodes, wanted, symtab_lookup-nodes}
use epita_42sh.Symtab.{KvPair, kv_word, kind_eq, symtab_lookup}

abbrev pub name_start : ℕ → Bool
name_start c = (leb b'a' c && leb c b'z') || ((leb b'A' c && leb c b'Z') || c == b'_')

abbrev pub name_char : ℕ → Bool
name_char c = name_start c || is_digit c

-- The state that collects a name outside of quotes.
abbrev pub naming {ℓ} : {W : Type ℓ} → Exp W → Bool → Str → Str → ℕ → Str → Exp W
naming s h word text i key = record s {
  word = word;
  expvec = text;
  exp_dollar = true;
  single_quote = false;
  double_quote = false;
  had_a_quote = h;
  i = i;
  key = key;
}

not_int : (c : ℕ) (t : Str) → name_start c ≡ true → is_int (c ∷ t) ≡ false
unfolding is_int all_digits
not_int c t h = ground arith

module _ {ℓ} {W : Type ℓ} (host : Host W) (ctx : Ctx) where
  pub naming-symbol :
      (s : Exp W) (h : Bool) (c : ℕ) (word text : Str) (i : ℕ) (key : Str)
      → name_char c ≡ true
      → kind_of c (naming s h word text i key) ≡ symbol
  unfolding kind_of
  naming-symbol s h c word text i key n = ground arith

  pub single-none :
      (c : ℕ) (s : Exp W) → name_char c ≡ true → exp_single_char host ctx c s ≡ some (s, false)
  unfolding exp_single_char
  single-none c s n = ground arith

  -- The first character of a name, behind a key that is no number.
  pub first_step :
      (s : Exp W) (h : Bool) (c : ℕ) (word text key : Str)
      → name_start c ≡ true
      → is_int key ≡ false
      → acquire host ctx c (naming s h word text 0 key) ≡ some (naming s h word text 1 (c ∷ []))
  unfolding acquire collect end_symbol
  first_step s h c word text key n k =
      let a : (c == b'(' || c == b'{') ≡ false = ground arith in
      let one = single-none c (naming s h word text 1 (c ∷ [])) (ground arith) in
      rw (acquire, a, collect, k, one) refl

  next_step :
      (s : Exp W) (h : Bool) (c : ℕ) (word text key : Str)
      → name_char c ≡ true
      → is_int key ≡ false
      → 1 ≤ length key
      → length key < 99
      → acquire host ctx c (naming s h word text (length key) key)
        ≡ some (naming s h word text (length (key ++ c ∷ [])) (key ++ c ∷ []))
  unfolding acquire collect end_symbol
  next_step s h c word text key n k pos fits =
      let a : (c == b'(' || c == b'{') ≡ false = ground arith in
      let lt : ltb (length key) 99 ≡ true = lt→ltb (length key) 99 fits in
      let all : take (length key) key ≡ key = take_all (length key) key (omega arith) in
      let len : length (key ++ c ∷ []) ≡ length key + 1 = length-append key (c ∷ []) in
      let ne : (length key + 1 == 1) ≡ false = ground arith in
      rw (len, acquire, a, collect, k, lt, all, ne) refl

  -- The rounds over the rest of a name, `pre` being collected.
  name_run :
      (t : Str) (s : Exp W) (h : Bool) (rest text : Str) (p : ℕ) (pre : Str)
      → name_start p ≡ true
      → All (λ c. name_char c ≡ true) t
      → length (p ∷ pre) + length t ≤ 99
      → Reaches host ctx
          (length t)
          (naming s h (t ++ rest) text (length (p ∷ pre)) (p ∷ pre))
          (naming s h rest text (length (p ∷ (pre ++ t))) (p ∷ (pre ++ t)))
  unfolding exp_step
  name_run [] s h rest text p pre start all fits =
      λ f. let z : 0 + f ≡ f = omega arith in rw (z, append-nil pre) refl
  name_run (c ∷ t) s h rest text p pre start all fits =
      let key : Str = p ∷ pre in
      let one =
        Reaches-step host ctx symbol
          (naming s h (c ∷ (t ++ rest)) text (length (p ∷ pre)) (p ∷ pre))
          (naming s h (t ++ rest) text (length ((p ∷ pre) ++ c ∷ [])) ((p ∷ pre) ++ c ∷ [])) c
          (t ++ rest) refl (naming-symbol s h c (t ++ rest) text (length (p ∷ pre)) (p ∷ pre) all.0)
          (next_step s h c (t ++ rest) text (p ∷ pre) all.0 (not_int p pre start) (omega arith)
            (omega arith)) in
      let more =
        name_run t s h rest text p (pre ++ c ∷ []) start all.1
          (omega (arith, length-append pre (c ∷ []))) in
      subst
        (λ x.
          Reaches host ctx (suc (length t))
            (naming s h (c ∷ (t ++ rest)) text (length (p ∷ pre)) (p ∷ pre))
            (naming s h rest text (length (p ∷ x)) (p ∷ x)))
        (append_assoc pre (c ∷ []) t)
        (Reaches-cons host ctx (length t)
          (naming s h (c ∷ (t ++ rest)) text (length (p ∷ pre)) (p ∷ pre))
          (naming s h (t ++ rest) text (length ((p ∷ pre) ++ c ∷ [])) ((p ∷ pre) ++ c ∷ []))
          (naming s h rest text (length (p ∷ ((pre ++ c ∷ []) ++ t))) (p ∷ ((pre ++ c ∷ []) ++ t)))
          one more)

  -- The value that the table has for a name; nothing when it is unset.
  unfoldable pub value_of : Str → Str
  value_of name = elim (symtab_lookup ctx.st name kv_word) [
    | none ↦ []
    | some kv ↦ elim kv.word [ none ↦ [] | some v ↦ v ]
  ]

  module _ (v : IsValid ctx.st) where
    lookup-kind :
        (name : Str) (kv : KvPair) → symtab_lookup ctx.st name kv_word ≡ some kv → kv.kind ≡ kv_word
    lookup-kind name kv here =
        let found = sym (symtab_lookup-nodes ctx.st name kv_word v.buckets) ∙ here in
        (wanted_parts name kv_word kv (find_holds (wanted name kv_word) (nodes ctx.st) kv found)).2

    search_name-value :
        (name : Str) (w : W)
        → str_eq name (codes "RANDOM") ≡ false
        → str_eq name (codes "UID") ≡ false
        → (o : Option Str) × (search_name host ctx name w ≡ some (o, w))
          × ((text : Str) → (elim o [ none ↦ text | some x ↦ text ++ x ]) ≡ text ++ value_of name)
    unfolding search_name value_of kind_eq
    search_name-value name w r u = elim (Option-cases (symtab_lookup ctx.st name kv_word)) [
      | inl e ↦
          (none, rw (search_name, r, u, e) refl, λ text. rw (value_of, e) (sym (append-nil text)))
      | inr (kv, e) ↦ (
        kv.word,
        rw (search_name, r, u, e, lookup-kind name kv e) refl,
        λ text. rw (value_of, e) (word kv.word text),
      )
    ]
      where
        word :
            (o : Option Str) (text : Str)
            → (elim o [ none ↦ text | some x ↦ text ++ x ])
              ≡ text ++ (elim o [ none ↦ [] | some x ↦ x ])
        word none text = sym (append-nil text)
        word (some x) text = refl

    -- The end of a name that is neither RANDOM nor UID.
    close_step :
        (s : Exp W) (h : Bool) (rest text : Str) (p : ℕ) (t : Str)
        → name_start p ≡ true
        → str_eq (p ∷ t) (codes "RANDOM") ≡ false
        → str_eq (p ∷ t) (codes "UID") ≡ false
        → quit_dollar_mode host ctx (naming s h rest text (suc (length t)) (p ∷ t))
          ≡ some (
              at
                (record s { i = suc (length t); key = p ∷ t })
                false
                false
                h
                rest
                (text ++ value_of (p ∷ t)))
    unfolding quit_dollar_mode search_sym
    close_step s h rest text p t start r u =
        let (o, e, val) = search_name-value (p ∷ t) s.world r u in
        let z : (suc (length t) == 0) ≡ false = ground arith in
        let e' : search_sym host ctx (p ∷ t) s.world ≡ some (o, s.world) =
          rw (search_sym, not_int p t start) e in
        rw (quit_dollar_mode, z, e', sym (val text)) refl

    closing :
        (s : Exp W) (h : Bool) (word text : Str) (i : ℕ) (key : Str)
        → kind_of b'}' (naming s h word text i key) ≡ close
    unfolding kind_of
    closing s h word text i key = ground arith

    -- The rounds over `${name}`.
    pub braced_run :
        (s : Exp W) (h : Bool) (rest text : Str) (p : ℕ) (t : Str)
        → name_start p ≡ true
        → All (λ c. name_char c ≡ true) t
        → length (p ∷ t) ≤ 99
        → str_eq (p ∷ t) (codes "RANDOM") ≡ false
        → str_eq (p ∷ t) (codes "UID") ≡ false
        → is_int s.key ≡ false
        → Reaches host ctx
            (suc (suc (suc (length t + 1))))
            (at s false false h (b'$' ∷ b'{' ∷ p ∷ (t ++ b'}' ∷ rest)) text)
            (at
              (record s { i = suc (length t); key = p ∷ t })
              false
              false
              h
              rest
              (text ++ value_of (p ∷ t)))
    unfolding exp_step kind_of quit_dollar_mode acquire
    braced_run s h rest text p t start all fits r u k =
        let w : Str = p ∷ (t ++ b'}' ∷ rest) in
        let a : Exp W = at s false false h (b'$' ∷ b'{' ∷ w) text in
        let b : Exp W = naming s h (b'{' ∷ w) text 0 s.key in
        let c : Exp W = naming s h w text 0 s.key in
        let d : Exp W = naming s h (t ++ b'}' ∷ rest) text 1 (p ∷ []) in
        let e : Exp W = naming s h (b'}' ∷ rest) text (suc (length t)) (p ∷ t) in
        let z : Exp W =
          at (record s { i = suc (length t); key = p ∷ t }) false false h rest
            (text ++ value_of (p ∷ t)) in
        let a_b = Reaches-step host ctx dollar a b b'$' (b'{' ∷ w) refl refl refl in
        let b_c = Reaches-step host ctx symbol b c b'{' w refl refl refl in
        let c_d =
          Reaches-step host ctx symbol c d p (t ++ b'}' ∷ rest) refl
            (naming-symbol s h p (t ++ b'}' ∷ rest) text 0 s.key (ground arith))
            (first_step s h p (t ++ b'}' ∷ rest) text s.key start k) in
        let d_e = name_run t s h (b'}' ∷ rest) text p [] start all (omega arith) in
        let e_z =
          Reaches-step host ctx close e z b'}' rest refl
            (closing s h rest text (suc (length t)) (p ∷ t))
            (close_step s h rest text p t start r u) in
        Reaches-cons host ctx (suc (suc (length t + 1))) a b z a_b (
          Reaches-cons host ctx (suc (length t + 1)) b c z b_c (
            Reaches-cons host ctx (length t + 1) c d z c_d
              (Reaches-join host ctx (length t) 1 d e z d_e e_z)))
