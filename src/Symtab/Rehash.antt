-- ===== src/Symtab/Rehash.antt =====
-- The loops of `symtab_realloc` in symtab_alloc.c: they lose no node and put each one into the
-- bucket of its hash.
use mathlib.Core.List.{append_assoc, append-nil}
use native.Mathlib.Decide.{ℕ_discrete, dec_lt}
use native.Mathlib.Nat.{mod-lt}
use epita_42sh.Base.{
  ℕ, zero, suc, ◌+◌, ◌%◌, ◌≤◌, ◌<◌, ◌≡◌, ◌≢◌, refl, ◌∙◌, sym, ◌⊎◌, inl, inr, Bool, List, [], ◌∷◌,
  ◌++◌, flatten, ◌==◌, ==_iff, Bool-cases, All, get_or, set, length, length-set, get_or-set_self,
  get_or-set_ne, set_over, set-set_restore, arith,
}
use epita_42sh.Symtab.Nodes.{
  Same, Same-refl, Same-sym, Same-trans, Same-swap, Same-append, flatten-set-Same,
}
use epita_42sh.Symtab.{KvPair, rehash_chain, rehash_from}

-- All the nodes of a chain belong into bucket `b` of `capacity` ones.
abbrev pub Home : ℕ → ℕ → List KvPair → Type 0
Home capacity b = All (λ kv. kv.hkey % capacity ≡ b)

Home-append :
    (capacity b : ℕ) (x y : List KvPair)
    → Home capacity b x
    → Home capacity b y
    → Home capacity b (x ++ y)
Home-append capacity b [] y h k = k
Home-append capacity b (kv ∷ x) y h k = (h.0, Home-append capacity b x y h.1 k)

length-rehash_chain :
    (i capacity : ℕ) (kept rest : List KvPair) (data_ : List (List KvPair)) (size : ℕ)
    → length (rehash_chain i capacity kept rest data_ size).0 ≡ length data_
unfolding rehash_chain
length-rehash_chain i capacity kept [] data_ size = length-set data_ i kept
length-rehash_chain i capacity kept (kv ∷ rest) data_ size =
    let j = kv.hkey % capacity in
    let pushed = set data_ j (kv ∷ get_or data_ j []) in
    elim (Bool-cases (i == j)) [
      | inl e ↦ rw e (length-rehash_chain i capacity (kept ++ kv ∷ []) rest data_ size)
      | inr e ↦ rw e (length-rehash_chain i capacity kept rest pushed _ ∙ length-set data_ j _)
    ]

pub length-rehash_from :
    (n i capacity : ℕ) (data_ : List (List KvPair)) (size : ℕ)
    → length (rehash_from n i capacity data_ size).0 ≡ length data_
unfolding rehash_from
length-rehash_from zero i capacity data_ size = refl
length-rehash_from (suc n) i capacity data_ size =
    length-rehash_from n (suc i) capacity _ _
    ∙ length-rehash_chain i capacity [] (get_or data_ i []) (set data_ i []) size
    ∙ length-set data_ i []

module _ (p : KvPair → Bool) where
  move_front :
      (kept rest : List KvPair) (kv : KvPair) (d : List KvPair)
      → Same p ((kept ++ kv ∷ rest) ++ d) ((kept ++ rest) ++ kv ∷ d)
  move_front kept rest kv d =
      let shift = Same-append p kept (Same-swap p (kv ∷ []) rest d) in
      rw (append_assoc kept (kv ∷ rest) d, append_assoc kept rest (kv ∷ d)) shift

  pub rehash_chain-Same :
      (i capacity : ℕ) (kept rest : List KvPair) (data_ : List (List KvPair)) (size : ℕ)
      → 0 < capacity
      → capacity ≤ length data_
      → i < length data_
      → get_or data_ i [] ≡ []
      → Same p
          ((kept ++ rest) ++ flatten data_)
          (flatten (rehash_chain i capacity kept rest data_ size).0)
  unfolding rehash_chain
  rehash_chain-Same i capacity kept [] data_ size pos wide lt empty =
      let s = flatten-set-Same p data_ i kept lt in
      rw (append-nil kept) (rw (empty, append-nil kept) at s)
  rehash_chain-Same i capacity kept (kv ∷ rest) data_ size pos wide lt empty =
      let j = kv.hkey % capacity in
      let bucket = get_or data_ j [] in
      let pushed = set data_ j (kv ∷ bucket) in
      let j_lt : j < capacity = mod-lt kv.hkey pos in
      let j_fits : j < length data_ = omega arith in
      elim (Bool-cases (i == j)) [
        | inl e ↦
            let ih =
              rehash_chain-Same i capacity (kept ++ kv ∷ []) rest data_ size pos wide lt empty in
            rw e (rw (append_assoc kept (kv ∷ []) rest) at ih)
        | inr e ↦
            let apart : j ≢ i = λ q. ground (arith, ==_iff i j) in
            let ih =
              rehash_chain-Same i capacity kept rest pushed _ pos
                (rw (length-set data_ j (kv ∷ bucket)) wide)
                (rw (length-set data_ j (kv ∷ bucket)) lt)
                (get_or-set_ne data_ j i (kv ∷ bucket) [] apart ∙ empty) in
            let front = flatten-set-Same p data_ j (kv ∷ []) j_fits in
            rw e (
              Same-trans p (move_front kept rest kv (flatten data_))
                (Same-trans p (Same-append p (kept ++ rest) front) ih))
      ]

  -- The nodes of one bucket, and those of the others.
  pub take_out :
      (data_ : List (List KvPair)) (i : ℕ)
      → i < length data_
      → Same p (flatten data_) (get_or data_ i [] ++ flatten (set data_ i []))
  take_out data_ i lt =
      let c = get_or data_ i [] in
      let s = flatten-set-Same p (set data_ i []) i c (rw (length-set data_ i []) lt) in
      Same-sym p
        (rw (get_or-set_self data_ i [] [] lt, append-nil c, set-set_restore data_ i [] []) at s)

  pub rehash_from-Same :
      (n i capacity : ℕ) (data_ : List (List KvPair)) (size : ℕ)
      → 0 < capacity
      → capacity ≤ length data_
      → i + n ≤ length data_
      → Same p (flatten data_) (flatten (rehash_from n i capacity data_ size).0)
  unfolding rehash_from
  rehash_from-Same zero i capacity data_ size pos wide fits = Same-refl p (flatten data_)
  rehash_from-Same (suc n) i capacity data_ size pos wide fits =
      let c = get_or data_ i [] in
      let rest = set data_ i [] in
      let lt : i < length data_ = omega arith in
      let step =
        rehash_chain-Same i capacity [] c rest size pos (rw (length-set data_ i []) wide)
          (rw (length-set data_ i []) lt) (get_or-set_self data_ i [] [] lt) in
      let (d, s) = rehash_chain i capacity [] c rest size in
      let same_length : length d ≡ length data_ =
        length-rehash_chain i capacity [] c rest size ∙ length-set data_ i [] in
      Same-trans p (take_out data_ i lt) (
        Same-trans p step (
          rehash_from-Same n (suc i) capacity d s pos (rw same_length wide)
            (rw same_length (omega arith))))

module _ (capacity b : ℕ) where
  -- A node pushed into the bucket of its hash.
  pub push_Home :
      (kv : KvPair) (data_ : List (List KvPair))
      → Home capacity b (get_or data_ b [])
      → let j = kv.hkey % capacity in
        Home capacity b (get_or (set data_ j (kv ∷ get_or data_ j [])) b [])
  push_Home kv data_ hb =
      let j = kv.hkey % capacity in
      let bucket = kv ∷ get_or data_ j [] in
      elim (dec_lt j (length data_)) [
        | no over ↦ rw (set_over data_ j bucket (omega arith)) hb
        | yes lt ↦ elim (ℕ_discrete b j) [
          | yes e ↦ rw (e, get_or-set_self data_ j bucket [] lt) (refl, rw e at hb)
          | no ne ↦ rw (get_or-set_ne data_ j b bucket [] (λ e. ne (sym e))) hb
        ]
      ]

  pub rehash_chain-Home :
      (i : ℕ) (kept rest : List KvPair) (data_ : List (List KvPair)) (size : ℕ)
      → i < length data_
      → Home capacity i kept
      → (b ≢ i → Home capacity b (get_or data_ b []))
      → Home capacity b (get_or (rehash_chain i capacity kept rest data_ size).0 b [])
  unfolding rehash_chain
  rehash_chain-Home i kept [] data_ size lt hk hb = elim (ℕ_discrete b i) [
    | yes e ↦ rw (e, get_or-set_self data_ i kept [] lt) hk
    | no ne ↦ rw (get_or-set_ne data_ i b kept [] (λ e. ne (sym e))) (hb ne)
  ]
  rehash_chain-Home i kept (kv ∷ rest) data_ size lt hk hb =
      let j = kv.hkey % capacity in
      let bucket = get_or data_ j [] in
      elim (Bool-cases (i == j)) [
        | inl e ↦
            let here : j ≡ i = ground (arith, ==_iff i j) in
            rw e (
              rehash_chain-Home i (kept ++ kv ∷ []) rest data_ size lt
                (Home-append capacity i kept (kv ∷ []) hk (here, tt)) hb)
        | inr e ↦ rw e (
            rehash_chain-Home i kept rest (set data_ j (kv ∷ bucket)) _
              (rw (length-set data_ j (kv ∷ bucket)) lt) hk (λ ne. push_Home kv data_ (hb ne)))
      ]

  -- A bucket that is right before the loop, or that the loop walks, is right behind it.
  pub rehash_from-Home :
      (n i : ℕ) (data_ : List (List KvPair)) (size : ℕ)
      → i + n ≤ length data_
      → ((b < i) ⊎ (i + n ≤ b) → Home capacity b (get_or data_ b []))
      → Home capacity b (get_or (rehash_from n i capacity data_ size).0 b [])
  unfolding rehash_from
  rehash_from-Home zero i data_ size fits hb =
      hb (elim (dec_lt b i) [ yes h ↦ inl h | no h ↦ inr (omega arith) ])
  rehash_from-Home (suc n) i data_ size fits hb =
      let c = get_or data_ i [] in
      let rest = set data_ i [] in
      let lt : i < length data_ = omega arith in
      let (d, s) = rehash_chain i capacity [] c rest size in
      let same_length : length d ≡ length data_ =
        length-rehash_chain i capacity [] c rest size ∙ length-set data_ i [] in
      rehash_from-Home n (suc i) d s (rw same_length (omega arith)) (λ outside.
        rehash_chain-Home i [] c rest size (rw (length-set data_ i []) lt) tt (λ ne.
          rw (get_or-set_ne data_ i b [] [] (λ e. ne (sym e)))
            (hb (elim outside [ inl h ↦ inl (omega arith) | inr h ↦ inr (omega arith) ]))))
