-- ===== src/Symtab/Nodes.antt =====
-- Search and counting in lists of nodes, as symtab_ops.c searches a chain.
use mathlib.Core.List.{append_assoc}
use epita_42sh.Base.{
  ℕ, zero, suc, ◌+◌, ◌≤◌, ◌<◌, ◌≡◌, refl, sym, ap, ◌∙◌, Bool, true, false, none, some, or_else,
  List, [], ◌∷◌, ◌++◌, flatten, ◌==◌, get_or, set, length, arith,
}
use epita_42sh.Symtab.{KvPair, find}

abbrev pub bit : Bool → ℕ
bit true = 1
bit false = 0

unfoldable pub count : (KvPair → Bool) → List KvPair → ℕ
count p [] = 0
count p (kv ∷ c) = bit (p kv) + count p c

-- The nodes at an address.
abbrev pub at : ℕ → KvPair → Bool
at a kv = kv.addr == a

module _ (p : KvPair → Bool) where
  pub find-append : (a b : List KvPair) → find p (a ++ b) ≡ or_else (find p a) (find p b)
  unfolding find or_else
  find-append [] b = refl
  find-append (kv ∷ a) b = rw (find-append a b) (ground arith)

  pub count-append : (a b : List KvPair) → count p (a ++ b) ≡ count p a + count p b
  unfolding count
  count-append [] b = omega arith
  count-append (kv ∷ a) b = omega (arith, count-append a b)

  pub find-eq-none : (c : List KvPair) → count p c ≡ 0 → find p c ≡ none
  unfolding count find
  find-eq-none [] h = refl
  find-eq-none (kv ∷ c) h = ground (arith, find-eq-none c)

  pub count-eq-zero : (c : List KvPair) → find p c ≡ none → count p c ≡ 0
  unfolding count find
  count-eq-zero [] h = refl
  count-eq-zero (kv ∷ c) h = ground (arith, count-eq-zero c)

  -- A node that was found counts for every predicate that holds of it.
  pub count_of_find :
      (q : KvPair → Bool) (c : List KvPair) (kv : KvPair)
      → find p c ≡ some kv
      → q kv ≡ true
      → 1 ≤ count q c
  unfolding count find
  count_of_find q [] kv h e = cc
  count_of_find q (n ∷ c) kv h e = ground (arith, count_of_find q c kv)

  pub find_holds : (c : List KvPair) (kv : KvPair) → find p c ≡ some kv → p kv ≡ true
  unfolding find
  find_holds [] kv h = cc
  find_holds (n ∷ c) kv h = ground (arith, find_holds c kv)

  -- `l'` has as many nodes that satisfy the predicate as `l`, and the same one if there is one.
  pub record Same (l l' : List KvPair) : Type 0 where
    pub counts : count p l' ≡ count p l
    pub finds : count p l ≤ 1 → find p l' ≡ find p l

  pub Same-refl : (l : List KvPair) → Same l l
  Same-refl l = record { counts = refl; finds = λ _. refl }

  pub Same-sym : {l l' : List KvPair} → Same l l' → Same l' l
  Same-sym s = record { counts = sym s.counts; finds = λ h. sym (s.finds (omega arith)) }

  pub Same-trans : {a b c : List KvPair} → Same a b → Same b c → Same a c
  Same-trans s t = record {
    counts = t.counts ∙ s.counts;
    finds = λ h. t.finds (omega arith) ∙ s.finds h;
  }

  -- Two lists in either order.
  pub Same-swap : (a b c : List KvPair) → Same (a ++ (b ++ c)) (b ++ (a ++ c))
  unfolding or_else
  Same-swap a b c = record {
    counts = simp count-append (omega arith);
    finds = λ h.
        let few : count p a + count p b ≤ 1 =
          omega (arith, count-append a (b ++ c), count-append b c) in
        simp find-append (ground (arith, find-eq-none a, find-eq-none b));
  }

  pub Same-append : (x : List KvPair) {a b : List KvPair} → Same a b → Same (x ++ a) (x ++ b)
  unfolding or_else
  Same-append x {a} {b} s = record {
    counts = simp count-append (omega arith);
    finds =
        λ h. simp find-append (ap (or_else (find p x)) (s.finds (omega (arith, count-append x a))));
  }

  pub Same-append_right : {a b : List KvPair} (x : List KvPair) → Same a b → Same (a ++ x) (b ++ x)
  unfolding or_else
  Same-append_right {a} x s = record {
    counts = simp count-append (omega arith);
    finds = λ h.
        simp find-append
          (ap (λ o. or_else o (find p x)) (s.finds (omega (arith, count-append a x))));
  }

  -- Nodes that go to the front of a bucket join the nodes of the table.
  pub flatten-set-Same :
      (data_ : List (List KvPair)) (i : ℕ) (c : List KvPair)
      → i < length data_
      → Same (c ++ flatten data_) (flatten (set data_ i (c ++ get_or data_ i [])))
  unfolding flatten
  flatten-set-Same [] i c h = absurd (omega arith)
  flatten-set-Same (x ∷ xs) zero c h = rw (append_assoc) (Same-refl _)
  flatten-set-Same (x ∷ xs) (suc i) c h =
      Same-trans (Same-swap c x (flatten xs))
        (Same-append x (flatten-set-Same xs i c (omega arith)))
