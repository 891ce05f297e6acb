-- ===== src/Symexp/Word/Laws.antt =====
-- What `symexp_word` makes of characters that stand for themselves, and of quotes.
use mathlib.Core.List.{append_assoc, append-nil}
use epita_42sh.Base.Int.{ℤ}
use epita_42sh.Base.Text.{Str}
use epita_42sh.Base.{
  ℕ, suc, ◌+◌, ◌-◌, ◌*◌, ◌≤◌, ◌≡◌, ◌≢◌, refl, ◌∙◌, sym, ap, subst, inl, inr, Bool, false, not, ◌||◌,
  some, List, [], ◌∷◌, ◌++◌, if◌then◌else◌, ◌==◌, length, is_nil, All, arith, Bool-cases,
}
use epita_42sh.Symexp.Word.{
  Kind, exp_step, exp_loop, kind_of, push_last, init_exp, symexp_word, finished, plain,
}
use epita_42sh.Symexp.{Ctx, Host, Exp, quit_dollar_mode}
use epita_42sh.Utils.Vec.{c_string}

-- A character that means nothing outside of quotes.
abbrev pub Ordinary : ℕ → Type 0
Ordinary c = (c ≢ 0) × ((c ≢ b'\'') × ((c ≢ b'"') × ((c ≢ b'$') × ((c ≢ b'`') × (c ≢ 92)))))

-- The state in front of `word`, outside of a name.
abbrev pub at {ℓ} : {W : Type ℓ} → Exp W → Bool → Bool → Bool → Str → Str → Exp W
at s single double had word text = record s {
  word = word;
  expvec = text;
  exp_dollar = false;
  single_quote = single;
  double_quote = double;
  had_a_quote = had;
}

zero_test : (c : ℕ) → c ≢ 0 → (c == 0) ≡ false
zero_test c h = ground arith

c_string-clean : (s : Str) → All (λ c. c ≢ 0) s → c_string s ≡ s
unfolding c_string
c_string-clean [] h = refl
c_string-clean (c ∷ s) h =
    let ne : (c == 0) ≡ false = zero_test c h.0 in
    rw (c_string, ne) (ap (λ t. c ∷ t) (c_string-clean s h.1))

module _ {ℓ} {W : Type ℓ} (host : Host W) (ctx : Ctx) where
  -- A round, when the step is known.
  loop_step :
      (f : ℕ) (s t : Exp W) (c : ℕ) (word : Str)
      → s.word ≡ c ∷ word
      → exp_step host ctx (kind_of c (record s { word = word })) c (record s { word = word })
        ≡ some t
      → exp_loop host ctx (suc f) s ≡ exp_loop host ctx f t
  unfolding exp_loop
  loop_step f s t c word e h = rw (exp_loop, e, h) refl

  -- `n` rounds lead from `s` to `t`, whatever fuel is left.
  abbrev pub Reaches : ℕ → Exp W → Exp W → Type ℓ
  Reaches n s t = (f : ℕ) → exp_loop host ctx (n + f) s ≡ exp_loop host ctx f t

  pub Reaches-join : (n m : ℕ) (s t u : Exp W) → Reaches n s t → Reaches m t u → Reaches (n + m) s u
  Reaches-join n m s t u a b f =
      let e : (n + m) + f ≡ n + (m + f) = omega arith in rw e (a (m + f) ∙ b f)

  pub Reaches-cons : (n : ℕ) (s t u : Exp W) → Reaches 1 s t → Reaches n t u → Reaches (suc n) s u
  Reaches-cons n s t u a b f =
      let e : suc n + f ≡ 1 + (n + f) = omega arith in rw e (a (n + f) ∙ b f)

  -- One round, when its kind and its step are known.
  pub Reaches-step :
      (k : Kind) (s t : Exp W) (c : ℕ) (word : Str)
      → s.word ≡ c ∷ word
      → kind_of c (record s { word = word }) ≡ k
      → exp_step host ctx k c (record s { word = word }) ≡ some t
      → Reaches 1 s t
  Reaches-step k s t c word e h step f =
      let n : 1 + f ≡ suc f = omega arith in rw n (loop_step f s t c word e (rw h step))

  -- The rounds over characters that are pushed.
  pub Reaches-plain :
      (t : Str) (s : Exp W) (q d h : Bool) (rest text : Str)
      → All (λ c. (word text : Str) → kind_of c (at s q d h word text) ≡ plain) t
      → Reaches (length t) (at s q d h (t ++ rest) text) (at s q d h rest (text ++ t))
  unfolding exp_step
  Reaches-plain [] s q d h rest text all =
      λ f. let z : 0 + f ≡ f = omega arith in rw (z, append-nil text) refl
  Reaches-plain (c ∷ t) s q d h rest text all =
      let one =
        Reaches-step plain (at s q d h (c ∷ (t ++ rest)) text)
          (at s q d h (t ++ rest) (text ++ c ∷ [])) c (t ++ rest) refl (all.0 (t ++ rest) text)
          refl in
      let more = Reaches-plain t s q d h rest (text ++ c ∷ []) all.1 in
      subst (λ x. Reaches (suc (length t)) (at s q d h (c ∷ (t ++ rest)) text) (at s q d h rest x))
        (append_assoc text (c ∷ []) t)
        (Reaches-cons (length t) (at s q d h (c ∷ (t ++ rest)) text)
          (at s q d h (t ++ rest) (text ++ c ∷ [])) (at s q d h rest ((text ++ c ∷ []) ++ t)) one
          more)

  loop_end :
      (f : ℕ) (s : Exp W) (q d h : Bool) (text : Str)
      → exp_loop host ctx (suc f) (at s q d h [] text) ≡ finished (at s q d h [] text)
  unfolding exp_loop quit_dollar_mode
  loop_end f s q d h text = refl

  word_end :
      (w : W) (status : ℤ) (word : Str) (dest : List Str) (t : Exp W)
      → exp_loop host ctx (suc (2 * length word)) (init_exp host ctx w status word dest)
        ≡ finished t
      → symexp_word host ctx w status word dest ≡ finished (push_last host ctx t)
  unfolding symexp_word
  word_end w status word dest t e = rw (symexp_word, e) refl

  -- A word whose rounds lead to its end, outside of a name, within the fuel.
  pub symexp_word-Reaches :
      (n : ℕ) (w : W) (status : ℤ) (word : Str) (dest : List Str) (s : Exp W) (q d h : Bool)
      (text : Str)
      → n ≤ 2 * length word
      → Reaches n (init_exp host ctx w status word dest) (at s q d h [] text)
      → symexp_word host ctx w status word dest ≡ finished (push_last host ctx (at s q d h [] text))
  symexp_word-Reaches n w status word dest s q d h text le run =
      let e : n + suc (2 * length word - n) ≡ suc (2 * length word) = omega arith in
      word_end w status word dest (at s q d h [] text) (
        ap (λ k. exp_loop host ctx k (init_exp host ctx w status word dest)) (sym e)
        ∙ run (suc (2 * length word - n))
        ∙ loop_end (2 * length word - n) s q d h text)

  pub Reaches-count : (n m : ℕ) (s t : Exp W) → n ≡ m → Reaches n s t → Reaches m s t
  Reaches-count n m s t e run = subst (λ k. Reaches k s t) e run

  pub push_last-dest :
      (s : Exp W) (h : Bool) (text : Str)
      → All (λ c. c ≢ 0) text
      → (push_last host ctx (at s false false h [] text)).dest
        ≡ s.dest ++ (if not (is_nil text) || h then text ∷ [] else [])
  unfolding push_last
  push_last-dest s h text clean = elim (Bool-cases (not (is_nil text) || h)) [
    | inl e ↦ rw (push_last, e, c_string-clean text clean) refl
    | inr e ↦ rw (push_last, e) (sym (append-nil s.dest))
  ]

  pub push_last-keeps :
      (s : Exp W)
      → ((push_last host ctx s).world ≡ s.world)
        × ((push_last host ctx s).exit_status ≡ s.exit_status)
  unfolding push_last
  push_last-keeps s = ground arith
