-- ===== src/Symexp/Word/Enough.antt =====
-- The rounds of `symexp_word` end: each reads a character, or leaves the collection of a name.
use epita_42sh.Base.Int.{ℤ}
use epita_42sh.Base.Text.{Str}
use epita_42sh.Base.{
  ℕ, zero, suc, ◌+◌, ◌-◌, ◌*◌, ◌<◌, ◌≤◌, ◌≡◌, ◌≢◌, refl, ◌∙◌, sym, ◌⊎◌, inl, inr, Bool, true, false,
  ◌||◌, some, List, [], ◌∷◌, if◌then◌else◌, ◌==◌, length, arith, Option-cases, Bool-cases,
}
use epita_42sh.Symexp.Word.{
  Exit, Kind, exp_step, exp_loop, kind_of, acquire, collect, end_symbol, switch_quote, init_exp,
  symexp_word, out_of_fuel, overflow, finished, quote, dollar, close, paren, backquote, backslash,
  symbol, plain,
}
use epita_42sh.Symexp.{
  Ctx, Host, Exp, drop, resume_word, escaped, close_end, push_number, exp_args_array,
  exp_single_char, quit_dollar_mode, exp_cmd_substitution, expand_escape_character,
}

drop-length : (n : ℕ) (s : Str) → length (drop n s) ≤ length s
unfolding drop
drop-length zero s = omega arith
drop-length (suc n) [] = omega arith
drop-length (suc n) (c ∷ s) = omega (arith, drop-length n s)

close_end-length : (s : Str) → length (close_end s) ≤ length s
close_end-length [] = omega arith
close_end-length (c ∷ []) = ground arith
close_end-length (c ∷ d ∷ s) = omega arith

module _ {ℓ} {W : Type ℓ} (host : Host W) (ctx : Ctx) where
  quit-word :
      (s t : Exp W)
      → quit_dollar_mode host ctx s ≡ some t
      → (t.word ≡ s.word) × (t.exp_dollar ≡ false)
  unfolding quit_dollar_mode
  quit-word s t e = ground arith

  args-word :
      (s : Exp W)
      → ((exp_args_array host ctx s).word ≡ s.word)
        × ((exp_args_array host ctx s).exp_dollar ≡ s.exp_dollar)
  unfolding exp_args_array
  args-word s = ground arith

  number-word :
      (s t : Exp W) (n : _)
      → push_number host ctx s n ≡ some t
      → (t.word ≡ s.word) × (t.exp_dollar ≡ s.exp_dollar)
  unfolding push_number
  number-word s t n e = ground arith

  single-word :
      (c : ℕ) (s t : Exp W) (b : Bool)
      → exp_single_char host ctx c s ≡ some (t, b)
      → (t.word ≡ s.word) × (t.exp_dollar ≡ s.exp_dollar)
  unfolding exp_single_char push_number
  single-word c s t b e = ground (arith, args-word s)

  end_symbol-word :
      (c : ℕ) (s t : Exp W)
      → end_symbol host ctx c (some s) ≡ some t
      → (t.word ≡ s.word) × ((t.exp_dollar ≡ s.exp_dollar) ⊎ (t.exp_dollar ≡ false))
  unfolding end_symbol
  end_symbol-word c s t e = ground (arith, single-word c s)

  -- The measure of a state: it falls in each round.
  abbrev left : Exp W → ℕ
  left s = 2 * length s.word + (if s.exp_dollar then 1 else 0)

  switch-word : (c : ℕ) (s : Exp W) → (switch_quote c s).word ≡ s.word
  unfolding switch_quote
  switch-word c s = ground arith

  resume_word-shorter : (n : ℕ) (s : Exp W) → length (resume_word n s).word ≤ length s.word
  unfolding resume_word
  resume_word-shorter n s =
      omega (arith, close_end-length (drop (n - 2) s.word), drop-length (n - 2) s.word)

  escaped-word :
      (t : Exp W) (word : Str) → t.word ≡ word → length (escaped t word).word ≤ length word
  unfolding escaped
  escaped-word t [] e = rw e (omega arith)
  escaped-word t (c ∷ word) e = ground arith

  cmd-word : (c : ℕ) (s : Exp W) → length (exp_cmd_substitution host ctx c s).word ≤ length s.word
  unfolding exp_cmd_substitution
  cmd-word c s = grind (arith, resume_word-shorter)

  escape-word :
      (s t : Exp W) → expand_escape_character host ctx s ≡ some t → length t.word ≤ length s.word
  unfolding expand_escape_character
  escape-word s t e = grind (arith, quit-word, escaped-word)

  collect-word :
      (c : ℕ) (s t : Exp W)
      → collect host ctx c s ≡ some t
      → (t.word ≡ s.word) ⊎ ((t.word ≡ c ∷ s.word) × (t.exp_dollar ≡ false))
  unfolding collect
  collect-word c s t e = grind (arith, quit-word)

  acquire-word :
      (c : ℕ) (s t : Exp W)
      → acquire host ctx c s ≡ some t
      → (t.word ≡ s.word) ⊎ ((t.word ≡ c ∷ s.word) × (t.exp_dollar ≡ false))
  unfolding acquire end_symbol
  acquire-word c s t e = elim (Option-cases (collect host ctx c s)) [
    | inl h ↦ ground arith
    | inr (u, h) ↦ elim (Bool-cases (c == b'(' || c == b'{')) [
      | inl p ↦ ground arith
      | inr p ↦
          let same : end_symbol host ctx c (some u) ≡ some t = ground arith in
          let x = collect-word c s u h in let y = end_symbol-word c u t same in grind arith
    ]
  ]

  -- A round that does not put its character back.
  shorter :
      (c : ℕ) (s t : Exp W)
      → length t.word ≤ length s.word
      → left t < left (record s { word = c ∷ s.word })
  shorter c s t le = ground arith

  put_back :
      (c : ℕ) (s t : Exp W)
      → s.exp_dollar ≡ true
      → t.word ≡ c ∷ s.word
      → t.exp_dollar ≡ false
      → left t < left (record s { word = c ∷ s.word })
  put_back c s t d e n = rw (d, e, n) (omega arith)

  symbol-dollar : (c : ℕ) (s : Exp W) → kind_of c s ≡ symbol → s.exp_dollar ≡ true
  unfolding kind_of
  symbol-dollar c s k = ground arith

  step-left :
      (k : Kind) (c : ℕ) (s t : Exp W)
      → kind_of c s ≡ k
      → exp_step host ctx k c s ≡ some t
      → left t < left (record s { word = c ∷ s.word })
  unfolding exp_step
  step-left quote c s t k e =
      let (w, _) = quit-word (switch_quote c s) t e in
      shorter c s t (rw (w, switch-word c s) (omega arith))
  step-left dollar c s t k e = elim (Option-cases (quit_dollar_mode host ctx s)) [
    | inl h ↦ ground arith
    | inr (u, h) ↦
        let w = (quit-word s u h).0 in
        let same : t.word ≡ u.word = ground arith in shorter c s t (rw (same, w) (omega arith))
  ]
  step-left close c s t k e = let (w, _) = quit-word s t e in shorter c s t (rw w (omega arith))
  step-left paren c s t k e = shorter c s t (grind (arith, cmd-word))
  step-left backquote c s t k e = elim (Option-cases (quit_dollar_mode host ctx s)) [
    | inl h ↦ ground arith
    | inr (u, h) ↦
        let w = (quit-word s u h).0 in
        let le = cmd-word c u in
        let same : t.word ≡ (exp_cmd_substitution host ctx c u).word = ground arith in
        shorter c s t (rw (same, ← w) le)
  ]
  step-left backslash c s t k e = shorter c s t (escape-word s t e)
  step-left symbol c s t k e = elim (acquire-word c s t e) [
    | inl w ↦ shorter c s t (rw w (omega arith))
    | inr (w, d) ↦ put_back c s t (symbol-dollar c s k) w d
  ]
  step-left plain c s t k e = shorter c s t (ground arith)

  -- One round of the loop, given the rest of it.
  round-enough :
      (f : ℕ) (s : Exp W) (word : Str)
      → s.word ≡ word
      → ((t : Exp W) → left t < left s → exp_loop host ctx f t ≢ out_of_fuel)
      → exp_loop host ctx (suc f) s ≢ out_of_fuel
  unfolding exp_loop
  round-enough f s [] e rest h = elim (Option-cases (quit_dollar_mode host ctx s)) [
    | inl q ↦ ground arith
    | inr (u, q) ↦ ground arith
  ]
  round-enough f s (c ∷ word) e rest h =
      let s' : Exp W = record s { word = word } in
      elim (Option-cases (exp_step host ctx (kind_of c s') c s')) [
        | inl q ↦ ground arith
        | inr (t, q) ↦
            let less = step-left (kind_of c s') c s' t refl q in
            let same : exp_loop host ctx (suc f) s ≡ exp_loop host ctx f t =
              rw (exp_loop, e, q) refl in
            rest t (rw e less) (sym same ∙ h)
      ]

  exp_loop-enough : (f : ℕ) (s : Exp W) → left s < f → exp_loop host ctx f s ≢ out_of_fuel
  exp_loop-enough zero s lt = absurd (omega arith)
  exp_loop-enough (suc f) s lt =
      round-enough f s s.word refl (λ t less. exp_loop-enough f t (omega arith))

  -- The loop of `symexp_word` ends on every word: twice its length bounds the rounds.
  pub symexp_word-ends :
      (w : W) (status : ℤ) (word : Str) (dest : List Str)
      → symexp_word host ctx w status word dest ≢ out_of_fuel
  unfolding symexp_word
  symexp_word-ends w status word dest h =
      let s : Exp W = init_exp host ctx w status word dest in
      let less : left s < suc (2 * length word) = unfold init_exp in omega arith in
      let ends = exp_loop-enough (suc (2 * length word)) s less in
      go (exp_loop host ctx (suc (2 * length word)) s) refl ends
    where
      go :
          (x : Exit W)
          → exp_loop host ctx (suc (2 * length word)) (init_exp host ctx w status word dest) ≡ x
          → x ≢ out_of_fuel
          → ⊥
      go out_of_fuel e n = n refl
      go overflow e n = ground arith
      go (finished t) e n = ground arith
