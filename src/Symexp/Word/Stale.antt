-- ===== src/Symexp/Word/Stale.antt =====
-- A name behind the number of an argument: the key that the number left is taken for the name's.
use mathlib.Core.List.{append_assoc, append-nil}
use epita_42sh.Base.Int.{ℤ}
use epita_42sh.Base.Text.{Str}
use epita_42sh.Base.{
  ℕ, ◌+◌, ◌-◌, ◌<◌, ◌≡◌, ◌≢◌, refl, ◌∙◌, subst, true, false, ◌||◌, some, List, [], ◌∷◌, ◌++◌, ◌==◌,
  length, is_nil, All, All-map, All-append, arith,
}
use epita_42sh.Symexp.Word.{
  exp_step, kind_of, push_last, init_exp, symexp_word, finished, dollar, symbol, plain,
}
use epita_42sh.Symexp.Word.Laws.{
  at, Reaches, Reaches-join, Reaches-cons, Reaches-step, Reaches-plain, symexp_word-Reaches,
  push_last-dest,
}
use epita_42sh.Symexp.Word.Naming.{name_start, name_char}
use epita_42sh.Symexp.{Ctx, Host, Exp, is_int, all_digits, quit_dollar_mode}
use epita_42sh.Base.{get_or, ltb, lt→ltb}
use epita_42sh.Symexp.Word.Naming.{naming, naming-symbol, single-none}
use epita_42sh.Symexp.Word.{collect, acquire, end_symbol}
use epita_42sh.Symexp.{search_sym, is_digit, atoi_from, int_end}

module _ {ℓ} {W : Type ℓ} (host : Host W) (ctx : Ctx) (d : ℕ) (digit : is_digit d ≡ true) where
  digit_int : is_int (d ∷ []) ≡ true
  unfolding is_int all_digits
  digit_int = rw digit refl

  digit_first :
      (s : Exp W) (word text : Str)
      → acquire host ctx d (naming s false word text 0 [])
        ≡ some (naming s false word text 1 (d ∷ []))
  unfolding acquire collect end_symbol is_int
  digit_first s word text =
      let a : (d == b'(' || d == b'{') ≡ false = ground arith in
      let one = single-none host ctx d (naming s false word text 1 (d ∷ [])) (ground arith) in
      rw (acquire, a, collect, one) refl

  argument_found :
      (w : W)
      → d - b'0' < length ctx.program_args
      → search_sym host ctx (d ∷ []) w ≡ some (some (get_or ctx.program_args (d - b'0') []), w)
  unfolding search_sym atoi_from
  argument_found w has =
      let z : atoi_from 0 (d ∷ []) ≡ d - b'0' = omega arith in
      let small : ltb (d - b'0') int_end ≡ true = lt→ltb (d - b'0') int_end (ground arith) in
      let here : ltb (d - b'0') (length ctx.program_args) ≡ true =
        lt→ltb (d - b'0') (length ctx.program_args) has in
      rw (search_sym, digit_int, z, small, here) refl

  argument_step :
      (s : Exp W) (word text : Str)
      → d - b'0' < length ctx.program_args
      → quit_dollar_mode host ctx (naming s false word text 1 (d ∷ []))
        ≡ some (
            at
              (record s { i = 1; key = d ∷ [] })
              false
              false
              false
              word
              (text ++ get_or ctx.program_args (d - b'0') []))
  unfolding quit_dollar_mode
  argument_step s word text has = rw (quit_dollar_mode, argument_found s.world has) refl

  dollar_step :
      (s t : Exp W) (c : ℕ)
      → quit_dollar_mode host ctx s ≡ some t
      → exp_step host ctx dollar c s ≡ some (record t { i = 0; exp_dollar = true })
  unfolding exp_step
  dollar_step s t c e = rw (exp_step, e) refl

  put_back :
      (s : Exp W) (c : ℕ) (word text : Str)
      → name_start c ≡ true
      → acquire host ctx c (naming s false word text 0 (d ∷ []))
        ≡ some
            (at (record s { i = 0; key = d ∷ [] }) false false false (c ∷ word) (text ++ b'$' ∷ []))
  unfolding acquire collect end_symbol quit_dollar_mode
  put_back s c word text n =
      let a : (c == b'(' || c == b'{') ≡ false = ground arith in
      let no_digit : is_digit c ≡ false = ground arith in
      rw (acquire, a, collect, digit_int, no_digit) refl

  -- The rounds over a number, a dollar and the first character of a name.
  stale_run :
      (s : Exp W) (c : ℕ) (word : Str)
      → name_start c ≡ true
      → d - b'0' < length ctx.program_args
      → Reaches host ctx 4
          (at (record s { key = [] }) false false false (b'$' ∷ d ∷ b'$' ∷ c ∷ word) [])
          (at
            (record s { i = 0; key = d ∷ [] })
            false
            false
            false
            (c ∷ word)
            (get_or ctx.program_args (d - b'0') [] ++ b'$' ∷ []))
  unfolding exp_step kind_of quit_dollar_mode
  stale_run s c word n has =
      let arg : Str = get_or ctx.program_args (d - b'0') [] in
      let a : Exp W =
        at (record s { key = [] }) false false false (b'$' ∷ d ∷ b'$' ∷ c ∷ word) [] in
      let b : Exp W = naming s false (d ∷ b'$' ∷ c ∷ word) [] 0 [] in
      let e : Exp W = naming s false (b'$' ∷ c ∷ word) [] 1 (d ∷ []) in
      let g : Exp W = naming s false (c ∷ word) arg 0 (d ∷ []) in
      let u : Exp W =
        at (record s { i = 0; key = d ∷ [] }) false false false (c ∷ word) (arg ++ b'$' ∷ []) in
      let a_b = Reaches-step host ctx dollar a b b'$' (d ∷ b'$' ∷ c ∷ word) refl refl refl in
      let b_e =
        Reaches-step host ctx symbol b e d (b'$' ∷ c ∷ word) refl
          (naming-symbol host ctx s false d (b'$' ∷ c ∷ word) [] 0 [] (ground arith))
          (digit_first s (b'$' ∷ c ∷ word) []) in
      let e_g = Reaches-step host ctx dollar e g b'$' (c ∷ word) refl refl (
        dollar_step (naming s false (c ∷ word) [] 1 (d ∷ [])) _ b'$'
          (argument_step s (c ∷ word) [] has)) in
      let g_u =
        Reaches-step host ctx symbol g u c word refl
          (naming-symbol host ctx s false c word arg 0 (d ∷ []) (ground arith))
          (put_back s c word arg n) in
      Reaches-cons host ctx 3 a b u a_b
        (Reaches-cons host ctx 2 b e u b_e (Reaches-cons host ctx 1 e g u e_g g_u))

name-plain {ℓ} :
    {W : Type ℓ} (s : Exp W) (c : ℕ) (word text : Str)
    → name_char c ≡ true
    → kind_of c (at s false false false word text) ≡ plain
unfolding kind_of
name-plain s c word text n = ground arith

is_nil-append : (xs ys : Str) (y : ℕ) → is_nil (xs ++ y ∷ ys) ≡ false
is_nil-append [] ys y = refl
is_nil-append (x ∷ xs) ys y = refl

-- `$d$name`, with the number `d` of an argument and a name: the argument is put in, but the dollar
-- behind it and the name stay as they are, whatever the value of the name.
pub symexp_word-stale {ℓ} :
    {W : Type ℓ} (host : Host W) (ctx : Ctx) (w : W) (status : ℤ) (d c : ℕ) (name : Str)
    (dest : List Str)
    → is_digit d ≡ true
    → d - b'0' < length ctx.program_args
    → All (λ x. x ≢ 0) (get_or ctx.program_args (d - b'0') [])
    → name_start c ≡ true
    → All (λ x. name_char x ≡ true) name
    → (t : Exp W) × (symexp_word host ctx w status (b'$' ∷ d ∷ b'$' ∷ c ∷ name) dest ≡ finished t)
      × (t.dest ≡ dest ++ (get_or ctx.program_args (d - b'0') [] ++ b'$' ∷ c ∷ name) ∷ [])
unfolding init_exp
symexp_word-stale {W = W} host ctx w status d c name dest digit has clean start chars =
    let s : Exp W = init_exp host ctx w status (b'$' ∷ d ∷ b'$' ∷ c ∷ name) dest in
    let arg : Str = get_or ctx.program_args (d - b'0') [] in
    let u : Exp W = record s { i = 0; key = d ∷ [] } in
    let plain_name =
      subst
        (λ x.
          Reaches host ctx (length (c ∷ name)) (at u false false false (c ∷ x) (arg ++ b'$' ∷ []))
            (at u false false false [] ((arg ++ b'$' ∷ []) ++ c ∷ name)))
        (append-nil name)
        (Reaches-plain host ctx (c ∷ name) u false false false [] (arg ++ b'$' ∷ []) (
          λ word text. name-plain u c word text (ground arith),
          All-map (λ x. name_char x ≡ true)
              (λ x. (word text : Str) → kind_of x (at u false false false word text) ≡ plain)
              (λ x n word text. name-plain u x word text n) name chars,
        )) in
    let text : Str = (arg ++ b'$' ∷ []) ++ c ∷ name in
    let run =
      Reaches-join host ctx 4 (length (c ∷ name)) s
        (at u false false false (c ∷ name) (arg ++ b'$' ∷ [])) (at u false false false [] text)
        (stale_run host ctx d digit s c name start has) plain_name in
    (
      push_last host ctx (at u false false false [] text),
      symexp_word-Reaches host ctx (4 + length (c ∷ name)) w status (b'$' ∷ d ∷ b'$' ∷ c ∷ name)
          dest u false false false text (omega arith) run,
      push_last-dest host ctx u false text (
            All-append (λ x. x ≢ 0) (arg ++ b'$' ∷ []) (c ∷ name)
              (All-append (λ x. x ≢ 0) arg (b'$' ∷ []) clean (λ e. omega arith, tt))
              (
                λ e. ground arith,
                All-map (λ x. name_char x ≡ true) (λ x. x ≢ 0) (λ x n e. ground arith) name chars,
              ))
          ∙ rw (is_nil-append (arg ++ b'$' ∷ []) name c, append_assoc arg (b'$' ∷ []) (c ∷ name))
              refl,
    )
