-- ===== src/Symexp/Word/Expand.antt =====
-- The words of pieces: `symexp_word` gives the values of the pieces, as one field.
use mathlib.Core.List.{append_assoc, append-nil}
use epita_42sh.Base.Int.{ℤ}
use epita_42sh.Base.Text.{Str}
use epita_42sh.Base.{
  ℕ, suc, ◌+◌, ◌≡◌, ◌≢◌, refl, ◌∙◌, sym, ap, Bool, true, false, not, ◌||◌, List, [], ◌∷◌, ◌++◌,
  if◌then◌else◌, length, length-append, is_nil, All, All-map, All-append, arith,
}
use epita_42sh.Symexp.Word.{exp_loop, kind_of, push_last, init_exp, symexp_word, finished, plain}
use epita_42sh.Symexp.Word.Laws.{
  at, Reaches, Reaches-join, Reaches-count, Reaches-plain, symexp_word-Reaches, push_last-dest,
  push_last-keeps,
}
use epita_42sh.Symexp.Word.Naming.{name_start, braced_run}
use epita_42sh.Symexp.{Ctx, Host, Exp, is_int, all_digits}
use epita_42sh.Symtab.Valid.{IsValid}
use epita_42sh.Symexp.Word.Pieces.{
  Piece, bare, single, double, braced, source, source_all, is_quoted, any_quoted, value, value_all,
  Fits, Keeps, Keeps-refl, Keeps-trans, single_run, double_run,
}

name_no_int : (c : ℕ) (t : Str) → name_start c ≡ true → is_int (c ∷ t) ≡ false
unfolding is_int all_digits
name_no_int c t h = ground arith

or_assoc : (a b c : Bool) → (a || (b || c)) ≡ ((b || a) || c)
or_assoc true true c = refl
or_assoc true false c = refl
or_assoc false true c = refl
or_assoc false false c = refl

or_false : (a : Bool) → (a || false) ≡ a
or_false true = refl
or_false false = refl

module _ {ℓ} {W : Type ℓ} (host : Host W) (ctx : Ctx) (v : IsValid ctx.st) where
  abbrev Run : ℕ → Exp W → Bool → Bool → Str → Str → Str → Str → Type ℓ
  Run n s h h' word rest text text' =
      (t : Exp W) × Keeps host ctx s t
      × Reaches host ctx n (at s false false h word text) (at t false false h' rest text')

  piece_run :
      (p : Piece) (s : Exp W) (h : Bool) (rest text : Str)
      → Fits host ctx p
      → is_int s.key ≡ false
      → Run
          (length (source p))
          s
          h
          (is_quoted p || h)
          (source p ++ rest)
          rest
          text
          (text ++ value host ctx p)
  unfolding kind_of
  piece_run (bare t) s h rest text fits k = (
    s,
    Keeps-refl host ctx s k,
    Reaches-plain host ctx t s false false h rest text (
        All-map
          (λ c. (c ≢ 0) × ((c ≢ b'\'') × ((c ≢ b'"') × ((c ≢ b'$') × ((c ≢ b'`') × (c ≢ 92))))))
          (λ c. (word text : Str) → kind_of c (at s false false h word text) ≡ plain)
          (λ c o word text. ground arith) t fits),
  )
  piece_run (single t) s h rest text fits k =
      let e = append_assoc t (b'\'' ∷ []) rest in
      (s, Keeps-refl host ctx s k, rw e (single_run host ctx s h t rest text fits))
  piece_run (double t) s h rest text fits k =
      let e = append_assoc t (b'"' ∷ []) rest in
      (s, Keeps-refl host ctx s k, rw e (double_run host ctx s h t rest text fits))
  piece_run (braced []) s h rest text fits k = absurd fits
  piece_run (braced (p ∷ t)) s h rest text (start, (all, (le, (r, (u, clean))))) k = (
    record s { i = suc (length t); key = p ∷ t },
    record { dest = refl; world = refl; status = refl; key = name_no_int p t start },
    Reaches-count host ctx (suc (suc (suc (length t + 1)))) (length (source (braced (p ∷ t))))
        (at s false false h (source (braced (p ∷ t)) ++ rest) text)
        (at (record s { i = suc (length t); key = p ∷ t }) false false h rest
          (text ++ value host ctx (braced (p ∷ t))))
        (omega (arith, length-append t (b'}' ∷ [])))
        (rw (append_assoc t (b'}' ∷ []) rest)
          (braced_run host ctx v s h rest text p t start all le r u k)),
  )

  retarget :
      (n m : ℕ) (a u : Exp W) (h h' : Bool) (x x' : Str)
      → n ≡ m
      → h ≡ h'
      → x ≡ x'
      → Reaches host ctx n a (at u false false h [] x)
      → Reaches host ctx m a (at u false false h' [] x')
  retarget n m a u h h' x x' e e' d run f =
      ap (λ k. exp_loop host ctx (k + f) a) (sym e)
      ∙ run f
      ∙ ap (λ g. exp_loop host ctx f (at u false false g [] x)) e'
      ∙ ap (λ y. exp_loop host ctx f (at u false false h' [] y)) d

  pieces_run :
      (ps : List Piece) (s : Exp W) (h : Bool) (text : Str)
      → All (Fits host ctx) ps
      → is_int s.key ≡ false
      → Run
          (length (source_all ps))
          s
          h
          (any_quoted ps || h)
          (source_all ps)
          []
          text
          (text ++ value_all host ctx ps)
  pieces_run [] s h text fits k = (
    s,
    Keeps-refl host ctx s k,
    λ f. let z : 0 + f ≡ f = omega arith in rw (z, append-nil text) refl,
  )
  pieces_run (p ∷ ps) s h text fits k =
      let (t, keep, first) = piece_run p s h (source_all ps) text fits.0 k in
      let (u, keep', more) =
        pieces_run ps t (is_quoted p || h) (text ++ value host ctx p) fits.1 keep.key in
      (
        u,
        Keeps-trans host ctx s t u keep keep',
        retarget (length (source p) + length (source_all ps)) (length (source p ++ source_all ps))
            (at s false false h (source p ++ source_all ps) text) u
            (any_quoted ps || (is_quoted p || h)) ((is_quoted p || any_quoted ps) || h)
            ((text ++ value host ctx p) ++ value_all host ctx ps)
            (text ++ (value host ctx p ++ value_all host ctx ps))
            (sym (length-append (source p) (source_all ps)))
            (or_assoc (any_quoted ps) (is_quoted p) h)
            (append_assoc text (value host ctx p) (value_all host ctx ps))
            (Reaches-join host ctx (length (source p)) (length (source_all ps))
              (at s false false h (source p ++ source_all ps) text)
              (at t false false (is_quoted p || h) (source_all ps) (text ++ value host ctx p))
              (at u false false (any_quoted ps || (is_quoted p || h)) []
                ((text ++ value host ctx p) ++ value_all host ctx ps))
              first more),
      )

  value-clean : (p : Piece) → Fits host ctx p → All (λ c. c ≢ 0) (value host ctx p)
  value-clean (bare t) fits = All-map _ (λ c. c ≢ 0) (λ c o. o.0) t fits
  value-clean (single t) fits = All-map _ (λ c. c ≢ 0) (λ c o. o.0) t fits
  value-clean (double t) fits = All-map _ (λ c. c ≢ 0) (λ c o. o.0) t fits
  value-clean (braced []) fits = absurd fits
  value-clean (braced (p ∷ t)) fits = fits.1.1.1.1.1

  value_all-clean :
      (ps : List Piece) → All (Fits host ctx) ps → All (λ c. c ≢ 0) (value_all host ctx ps)
  value_all-clean [] fits = tt
  value_all-clean (p ∷ ps) fits =
      All-append (λ c. c ≢ 0) (value host ctx p) (value_all host ctx ps) (value-clean p fits.0)
        (value_all-clean ps fits.1)

  -- The fields of a word: none when its value is empty and nothing of it is quoted.
  abbrev pub fields : List Piece → List Str
  fields ps =
      if not (is_nil (value_all host ctx ps)) || any_quoted ps
      then value_all host ctx ps ∷ []
      else []

  -- A word of bare text, quoted texts and braced names, whose characters stand for themselves,
  -- on a well-formed table: the expansion ends, appends the values of the pieces as one field, or
  -- none when all is empty and nothing quoted, and touches nothing else. A name that is unset is
  -- empty.
  pub symexp_word-fields :
      (w : W) (status : ℤ) (ps : List Piece) (dest : List Str)
      → All (Fits host ctx) ps
      → (t : Exp W) × (symexp_word host ctx w status (source_all ps) dest ≡ finished t)
        × (t.dest ≡ dest ++ fields ps)
        × (t.world ≡ w)
        × (t.exit_status ≡ status)
  unfolding init_exp is_int
  symexp_word-fields w status ps dest fits =
      let s : Exp W = init_exp host ctx w status (source_all ps) dest in
      let (u, keep, run) = pieces_run ps s false [] fits refl in
      (
        push_last host ctx (at u false false (any_quoted ps || false) [] (value_all host ctx ps)),
        symexp_word-Reaches host ctx (length (source_all ps)) w status (source_all ps) dest u false
            false (any_quoted ps || false) (value_all host ctx ps) (omega arith) run,
        push_last-dest host ctx u (any_quoted ps || false) (value_all host ctx ps)
              (value_all-clean ps fits)
            ∙ ap
                (λ x.
                  x
                  ++ (if not (is_nil (value_all host ctx ps)) || (any_quoted ps || false)
                      then value_all host ctx ps ∷ []
                      else []))
                keep.dest
            ∙ ap
                (λ b.
                  dest
                  ++ (if not (is_nil (value_all host ctx ps)) || b
                      then value_all host ctx ps ∷ []
                      else []))
                (or_false (any_quoted ps)),
        (push_last-keeps host ctx
              (at u false false (any_quoted ps || false) [] (value_all host ctx ps))).0
            ∙ keep.world,
        (push_last-keeps host ctx
              (at u false false (any_quoted ps || false) [] (value_all host ctx ps))).1
            ∙ keep.status,
      )
