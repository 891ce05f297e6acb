-- ===== src/Symexp/Word/Pieces.antt =====
-- Words put together from bare text, quoted text and braced variables.
use epita_42sh.Base.Text.{Str, codes, str_eq}
use epita_42sh.Base.{
  ℕ, suc, ◌+◌, ◌≤◌, ◌≡◌, ◌≢◌, refl, ◌∙◌, Bool, true, false, ◌||◌, List, [], ◌∷◌, ◌++◌, length,
  length-append, All, All-map, arith,
}
use epita_42sh.Symexp.Word.{exp_step, kind_of, switch_quote, quote, plain}
use epita_42sh.Symexp.Word.Laws.{
  at, Reaches, Reaches-join, Reaches-cons, Reaches-step, Reaches-count, Reaches-plain,
}
use epita_42sh.Symexp.Word.Naming.{name_start, name_char, value_of}
use epita_42sh.Symexp.{Ctx, Host, Exp, is_int, quit_dollar_mode}

pub data Piece : Type 0 where
  bare : Str → Piece
  single : Str → Piece
  double : Str → Piece
  braced : Str → Piece

abbrev pub source : Piece → Str
source (bare t) = t
source (single t) = b'\'' ∷ (t ++ b'\'' ∷ [])
source (double t) = b'"' ∷ (t ++ b'"' ∷ [])
source (braced t) = b'$' ∷ b'{' ∷ (t ++ b'}' ∷ [])

abbrev pub source_all : List Piece → Str
source_all [] = []
source_all (p ∷ ps) = source p ++ source_all ps

abbrev pub is_quoted : Piece → Bool
is_quoted (bare t) = false
is_quoted (single t) = true
is_quoted (double t) = true
is_quoted (braced t) = false

abbrev pub any_quoted : List Piece → Bool
any_quoted [] = false
any_quoted (p ∷ ps) = is_quoted p || any_quoted ps

module _ {ℓ} {W : Type ℓ} (host : Host W) (ctx : Ctx) where
  abbrev pub value : Piece → Str
  value (bare t) = t
  value (single t) = t
  value (double t) = t
  value (braced t) = value_of host ctx t

  abbrev pub value_all : List Piece → Str
  value_all [] = []
  value_all (p ∷ ps) = value p ++ value_all ps

  -- The characters that a piece may have; a name is as in POSIX, neither RANDOM nor UID, and fits
  -- the key, and its value has no NUL.
  abbrev pub Fits : Piece → Type 0
  Fits (bare t) =
      All (λ c. (c ≢ 0) × ((c ≢ b'\'') × ((c ≢ b'"') × ((c ≢ b'$') × ((c ≢ b'`') × (c ≢ 92)))))) t
  Fits (single t) = All (λ c. (c ≢ 0) × ((c ≢ b'\'') × (c ≢ 92))) t
  Fits (double t) = All (λ c. (c ≢ 0) × ((c ≢ b'"') × ((c ≢ b'$') × ((c ≢ b'`') × (c ≢ 92))))) t
  Fits (braced []) = ⊥
  Fits (braced (p ∷ t)) =
      (name_start p ≡ true)
      × (All (λ c. name_char c ≡ true) t
          × ((length (p ∷ t) ≤ 99)
              × ((str_eq (p ∷ t) (codes "RANDOM") ≡ false)
                  × ((str_eq (p ∷ t) (codes "UID") ≡ false)
                      × All (λ c. c ≢ 0) (value_of host ctx (p ∷ t))))))

  -- What a run keeps of the state, and that its key is no number.
  pub record Keeps (s t : Exp W) : Type ℓ where
    pub dest : t.dest ≡ s.dest
    pub world : t.world ≡ s.world
    pub status : t.exit_status ≡ s.exit_status
    pub key : is_int t.key ≡ false

  pub Keeps-refl : (s : Exp W) → is_int s.key ≡ false → Keeps s s
  Keeps-refl s k = record { dest = refl; world = refl; status = refl; key = k }

  pub Keeps-trans : (s t u : Exp W) → Keeps s t → Keeps t u → Keeps s u
  Keeps-trans s t u a b = record {
    dest = b.dest ∙ a.dest;
    world = b.world ∙ a.world;
    status = b.status ∙ a.status;
    key = b.key;
  }

  -- A quoted text, in the mode of its quote, between its quotes.
  between_quotes :
      (c : ℕ) (t : Str) (a b d u : Exp W)
      → Reaches host ctx 1 a b
      → Reaches host ctx (length t) b d
      → Reaches host ctx 1 d u
      → Reaches host ctx (length (c ∷ (t ++ c ∷ []))) a u
  between_quotes c t a b d u x y z =
      Reaches-count host ctx (suc (length t + 1)) (length (c ∷ (t ++ c ∷ []))) a u
        (omega (arith, length-append t (c ∷ [])))
        (Reaches-cons host ctx (length t + 1) a b u x
          (Reaches-join host ctx (length t) 1 b d u y z))

  pub single_run :
      (s : Exp W) (h : Bool) (t rest text : Str)
      → Fits (single t)
      → Reaches host ctx
          (length (source (single t)))
          (at s false false h (b'\'' ∷ (t ++ b'\'' ∷ rest)) text)
          (at s false false true rest (text ++ t))
  unfolding exp_step switch_quote kind_of quit_dollar_mode
  single_run s h t rest text fits =
      let a : Exp W = at s false false h (b'\'' ∷ (t ++ b'\'' ∷ rest)) text in
      let b : Exp W = at s true false true (t ++ b'\'' ∷ rest) text in
      let d : Exp W = at s true false true (b'\'' ∷ rest) (text ++ t) in
      let u : Exp W = at s false false true rest (text ++ t) in
      between_quotes b'\'' t a b d u
        (Reaches-step host ctx quote a b b'\'' (t ++ b'\'' ∷ rest) refl refl refl)
        (Reaches-plain host ctx t s true false true (b'\'' ∷ rest) text (
          All-map (λ c. (c ≢ 0) × ((c ≢ b'\'') × (c ≢ 92)))
            (λ c. (word text : Str) → kind_of c (at s true false true word text) ≡ plain)
            (λ c o word text. ground arith) t fits))
        (Reaches-step host ctx quote d u b'\'' rest refl refl refl)

  pub double_run :
      (s : Exp W) (h : Bool) (t rest text : Str)
      → Fits (double t)
      → Reaches host ctx
          (length (source (double t)))
          (at s false false h (b'"' ∷ (t ++ b'"' ∷ rest)) text)
          (at s false false true rest (text ++ t))
  unfolding exp_step switch_quote kind_of quit_dollar_mode
  double_run s h t rest text fits =
      let a : Exp W = at s false false h (b'"' ∷ (t ++ b'"' ∷ rest)) text in
      let b : Exp W = at s false true true (t ++ b'"' ∷ rest) text in
      let d : Exp W = at s false true true (b'"' ∷ rest) (text ++ t) in
      let u : Exp W = at s false false true rest (text ++ t) in
      between_quotes b'"' t a b d u
        (Reaches-step host ctx quote a b b'"' (t ++ b'"' ∷ rest) refl refl refl)
        (Reaches-plain host ctx t s false true true (b'"' ∷ rest) text (
          All-map (λ c. (c ≢ 0) × ((c ≢ b'"') × ((c ≢ b'$') × ((c ≢ b'`') × (c ≢ 92)))))
            (λ c. (word text : Str) → kind_of c (at s false true true word text) ≡ plain)
            (λ c o word text. ground arith) t fits))
        (Reaches-step host ctx quote d u b'"' rest refl refl refl)
