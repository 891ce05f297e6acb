-- ===== src/Dfa/Laws.antt =====
-- What the automaton of lexer_dfa.c accepts: the strings of the tokens, and nothing else.
use mathlib.Core.List.{append-nil, append_assoc}
use epita_42sh.Ast.{Token, t_eof, t_word, t_assign_word, t_ionumber}
use epita_42sh.Base.Text.{Str, codes, str_eq, str_eq_sound}
use epita_42sh.Base.{
  ℕ, ◌≡◌, ◌≢◌, refl, sym, ap, ◌∙◌, inl, inr, Bool, true, ◌&&◌, Option, none, some, List, [], ◌∷◌,
  ◌++◌, All, if◌then◌else◌, ◌==◌, ==_iff, Option-cases, get_or, arith,
}
use epita_42sh.Dfa.{Write, edge, final, read_edge, read_token, dfa_init, dfa_token, dfa_eval}
use epita_42sh.Token.{token_str}

-- The state behind a word.
unfoldable pub walk : ℕ → Str → Option ℕ
walk s [] = some s
walk s (c ∷ w) = elim (dfa_eval c s) [ none ↦ none | some s' ↦ walk s' w ]

-- The string that leads to each state.
abbrev spellings : List Str
spellings =
    codes ""
    ∷ codes "\n"
    ∷ codes "&"
    ∷ codes "&&"
    ∷ codes ">"
    ∷ codes ">|"
    ∷ codes "!"
    ∷ codes "!!"
    ∷ codes ">>"
    ∷ codes "<"
    ∷ codes "<<"
    ∷ codes "<<-"
    ∷ codes "|"
    ∷ codes "||"
    ∷ codes ";"
    ∷ codes ";;"
    ∷ codes ">&"
    ∷ codes "<&"
    ∷ codes "<>"
    ∷ codes "("
    ∷ codes ")"
    ∷ codes "{"
    ∷ codes "}"
    ∷ codes "c"
    ∷ codes "ca"
    ∷ codes "cas"
    ∷ codes "case"
    ∷ codes "e"
    ∷ codes "es"
    ∷ codes "esa"
    ∷ codes "esac"
    ∷ codes "f"
    ∷ codes "fo"
    ∷ codes "for"
    ∷ codes "d"
    ∷ codes "do"
    ∷ codes "don"
    ∷ codes "done"
    ∷ codes "el"
    ∷ codes "els"
    ∷ codes "else"
    ∷ codes "eli"
    ∷ codes "elif"
    ∷ codes "fi"
    ∷ codes "fu"
    ∷ codes "fun"
    ∷ codes "func"
    ∷ codes "funct"
    ∷ codes "functi"
    ∷ codes "functio"
    ∷ codes "function"
    ∷ codes "i"
    ∷ codes "if"
    ∷ codes "in"
    ∷ codes "u"
    ∷ codes "un"
    ∷ codes "unt"
    ∷ codes "unti"
    ∷ codes "until"
    ∷ codes "t"
    ∷ codes "th"
    ∷ codes "the"
    ∷ codes "then"
    ∷ codes "w"
    ∷ codes "wh"
    ∷ codes "whi"
    ∷ codes "whil"
    ∷ codes "while"
    ∷ []

spelling : ℕ → Str
spelling s = get_or spellings s []

-- Each edge appends its character to the spelling of its state, and each final state spells its
-- token.
check : (ℕ → Str) → List Write → Bool
check sp [] = true
check sp (edge s c to ∷ w) =
    (if c == 0 then true else str_eq (sp to) (sp s ++ c ∷ [])) && check sp w
check sp (final s key ∷ w) = str_eq (sp s) (token_str key) && check sp w

table_checked : check spelling dfa_init.table ≡ true
unfolding check dfa_init str_eq token_str spelling
table_checked = refl

module _ (sp : ℕ → Str) where
  read_edge-spelling :
      (w : List Write) (s c to : ℕ)
      → check sp w ≡ true
      → c ≢ 0
      → read_edge w s c ≡ some to
      → sp to ≡ sp s ++ c ∷ []
  unfolding check read_edge
  read_edge-spelling [] s c to h ne e = cc
  read_edge-spelling (edge s' c' to' ∷ w) s c to h ne e = ground (
    arith,
    ==_iff s' s,
    ==_iff c' c,
    str_eq_sound (sp to') (sp s' ++ c' ∷ []),
    read_edge-spelling w s c to,
  )
  read_edge-spelling (final s' key ∷ w) s c to h ne e =
      read_edge-spelling w s c to (ground arith) ne e

  read_token-spelling :
      (w : List Write) (s : ℕ) (key : Token)
      → check sp w ≡ true
      → read_token w s ≡ some key
      → sp s ≡ token_str key
  unfolding check read_token
  read_token-spelling [] s key h e = cc
  read_token-spelling (edge s' c' to' ∷ w) s key h e = read_token-spelling w s key (ground arith) e
  read_token-spelling (final s' key' ∷ w) s key h e =
      ground
        (arith, ==_iff s' s, str_eq_sound (sp s') (token_str key'), read_token-spelling w s key)

dfa_eval-spelling : (s c t : ℕ) → c ≢ 0 → dfa_eval c s ≡ some t → spelling t ≡ spelling s ++ c ∷ []
unfolding dfa_eval
dfa_eval-spelling s c t ne e = read_edge-spelling spelling dfa_init.table s c t table_checked ne e

walk-spelling :
    (w : Str) (s s' : ℕ) → All (λ c. c ≢ 0) w → walk s w ≡ some s' → spelling s' ≡ spelling s ++ w
unfolding walk
walk-spelling [] s s' clean e = rw append-nil (ap spelling (ground arith))
walk-spelling (c ∷ w) s s' clean e = elim (Option-cases (dfa_eval c s)) [
  | inl r ↦ ground arith
  | inr (t, r) ↦
      let step = dfa_eval-spelling s c t clean.0 r in
      walk-spelling w t s' clean.1 (ground arith) ∙ rw step (append_assoc (spelling s) (c ∷ []) w)
]

-- Soundness: a word without NUL that leads to a state with a token is the string of that token.
pub walk_sound :
    (w : Str) (s : ℕ) (key : Token)
    → All (λ c. c ≢ 0) w
    → walk 0 w ≡ some s
    → dfa_token s ≡ some key
    → token_str key ≡ w
unfolding dfa_token
walk_sound w s key clean e t =
    let empty : spelling 0 ≡ [] = unfold spelling in refl in
    sym (read_token-spelling spelling dfa_init.table s key table_checked t)
    ∙ walk-spelling w 0 s clean e
    ∙ ap (λ r. r ++ w) empty

-- Completeness: the string of a token leads to a state with that token. The four tokens with
-- the empty string share the entry state, where the last of them stands.
pub walk_complete :
    (key : Token)
    → token_str key ≢ []
    → (s : ℕ) × (walk 0 (token_str key) ≡ some s) × (dfa_token s ≡ some key)
unfolding walk dfa_eval dfa_token token_str
walk_complete t_eof ne = absurd (ne refl)
walk_complete t_word ne = absurd (ne refl)
walk_complete t_assign_word ne = absurd (ne refl)
walk_complete t_ionumber ne = absurd (ne refl)
walk_complete _ ne = (_, refl, refl)
