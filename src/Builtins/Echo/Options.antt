-- ===== src/Builtins/Echo/Options.antt =====
-- `echo`: the options, and the whole builtin.
use epita_42sh.Base.Text.{Str}
use epita_42sh.Base.{
  ℕ, ◌≡◌, ◌≢◌, refl, ◌∙◌, sym, ap, inl, inr, Bool, true, false, ◌&&◌, ◌||◌, none, some, List, [],
  ◌∷◌, ◌++◌, if◌then◌else◌, ◌==◌, All, Bool-cases, map, arith,
}
use epita_42sh.Builtins.Echo.Laws.{shown, join, echo_args-join}
use epita_42sh.Builtins.Echo.{EchoMode, parse_letters, no_options, parse_mode, bi_echo}
use epita_42sh.Builtins.{start}
use epita_42sh.Symtab.{Symtab}

-- The letter stands in the text.
unfoldable pub contains : ℕ → Str → Bool
contains x [] = false
contains x (c ∷ s) = c == x || contains x s

unfoldable pub all_letters : Str → Bool
all_letters [] = true
all_letters (c ∷ s) = (c == b'n' || (c == b'e' || c == b'E')) && all_letters s

-- A minus with letters of `neE` behind it, one at least.
unfoldable pub is_option : Str → Bool
unfolding all_letters
is_option [] = false
is_option (c ∷ []) = false
is_option (c ∷ d ∷ s) = c == b'-' && all_letters (d ∷ s)

-- The mode with the letters of an argument.
abbrev pub with_letters : Str → EchoMode → EchoMode
with_letters s m = record {
  inhibit_newline = contains b'n' s || m.inhibit_newline;
  interpret_spacers = contains b'e' s || m.interpret_spacers;
  inhibit_backslash = contains b'E' s || m.inhibit_backslash;
}

abbrev pub with_options : List Str → EchoMode → EchoMode
with_options [] m = m
with_options (arg ∷ args) m = with_options args (with_letters arg m)

or_swap : (a b c : Bool) → a || (b || c) ≡ ((b || a) || c)
or_swap true true c = refl
or_swap true false c = refl
or_swap false true c = refl
or_swap false false c = refl

nest :
    (a b : Bool) (m : EchoMode)
    → (if a then (if b then some m else none) else none) ≡ (if a && b then some m else none)
nest true b m = refl
nest false b m = refl

abbrev with_letter : ℕ → EchoMode → EchoMode
with_letter c m = record {
  inhibit_newline = c == b'n' || m.inhibit_newline;
  interpret_spacers = c == b'e' || m.interpret_spacers;
  inhibit_backslash = c == b'E' || m.inhibit_backslash;
}

with_letters-cons :
    (c : ℕ) (s : Str) (m : EchoMode) → with_letters s (with_letter c m) ≡ with_letters (c ∷ s) m
unfolding contains
with_letters-cons c s m =
    rw
      (
        or_swap (contains b'n' s) (c == b'n') m.inhibit_newline,
        or_swap (contains b'e' s) (c == b'e') m.interpret_spacers,
        or_swap (contains b'E' s) (c == b'E') m.inhibit_backslash,
      )
      refl

parse_letters-all :
    (s : Str) (m : EchoMode)
    → parse_letters s m ≡ (if all_letters s then some (with_letters s m) else none)
unfolding parse_letters all_letters contains
parse_letters-all [] m = refl
parse_letters-all (c ∷ s) m =
    let known = c == b'n' || (c == b'e' || c == b'E') in
    ap (λ o. if known then o else none) (parse_letters-all s (with_letter c m))
    ∙ nest known (all_letters s) (with_letters s (with_letter c m))
    ∙ ap (λ x. if known && all_letters s then some x else none) (with_letters-cons c s m)

abbrev pub NoOptionFirst : List Str → Type 0
NoOptionFirst [] = Unit
NoOptionFirst (arg ∷ args) = is_option arg ≡ false

dash_letters :
    (c : ℕ) (s : Str) (m : EchoMode)
    → (c == b'-') ≡ true
    → with_letters (c ∷ s) m ≡ with_letters s m
unfolding contains
dash_letters c s m e = let is : c ≡ b'-' = ground (arith) in rw is refl

-- What `parse_mode` does with an argument of two characters or more.
letters_of-option :
    (c d : ℕ) (s : Str) (m : EchoMode) (b : Bool)
    → is_option (c ∷ d ∷ s) ≡ b
    → (if c == b'-' then parse_letters (d ∷ s) m else none)
      ≡ (if b then some (with_letters (c ∷ d ∷ s) m) else none)
unfolding is_option
letters_of-option c d s m b h = elim (Bool-cases (c == b'-')) [
  | inl e ↦
      let all : all_letters (d ∷ s) ≡ b = sym (ap (λ x. x && all_letters (d ∷ s)) e) ∙ h in
      rw (e, dash_letters c (d ∷ s) m e, sym all) (parse_letters-all (d ∷ s) m)
  | inr e ↦
      let none_of : false ≡ b = sym (ap (λ x. x && all_letters (d ∷ s)) e) ∙ h in
      rw (e, sym none_of) refl
]

nil_not : is_option [] ≢ true
unfolding is_option
nil_not h = cc

one_not : (c : ℕ) → is_option (c ∷ []) ≢ true
unfolding is_option
one_not c h = cc

parse_mode-options :
    (opts rest : List Str) (m : EchoMode)
    → All (λ s. is_option s ≡ true) opts
    → NoOptionFirst rest
    → parse_mode (opts ++ rest) m ≡ (rest, with_options opts m)
unfolding parse_mode
parse_mode-options [] [] m given first = refl
parse_mode-options [] ([] ∷ rest) m given first = refl
parse_mode-options [] ((c ∷ []) ∷ rest) m given first = refl
parse_mode-options [] ((c ∷ d ∷ s) ∷ rest) m given first =
    rw (parse_mode, letters_of-option c d s m false first) refl
parse_mode-options ([] ∷ opts) rest m given first = absurd (nil_not given.0)
parse_mode-options ((c ∷ []) ∷ opts) rest m given first = absurd (one_not c given.0)
parse_mode-options ((c ∷ d ∷ s) ∷ opts) rest m given first =
    rw (parse_mode, letters_of-option c d s m true given.0)
      (parse_mode-options opts rest (with_letters (c ∷ d ∷ s) m) given.1 first)

-- `echo`, run with options and then arguments of which the first is no option, prints the
-- arguments joined by spaces, with their escapes replaced when an option has `e` and none has
-- `E`, and a newline unless an option has `n`; the table stays and the value is 0. The arguments
-- hold no NUL.
pub bi_echo-prints :
    (st : Symtab) (name : Str) (opts rest : List Str)
    → All (λ s. is_option s ≡ true) opts
    → NoOptionFirst rest
    → All (All (λ c. c ≢ 0)) rest
    → bi_echo st (name ∷ (opts ++ rest)) ≡ record (start st) {
      out =
          join (map (shown (with_options opts no_options)) rest)
          ++ (if (with_options opts no_options).inhibit_newline then [] else 10 ∷ []);
    }
unfolding bi_echo
bi_echo-prints st name opts rest given first clean =
    rw
      (
        bi_echo,
        parse_mode-options opts rest no_options given first,
        echo_args-join (with_options opts no_options) rest clean,
      )
      refl
