-- ===== src/Builtins/Unset/Options.antt =====
-- The options of `unset`: which arguments they are, and what their letters mean.
use epita_42sh.Base.Text.{Str}
use epita_42sh.Base.{
  ℕ, ◌≡◌, refl, ap, ◌∙◌, Bool, true, false, ◌&&◌, ◌||◌, Option, none, some, List, [], ◌∷◌, inl, inr,
  if◌then◌else◌, ◌==◌, Bool-cases, arith,
}
use epita_42sh.Builtins.{Mode, parse_option, parse_args}

-- The options are the arguments in front that start with a dash, and the keys are the others.
abbrev pub is_option : Str → Bool
is_option [] = false
is_option (c ∷ s) = c == b'-'

abbrev pub options_of : List Str → List Str
options_of [] = []
options_of (arg ∷ args) = if is_option arg then arg ∷ options_of args else []

abbrev pub keys_of : List Str → List Str
keys_of [] = []
keys_of (arg ∷ args) = if is_option arg then keys_of args else arg ∷ args

-- A character is in a text.
abbrev pub within : ℕ → Str → Bool
within x [] = false
within x (c ∷ s) = (c == x) || within x s

-- A letter is in one of the options.
abbrev pub any_with : ℕ → List Str → Bool
any_with x [] = false
any_with x (arg ∷ args) = within x arg || any_with x args

abbrev pub only_letters : Str → Bool
only_letters [] = true
only_letters (c ∷ s) = (c == b'f' || c == b'v') && only_letters s

-- An option is a dash and one letter or more, each `f` or `v`.
abbrev pub is_legal : Str → Bool
is_legal [] = false
is_legal (c ∷ []) = false
is_legal (c ∷ (d ∷ s)) = only_letters (d ∷ s)

abbrev pub all_legal : List Str → Bool
all_legal [] = true
all_legal (arg ∷ args) = is_legal arg && all_legal args

-- `-v` is about words and `-f` about functions.
abbrev pub mode_of : List Str → Mode
mode_of options = record { word = any_with b'v' options; func = any_with b'f' options }

-- The flags behind the letters of an option, if they are all legal.
abbrev lettered : Str → Bool → Bool → Option Mode
lettered s word func =
    if only_letters s
    then some (record { word = word || within b'v' s; func = func || within b'f' s })
    else none

or_true : (b x : Bool) → (b || (true || x)) ≡ true
or_true true x = refl
or_true false x = refl

parse_option-letters :
    (s : Str) (word func : Bool)
    → parse_option s (record { word = word; func = func }) ≡ lettered s word func
unfolding parse_option
parse_option-letters [] true true = refl
parse_option-letters [] true false = refl
parse_option-letters [] false true = refl
parse_option-letters [] false false = refl
parse_option-letters (c ∷ s) word func = elim (Bool-cases (c == b'f')) [
  | inl f ↦
      let v : (c == b'v') ≡ false = ground arith in
      rw (f, v, or_true func (within b'f' s)) (parse_option-letters s word true)
  | inr nf ↦ elim (Bool-cases (c == b'v')) [
    | inl v ↦ rw (nf, v, or_true word (within b'v' s)) (parse_option-letters s true func)
    | inr nv ↦ rw (nf, nv) refl
  ]
]

-- The arguments by their options and keys.
abbrev parsed : List Str → Bool → Bool → Option (List Str × Mode)
parsed args word func =
    let options = options_of args in
    if all_legal options
    then some (
      keys_of args,
      record { word = word || any_with b'v' options; func = func || any_with b'f' options },
    )
    else none

or_assoc : (a b c : Bool) → ((a || b) || c) ≡ (a || (b || c))
or_assoc true b c = refl
or_assoc false b c = refl

-- The arguments that begin with a key.
only_keys :
    (keys : List Str) (word func : Bool)
    → ◌≡◌ {A = Option (List Str × Mode)}
        (some (keys, record { word = word; func = func }))
        (some (keys, record { word = word || false; func = func || false }))
only_keys keys true true = refl
only_keys keys true false = refl
only_keys keys false true = refl
only_keys keys false false = refl

-- `__parse_args` behind an option.
abbrev behind : List Str → Option Mode → Option (List Str × Mode)
behind args o = elim o [ none ↦ none | some m ↦ parse_args args m ]

-- The options and keys with one option more in front.
abbrev parsed_behind : Str → List Str → Bool → Bool → Option (List Str × Mode)
parsed_behind text args word func =
    let options = options_of args in
    if only_letters text && all_legal options
    then some (
      keys_of args,
      record {
        word = word || (within b'v' text || any_with b'v' options);
        func = func || (within b'f' text || any_with b'f' options);
      },
    )
    else none

behind-lettered :
    (text : Str) (args : List Str) (word func : Bool)
    → ((word func : Bool)
        → parse_args args (record { word = word; func = func }) ≡ parsed args word func)
    → behind args (lettered text word func) ≡ parsed_behind text args word func
behind-lettered text args word func rest = elim (Bool-cases (only_letters text)) [
  | inl legal ↦
      let v = or_assoc word (within b'v' text) (any_with b'v' (options_of args)) in
      let f = or_assoc func (within b'f' text) (any_with b'f' (options_of args)) in
      rw (legal, ← v, ← f) (rest (word || within b'v' text) (func || within b'f' text))
  | inr illegal ↦ rw illegal refl
]

parse_args-parsed :
    (args : List Str) (word func : Bool)
    → parse_args args (record { word = word; func = func }) ≡ parsed args word func
unfolding parse_args
parse_args-parsed [] word func = only_keys [] word func
parse_args-parsed ([] ∷ args) word func = only_keys ([] ∷ args) word func
parse_args-parsed ((c ∷ []) ∷ args) word func = elim (Bool-cases (c == b'-')) [
  | inl e ↦ rw (e, parsed) refl
  | inr e ↦ rw (e, parsed) (only_keys ((c ∷ []) ∷ args) word func)
]
parse_args-parsed ((c ∷ (d ∷ s)) ∷ args) word func = elim (Bool-cases (c == b'-')) [
  | inl e ↦
      let v : (c == b'v') ≡ false = ground arith in
      let f : (c == b'f') ≡ false = ground arith in
      rw (e, v, f, parsed)
        (ap (behind args) (parse_option-letters (d ∷ s) word func)
          ∙ behind-lettered (d ∷ s) args word func (parse_args-parsed args))
  | inr e ↦ rw (e, parsed) (only_keys ((c ∷ (d ∷ s)) ∷ args) word func)
]

-- What `__parse_args` makes of the arguments of `unset`.
abbrev pub what_is_said : List Str → Option (List Str × Mode)
what_is_said args =
    if all_legal (options_of args) then some (keys_of args, mode_of (options_of args)) else none

pub parse_args-said :
    (args : List Str) → parse_args args (record { word = false; func = false }) ≡ what_is_said args
parse_args-said args = parse_args-parsed args false false
