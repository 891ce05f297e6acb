-- ===== src/Symexp.antt =====
-- The expansion of words of symexp.c, on the strings that its vector and its list hold.
-- The calls of libc, of the kernel and of the subshell's parser and executor are a `Host`.
pub mod Word
use epita_42sh.Base.Int.{ℤ, pos, negsuc}
use epita_42sh.Base.Text.{Str, codes, str_eq, split_at}
use epita_42sh.Base.{
  ℕ, zero, suc, ◌+◌, ◌-◌, ◌*◌, ◌%◌, Bool, true, false, not, ◌&&◌, ◌||◌, Option, none, some, List,
  [], ◌∷◌, ◌++◌, if◌then◌else◌, ◌==◌, ltb, leb, is_nil, get_or, length, take,
}
use epita_42sh.Symtab.{Symtab, kv_word, kind_eq, symtab_lookup}
use epita_42sh.Utils.Vec.{c_string}

-- The part of `struct ctx` that expansion reads. `program_args_count` is the list's length.
pub record Ctx : Type 0 where
  pub st : Symtab
  pub program_args : List Str
  pub mode_input : Bool
  pub in_function : Bool

-- What became of the text of a subshell: the characters that its stream gave, what the shell
-- wrote, or `none` when the text does not parse, and the exit status behind it.
pub record Subshell {ℓ} (W : Type ℓ) : Type ℓ where
  pub consumed : ℕ
  pub output : Option Str
  pub status : ℤ
  pub world : W

pub record Host {ℓ} (W : Type ℓ) : Type ℓ where
  pub rand : W → ℕ × W
  pub getuid : W → ℤ
  pub getpid : W → ℤ
  pub print_int : ℤ → Str
  pub subshell : W → ℤ → Str → Subshell W

-- `struct symexp_state`, with a field for each bit of its mode and the text of `key`.
pub record Exp {ℓ} (W : Type ℓ) : Type ℓ where
  pub word : Str
  pub dest : List Str
  pub expvec : Str
  pub exp_dollar : Bool
  pub single_quote : Bool
  pub double_quote : Bool
  pub had_a_quote : Bool
  pub i : ℕ
  pub key : Str
  pub exit_status : ℤ
  pub world : W

abbrev pub is_digit : ℕ → Bool
is_digit c = leb b'0' c && leb c b'9'

unfoldable pub all_digits : Str → Bool
all_digits [] = true
all_digits (c ∷ s) = is_digit c && all_digits s

unfoldable pub is_int : Str → Bool
unfolding all_digits
is_int s = not (is_nil s) && all_digits s

unfoldable pub ltrim : Str → Str
ltrim [] = []
ltrim (c ∷ s) = let rest = ltrim s in if c == 9 || c == b' ' then rest else c ∷ s

-- `atoi` on digits.
unfoldable pub atoi_from : ℕ → Str → ℕ
atoi_from n [] = n
atoi_from n (c ∷ s) = atoi_from (n * 10 + (c - b'0')) s

abbrev pub int_end : ℕ
int_end = 2147483648

-- `sprintf` into a buffer of ten bytes.
abbrev pub print_buff : Str → Option Str
print_buff s = if ltb (length s) 10 then some s else none

unfoldable pub push_middle : List Str → List Str → List Str × Str
push_middle dest [] = (dest, [])
push_middle dest (arg ∷ []) = (dest, arg)
push_middle dest (arg ∷ b ∷ args) = push_middle (dest ++ arg ∷ []) (b ∷ args)

-- The loop of `__read_stream_into_list`: `double` is the mode, `reset` the local flag.
unfoldable pub read_output : Bool → Str → Bool → Str → List Str → Str × List Str
read_output double [] reset expvec dest = (expvec, dest)
read_output double (c ∷ output) reset expvec dest =
    let blank = c == b' ' || c == 10 in
    let split = not blank && (reset && not (is_nil expvec)) in
    read_output double output blank
      (if blank
        then expvec
        else (if split then (if double then expvec ++ b' ' ∷ [] else []) else expvec) ++ c ∷ [])
      (if split && not double then dest ++ c_string expvec ∷ [] else dest)

-- `__convert_substitution` behind the first character: its first backquote becomes a parenthesis.
unfoldable pub close_substitution : Str → Str
close_substitution [] = []
close_substitution (c ∷ s) =
    let rest = close_substitution s in if c == b'`' then b')' ∷ s else c ∷ rest

-- How many characters are popped up to and with the first `)`.
unfoldable pub pop_to_paren : Str → ℕ
pop_to_paren [] = 0
pop_to_paren (c ∷ s) = let rest = pop_to_paren s in if c == b')' then 1 else suc rest

unfoldable pub drop : ℕ → Str → Str
drop zero s = s
drop (suc n) [] = []
drop (suc n) (c ∷ s) = drop n s

-- The step over a closing character that ends the word.
abbrev pub close_end : Str → Str
close_end [] = []
close_end (c ∷ []) = if c == b')' || c == b'`' then [] else c ∷ []
close_end (c ∷ d ∷ s) = c ∷ d ∷ s

-- The arguments joined by spaces.
unfoldable pub join_args : Bool → List Str → Str
join_args first [] = []
join_args first (arg ∷ args) = (if first then [] else b' ' ∷ []) ++ (arg ++ join_args false args)

unfoldable pub tail : List Str → List Str
tail [] = []
tail (arg ∷ args) = args

unfoldable pub behind : Str → Str
behind [] = []
behind (c ∷ s) = s

-- The word goes on where the substitution's stream stands, less a character.
pub resume_word {ℓ} : {W : Type ℓ} → ℕ → Exp W → Exp W
unfolding drop
resume_word consumed t = record t { word = close_end (drop (consumed - 2) t.word) }

-- An escape, in front of the word.
pub escaped {ℓ} : {W : Type ℓ} → Exp W → Str → Exp W
escaped t [] = t
escaped t (c ∷ word) =
    if c == 92
      || ((not t.double_quote && not t.single_quote)
          || (t.double_quote && (c == b'"' || (c == b'`' || c == 10))))
    then record t { word = word; expvec = if c == 10 then t.expvec else t.expvec ++ c ∷ [] }
    else record t { expvec = t.expvec ++ 92 ∷ [] }

module _ {ℓ} {W : Type ℓ} (host : Host W) (ctx : Ctx) where
  -- `__search_sym`: the value, NULL as `none`, and the state of `rand`. The outer `none` is an
  -- overflow, of `atoi` or of the buffer.
  pub search_name : Str → W → Option (Option Str × W)
  search_name key w =
      if str_eq key (codes "RANDOM")
      then (let (n, w') = host.rand w in
          elim (print_buff (host.print_int (pos (n % 32768)))) [
            | none ↦ none
            | some s ↦ some (some s, w')
          ])
      else if str_eq key (codes "UID")
      then elim (print_buff (host.print_int (host.getuid w))) [
        | none ↦ none
        | some s ↦ some (some s, w)
      ]
      else elim (symtab_lookup ctx.st key kv_word) [
        | none ↦ some (none, w)
        | some kv ↦ some (if kind_eq kv.kind kv_word then kv.word else none, w)
      ]

  pub search_sym : Str → W → Option (Option Str × W)
  unfolding search_name is_int atoi_from
  search_sym key w =
      if is_int key
      then if ltb (atoi_from 0 key) int_end
        then if ltb (atoi_from 0 key) (length ctx.program_args)
          then some (some (get_or ctx.program_args (atoi_from 0 key) []), w)
          else search_name key w
        else none
      else search_name key w

  -- `__exp_args_array`
  pub exp_args_array : Exp W → Exp W
  unfolding push_middle
  exp_args_array s = elim ctx.program_args [
    | [] ↦ s
    | name ∷ args ↦ elim args [
      | [] ↦ s
      | first ∷ others ↦ elim others [
        | [] ↦ record s { expvec = s.expvec ++ first }
        | second ∷ more ↦
            let (dest, last) =
              push_middle (s.dest ++ c_string (s.expvec ++ first) ∷ []) (second ∷ more) in
            record s { dest = dest; expvec = last }
      ]
    ]
  ]

  pub push_number : Exp W → ℤ → Option (Exp W)
  push_number s n = elim (print_buff (host.print_int n)) [
    | none ↦ none
    | some text ↦ some (record s { expvec = s.expvec ++ text })
  ]

  -- The number that `$#` prints.
  pub arg_count : ℤ
  arg_count = elim (not ctx.in_function && (ctx.mode_input || is_nil ctx.program_args)) [
    | true ↦ pos (length ctx.program_args)
    | false ↦ elim (length ctx.program_args) [ zero ↦ negsuc 0 | suc n ↦ pos n ]
  ]

  -- `__exp_single_char`: the state, and whether the character was such a variable.
  unfoldable pub exp_single_char : ℕ → Exp W → Option (Exp W × Bool)
  unfolding exp_args_array join_args tail push_number arg_count
  exp_single_char c s =
      if c == b'@'
      then some (exp_args_array s, true)
      else if c == b'*'
      then some (
        if s.double_quote
            then record s { expvec = s.expvec ++ join_args true (tail ctx.program_args) }
            else exp_args_array s,
        true,
      )
      else if c == b'?'
      then numbered (push_number s s.exit_status)
      else if c == b'$'
      then numbered (push_number s (host.getpid s.world))
      else if c == b'#'
      then numbered (push_number s arg_count)
      else some (s, false)
    where
      numbered : Option (Exp W) → Option (Exp W × Bool)
      numbered none = none
      numbered (some t) = some (t, true)

  unfoldable pub quit_dollar_mode : Exp W → Option (Exp W)
  unfolding search_sym
  quit_dollar_mode s =
      if s.exp_dollar
      then if s.i == 0
        then some (record s { exp_dollar = false; expvec = s.expvec ++ b'$' ∷ [] })
        else elim (search_sym s.key s.world) [
          | none ↦ none
          | some (found, w) ↦ some (record s {
            exp_dollar = false;
            world = w;
            expvec = elim found [ none ↦ s.expvec | some value ↦ s.expvec ++ value ];
          })
        ]
      else some s

  -- `__exp_cmd_substitution` at the character `c`, on the text behind it.
  unfoldable pub exp_cmd_substitution : ℕ → Exp W → Exp W
  unfolding ltrim resume_word behind close_substitution pop_to_paren drop read_output
  exp_cmd_substitution c s =
      let input = if c == b'`' then b'(' ∷ close_substitution s.word else c ∷ s.word in
      if get_or (ltrim (behind input)) 0 0 == b')'
      then resume_word (pop_to_paren input) (record s { exp_dollar = false })
      else (let sub = host.subshell s.world s.exit_status input in
          elim sub.output [
            | none ↦ resume_word sub.consumed (record s { exp_dollar = false })
            | some text ↦
                let (expvec, dest) = read_output s.double_quote text false s.expvec s.dest in
                resume_word sub.consumed (record s {
                  exp_dollar = false;
                  expvec = expvec;
                  dest = dest;
                  exit_status = sub.status;
                  world = sub.world;
                })
          ])

  -- `__expand_escape_character`
  unfoldable pub expand_escape_character : Exp W → Option (Exp W)
  unfolding quit_dollar_mode escaped
  expand_escape_character s = elim (quit_dollar_mode s) [
    | none ↦ none
    | some t ↦ some (escaped t t.word)
  ]
