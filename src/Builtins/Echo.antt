-- ===== src/Builtins/Echo.antt =====
-- The builtin of bi_echo.c. A copy of an argument is a memory of its bytes with the NUL.
mod Tests
pub mod Laws
pub mod Options
use epita_42sh.Base.Text.{Str, codes}
use epita_42sh.Base.{
  ℕ, zero, suc, ◌+◌, Bool, true, false, not, ◌&&◌, ◌||◌, Option, none, some, List, [], ◌∷◌, ◌++◌,
  if◌then◌else◌, ◌==◌, get_or, set, length,
}
use epita_42sh.Builtins.{Run, start}
use epita_42sh.Symtab.{Symtab}
use epita_42sh.Utils.Copy.{my_strcpy}
use epita_42sh.Utils.Vec.{c_string}

-- The bits INHIBIT_NEWLINE, INTERPRET_SPACERS and INHIBIT_BACKSLASH_INTERPRETATION.
pub record EchoMode : Type 0 where
  pub inhibit_newline : Bool
  pub interpret_spacers : Bool
  pub inhibit_backslash : Bool

-- The letters of one argument; `none` is `stop`, where `add_modes` is dropped.
pub parse_letters : Str → EchoMode → Option EchoMode
parse_letters [] m = some m
parse_letters (c ∷ s) m =
    let known = c == b'n' || (c == b'e' || c == b'E') in
    let rest = parse_letters s (record m {
      inhibit_newline = c == b'n' || m.inhibit_newline;
      interpret_spacers = c == b'e' || m.interpret_spacers;
      inhibit_backslash = c == b'E' || m.inhibit_backslash;
    }) in
    if known then rest else none

-- `__parse_mode`: the arguments behind the options, and the mode.
pub parse_mode : List Str → EchoMode → List Str × EchoMode
parse_mode [] m = ([], m)
parse_mode (arg ∷ args) m =
    let letters : Option EchoMode = elim arg [
      | [] ↦ none
      | c ∷ s ↦ elim s [ [] ↦ none | d ∷ t ↦ if c == b'-' then parse_letters (d ∷ t) m else none ]
    ] in
    elim letters [ none ↦ (arg ∷ args, m) | some m' ↦ parse_mode args m' ]

-- The character that an escape stands for; `none` is `!c`.
pub escape : ℕ → Option ℕ
escape c =
    if c == b'n' then some 10 else if c == b't' then some 9 else if c == 92 then some 92 else none

-- `__interpret_escapes` from the position `i` of the memory on, a round for each fuel.
pub interpret_loop : ℕ → Str → ℕ → Str
unfolding escape
interpret_loop zero m i = m
interpret_loop (suc f) m i = elim (get_or m i 0) [
  | zero ↦ m
  | suc c ↦ elim (if suc c == 92 then escape (get_or m (i + 1) 0) else none) [
    | none ↦ interpret_loop f m (i + 1)
    | some e ↦ interpret_loop f (my_strcpy (set m i e) (i + 2) (i + 1)) (i + 1)
  ]
]

pub interpret_escapes : Str → Str
unfolding interpret_loop
interpret_escapes m = interpret_loop (length m) m 0

-- What `printf("%s")` prints of an argument.
pub echo_arg : EchoMode → Str → Str
unfolding interpret_escapes c_string
echo_arg mode arg =
    if mode.interpret_spacers && not mode.inhibit_backslash
    then c_string (interpret_escapes (arg ++ 0 ∷ []))
    else arg

-- The loop over the arguments, with a space before each but the first.
pub echo_args : EchoMode → Bool → List Str → Str
unfolding echo_arg
echo_args mode first [] = []
echo_args mode first (arg ∷ args) =
    (if first then [] else b' ' ∷ []) ++ (echo_arg mode arg ++ echo_args mode false args)

abbrev pub no_options : EchoMode
no_options = record {
  inhibit_newline = false;
  interpret_spacers = false;
  inhibit_backslash = false;
}

-- `bi_echo`; the first argument is the builtin's name.
pub bi_echo : Symtab → List Str → Run
unfolding parse_mode echo_args start
bi_echo st [] = start st
bi_echo st (name ∷ args) =
    let (rest, mode) = parse_mode args no_options in
    record (start st) {
      out = echo_args mode true rest ++ (if mode.inhibit_newline then [] else 10 ∷ []);
    }
