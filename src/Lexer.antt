-- ===== src/Lexer.antt =====
-- The lexer of lexer.c and its state of include/rule.h.
-- The bits of `rls->flag` and of the modes are Booleans, the word is the text of its vector.
-- `__lexaux` runs on fuel; `fault` is a character outside 0..255 handed to the automaton, whose
-- array has no such column.
mod Tests
pub mod Mode
pub mod Stream
pub mod Loop
pub mod Total
use Prim.Native.Nat.{ℕ}
use epita_42sh.Ast.{Token, Tree, t_eof, t_word, t_assign_word, t_ionumber, t_lf}
use epita_42sh.Base.Int.{ℤ, pos, negsuc}
use epita_42sh.Base.Text.{Str, split_at}
use epita_42sh.Base.{
  zero, suc, Bool, true, false, not, ◌&&◌, ◌||◌, Option, none, some, [], ◌∷◌, ◌++◌, if◌then◌else◌,
  ltb, leb, ◌==◌, length,
}
use epita_42sh.Dfa.{dfa_eval, dfa_token}
use epita_42sh.Io.{
  Read, Error, no_error, lexer_error, Cstream, char, failed, cstream_peek, cstream_pop,
}
use epita_42sh.Lexer.Mode.{LexMode, no_mode, mode_xor, other_mode, any_mode, word_break, lexmode}
use epita_42sh.Utils.Vec.{c_string}
use epita_42sh.Token.{special, keyword, token_type, token_eq}

-- `rls->flag`: LEX_COLLECT, LEX_CMDSTART and PARSER_LINE_START.
pub record Flag : Type 0 where
  pub collect : Bool
  pub cmdstart : Bool
  pub line_start : Bool

-- `struct rl_state`; `buffered` is the buffered token with its word, `none` for -1.
pub record RlState : Type 0 where
  pub err : Error
  pub flag : Flag
  pub token : Token
  pub word : Str
  pub cs : Cstream
  pub node : Tree
  pub buffered : Option (Token × Str)

abbrev is_special : Token → Bool
is_special t = elim (token_type t) [ special ↦ true | _ ↦ false ]

abbrev is_keyword : Token → Bool
is_keyword t = elim (token_type t) [ keyword ↦ true | _ ↦ false ]

abbrev pub is_no_error : Error → Bool
is_no_error e = elim e [ no_error ↦ true | _ ↦ false ]

pub data Lexed : Type 0 where
  done : RlState → Lexed
  out_of_fuel fault : Lexed

-- The part of the loop body before the character is taken: the token and the state of the
-- automaton that it leaves; `none` is the `break` at the end of the token.
scan_char : RlState → LexMode → ℕ → ℕ → Option (Token × ℕ)
unfolding word_break
scan_char rls mode c state =
    let stop =
      is_special (if token_eq rls.token t_eof then t_word else rls.token) || word_break mode c in
    let broken : Option (Token × ℕ) = if stop then none else some (t_word, 0) in
    elim (dfa_eval c state) [
      | none ↦ broken
      | some s ↦ if token_eq rls.token t_word then broken else elim (dfa_token s) [
        | none ↦ some (rls.token, s)
        | some key ↦ some (if is_keyword key && not rls.flag.cmdstart then t_word else key, s)
      ]
    ]

-- The token as the `break` leaves it.
at_break : RlState → RlState
at_break rls = record rls { token = if token_eq rls.token t_eof then t_word else rls.token }

-- The character joins the word and leaves the stream; the flag says whether the pop worked.
take_char : RlState → LexMode → ℕ → RlState × Bool
unfolding any_mode cstream_pop
take_char rls mode c =
    let cs' = record rls.cs { line_start = not (any_mode mode) && not rls.flag.line_start } in
    let (cs, r) = cstream_pop cs' in
    let err : Error = elim r [ char _ ↦ no_error | failed e ↦ e ] in
    (record rls { err = err; word = rls.word ++ c ∷ []; cs = cs }, is_no_error err)

-- `if (c == EOF)` behind the loop.
finish : RlState → LexMode → RlState
unfolding other_mode cstream_pop
finish rls mode =
    let cs = (cstream_pop rls.cs).0 in
    let open_mode = other_mode mode in
    record rls {
      cs = record cs { line_start = if open_mode then true else cs.line_start };
      token =
          if token_eq rls.token t_eof && (if length rls.word == 0 then false else true)
          then t_word
          else rls.token;
      err = if open_mode then lexer_error else rls.err;
    }

-- How one run of the loop body of `__lexaux` ends: outside the loop, at a character that the
-- automaton has no column for, at the test of the loop, or in the nested call with its mode.
pub data Step : Type 0 where
  stop : RlState → Step
  bad : Step
  again : RlState → LexMode → ℕ → Step
  nest : RlState → LexMode → LexMode → ℕ → Step

-- The loop body behind the moves of the automaton. The mode that the nested call gets is
-- `(mode ^ sub) & ~LEX_MODE_DOLLAR`.
consume : RlState → LexMode → ℕ → ℕ → Step
unfolding take_char lexmode mode_xor other_mode any_mode
consume scanned mode c state' =
    let (taken, popped) = take_char scanned mode c in
    let sub = lexmode c mode in
    let change = mode_xor mode sub in
    let mode' = record mode { dollar = sub.dollar } in
    if not popped
    then stop taken
    else if other_mode change
    then (if not (any_mode sub)
        then stop taken
        else nest taken (record change { dollar = false }) mode' state')
    else again taken mode' state'

-- What follows the moves of the automaton at a character.
on_scan : RlState → LexMode → ℕ → Option (Token × ℕ) → Step
unfolding at_break consume
on_scan here mode c none = stop (at_break here)
on_scan here mode c (some next) = consume (record here { token = next.0 }) mode c next.1

-- What follows the peek.
on_read : RlState → LexMode → ℕ → Read → Step
unfolding scan_char finish on_scan
on_read here mode state (failed e) = stop (record here { err = e })
on_read here mode state (char (negsuc n)) = if n == 0 then stop (finish here mode) else bad
on_read here mode state (char (pos c)) =
    if ltb c 256 then on_scan here mode c (scan_char here mode c state) else bad

-- One run of the loop of `__lexaux`, from its test on. `state` is the state of the automaton.
lex_step : RlState → LexMode → ℕ → Step
unfolding on_read cstream_peek
lex_step rls mode state =
    let (cs, read) = cstream_peek rls.cs in
    if token_eq rls.token t_lf
    then stop rls
    else on_read (record rls { cs = cs; err = no_error }) mode state read

-- `if (... || __lexaux(...)) break;`: the loop goes on if the nested call returns NO_ERROR.
resume : Lexed → (RlState → Lexed) → Lexed
resume (done r) go_on = elim r.err [ no_error ↦ go_on r | _ ↦ done r ]
resume out_of_fuel go_on = out_of_fuel
resume fault go_on = fault

-- `__lexaux`, from the test of its loop on.
pub lexaux : ℕ → RlState → LexMode → ℕ → Lexed
unfolding lex_step resume
lexaux zero rls mode state = out_of_fuel
lexaux (suc f) rls mode state = elim (lex_step rls mode state) [
  | stop r ↦ done r
  | bad ↦ fault
  | again r mode' state' ↦ lexaux f r mode' state'
  | nest r inner mode' state' ↦ resume (lexaux f r inner 0) (λ r'. lexaux f r' mode' state')
]

abbrev is_blank : Read → Bool
is_blank (char (pos c)) = c == 32 || c == 9
is_blank _ = false

-- `__eatwhitespaces`
eat_whitespaces : ℕ → Cstream → Option Cstream
unfolding cstream_peek cstream_pop
eat_whitespaces zero cs = none
eat_whitespaces (suc f) cs =
    let (peeked, read) = cstream_peek cs in
    elim (is_blank read) [ true ↦ eat_whitespaces f (cstream_pop peeked).0 | false ↦ some peeked ]

-- `DIGIT`
abbrev pub digit : ℕ → Bool
digit c = leb b'0' c && leb c b'9'

-- `word.size == 1 && DIGIT(word.data[0])`
abbrev is_digit : Str → Bool
is_digit (c ∷ []) = digit c
is_digit _ = false

abbrev is_some : {A : Type 0} → Option A → Bool
is_some o = elim o [ none ↦ false | some _ ↦ true ]

-- `c == '<' || c == '>'`
abbrev is_redirection : ℤ → Bool
is_redirection (pos c) = c == b'<' || c == b'>'
is_redirection (negsuc n) = false

-- The token that `__evalword` gives a word, by what the peek shows.
word_token : RlState → Read → Token
unfolding split_at c_string
word_token rls (failed e) = rls.token
word_token rls (char z) =
    if is_digit rls.word && is_redirection z
    then t_ionumber
    else if rls.flag.cmdstart && is_some (split_at b'=' (c_string rls.word))
    then t_assign_word
    else rls.token

-- `__evalword`
eval_word : RlState → RlState
unfolding cstream_peek word_token
eval_word rls =
    let (cs, read) = cstream_peek rls.cs in
    if not (token_eq rls.token t_word)
    then rls
    else record rls { cs = cs; token = word_token rls read }

-- The end of `lexer`.
evaluate : Lexed → Lexed
unfolding eval_word
evaluate (done r) = done (if is_no_error r.err && token_eq r.token t_word then eval_word r else r)
evaluate out_of_fuel = out_of_fuel
evaluate fault = fault

-- `lexer`
unfoldable pub lexer : ℕ → RlState → Lexed
unfolding eat_whitespaces lexaux evaluate
lexer f rls = elim (eat_whitespaces f rls.cs) [
  | none ↦ out_of_fuel
  | some cs ↦ evaluate (lexaux f (record rls { cs = cs; word = []; token = t_eof }) no_mode 0)
]
