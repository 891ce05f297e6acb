-- ===== src/Symexp/Word.antt =====
-- The loop of `symexp_word`, and the two functions that other files call.
mod Laws
mod Enough
mod Naming
pub mod Pieces
pub mod Expand
mod Stale
mod Tests
use epita_42sh.Base.Int.{ℤ}
use epita_42sh.Base.Text.{Str}
use epita_42sh.Base.{
  ℕ, zero, suc, ◌+◌, ◌*◌, Bool, true, false, not, ◌&&◌, ◌||◌, Option, none, some, List, [], ◌∷◌,
  ◌++◌, if◌then◌else◌, ◌==◌, ltb, is_nil, length, take,
}
use epita_42sh.Symexp.{
  Ctx, Host, Exp, is_digit, is_int, exp_single_char, quit_dollar_mode, exp_cmd_substitution,
  expand_escape_character,
}
use epita_42sh.Utils.Vec.{c_string}

-- `l->size == 0 ? "" : l->data[0]`
unfoldable pub first_or_empty : List Str → Str
first_or_empty [] = []
first_or_empty (s ∷ dest) = s

-- `none` of a step is an overflow.
pub data Exit {ℓ} (W : Type ℓ) : Type ℓ where
  out_of_fuel : Exit W
  overflow : Exit W
  finished : Exp W → Exit W

-- The kinds of a character, in the order of the tests of the loop.
pub data Kind : Type 0 where
  quote : Kind
  dollar : Kind
  close : Kind
  paren : Kind
  backquote : Kind
  backslash : Kind
  symbol : Kind
  plain : Kind

module _ {ℓ} {W : Type ℓ} where
  unfoldable pub kind_of : ℕ → Exp W → Kind
  kind_of c s =
      if (not s.double_quote && c == b'\'') || (not s.single_quote && c == b'"')
      then quote
      else if not s.single_quote && (c == b'$' && (not s.exp_dollar || not (s.i == 0)))
      then dollar
      else if s.exp_dollar && (c == b' ' || (c == b'}' || c == b')'))
      then close
      else if s.exp_dollar && (s.i == 0 && c == b'(')
      then paren
      else if not s.single_quote && c == b'`'
      then backquote
      else if c == 92 && not (is_nil s.word)
      then backslash
      else if not s.single_quote && s.exp_dollar
      then symbol
      else plain

  unfoldable pub switch_quote : ℕ → Exp W → Exp W
  switch_quote c s =
      if c == b'\''
      then record s { single_quote = not s.single_quote; had_a_quote = true }
      else record s { double_quote = not s.double_quote; had_a_quote = true }

  module _ (host : Host W) (ctx : Ctx) where
    -- The end of a round that collects a name: the variables of a single character.
    unfoldable pub end_symbol : ℕ → Option (Exp W) → Option (Exp W)
    unfolding exp_single_char
    end_symbol c none = none
    end_symbol c (some s) =
        if s.i == 1
        then elim (exp_single_char host ctx c s) [
          | none ↦ none
          | some (t, special) ↦ some (if special then record t { exp_dollar = false } else t)
        ]
        else some s

    -- The name grows, or is an argument's number that ends, and the character is read again.
    unfoldable pub collect : ℕ → Exp W → Option (Exp W)
    unfolding is_int quit_dollar_mode
    collect c s =
        if is_int s.key && not (is_digit c)
        then quit_dollar_mode host ctx (record s { word = c ∷ s.word })
        else if ltb s.i 99
        then some (record s { i = s.i + 1; key = take s.i s.key ++ c ∷ [] })
        else none

    unfoldable pub acquire : ℕ → Exp W → Option (Exp W)
    unfolding end_symbol collect
    acquire c s = if c == b'(' || c == b'{' then some s else end_symbol c (collect c s)

    -- One round, at the character `c`, with the word behind it.
    unfoldable pub exp_step : Kind → ℕ → Exp W → Option (Exp W)
    unfolding quit_dollar_mode switch_quote acquire exp_cmd_substitution expand_escape_character
    exp_step quote c s = quit_dollar_mode host ctx (switch_quote c s)
    exp_step dollar c s = elim (quit_dollar_mode host ctx s) [
      | none ↦ none
      | some t ↦ some (record t { i = 0; exp_dollar = true })
    ]
    exp_step close c s = quit_dollar_mode host ctx s
    exp_step paren c s = some (exp_cmd_substitution host ctx c s)
    exp_step backquote c s = elim (quit_dollar_mode host ctx s) [
      | none ↦ none
      | some t ↦ some (exp_cmd_substitution host ctx c t)
    ]
    exp_step backslash c s = expand_escape_character host ctx s
    exp_step symbol c s = acquire c s
    exp_step plain c s = some (record s { expvec = s.expvec ++ c ∷ [] })

    unfoldable pub exp_loop : ℕ → Exp W → Exit W
    exp_loop zero s = out_of_fuel
    exp_loop (suc f) s = elim s.word [
      | [] ↦ elim (quit_dollar_mode host ctx s) [ none ↦ overflow | some t ↦ finished t ]
      | c ∷ word ↦
          elim (exp_step (kind_of c (record s { word = word })) c (record s { word = word })) [
            | none ↦ overflow
            | some t ↦ exp_loop f t
          ]
    ]

    -- The last `list_push`.
    unfoldable pub push_last : Exp W → Exp W
    push_last s =
        if not (is_nil s.expvec) || s.had_a_quote
        then record s { dest = s.dest ++ c_string s.expvec ∷ [] }
        else s

    unfoldable pub init_exp : W → ℤ → Str → List Str → Exp W
    init_exp w status word dest = record {
      word = word;
      dest = dest;
      expvec = [];
      exp_dollar = false;
      single_quote = false;
      double_quote = false;
      had_a_quote = false;
      i = 0;
      key = [];
      exit_status = status;
      world = w;
    }

    unfoldable pub symexp_word : W → ℤ → Str → List Str → Exit W
    unfolding exp_loop push_last init_exp
    symexp_word w status word dest =
        elim (exp_loop (suc (2 * length word)) (init_exp w status word dest)) [
          | out_of_fuel ↦ out_of_fuel
          | overflow ↦ overflow
          | finished s ↦ finished (push_last s)
        ]

    -- The string, and the state behind it; `none` when `symexp_word` does not finish.
    unfoldable pub symexp_word_single_result : W → ℤ → Str → Option (Str × Exp W)
    unfolding symexp_word first_or_empty
    symexp_word_single_result w status word = elim (symexp_word w status word []) [
      | out_of_fuel ↦ none
      | overflow ↦ none
      | finished s ↦ some (first_or_empty s.dest, s)
    ]
