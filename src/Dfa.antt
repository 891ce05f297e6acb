-- ===== src/Dfa.antt =====
-- The automaton of lexer_dfa.c that spells the tokens. The array `dfa` is the list of the writes to
-- it, the newest first; a cell that nothing was written to holds DFA_ERR_STATE.
mod Tests
pub mod Laws
use epita_42sh.Ast.{Token}
use epita_42sh.Base.Text.{Str}
use epita_42sh.Base.{
  ℕ, ◌+◌, Bool, true, false, ◌&&◌, Option, none, some, List, [], ◌∷◌, if◌then◌else◌, ◌==◌,
}
use epita_42sh.Token.{token_str, all_tokens}

-- `dfa[state][c] = to`, and `dfa[state][DFA_TOKEN] = key`.
pub data Write : Type 0 where
  edge : (state c to : ℕ) → Write
  final : (state : ℕ) (key : Token) → Write

-- The array and the counter `it`.
pub record Dfa : Type 0 where
  pub table : List Write
  pub it : ℕ

-- `dfa[state][c]`, with `none` for DFA_ERR_STATE.
unfoldable pub read_edge : List Write → ℕ → ℕ → Option ℕ
read_edge [] s c = none
read_edge (edge s' c' to ∷ w) s c = if (s' == s) && (c' == c) then some to else read_edge w s c
read_edge (final s' key ∷ w) s c = read_edge w s c

unfoldable pub read_token : List Write → ℕ → Option Token
read_token [] s = none
read_token (edge s' c' to ∷ w) s = read_token w s
read_token (final s' key ∷ w) s = if s' == s then some key else read_token w s

-- The loop over the characters of one token, from state `i`.
add_token : Token → ℕ → Str → Dfa → Dfa
unfolding read_edge
add_token key i [] d = record d { table = final i key ∷ edge i 0 i ∷ d.table }
add_token key i (c ∷ p) d =
    let looped = edge i 0 i ∷ d.table in
    let fresh = add_token key d.it p (record { table = edge i c d.it ∷ looped; it = d.it + 1 }) in
    elim (read_edge looped i c) [
      | none ↦ fresh
      | some j ↦ add_token key j p (record d { table = looped })
    ]

add_tokens : List Token → Dfa → Dfa
unfolding add_token
add_tokens [] d = d
add_tokens (key ∷ keys) d = add_tokens keys (add_token key 0 (token_str key) d)

unfoldable pub dfa_init : Dfa
unfolding add_tokens token_str
dfa_init = add_tokens all_tokens (record { table = []; it = 1 })

-- The first call of either function builds the array.
unfoldable pub dfa_token : ℕ → Option Token
unfolding dfa_init read_token
dfa_token state = read_token dfa_init.table state

unfoldable pub dfa_eval : ℕ → ℕ → Option ℕ
unfolding dfa_init read_edge
dfa_eval c state = read_edge dfa_init.table state c
