-- ===== src/Dfa/Tests.antt =====
-- The automaton at the token `if`.
use epita_42sh.Ast.{t_if}
use epita_42sh.Base.Text.{codes}
use epita_42sh.Base.{ℕ, ◌≡◌, ◌≢◌, All, some, [], arith, refl}
use epita_42sh.Dfa.Laws.{walk, walk_sound, walk_complete}
use epita_42sh.Dfa.{dfa_eval, dfa_token}
use epita_42sh.Token.{token_str}

if_clean : All (λ c. c ≢ 0) (codes "if")
if_clean = (ground arith, (ground arith, tt))

if_walk : walk 0 (codes "if") ≡ some 52
unfolding walk dfa_eval
if_walk = refl

if_token : dfa_token 52 ≡ some t_if
unfolding dfa_token
if_token = refl

walk_sound_example : token_str t_if ≡ codes "if"
walk_sound_example = walk_sound (codes "if") 52 t_if if_clean if_walk if_token

if_named : token_str t_if ≢ []
unfolding token_str
if_named h = cc

walk_complete_example : (s : ℕ) × (walk 0 (token_str t_if) ≡ some s) × (dfa_token s ≡ some t_if)
walk_complete_example = walk_complete t_if if_named
