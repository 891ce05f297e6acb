-- ===== src/Exec/Words/Tests.antt =====
-- A case command with two items, and a for over three words.
use epita_42sh.Ast.{Tree, null, node, word, rl_and_or, rl_case_clause, rl_compound_list}
use epita_42sh.Base.Int.{pos}
use epita_42sh.Base.Text.{Str, codes, str_eq}
use epita_42sh.Base.{if◌then◌else◌, ◌==◌, ℕ, ◌+◌, List, [], ◌∷◌, none, some, ◌≡◌, refl}
use epita_42sh.Context.{Context, jmp_break, ctx_new, ctx_add_jump}
use epita_42sh.Exec.Words.Cases.{
  Item, body_tree, words_tree, items_tree, first_match, run_first, exec_case_clause-first,
}
use epita_42sh.Exec.Words.Rounds.{turn, returns, no_words, for_loop-break}
use epita_42sh.Symexp.{Host}
use epita_42sh.Symtab.{symtab_new, symtab_add, kv_word}
use epita_42sh.Exec.Words.{Shell, for_loop, exec_case_clause}
use epita_42sh.Exec.{Result, finished, jump, then_, exec_compound_list}

-- A pipeline fails; the state counts how many have run.
run : Context → Tree → ℕ → Result ℕ
run ctx tree n = finished 1 (n + 1)

abbrev items : List Item
items =
    record { patterns = codes "a" ∷ codes "b" ∷ []; body = none }
    ∷ record {
      patterns = codes "c" ∷ codes "*" ∷ [];
      body =
          some (word none, node rl_and_or (word none) (node rl_and_or (word none) null null) null);
    }
    ∷ []

runs_default :
    exec_case_clause run
      (ctx_new (pos 0) 0)
      (codes "x")
      (node rl_case_clause (word none) (items_tree items) null)
      0
    ≡ finished 0 1
unfolding exec_case_clause items_tree words_tree body_tree run str_eq then_ exec_compound_list
runs_default = refl

exec_case_clause-first_example :
    exec_case_clause run
      (ctx_new (pos 0) 0)
      (codes "x")
      (node rl_case_clause (word none) (items_tree items) null)
      0
    ≡ run_first run (ctx_new (pos 0) 0) (codes "x") 0 (first_match (codes "x") items)
exec_case_clause-first_example =
    exec_case_clause-first run (ctx_new (pos 0) 0) (codes "x") 0 items (word none) null

abbrev host : Host ℕ
host = record {
  rand = λ w. (w, w);
  getuid = λ w. pos 0;
  getpid = λ w. pos 7;
  print_int = λ n. codes "7";
  subshell = λ w status text. record { consumed = 2; output = none; status = status; world = w };
}

-- The first pipeline fails with the status 5, the others break the loop that they are in.
run_once : Context → Tree → Shell ℕ → Result (Shell ℕ)
run_once ctx tree s =
    if s.world == 0 then finished 5 (record s { world = 1 }) else jump ctx.level jmp_break s

abbrev shell : Shell ℕ
shell = record { st = symtab_new; exit_status = pos 0; world = 0 }

abbrev body : Tree
body =
    node rl_compound_list (word none)
      (node rl_and_or (word none) (node rl_and_or (word none) null null) null) null

abbrev with_word : Shell ℕ → Str → Shell ℕ
with_word s w = record s { st = (symtab_add s.st (codes "x") kv_word (some w) null).0 }

abbrev once : Shell ℕ
once = record (with_word shell (codes "a")) { world = 1 }

first_turn :
    turn host run_once (ctx_new (pos 0) 0) (codes "x") body (codes "a") shell ≡ finished 5 once
unfolding run_once exec_compound_list then_ ctx_new ctx_add_jump
first_turn = refl

second_turn :
    turn host run_once (ctx_new (pos 0) 0) (codes "x") body (codes "b") once
    ≡ jump ((ctx_new (pos 0) 0).level + 1) jmp_break (with_word once (codes "b"))
unfolding run_once exec_compound_list then_ ctx_new ctx_add_jump
second_turn = refl

for_loop-break_example :
    for_loop host run_once
      (ctx_new (pos 0) 0)
      (codes "x")
      body
      (codes "a" ∷ codes "b" ∷ codes "c" ∷ [])
      0
      shell
    ≡ finished 5 (with_word once (codes "b"))
for_loop-break_example =
    for_loop-break host run_once (ctx_new (pos 0) 0) (codes "x") body (codes "b")
      (returns first_turn no_words) second_turn (codes "c" ∷ [])
