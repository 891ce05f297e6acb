-- ===== src/Exec/Words/Cases.antt =====
-- `rl_exec_case_clause` runs the first item that has the word among its patterns.
use epita_42sh.Ast.{
  Attr, Tree, null, node, word, rl_case_clause, rl_case_item, rl_compound_list, rl_word,
}
use epita_42sh.Base.Text.{Str, codes, str_eq}
use epita_42sh.Base.{
  ◌≡◌, refl, ◌∙◌, sym, ap, Bool, true, false, ◌||◌, Option, none, some, List, [], ◌∷◌,
  if◌then◌else◌,
}
use epita_42sh.Context.{Context}
use epita_42sh.Exec.{Result, finished, then_, exec_compound_list}
use epita_42sh.Exec.Words.{search_item, run_item, case_items, exec_case_clause}

-- An item with its patterns and the list behind them, if there is one.
pub record Item : Type 0 where
  pub patterns : List Str
  pub body : Option (Attr × Tree)

unfoldable pub body_tree : Option (Attr × Tree) → Tree
body_tree none = null
body_tree (some (attr, child)) = node rl_compound_list attr child null

unfoldable pub words_tree : List Str → Tree → Tree
words_tree [] behind = behind
words_tree (p ∷ patterns) behind = node rl_word (word (some p)) null (words_tree patterns behind)

unfoldable pub items_tree : List Item → Tree
items_tree [] = null
items_tree (i ∷ items) =
    node rl_case_item (word none) (words_tree i.patterns (body_tree i.body)) (items_tree items)

-- One of the patterns is the word, or `*`.
unfoldable pub accepts : Str → List Str → Bool
accepts w [] = false
accepts w (p ∷ patterns) = (str_eq p w || str_eq p (codes "*")) || accepts w patterns

unfoldable pub first_match : Str → List Item → Option Item
first_match w [] = none
first_match w (i ∷ items) = if accepts w i.patterns then some i else first_match w items

or_assoc : (a b c : Bool) → ((a || b) || c) ≡ (a || (b || c))
or_assoc true b c = refl
or_assoc false b c = refl

or_false : (a : Bool) → (a || false) ≡ a
or_false true = refl
or_false false = refl

-- The search stands behind the words with what it found.
search_item-words :
    (w : Str) (patterns : List Str) (body : Option (Attr × Tree)) (found : Bool)
    → search_item w (words_tree patterns (body_tree body)) found
      ≡ some (found || accepts w patterns, body_tree body)
unfolding search_item words_tree body_tree accepts
search_item-words w [] none found = ap (λ b. some (b, null)) (sym (or_false found))
search_item-words w [] (some (attr, child)) found =
    ap (λ b. some (b, node rl_compound_list attr child null)) (sym (or_false found))
search_item-words w (p ∷ patterns) body found =
    search_item-words w patterns body (found || (str_eq p w || str_eq p (codes "*")))
    ∙ ap (λ b. some (b, body_tree body))
        (or_assoc found (str_eq p w || str_eq p (codes "*")) (accepts w patterns))

module _ {ℓ} {S : Type ℓ} (run : Context → Tree → S → Result S) (ctx : Context) (w : Str)
    (s : S) where
  -- The list of the item is run, and what it returns is left out.
  unfoldable pub run_body : Option (Attr × Tree) → Result S
  run_body none = finished 0 s
  run_body (some (attr, child)) =
      then_ (exec_compound_list run ctx (node rl_compound_list attr child null) s)
        (λ status s. finished 0 s)

  unfoldable pub run_first : Option Item → Result S
  run_first none = finished 0 s
  run_first (some i) = run_body i.body

  run_item-body :
      (body : Option (Attr × Tree)) → run_item run ctx (body_tree body) s ≡ run_body body
  unfolding run_body run_item body_tree
  run_item-body none = refl
  run_item-body (some (attr, child)) = refl

  if-run_first :
      (i : Item) (items : List Item) (b : Bool)
      → case_items run ctx w (items_tree items) s ≡ run_first (first_match w items)
      → elim b [
        | true ↦ run_item run ctx (body_tree i.body) s
        | false ↦ case_items run ctx w (items_tree items) s
      ]
        ≡ run_first (if b then some i else first_match w items)
  unfolding run_first
  if-run_first i items true rest = run_item-body i.body
  if-run_first i items false rest = rest

  case_items-first :
      (items : List Item)
      → case_items run ctx w (items_tree items) s ≡ run_first (first_match w items)
  unfolding case_items items_tree first_match run_first
  case_items-first [] = refl
  case_items-first (i ∷ items) =
      rw (items_tree, case_items, search_item-words w i.patterns i.body false)
        (if-run_first i items (accepts w i.patterns) (case_items-first items))

  -- `exec_case_clause` on the tree of a list of items runs the list of the first item that has the
  -- word or `*` among its patterns, returns 0 behind it and looks at no other; it returns 0 and runs
  -- nothing when no item has them. A jump out of the list leaves the command.
  pub exec_case_clause-first :
      (items : List Item) (attr : Attr) (sibling : Tree)
      → exec_case_clause run ctx w (node rl_case_clause attr (items_tree items) sibling) s
        ≡ run_first (first_match w items)
  unfolding exec_case_clause
  exec_case_clause-first items attr sibling = case_items-first items
