-- ===== src/Symexp/Word/Tests.antt =====
-- Words that are expanded by a concrete host.
use epita_42sh.Base.Int.{pos}
use epita_42sh.Base.Text.{Str, codes, str_eq, lacks, lacks-All}
use epita_42sh.Base.{ℕ, ◌≢◌, ◌++◌, All, arith, ◌≡◌, refl, false, some, List, [], ◌∷◌}
use epita_42sh.Symexp.Word.{
  Exit, finished, out_of_fuel, overflow, symexp_word, acquire, exp_step, kind_of,
}
use epita_42sh.Symexp.{
  Ctx, Host, Exp, search_sym, exp_single_char, quit_dollar_mode, exp_cmd_substitution,
  expand_escape_character, is_int,
}
use epita_42sh.Symexp.Word.Enough.{symexp_word-ends}
use epita_42sh.Symexp.Word.Expand.{fields, symexp_word-fields}
use epita_42sh.Symexp.Word.Pieces.{Piece, bare, single, double, braced, source_all, Fits}
use epita_42sh.Symexp.Word.Naming.{value_of}
use epita_42sh.Symexp.Word.Stale.{symexp_word-stale}
use epita_42sh.Symtab.Exported.{symtab_new-IsValid, symtab_new-lookup}
use epita_42sh.Symtab.{kv_word, symtab_new}
use epita_42sh.Utils.Vec.{c_string}

abbrev host : Host ℕ
host = record {
  rand = λ w. (w, w);
  getuid = λ w. pos 0;
  getpid = λ w. pos 7;
  print_int = λ n. codes "7";
  subshell = λ w status text. record {
    consumed = 4;
    output = some (codes "a b\n");
    status = status;
    world = w;
  };
}

abbrev ctx : Ctx
ctx = record {
  st = symtab_new;
  program_args = codes "42sh" ∷ codes "one" ∷ codes "two" ∷ [];
  mode_input = false;
  in_function = false;
}

abbrev words : Exit ℕ → List Str
words out_of_fuel = codes "fuel" ∷ []
words overflow = codes "overflow" ∷ []
words (finished s) = s.dest

quotes : words (symexp_word host ctx 0 (pos 0) (codes "a'b c'$1\"$$\"") []) ≡ codes "ab cone$$" ∷ []
unfolding symexp_word exp_step kind_of acquire quit_dollar_mode search_sym exp_single_char is_int
    c_string
quotes = refl

arguments :
    words (symexp_word host ctx 0 (pos 0) (codes "\"$@\"") []) ≡ codes "one" ∷ codes "two" ∷ []
unfolding symexp_word exp_step kind_of acquire quit_dollar_mode search_sym exp_single_char is_int
    c_string
arguments = refl

stale_key : words (symexp_word host ctx 0 (pos 0) (codes "$1$x") []) ≡ codes "one$x" ∷ []
unfolding symexp_word exp_step kind_of acquire quit_dollar_mode search_sym exp_single_char is_int
    c_string
stale_key = refl

twice_read : words (symexp_word host ctx 0 (pos 0) (codes "$1#") []) ≡ codes "one7#" ∷ []
unfolding symexp_word exp_step kind_of acquire quit_dollar_mode search_sym exp_single_char is_int
    c_string
twice_read = refl

substitution :
    words (symexp_word host ctx 0 (pos 0) (codes "x$(c)y") []) ≡ codes "xa" ∷ codes "by" ∷ []
unfolding symexp_word exp_step kind_of acquire quit_dollar_mode search_sym exp_single_char is_int
    c_string exp_cmd_substitution
substitution = refl

empty_substitution : words (symexp_word host ctx 0 (pos 0) (codes "$()x") []) ≡ codes ")x" ∷ []
unfolding symexp_word exp_step kind_of acquire quit_dollar_mode search_sym exp_single_char is_int
    c_string exp_cmd_substitution expand_escape_character
empty_substitution = refl

single_backslashes :
    words (symexp_word host ctx 0 (pos 0) (codes "'a\\\\b'") []) ≡ codes "a\\b" ∷ []
unfolding symexp_word exp_step kind_of acquire quit_dollar_mode search_sym exp_single_char is_int
    c_string exp_cmd_substitution expand_escape_character
single_backslashes = refl

double_backslash : words (symexp_word host ctx 0 (pos 0) (codes "\"\\$1\"") []) ≡ codes "\\one" ∷ []
unfolding symexp_word exp_step kind_of acquire quit_dollar_mode search_sym exp_single_char is_int
    c_string exp_cmd_substitution expand_escape_character
double_backslash = refl

symexp_word-ends_example : symexp_word host ctx 0 (pos 0) (codes "$1`c`\\") [] ≢ out_of_fuel
symexp_word-ends_example = symexp_word-ends host ctx 0 (pos 0) (codes "$1`c`\\") []

abbrev pieces : List Piece
pieces = bare (codes "a") ∷ single (codes "$") ∷ double (codes " ") ∷ braced (codes "x") ∷ []

x_unset : value_of host ctx (codes "x") ≡ []
unfolding value_of
x_unset = rw (value_of, symtab_new-lookup (codes "x") kv_word) refl

pieces-Fit : All (Fits host ctx) pieces
unfolding str_eq
pieces-Fit = (
  ground arith,
  (ground arith, (ground arith, ((refl, (tt, (omega arith, (refl, (refl, rw x_unset tt))))), tt))),
)

symexp_word-fields_example :
    (t : Exp ℕ) × (symexp_word host ctx 0 (pos 0) (source_all pieces) [] ≡ finished t)
    × (t.dest ≡ [] ++ fields host ctx symtab_new-IsValid pieces)
    × (t.world ≡ 0)
    × (t.exit_status ≡ pos 0)
symexp_word-fields_example =
    symexp_word-fields host ctx symtab_new-IsValid 0 (pos 0) pieces [] pieces-Fit

symexp_word-stale_example :
    (t : Exp ℕ) × (symexp_word host ctx 0 (pos 0) (codes "$1$xy") [] ≡ finished t)
    × (t.dest ≡ codes "one$xy" ∷ [])
unfolding lacks
symexp_word-stale_example =
    symexp_word-stale host ctx 0 (pos 0) b'1' b'x' (codes "y") [] refl (omega arith)
      (lacks-All 0 (codes "one") refl) refl (refl, tt)
