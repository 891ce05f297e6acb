-- ===== src/Builtins/Echo/Tests.antt =====
-- Runs of `echo`.
use epita_42sh.Base.Text.{Str, codes, lacks, lacks-All}
use epita_42sh.Base.{◌≡◌, refl, List, [], ◌∷◌, ◌++◌, map}
use epita_42sh.Builtins.Echo.Laws.{unescape, shown, join, interpret_escapes-unescape}
use epita_42sh.Builtins.Echo.Options.{contains, with_options, is_option, bi_echo-prints}
use epita_42sh.Builtins.Echo.{no_options, interpret_escapes, bi_echo, parse_letters}
use epita_42sh.Utils.Copy.{my_strcpy}
use epita_42sh.Builtins.{start}
use epita_42sh.Symtab.{symtab_new}
use epita_42sh.Utils.Vec.{c_string}

prints_escaped :
    (bi_echo symtab_new (codes "echo" ∷ codes "-ne" ∷ codes "a\\tb" ∷ codes "-n" ∷ [])).out
    ≡ b'a' ∷ 9 ∷ codes "b -n"
unfolding bi_echo parse_letters my_strcpy
prints_escaped = refl

prints_plain :
    (bi_echo symtab_new (codes "echo" ∷ codes "-E" ∷ codes "a\\tb" ∷ [])).out ≡ codes "a\\tb\n"
unfolding bi_echo parse_letters my_strcpy
prints_plain = refl

abbrev plain_words : List Str
plain_words = codes "a\\\\b" ∷ codes "-x" ∷ []

interpret_escapes-unescape_example :
    c_string (interpret_escapes (codes "a\\nb" ++ 0 ∷ [])) ≡ unescape (codes "a\\nb")
unfolding lacks
interpret_escapes-unescape_example =
    interpret_escapes-unescape (codes "a\\nb") (lacks-All 0 (codes "a\\nb") refl)

bi_echo-prints_example :
    (bi_echo symtab_new (codes "echo" ∷ ((codes "-e" ∷ codes "-n" ∷ []) ++ plain_words)))
    ≡ record (start symtab_new) {
      out =
          join (map (shown (with_options (codes "-e" ∷ codes "-n" ∷ []) no_options)) plain_words)
          ++ [];
    }
unfolding contains is_option lacks
bi_echo-prints_example =
    bi_echo-prints symtab_new (codes "echo") (codes "-e" ∷ codes "-n" ∷ []) plain_words
      (refl, (refl, tt)) refl
      (lacks-All 0 (codes "a\\\\b") refl, (lacks-All 0 (codes "-x") refl, tt))
