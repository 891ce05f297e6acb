-- ===== src/Utils/Vec/Tests.antt =====
-- The theorems on the vector at the empty one and at one with a character.
use epita_42sh.Base.Text.{codes}
use epita_42sh.Base.{ℕ, ◌≡◌, ◌≢◌, All, ◌<◌, ◌^◌, ◌+◌, ◌∷◌, [], ◌++◌, refl, some, arith}
use epita_42sh.Utils.Vec.Laws.{IsValid, vec_push-text, vec_pushstr-text, vec_cstring-text}
use epita_42sh.Utils.Vec.{
  Vec, vec_init, vec_text, vec_push, vec_pushstr, vec_cstring, c_string, get_string, vec_grow,
}

abbrev junk : ℕ → ℕ
junk i = 205

vec_init-IsValid : IsValid vec_init
unfolding vec_init
vec_init-IsValid = record { cells = refl; fits = omega arith }

vec_init-small : vec_init.size < 2 ^ 63
unfolding vec_init
vec_init-small = omega arith

abbrev a_vec : Vec
a_vec = vec_push junk vec_init b'a'

vec_push-text_example :
    IsValid a_vec
    × (vec_text a_vec ≡ vec_text vec_init ++ b'a' ∷ [])
    × (a_vec.size ≡ vec_init.size + 1)
vec_push-text_example = vec_push-text junk vec_init b'a' vec_init-IsValid vec_init-small

vec_pushstr-text_example :
    IsValid (vec_pushstr junk vec_init (some (codes "cd")))
    × (vec_text (vec_pushstr junk vec_init (some (codes "cd")))
        ≡ vec_text vec_init ++ get_string (some (codes "cd")))
vec_pushstr-text_example =
    vec_pushstr-text junk vec_init (some (codes "cd")) vec_init-IsValid
      (unfold vec_init in omega arith)

a_vec-IsValid : IsValid a_vec
a_vec-IsValid = (vec_push-text junk vec_init b'a' vec_init-IsValid vec_init-small).0

a_vec-text : vec_text a_vec ≡ b'a' ∷ []
unfolding vec_init vec_text vec_push vec_grow
a_vec-text = refl

a_vec-small : a_vec.size < 2 ^ 63
unfolding vec_init vec_push vec_grow
a_vec-small = omega arith

a_vec-clean : All (λ c. c ≢ 0) (vec_text a_vec)
a_vec-clean = rw a_vec-text (ground arith, tt)

vec_cstring-text_example :
    let r = vec_cstring junk a_vec in
    IsValid r.0 × (vec_text r.0 ≡ vec_text a_vec) × (c_string r.1 ≡ vec_text a_vec)
vec_cstring-text_example = vec_cstring-text junk a_vec a_vec-IsValid a_vec-small a_vec-clean
