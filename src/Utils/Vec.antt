-- ===== src/Utils/Vec.antt =====
-- The growing array of characters of utils/vec.c, utils/vec.h and utils/vec_pushstr.c.
-- `data_` holds the `capacity` allocated cells. The cells that `xrealloc` adds are not initialised:
-- what they hold is the parameter `junk`.
mod Tests
pub mod Laws
use mathlib.Core.List.{append-nil, append_assoc}
use native.Mathlib.Numerals.{add-one}
use epita_42sh.Base.Text.{Str}
use epita_42sh.Base.{
  ℕ, zero, suc, ◌+◌, ◌-◌, ◌*◌, ◌%◌, ◌^◌, ◌≤◌, ◌<◌, ◌≡◌, ◌≢◌, refl, sym, ap, ◌∙◌, inl, inr, Bool,
  true, false, not, ◌||◌, Option, none, some, List, [], ◌∷◌, ◌++◌, if◌then◌else◌, ◌==◌, ==_iff,
  Bool-cases, length, get_or, set, take, length-set, length-append, All, arith,
}

pub record Vec : Type 0 where
  pub data_ : List ℕ
  pub size : ℕ
  pub capacity : ℕ

pub vec_init : Vec
vec_init = record { data_ = []; size = 0; capacity = 0 }

pub vec_reset : Vec → Vec
vec_reset v = record v { size = 0 }

pub vec_destroy : Vec → Vec
vec_destroy v = record v { data_ = [] }

-- The characters of the vector.
pub vec_text : Vec → Str
vec_text v = take v.size v.data_

-- The test of `vec_cstring`: the last character is no NUL.
pub lacks_nul : Vec → Bool
lacks_nul v = (v.size == 0) || not (get_or v.data_ (v.size - 1) 0 == 0)

module _ (junk : ℕ → ℕ) where
  -- `n` cells that nobody has written, from index `i` on.
  abbrev pub cells : ℕ → ℕ → Str
  cells i zero = []
  cells i (suc n) = junk i ∷ cells (suc i) n

  pub vec_grow : Vec → Vec
  vec_grow v =
      let new_capacity = if v.capacity == 0 then 10 else (v.capacity * 2) % 2 ^ 64 in
      record v {
        data_ = take new_capacity (v.data_ ++ cells v.capacity (new_capacity - v.capacity));
        capacity = new_capacity;
      }

  pub vec_push : Vec → ℕ → Vec
  unfolding vec_grow
  vec_push v c =
      let g = if v.size == v.capacity then vec_grow v else v in
      record g { data_ = set g.data_ g.size c; size = g.size + 1 }

  -- Returns the vector and the bytes that the pointer shows.
  pub vec_cstring : Vec → Vec × Str
  unfolding vec_push lacks_nul
  vec_cstring v =
      let w = if lacks_nul v then vec_push v 0 else v in
      let r = record w { size = w.size - 1 } in (r, r.data_)

  pub push_all : Vec → Str → Vec
  push_all v [] = v
  push_all v (c ∷ s) = push_all (vec_push v c) s

  pub vec_pushstr : Vec → Option Str → Vec
  unfolding push_all vec_push
  vec_pushstr v none = v
  vec_pushstr v (some s) = push_all v s

abbrev pub get_string : Option Str → Str
get_string none = []
get_string (some s) = s

-- The string at a pointer: the bytes up to the first NUL.
unfoldable pub c_string : Str → Str
c_string [] = []
c_string (c ∷ s) = if c == 0 then [] else c ∷ c_string s
