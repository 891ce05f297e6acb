-- ===== src/Utils/Vec/Laws.antt =====
-- The vector of utils/vec.c keeps its text through every growth, and `vec_cstring` shows it.
use mathlib.Core.List.{append-nil, append_assoc}
use native.Mathlib.Numerals.{add-one}
use epita_42sh.Base.Text.{Str}
use epita_42sh.Base.{
  take, ℕ, zero, suc, ◌+◌, ◌-◌, ◌*◌, ◌%◌, ◌^◌, ◌≤◌, ◌<◌, ◌≡◌, ◌≢◌, refl, sym, ap, ◌∙◌, inl, inr,
  true, not, ◌||◌, Option, none, some, [], ◌∷◌, ◌++◌, if◌then◌else◌, ◌==◌, ==_iff, Bool-cases,
  length, get_or, set, length-take, take-take, take-append, take-set, length-set, length-append,
  All, arith,
}
use epita_42sh.Utils.Vec.{
  Vec, vec_text, cells, vec_grow, vec_push, lacks_nul, vec_cstring, push_all, vec_pushstr, c_string,
  get_string,
}

pub record IsValid (v : Vec) : Type 0 where
  pub cells : length v.data_ ≡ v.capacity
  pub fits : v.size ≤ v.capacity

length-cells : (junk : ℕ → ℕ) (i n : ℕ) → length (cells junk i n) ≡ n
length-cells junk i zero = refl
length-cells junk i (suc n) = ap suc (length-cells junk (suc i) n)

All-take_last :
    (s : Str) (n d : ℕ) → suc n ≤ length s → All (λ c. c ≢ 0) (take (suc n) s) → get_or s n d ≢ 0
All-take_last [] n d h clean = absurd (omega arith)
All-take_last (c ∷ s) zero d h clean = clean.0
All-take_last (c ∷ s) (suc n) d h clean = All-take_last s n d (omega arith) clean.1

lacks_nul_at :
    (s : Str) (n : ℕ)
    → n ≤ length s
    → All (λ c. c ≢ 0) (take n s)
    → ((n == 0) || not (get_or s (n - 1) 0 == 0)) ≡ true
lacks_nul_at s zero h clean = refl
lacks_nul_at s (suc n) h clean =
    let e : suc n - 1 ≡ n = omega arith in
    rw e (ground (arith, All-take_last s n 0 h clean, ==_iff (get_or s n 0) 0))

lacks_nul_lem : (v : Vec) → IsValid v → All (λ c. c ≢ 0) (vec_text v) → lacks_nul v ≡ true
unfolding lacks_nul vec_text
lacks_nul_lem v ok clean = lacks_nul_at v.data_ v.size (omega (arith, ok.cells)) clean

c_string_of_take :
    (n : ℕ) (s t : Str) → take n s ≡ t ++ 0 ∷ [] → All (λ c. c ≢ 0) t → c_string s ≡ t
unfolding c_string
c_string_of_take zero s [] e clean = cc
c_string_of_take zero s (x ∷ t) e clean = cc
c_string_of_take (suc n) [] [] e clean = cc
c_string_of_take (suc n) [] (x ∷ t) e clean = cc
c_string_of_take (suc n) (c ∷ s) [] e clean = ground arith
c_string_of_take (suc n) (c ∷ s) (x ∷ t) e clean =
    ground (arith, c_string_of_take n s t (tail_eq e) clean.1)
  where
    tail_eq : c ∷ take n s ≡ x ∷ (t ++ 0 ∷ []) → take n s ≡ t ++ 0 ∷ []
    tail_eq e = cc

take_text : (v : Vec) → IsValid v → take v.size (vec_text v ++ 0 ∷ []) ≡ vec_text v
unfolding vec_text
take_text v ok =
    take-append v.size (take v.size v.data_) (0 ∷ [])
      (omega (arith, length-take v.size v.data_, ok.cells))
    ∙ take-take v.size v.size v.data_ (omega arith)

module _ (junk : ℕ → ℕ) where
  -- A full vector gets room for at least one more character, and keeps its text.
  vec_grow_lem :
      (v : Vec)
      → IsValid v
      → v.size ≡ v.capacity
      → v.size < 2 ^ 63
      → IsValid (vec_grow junk v)
        × (v.size < (vec_grow junk v).capacity)
        × (vec_text (vec_grow junk v) ≡ vec_text v)
  unfolding vec_grow vec_text
  vec_grow_lem v ok full small =
      let n = if v.capacity == 0 then 10 else (v.capacity * 2) % 2 ^ 64 in
      let room : v.size < n = ground arith in
      let added = cells junk v.capacity (n - v.capacity) in
      let long : length (v.data_ ++ added) ≡ n = omega (
        arith,
        length-append v.data_ added,
        length-cells junk v.capacity (n - v.capacity),
        ok.cells,
      ) in
      (
        record { cells = length-take n (v.data_ ++ added) (omega arith); fits = omega arith },
        room,
        take-take v.size n (v.data_ ++ added) (omega arith)
            ∙ take-append v.size v.data_ added (omega (arith, ok.cells)),
      )

  -- The write behind the last character.
  write_last :
      (g : Vec) (c : ℕ) (v : Vec)
      → IsValid g
      → v.size < g.capacity
      → vec_text g ≡ vec_text v
      → g.size ≡ v.size
      → let r = record g { data_ = set g.data_ g.size c; size = g.size + 1 } in
        IsValid r × (vec_text r ≡ vec_text v ++ c ∷ []) × (r.size ≡ v.size + 1)
  unfolding vec_text
  write_last g c v ok room text same = (
    record { cells = length-set g.data_ g.size c ∙ ok.cells; fits = omega arith },
    rw (add-one, take-set g.data_ g.size c (omega (arith, ok.cells)), text),
    omega arith,
  )

  -- `vec_push` on a well-formed vector of less than 2^63 characters appends one character and keeps
  -- the vector well-formed, whether or not the array has to grow.
  pub vec_push-text :
      (v : Vec) (c : ℕ)
      → IsValid v
      → v.size < 2 ^ 63
      → IsValid (vec_push junk v c)
        × (vec_text (vec_push junk v c) ≡ vec_text v ++ c ∷ [])
        × ((vec_push junk v c).size ≡ v.size + 1)
  unfolding vec_push
  vec_push-text v c ok small = elim (Bool-cases (v.size == v.capacity)) [
    | inl full ↦
        let (ok', room, text) = vec_grow_lem v ok (ground arith) small in
        rw full (write_last (vec_grow junk v) c v ok' room text refl)
    | inr free ↦ rw free (write_last v c v ok (ground (arith, ok.fits)) refl refl)
  ]

  push_all-text :
      (s : Str) (v : Vec)
      → IsValid v
      → v.size + length s ≤ 2 ^ 63
      → IsValid (push_all junk v s) × (vec_text (push_all junk v s) ≡ vec_text v ++ s)
  unfolding push_all
  push_all-text [] v ok small = (ok, sym (append-nil (vec_text v)))
  push_all-text (c ∷ s) v ok small =
      let (ok', text, size) = vec_push-text v c ok (omega arith) in
      let (ok'', text') = push_all-text s (vec_push junk v c) ok' (omega arith) in
      (ok'', text' ∙ rw (text, append_assoc (vec_text v) (c ∷ []) s))

  -- `vec_pushstr` appends a whole string, and nothing for NULL, and keeps the vector well-formed, if
  -- the text stays within 2^63 characters.
  pub vec_pushstr-text :
      (v : Vec) (s : Option Str)
      → IsValid v
      → v.size + length (get_string s) ≤ 2 ^ 63
      → IsValid (vec_pushstr junk v s)
        × (vec_text (vec_pushstr junk v s) ≡ vec_text v ++ get_string s)
  unfolding vec_pushstr
  vec_pushstr-text v none ok small = (ok, sym (append-nil (vec_text v)))
  vec_pushstr-text v (some s) ok small = push_all-text s v ok small

  -- The text of a well-formed vector of less than 2^63 characters, none of them NUL, is the string
  -- that `vec_cstring` returns, and the vector keeps it and stays well-formed.
  pub vec_cstring-text :
      (v : Vec)
      → IsValid v
      → v.size < 2 ^ 63
      → All (λ c. c ≢ 0) (vec_text v)
      → let r = vec_cstring junk v in
        IsValid r.0 × (vec_text r.0 ≡ vec_text v) × (c_string r.1 ≡ vec_text v)
  unfolding vec_cstring vec_text
  vec_cstring-text v ok small clean =
      let w = vec_push junk v 0 in
      let (ok', text, size) = vec_push-text v 0 ok small in
      let back : w.size - 1 ≡ v.size = omega arith in
      let whole : take (suc v.size) w.data_ ≡ vec_text v ++ 0 ∷ [] = rw (← add-one, ← size) text in
      rw (lacks_nul_lem v ok clean, back)
        (
          record { cells = ok'.cells; fits = omega arith },
          sym (take-take v.size (suc v.size) w.data_ (omega arith))
              ∙ ap (take v.size) whole
              ∙ take_text v ok,
          c_string_of_take (suc v.size) w.data_ (vec_text v) whole clean,
        )
