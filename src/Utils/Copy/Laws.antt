-- ===== src/Utils/Copy/Laws.antt =====
-- `__my_strcpy` moves a text to the left in its memory.
use mathlib.Core.List.{append_assoc}
use epita_42sh.Base.Text.{Str}
use epita_42sh.Base.{
  ℕ, zero, suc, ◌+◌, ◌<◌, ◌≡◌, ◌≢◌, refl, ◌∙◌, sym, ap, [], ◌∷◌, ◌++◌, get_or, set, length,
  length-append, All, arith,
}
use epita_42sh.Utils.Copy.{copy_loop, my_strcpy}
use epita_42sh.Utils.Vec.{c_string}

-- The memory holds the text `r`, with its NUL, behind `l`.
abbrev pub Holds : Str → Str → Str → Type 0
Holds m l r = (j : Str) × (m ≡ l ++ (r ++ 0 ∷ j))

pub get_or-behind : (l r : Str) (i : ℕ) → get_or (l ++ r) (length l + i) 0 ≡ get_or r i 0
get_or-behind [] r i = rw zero_plus refl
  where
    zero_plus : 0 + i ≡ i
    zero_plus = omega arith
get_or-behind (c ∷ l) r i =
    let e : suc (length l) + i ≡ suc (length l + i) = omega arith in rw e (get_or-behind l r i)

pub get_or-at : (l r : Str) (c : ℕ) → get_or (l ++ c ∷ r) (length l) 0 ≡ c
get_or-at [] r c = refl
get_or-at (d ∷ l) r c = get_or-at l r c

pub set-behind : (l r : Str) (c v : ℕ) → set (l ++ c ∷ r) (length l) v ≡ l ++ v ∷ r
set-behind [] r c v = refl
set-behind (d ∷ l) r c v = ap (λ t. d ∷ t) (set-behind l r c v)

-- `c_string` reads what stands before the first NUL.
pub c_string-append : (s j : Str) → All (λ c. c ≢ 0) s → c_string (s ++ 0 ∷ j) ≡ s
unfolding c_string
c_string-append [] j clean = refl
c_string-append (zero ∷ s) j clean = absurd (clean.0 refl)
c_string-append (suc c ∷ s) j clean = ground (arith, c_string-append s j clean.1)

get_or-between :
    (l m r : Str) (b x : ℕ) → get_or (l ++ b ∷ (m ++ x ∷ r)) (length l + suc (length m)) 0 ≡ x
get_or-between l m r b x =
    let e : length m ≡ length m + 0 = omega arith in
    get_or-behind l (b ∷ (m ++ x ∷ r)) (suc (length m))
    ∙ ap (λ i. get_or (m ++ x ∷ r) i 0) e
    ∙ get_or-behind m (x ∷ r) 0

copy_end :
    (f : ℕ) (m : Str) (src dest : ℕ)
    → get_or m src 0 ≡ 0
    → copy_loop (suc f) m src dest ≡ set m dest 0
unfolding copy_loop
copy_end f m src dest e = rw (copy_loop, e) refl

copy_step :
    (f : ℕ) (m : Str) (src dest c : ℕ)
    → get_or m src 0 ≡ suc c
    → copy_loop (suc f) m src dest ≡ copy_loop f (set m dest (suc c)) (src + 1) (dest + 1)
unfolding copy_loop
copy_step f m src dest c e = rw (copy_loop, e) refl

-- One round, with the text between the pointers moved by one character.
module _ (f : ℕ) (l r : Str) (b b' c : ℕ) (m m' : Str) (moved : m ++ suc c ∷ [] ≡ b' ∷ m') where
  moved_memory : l ++ suc c ∷ (m ++ suc c ∷ r) ≡ (l ++ suc c ∷ []) ++ b' ∷ (m' ++ r)
  moved_memory =
      ap (λ t. l ++ suc c ∷ t) (sym (append_assoc m (suc c ∷ []) r) ∙ ap (λ t. t ++ r) moved)
      ∙ sym (append_assoc l (suc c ∷ []) (b' ∷ (m' ++ r)))

  copy_round :
      copy_loop (suc f) (l ++ b ∷ (m ++ suc c ∷ r)) (length l + suc (length m)) (length l)
      ≡ copy_loop f
          ((l ++ suc c ∷ []) ++ b' ∷ (m' ++ r))
          (length (l ++ suc c ∷ []) + suc (length m'))
          (length (l ++ suc c ∷ []))
  copy_round =
      copy_step f (l ++ b ∷ (m ++ suc c ∷ r)) (length l + suc (length m)) (length l) c
        (get_or-between l m r b (suc c))
      ∙ same (set-behind l (m ++ suc c ∷ r) b (suc c) ∙ moved_memory)
          (omega
            (arith, ap length moved, length-append l (suc c ∷ []), length-append m (suc c ∷ [])))
          (omega (arith, length-append l (suc c ∷ [])))
    where
      same :
          {t t' : Str} {x x' y y' : ℕ}
          → t ≡ t'
          → x ≡ x'
          → y ≡ y'
          → copy_loop f t x y ≡ copy_loop f t' x' y'
      same p q h = cc

-- The loop, with the text `m` between the two pointers.
copy_loop-Holds :
    (f : ℕ) (s l : Str) (b : ℕ) (m j : Str)
    → All (λ c. c ≢ 0) s
    → length s < f
    → Holds (copy_loop f (l ++ b ∷ (m ++ (s ++ 0 ∷ j))) (length l + suc (length m)) (length l)) l s
copy_loop-Holds zero s l b m j clean lt = absurd (omega arith)
copy_loop-Holds (suc f) [] l b m j clean lt = (
  m ++ 0 ∷ j,
  copy_end f (l ++ b ∷ (m ++ 0 ∷ j)) (length l + suc (length m)) (length l)
        (get_or-between l m j b 0)
      ∙ set-behind l (m ++ 0 ∷ j) b 0,
)
copy_loop-Holds (suc f) (zero ∷ s) l b m j clean lt = absurd (clean.0 refl)
copy_loop-Holds (suc f) (suc c ∷ s) l b [] j clean lt =
    let (k, e) = copy_loop-Holds f s (l ++ suc c ∷ []) (suc c) [] j clean.1 (omega arith) in
    (
      k,
      copy_round f l (s ++ 0 ∷ j) b (suc c) c [] [] refl
          ∙ e
          ∙ append_assoc l (suc c ∷ []) (s ++ 0 ∷ k),
    )
copy_loop-Holds (suc f) (suc c ∷ s) l b (d ∷ m) j clean lt =
    let (k, e) =
      copy_loop-Holds f s (l ++ suc c ∷ []) d (m ++ suc c ∷ []) j clean.1 (omega arith) in
    (
      k,
      copy_round f l (s ++ 0 ∷ j) b d c (d ∷ m) (m ++ suc c ∷ []) refl
          ∙ e
          ∙ append_assoc l (suc c ∷ []) (s ++ 0 ∷ k),
    )

-- `__my_strcpy` of the text behind `m` onto `m`: the text stands there, and what is before stays.
pub my_strcpy-Holds :
    (l : Str) (b : ℕ) (m s j : Str)
    → All (λ c. c ≢ 0) s
    → Holds (my_strcpy (l ++ b ∷ (m ++ (s ++ 0 ∷ j))) (length l + suc (length m)) (length l)) l s
unfolding my_strcpy
my_strcpy-Holds l b m s j clean =
    copy_loop-Holds (length (l ++ b ∷ (m ++ (s ++ 0 ∷ j)))) s l b m j clean (
      omega (
        arith,
        length-append l (b ∷ (m ++ (s ++ 0 ∷ j))),
        length-append m (s ++ 0 ∷ j),
        length-append s (0 ∷ j),
      ))
