-- ===== src/Builtins/Echo/Laws.antt =====
-- `echo`: the escapes that are replaced in place, and the text that is printed.
use mathlib.Core.List.{append_assoc, append-nil}
use epita_42sh.Base.Text.{Str}
use epita_42sh.Base.{
  ℕ, zero, suc, ◌+◌, ◌<◌, ◌≡◌, ◌≢◌, refl, ◌∙◌, ap, inl, inr, true, not, ◌&&◌, none, some, List, [],
  ◌∷◌, ◌++◌, if◌then◌else◌, ◌==◌, get_or, set, length, length-append, All, Option-cases, map, arith,
}
use epita_42sh.Builtins.Echo.{
  EchoMode, escape, interpret_loop, interpret_escapes, echo_arg, echo_args,
}
use epita_42sh.Utils.Copy.Laws.{
  Holds, c_string-append, get_or-at, get_or-behind, set-behind, my_strcpy-Holds,
}
use epita_42sh.Utils.Copy.{my_strcpy}
use epita_42sh.Utils.Vec.{c_string}

-- A text with its escapes replaced, read from left to right.
unfoldable pub unescape : Str → Str
unescape [] = []
unescape (c ∷ []) = c ∷ []
unescape (c ∷ d ∷ s) = elim (if c == 92 then escape d else none) [
  | some e ↦ e ∷ unescape s
  | none ↦ c ∷ unescape (d ∷ s)
]

module _ (c d : ℕ) (s : Str) where
  unescape_kept :
      (if c == 92 then escape d else none) ≡ none → unescape (c ∷ d ∷ s) ≡ c ∷ unescape (d ∷ s)
  unfolding unescape
  unescape_kept h = rw (unescape, h) refl

  unescape-escape :
      (e : ℕ)
      → (if c == 92 then escape d else none) ≡ some e
      → unescape (c ∷ d ∷ s) ≡ e ∷ unescape s
  unfolding unescape
  unescape-escape e h = rw (unescape, h) refl

-- A character that an escape stands for is no NUL.
escape-ne : (c d e : ℕ) → (if c == 92 then escape d else none) ≡ some e → e ≢ 0
unfolding escape
escape-ne c d e h = ground arith

module _ (f : ℕ) (m : Str) (i : ℕ) where
  loop_end : get_or m i 0 ≡ 0 → interpret_loop (suc f) m i ≡ m
  unfolding interpret_loop
  loop_end e = rw (interpret_loop, e) refl

  module _ (c : ℕ) (here : get_or m i 0 ≡ suc c) where
    loop_keep :
        (if suc c == 92 then escape (get_or m (i + 1) 0) else none) ≡ none
        → interpret_loop (suc f) m i ≡ interpret_loop f m (i + 1)
    unfolding interpret_loop
    loop_keep h = rw (interpret_loop, here, h) refl

    loop_escape :
        (e : ℕ)
        → (if suc c == 92 then escape (get_or m (i + 1) 0) else none) ≡ some e
        → interpret_loop (suc f) m i
          ≡ interpret_loop f (my_strcpy (set m i e) (i + 2) (i + 1)) (i + 1)
    unfolding interpret_loop
    loop_escape e h = rw (interpret_loop, here, h) refl

get_or-second : (l r : Str) (c d : ℕ) → get_or (l ++ c ∷ d ∷ r) (length l + 1) 0 ≡ d
get_or-second l r c d = get_or-behind l (c ∷ d ∷ r) 1

Holds-cons : (m l s : Str) (c : ℕ) → Holds m (l ++ c ∷ []) s → Holds m l (c ∷ s)
Holds-cons m l s c (j, e) = (j, e ∙ append_assoc l (c ∷ []) (s ++ 0 ∷ j))

-- A round that keeps the character, given the rest of the loop.
keep_round :
    (f : ℕ) (l r t : Str) (c d : ℕ)
    → (if suc c == 92 then escape d else none) ≡ none
    → Holds
        (interpret_loop f ((l ++ suc c ∷ []) ++ d ∷ r) (length (l ++ suc c ∷ [])))
        (l ++ suc c ∷ [])
        t
    → Holds (interpret_loop (suc f) (l ++ suc c ∷ d ∷ r) (length l)) l (suc c ∷ t)
keep_round f l r t c d h rest =
    let p = append_assoc l (suc c ∷ []) (d ∷ r) in
    let n : length (l ++ suc c ∷ []) ≡ length l + 1 = length-append l (suc c ∷ []) in
    let keep =
      loop_keep f (l ++ suc c ∷ d ∷ r) (length l) c (get_or-at l (d ∷ r) (suc c))
        (rw (get_or-second l r (suc c) d) h) in
    let (i, done) = rest in
    Holds-cons (interpret_loop (suc f) (l ++ suc c ∷ d ∷ r) (length l)) l t (suc c) (i, cc)

-- A round that replaces an escape, given the rest of the loop on the shorter memory.
escape_round :
    (f : ℕ) (l s t j : Str) (c d e : ℕ)
    → (if suc c == 92 then escape d else none) ≡ some e
    → All (λ x. x ≢ 0) s
    → ((k : Str)
        → Holds
            (interpret_loop f ((l ++ e ∷ []) ++ (s ++ 0 ∷ k)) (length (l ++ e ∷ [])))
            (l ++ e ∷ [])
            t)
    → Holds (interpret_loop (suc f) (l ++ suc c ∷ d ∷ (s ++ 0 ∷ j)) (length l)) l (e ∷ t)
escape_round f l s t j c d e h clean rest =
    let p = append_assoc l (e ∷ []) (d ∷ (s ++ 0 ∷ j)) in
    let n : length (l ++ e ∷ []) ≡ length l + 1 = length-append l (e ∷ []) in
    let n' : length (l ++ e ∷ []) + 1 ≡ length l + 2 = omega (arith, length-append l (e ∷ [])) in
    let step =
      loop_escape f (l ++ suc c ∷ d ∷ (s ++ 0 ∷ j)) (length l) c
        (get_or-at l (d ∷ (s ++ 0 ∷ j)) (suc c)) e
        (rw (get_or-second l (s ++ 0 ∷ j) (suc c) d) h) in
    let written = set-behind l (d ∷ (s ++ 0 ∷ j)) (suc c) e in
    let (k, moved) = my_strcpy-Holds (l ++ e ∷ []) d [] s j clean in
    let (i, done) = rest k in
    Holds-cons (interpret_loop (suc f) (l ++ suc c ∷ d ∷ (s ++ 0 ∷ j)) (length l)) l t e (i, cc)

no_escape_end : (c : ℕ) → (if suc c == 92 then escape 0 else none) ≡ none
unfolding escape
no_escape_end c = ground arith

interpret_loop-Holds :
    (f : ℕ) (l s j : Str)
    → All (λ c. c ≢ 0) s
    → length s < f
    → Holds (interpret_loop f (l ++ (s ++ 0 ∷ j)) (length l)) l (unescape s)
unfolding unescape
interpret_loop-Holds zero l s j clean lt = absurd (omega arith)
interpret_loop-Holds (suc f) l [] j clean lt =
    (j, loop_end f (l ++ 0 ∷ j) (length l) (get_or-at l j 0))
interpret_loop-Holds (suc f) l (zero ∷ s) j clean lt = absurd (clean.0 refl)
interpret_loop-Holds (suc f) l (suc c ∷ []) j clean lt =
    keep_round f l j [] c 0 (no_escape_end c)
      (interpret_loop-Holds f (l ++ suc c ∷ []) [] j clean.1 (omega arith))
interpret_loop-Holds (suc f) l (suc c ∷ d ∷ s) j clean lt =
    elim (Option-cases (if suc c == 92 then escape d else none)) [
      | inl h ↦ rw (unescape_kept (suc c) d s h) (
          keep_round f l (s ++ 0 ∷ j) (unescape (d ∷ s)) c d h
            (interpret_loop-Holds f (l ++ suc c ∷ []) (d ∷ s) j clean.1 (omega arith)))
      | inr (e, h) ↦ rw (unescape-escape (suc c) d s e h) (
          escape_round f l s (unescape s) j c d e h clean.1.1
            (λ k. interpret_loop-Holds f (l ++ e ∷ []) s k clean.1.1 (omega arith)))
    ]

unescape-clean : (s : Str) → All (λ c. c ≢ 0) s → All (λ c. c ≢ 0) (unescape s)
unfolding unescape
unescape-clean [] clean = clean
unescape-clean (c ∷ []) clean = clean
unescape-clean (c ∷ d ∷ s) clean = elim (Option-cases (if c == 92 then escape d else none)) [
  | inl h ↦ rw (unescape_kept c d s h) (clean.0, unescape-clean (d ∷ s) clean.1)
  | inr (e, h) ↦ rw (unescape-escape c d s e h) (escape-ne c d e h, unescape-clean s clean.1.1)
]

-- `__interpret_escapes` on the copy of an argument leaves the text with its escapes replaced.
pub interpret_escapes-unescape :
    (s : Str) → All (λ c. c ≢ 0) s → c_string (interpret_escapes (s ++ 0 ∷ [])) ≡ unescape s
unfolding interpret_escapes
interpret_escapes-unescape s clean =
    let (j, done) =
      interpret_loop-Holds (length (s ++ 0 ∷ [])) [] s [] clean
        (omega (arith, length-append s (0 ∷ []))) in
    rw done (c_string-append (unescape s) j (unescape-clean s clean))

-- What `echo` prints of an argument, without the copy.
abbrev pub shown : EchoMode → Str → Str
shown mode arg = if mode.interpret_spacers && not mode.inhibit_backslash then unescape arg else arg

abbrev pub join : List Str → Str
join [] = []
join (s ∷ []) = s
join (s ∷ t ∷ r) = s ++ b' ' ∷ join (t ∷ r)

echo_arg-shown :
    (mode : EchoMode) (arg : Str) → All (λ c. c ≢ 0) arg → echo_arg mode arg ≡ shown mode arg
unfolding echo_arg
echo_arg-shown mode arg clean = rw (interpret_escapes-unescape arg clean) refl

pub echo_args-join :
    (mode : EchoMode) (args : List Str)
    → All (All (λ c. c ≢ 0)) args
    → echo_args mode true args ≡ join (map (shown mode) args)
unfolding echo_args
echo_args-join mode [] clean = refl
echo_args-join mode (arg ∷ []) clean =
    append-nil (echo_arg mode arg) ∙ echo_arg-shown mode arg clean.0
echo_args-join mode (arg ∷ a ∷ args) clean =
    rw (echo_arg-shown mode arg clean.0)
      (ap (λ t. shown mode arg ++ b' ' ∷ t) (echo_args-join mode (a ∷ args) clean.1))
