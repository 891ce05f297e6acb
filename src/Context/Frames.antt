-- ===== src/Context/Frames.antt =====
-- Contexts as stacks of frames: where `break` and `continue` go, and what they free.
use epita_42sh.Base.Int.{ℤ, pos}
use epita_42sh.Base.Text.{Str}
use epita_42sh.Base.{
  ℕ, zero, suc, ◌+◌, ◌-◌, ◌<◌, ◌≤◌, ◌≡◌, refl, ◌∙◌, ap, subst, inl, inr, Bool, true, false, not,
  ◌||◌, Option, none, some, List, [], ◌∷◌, if◌then◌else◌, ◌==◌, lt→ltb, is_nil, All, All-map,
  Bool-cases, map, arith,
}
use epita_42sh.Context.{
  AllocType, CtxJmp, Allocation, Context, JmpValue, Leave, jumped, returned, ctx_add_jump,
  ctx_add_alloc, ctx_free_allocated_memory, freed, find_jump, stop_level, stop_loop,
}

-- What is entered between the top of the shell and a command, the innermost first.
pub data Frame : Type 0 where
  loop : ℕ → Frame
  alloc : AllocType → ℕ → Frame

unfoldable pub entered : Context → List Frame → Context
entered top [] = top
entered top (loop j ∷ fs) = ctx_add_jump (entered top fs) j
entered top (alloc k p ∷ fs) = ctx_add_alloc (entered top fs) k p

unfoldable pub has_loop : List Frame → Bool
has_loop [] = false
has_loop (loop j ∷ fs) = true
has_loop (alloc k p ∷ fs) = has_loop fs

-- The buffer of the `n`th loop from the inside, or of the outermost when there are fewer, and the
-- allocations in front of it.
unfoldable pub target : ℕ → List Frame → Option (ℕ × List (AllocType × ℕ))
unfolding has_loop
target n [] = none
target n (alloc k p ∷ fs) = elim (target n fs) [
  | none ↦ none
  | some (j, ls) ↦ some (j, (k, p) ∷ ls)
]
target n (loop j ∷ fs) =
    let rest = target (n - 1) fs in if n == 1 || not (has_loop fs) then some (j, []) else rest

abbrev pub content : Allocation → AllocType × ℕ
content a = (a.kind, a.data_)

-- Nothing in front of the loop that is jumped to belongs to it: levels grow to the inside.
bounded_jumps :
    (top : Context) (fs : List Frame)
    → top.loop_jump ≡ []
    → All (λ j. j.level ≤ (entered top fs).level) (entered top fs).loop_jump
unfolding entered ctx_add_jump ctx_add_alloc
bounded_jumps top [] e = rw e tt
bounded_jumps top (loop j ∷ fs) e = (
  omega arith,
  All-map _ (λ j. j.level ≤ (entered top fs).level + 1) (λ j le. omega arith)
      (entered top fs).loop_jump (bounded_jumps top fs e),
)
bounded_jumps top (alloc k p ∷ fs) e =
    All-map _ (λ j. j.level ≤ (entered top fs).level + 1) (λ j le. omega arith)
      (entered top fs).loop_jump (bounded_jumps top fs e)

bounded_allocs :
    (top : Context) (fs : List Frame)
    → top.alloc_list ≡ []
    → All (λ a. a.level ≤ (entered top fs).level) (entered top fs).alloc_list
unfolding entered ctx_add_jump ctx_add_alloc
bounded_allocs top [] e = rw e tt
bounded_allocs top (alloc k p ∷ fs) e = (
  omega arith,
  All-map _ (λ j. j.level ≤ (entered top fs).level + 1) (λ j le. omega arith)
      (entered top fs).alloc_list (bounded_allocs top fs e),
)
bounded_allocs top (loop j ∷ fs) e =
    All-map _ (λ j. j.level ≤ (entered top fs).level + 1) (λ j le. omega arith)
      (entered top fs).alloc_list (bounded_allocs top fs e)

-- Nothing is freed at a level that no allocation is above of.
freed-none : (ls : List Allocation) (n : ℕ) → All (λ a. a.level ≤ n) ls → freed ls n ≡ []
unfolding freed
freed-none [] n h = refl
freed-none (a ∷ ls) n h = ground arith

freed-cons :
    (a : Allocation) (ls : List Allocation) (n : ℕ)
    → n < a.level
    → freed (a ∷ ls) n ≡ a ∷ freed ls n
unfolding freed
freed-cons a ls n lt = rw (freed, lt→ltb n a.level lt) refl

find_jump-bounded :
    (n m : ℕ) (js : List CtxJmp) (j : CtxJmp)
    → All (λ j. j.level ≤ m) js
    → find_jump n js ≡ some j
    → j.level ≤ m
unfolding find_jump
find_jump-bounded n m [] j h e = ground arith
find_jump-bounded n m (i ∷ []) j h e = ground arith
find_jump-bounded zero m (i ∷ k ∷ js) j h e = ground arith
find_jump-bounded (suc zero) m (i ∷ k ∷ js) j h e = ground arith
find_jump-bounded (suc (suc n)) m (i ∷ k ∷ js) j h e = find_jump-bounded (suc n) m (k ∷ js) j h.1 e

has_loop-jumps :
    (top : Context) (fs : List Frame)
    → top.loop_jump ≡ []
    → is_nil (entered top fs).loop_jump ≡ not (has_loop fs)
unfolding entered ctx_add_jump ctx_add_alloc has_loop
has_loop-jumps top [] e = rw e refl
has_loop-jumps top (loop j ∷ fs) e = refl
has_loop-jumps top (alloc k p ∷ fs) e = has_loop-jumps top fs e

-- The walk over the jumps, as a function into what `target` gives.
abbrev found : List Allocation → Option CtxJmp → Option (ℕ × List (AllocType × ℕ))
found ls none = none
found ls (some j) = some (j.jump, map content (freed ls j.level))

found-alloc :
    (a : Allocation) (ls : List Allocation) (fs : List Frame) (n m : ℕ) (o : Option CtxJmp)
    → ((j : CtxJmp) → o ≡ some j → j.level < a.level)
    → found ls o ≡ target n fs
    → found (a ∷ ls) o ≡ target n (alloc a.kind a.data_ ∷ fs)
unfolding target
found-alloc a ls fs n m none lt e = rw (target, ← e) refl
found-alloc a ls fs n m (some j) lt e = rw (target, ← e, freed-cons a ls j.level (lt j refl)) refl

-- The loop that is entered last is the first, and the only one when there is no other.
find_jump-last :
    (i : CtxJmp) (js : List CtxJmp) (n : ℕ) → is_nil js ≡ true → find_jump (suc n) (i ∷ js) ≡ some i
unfolding find_jump
find_jump-last i [] n h = refl
find_jump-last i (k ∷ js) n h = absurd (ground arith)

find_jump-first : (i : CtxJmp) (js : List CtxJmp) → find_jump 1 (i ∷ js) ≡ some i
unfolding find_jump
find_jump-first i [] = refl
find_jump-first i (k ∷ js) = refl

find_jump-next :
    (i : CtxJmp) (js : List CtxJmp) (n : ℕ)
    → is_nil js ≡ false
    → find_jump (suc (suc n)) (i ∷ js) ≡ find_jump (suc n) js
unfolding find_jump
find_jump-next i [] n h = absurd (ground arith)
find_jump-next i (k ∷ js) n h = refl

-- What `break` and `continue` do in the frames `fs`, when their level is `n`, not 0.
abbrev pub Leaves : JmpValue → Context → Option (ℕ × List (AllocType × ℕ)) → Leave → Type 0
Leaves val ctx none r = r ≡ returned 0 []
Leaves val ctx (some (j, ls)) r =
    (freed_ : List Allocation) × (r ≡ jumped ctx j val freed_) × (map content freed_ ≡ ls)

stop_loop-found :
    (atoi : Str → ℤ) (val : JmpValue) (ctx : Context) (name : Str) (args : List Str) (n : ℕ)
    (o : Option CtxJmp)
    → stop_level atoi args ≡ pos (suc n)
    → find_jump (suc n) ctx.loop_jump ≡ o
    → Leaves val ctx (found ctx.alloc_list o) (stop_loop atoi val ctx name args)
unfolding stop_loop ctx_free_allocated_memory
stop_loop-found atoi val ctx name args n none e h = rw (stop_loop, e, h) refl
stop_loop-found atoi val ctx name args n (some j) e h =
    (freed ctx.alloc_list j.level, rw (stop_loop, e, h) refl, refl)

module _ (top : Context) (no_loop : top.loop_jump ≡ []) (no_alloc : top.alloc_list ≡ []) where
  here_found :
      (j : ℕ) (fs : List Frame)
      → found
          (entered top fs).alloc_list
          (some (record { level = (entered top fs).level + 1; jump = j }))
        ≡ some (j, [])
  here_found j fs =
      rw
        (freed-none (entered top fs).alloc_list ((entered top fs).level + 1) (
          All-map _ (λ a. a.level ≤ (entered top fs).level + 1) (λ a le. omega arith)
            (entered top fs).alloc_list (bounded_allocs top fs no_alloc)))
        refl

  find_jump-target :
      (fs : List Frame) (n : ℕ)
      → found (entered top fs).alloc_list (find_jump (suc n) (entered top fs).loop_jump)
        ≡ target (suc n) fs
  unfolding entered ctx_add_jump ctx_add_alloc target find_jump
  find_jump-target [] n = rw no_loop refl
  find_jump-target (alloc k p ∷ fs) n =
      found-alloc (record { level = (entered top fs).level + 1; kind = k; data_ = p })
        (entered top fs).alloc_list fs (suc n) n (find_jump (suc n) (entered top fs).loop_jump)
        (λ j h.
          let le =
            find_jump-bounded (suc n) (entered top fs).level (entered top fs).loop_jump j
              (bounded_jumps top fs no_loop) h in
          omega arith)
        (find_jump-target fs n)
  find_jump-target (loop j ∷ fs) zero =
      rw
        (find_jump-first (record { level = (entered top fs).level + 1; jump = j })
          (entered top fs).loop_jump)
        (here_found j fs)
  find_jump-target (loop j ∷ fs) (suc m) =
      let i : CtxJmp = record { level = (entered top fs).level + 1; jump = j } in
      let more : (suc (suc m) == 1) ≡ false = ground arith in
      let less : suc (suc m) - 1 ≡ suc m = omega arith in
      let empty = has_loop-jumps top fs no_loop in
      elim (Bool-cases (has_loop fs)) [
        | inl h ↦
            rw
              (
                find_jump-next i (entered top fs).loop_jump m (empty ∙ ap not h),
                target,
                more,
                h,
                less,
              )
              (find_jump-target fs m)
        | inr h ↦
            rw
              (
                find_jump-last i (entered top fs).loop_jump (suc m) (empty ∙ ap not h),
                target,
                more,
                h,
              )
              (here_found j fs)
      ]

  -- `break` and `continue` of the level `n`, in a context entered by frames: they jump to the `n`th
  -- loop from the inside, or to the outermost when there are fewer, and free the
  -- allocations made inside of it, the newest first, and no others; with no loop they return 0.
  pub stop_loop-target :
      (atoi : Str → ℤ) (val : JmpValue) (fs : List Frame) (name : Str) (args : List Str) (n : ℕ)
      → stop_level atoi args ≡ pos (suc n)
      → Leaves val
          (entered top fs)
          (target (suc n) fs)
          (stop_loop atoi val (entered top fs) name args)
  stop_loop-target atoi val fs name args n e =
      subst (λ x. Leaves val (entered top fs) x (stop_loop atoi val (entered top fs) name args))
        (find_jump-target fs n)
        (stop_loop-found atoi val (entered top fs) name args n
          (find_jump (suc n) (entered top fs).loop_jump) e refl)
