-- ===== src/Context/Tests.antt =====
-- Jumps out of nested loops.
use epita_42sh.Base.Int.{ℤ, pos}
use epita_42sh.Base.Text.{Str, codes}
use epita_42sh.Base.{◌≡◌, refl, List, [], ◌∷◌}
use epita_42sh.Context.Frames.{Frame, loop, alloc, entered, target, Leaves, stop_loop-target}
use epita_42sh.Context.{
  jmp_break, alloc_list_type, alloc_exectree, ctx_new, stop_loop, stop_level, bi_exit, returned,
}

abbrev frames : List Frame
frames = alloc alloc_exectree 9 ∷ loop 1 ∷ alloc alloc_list_type 8 ∷ loop 2 ∷ loop 3 ∷ []

two : Str → ℤ
two s = pos 2

stop_loop-target_example :
    Leaves jmp_break (entered (ctx_new (pos 0) 0) frames) (target 2 frames) (
      stop_loop two jmp_break (entered (ctx_new (pos 0) 0) frames) (codes "break") (codes "2" ∷ []))
unfolding stop_level two ctx_new
stop_loop-target_example =
    stop_loop-target (ctx_new (pos 0) 0) refl refl two jmp_break frames (codes "break")
      (codes "2" ∷ []) 1 refl

exits_illegal :
    bi_exit two (ctx_new (pos 0) 0) (codes "exit") (codes "2x" ∷ [])
    ≡ returned 2 (codes "exit: Illegal number: 2x\n")
unfolding bi_exit
exits_illegal = refl
