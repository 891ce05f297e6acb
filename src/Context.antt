-- ===== src/Context.antt =====
-- `struct ctx` of include/ctx.h as a stack of loops and allocations, and the builtins that jump out
-- of it: bi_continue.c and bi_exit.c. A pointer or a jump buffer is a number.
mod Tests
pub mod Frames
use epita_42sh.Base.Int.{ℤ, pos, negsuc}
use epita_42sh.Base.Text.{Str, codes}
use epita_42sh.Base.{
  ℕ, zero, suc, ◌+◌, Bool, true, false, ◌&&◌, Option, none, some, List, [], ◌∷◌, ◌++◌,
  if◌then◌else◌, ltb, is_nil, get_or, map,
}
use epita_42sh.Symexp.{is_int}

pub data AllocType : Type 0 where
  alloc_list_type : AllocType
  alloc_exectree : AllocType

pub record CtxJmp : Type 0 where
  pub level : ℕ
  pub jump : ℕ

pub record Allocation : Type 0 where
  pub level : ℕ
  pub kind : AllocType
  pub data_ : ℕ

-- The bits of `flags` that a context may have.
pub record CtxFlags : Type 0 where
  pub mode_input : Bool
  pub mode_command : Bool
  pub mode_script : Bool
  pub is_interactive : Bool
  pub in_function : Bool

-- The nodes of the two lists are the innermost first.
pub record Context : Type 0 where
  pub level : ℕ
  pub exit_status : ℤ
  pub flags : CtxFlags
  pub program_args : List Str
  pub exit_jump : ℕ
  pub loop_jump : List CtxJmp
  pub alloc_list : List Allocation

unfoldable pub ctx_new : ℤ → ℕ → Context
ctx_new status exit_jump = record {
  level = 1;
  exit_status = status;
  flags = record {
    mode_input = false;
    mode_command = false;
    mode_script = false;
    is_interactive = false;
    in_function = false;
  };
  program_args = [];
  exit_jump = exit_jump;
  loop_jump = [];
  alloc_list = [];
}

unfoldable pub ctx_filter_flags : CtxFlags → CtxFlags
ctx_filter_flags flags = record flags { in_function = false }

unfoldable pub ctx_add_jump : Context → ℕ → Context
ctx_add_jump parent jmp = record parent {
  level = parent.level + 1;
  loop_jump = (record { level = parent.level + 1; jump = jmp }) ∷ parent.loop_jump;
}

unfoldable pub ctx_add_alloc : Context → AllocType → ℕ → Context
ctx_add_alloc parent kind data_ = record parent {
  level = parent.level + 1;
  alloc_list =
      (record { level = parent.level + 1; kind = kind; data_ = data_ }) ∷ parent.alloc_list;
}

-- The allocations that are freed, in their order.
unfoldable pub freed : List Allocation → ℕ → List Allocation
freed [] level = []
freed (l ∷ ls) level = let rest = freed ls level in if ltb level l.level then l ∷ rest else []

unfoldable pub ctx_free_allocated_memory : Context → ℕ → List Allocation
unfolding freed
ctx_free_allocated_memory ctx level = freed ctx.alloc_list level

pub data JmpValue : Type 0 where
  jmp_noop : JmpValue
  jmp_continue : JmpValue
  jmp_break : JmpValue
  exit_with_loop_exit : JmpValue
  exit_without_loop_exit : JmpValue

-- A builtin returns with a message, or it jumps to a buffer with a value, having freed memory.
pub data Leave : Type 0 where
  returned : ℕ → Str → Leave
  jumped : Context → ℕ → JmpValue → List Allocation → Leave

-- The walk to the loop that `level` asks for; the level is not 0.
unfoldable pub find_jump : ℕ → List CtxJmp → Option CtxJmp
find_jump level [] = none
find_jump level (j ∷ []) = some j
find_jump zero (j ∷ k ∷ js) = some j
find_jump (suc zero) (j ∷ k ∷ js) = some j
find_jump (suc (suc level)) (j ∷ k ∷ js) = find_jump (suc level) (k ∷ js)

-- The value of `args[1]`, or 1.
unfoldable pub stop_level : (Str → ℤ) → List Str → ℤ
stop_level atoi [] = pos 1
stop_level atoi (arg ∷ args) = if is_nil arg then pos 1 else atoi arg

module _ (atoi : Str → ℤ) where
  -- `__stop_loop`, on the name of the builtin and the arguments behind it.
  unfoldable pub stop_loop : JmpValue → Context → Str → List Str → Leave
  unfolding stop_level find_jump ctx_free_allocated_memory
  stop_loop val ctx name args = elim (stop_level atoi args) [
    | negsuc n ↦ illegal
    | pos level ↦ elim level [
      | zero ↦ illegal
      | suc n ↦ elim (find_jump (suc n) ctx.loop_jump) [
        | none ↦ returned 0 []
        | some jmp ↦ jumped ctx jmp.jump val (ctx_free_allocated_memory ctx jmp.level)
      ]
    ]
  ]
    where
      illegal : Leave
      illegal = returned 2 (name ++ (codes ": illegal number " ++ (get_or args 0 [] ++ codes "\n")))

  unfoldable pub bi_continue : Context → Str → List Str → Leave
  unfolding stop_loop
  bi_continue ctx name args = stop_loop jmp_continue ctx name args

  unfoldable pub bi_break : Context → Str → List Str → Leave
  unfolding stop_loop
  bi_break ctx name args = stop_loop jmp_break ctx name args

  -- `__validate_number` has the loop of `is_int`.
  unfoldable pub validate_number : Str → Bool
  unfolding is_int
  validate_number n = is_int n

  unfoldable pub exit_with : Context → ℤ → Leave
  unfolding ctx_free_allocated_memory
  exit_with ctx status =
      jumped (record ctx { exit_status = status }) ctx.exit_jump exit_with_loop_exit
        (ctx_free_allocated_memory ctx 0)

  unfoldable pub bi_exit : Context → Str → List Str → Leave
  unfolding validate_number exit_with
  bi_exit ctx name [] = exit_with ctx (pos 0)
  bi_exit ctx name (arg ∷ args) =
      if validate_number arg
      then exit_with ctx (atoi arg)
      else returned 2 (name ++ (codes ": Illegal number: " ++ (arg ++ codes "\n")))
