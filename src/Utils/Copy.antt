-- ===== src/Utils/Copy.antt =====
-- The `__my_strcpy` of bi_echo.c and bi_cd.c, for texts that overlap, on a memory of bytes.
-- A read behind the end of the memory gives NUL; with a NUL in it there is none.
pub mod Laws
use epita_42sh.Base.Text.{Str}
use epita_42sh.Base.{ℕ, zero, suc, ◌+◌, get_or, set, length}

-- The loop with its last write. The rounds are bounded by the length of the memory.
pub copy_loop : ℕ → Str → ℕ → ℕ → Str
copy_loop zero m src dest = m
copy_loop (suc f) m src dest = elim (get_or m src 0) [
  | zero ↦ set m dest 0
  | suc c ↦ copy_loop f (set m dest (suc c)) (src + 1) (dest + 1)
]

unfoldable pub my_strcpy : Str → ℕ → ℕ → Str
unfolding copy_loop
my_strcpy m src dest = copy_loop (length m) m src dest
