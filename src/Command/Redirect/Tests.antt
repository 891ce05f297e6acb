-- ===== src/Command/Redirect/Tests.antt =====
-- A kernel that has a table of open files, and a command over it.
use epita_42sh.Base.Int.{pos}
use epita_42sh.Base.{
  ℕ, zero, suc, ◌≡◌, ◌≢◌, ◌<◌, ◌≤◌, refl, sym, ap, ◌∙◌, inl, inr, Bool, true, false, Option, none,
  some, List, [], ◌∷◌, ◌++◌, if◌then◌else◌, ltb, ltb→lt, Bool-cases, length, get_or, set,
  get_or-over, get_or-set_self, get_or-set_ne, arith,
}
use epita_42sh.Command.Redirect.Back.{Same, with_fds-Same}
use epita_42sh.Command.Redirect.Calls.{FdLaws}
use epita_42sh.Command.Redirect.{with_fds, save_fds, save_fd, restore_fds, redirect}
use epita_42sh.Command.{Kernel, CmdAttr}
use epita_42sh.Exec.Words.{Shell}
use epita_42sh.Exec.{Result, finished, jump, broken, out_of_fuel}
use epita_42sh.Symtab.{symtab_new}

-- A file is a number.
abbrev Table : Type 0
Table = List (Option ℕ)

abbrev file_at : ℕ → Table → Option ℕ
file_at n w = get_or w n none

abbrev is_open : ℕ → Table → Bool
is_open n w = elim (file_at n w) [ none ↦ false | some f ↦ true ]

-- `dup` takes the descriptor behind the table.
abbrev table : Kernel Table
table = record {
  dup = λ i w. if is_open i w then (some (length w), w ++ file_at i w ∷ []) else (none, w);
  dup2 = λ o n w. if ltb n (length w) then (is_open o w, set w n (file_at o w)) else (false, w);
  close = λ n w. (true, set w n none);
  pipe = λ w. (none, w);
  set_cloexec = λ n w. w;
  open_file = λ file flags w. (none, w);
  fork = λ image args w. (none, w);
  waitpid = λ pid w. (none, w);
  write = λ fd text w. w;
}

-- Behind the end of a list there is what is added to it.
get_or-last : (w : Table) (f : Option ℕ) → get_or (w ++ f ∷ []) (length w) none ≡ f
get_or-last [] f = refl
get_or-last (x ∷ w) f = get_or-last w f

get_or-extend :
    (w : Table) (f : Option ℕ) (n : ℕ)
    → n ≢ length w
    → get_or (w ++ f ∷ []) n none ≡ get_or w n none
get_or-extend [] f zero h = absurd (h refl)
get_or-extend [] f (suc n) h = refl
get_or-extend (x ∷ w) f zero h = refl
get_or-extend (x ∷ w) f (suc n) h = get_or-extend w f n (λ e. h (ap suc e))

dup_number :
    (i s : ℕ) (w : Table)
    → (table.dup i w).0 ≡ some s
    → (s ≡ length w) × ((table.dup i w).1 ≡ w ++ file_at i w ∷ [])
dup_number i s w = elim (Bool-cases (is_open i w)) [
  | inl e ↦ rw e (λ h. (cc, refl))
  | inr e ↦ rw e (λ h. absurd cc)
]

dup2_table :
    (o n : ℕ) (w : Table)
    → (table.dup2 o n w).0 ≡ true
    → (n < length w) × (is_open o w ≡ true) × ((table.dup2 o n w).1 ≡ set w n (file_at o w))
dup2_table o n w = elim (Bool-cases (ltb n (length w))) [
  | inl e ↦ rw e (λ h. (ltb→lt n (length w) e, h, refl))
  | inr e ↦ rw e (λ h. absurd cc)
]

opened : (f : Option ℕ) → elim f [ none ↦ false | some x ↦ true ] ≡ true → f ≢ none
opened none h e = absurd cc
opened (some x) h e = absurd cc

table-FdLaws : FdLaws table file_at
table-FdLaws = record {
  dup_fresh = λ i s w h.
      let (eq, more) = dup_number i s w h in
      ap (λ n. file_at n w) eq ∙ get_or-over w (length w) none (omega arith);
  dup_same = λ i s w h.
      let (eq, more) = dup_number i s w h in
      ap (λ n. file_at n (table.dup i w).1) eq
      ∙ ap (λ v. file_at (length w) v) more
      ∙ get_or-last w (file_at i w);
  dup_others = λ i s n w h ne.
      let (eq, more) = dup_number i s w h in
      ap (λ v. file_at n v) more ∙ get_or-extend w (file_at i w) n (λ e. ne (e ∙ sym eq));
  dup2_open = λ o n w h closed.
      let (low, is_open_, eq) = dup2_table o n w h in
      opened (file_at o w) is_open_
        (sym (ap (λ v. file_at n v) eq ∙ get_or-set_self w n (file_at o w) none low) ∙ closed);
  dup2_same = λ o n w h.
      let (low, is_open_, eq) = dup2_table o n w h in
      ap (λ v. file_at n v) eq ∙ get_or-set_self w n (file_at o w) none low;
  dup2_others = λ o n m w h ne.
      let (low, is_open_, eq) = dup2_table o n w h in
      ap (λ v. file_at m v) eq ∙ get_or-set_ne w n m (file_at o w) none (λ e. ne (sym e));
  close_others = λ n m w ne. get_or-set_ne w n m none none (λ e. ne (sym e));
  cloexec_same = λ n m w. refl;
}

-- Standard input from a pipe at 3, output to the file at 2.
abbrev attr : CmdAttr
attr = record { status = 0; pid = none; fd0 = 3; fd1 = 2; fd2 = 2 }

abbrev shell : Shell Table
shell = record {
  st = symtab_new;
  exit_status = pos 0;
  world = some 10 ∷ some 11 ∷ some 12 ∷ some 13 ∷ [];
}

-- A command that puts another file at 1.
abbrev command : Shell Table → Result (CmdAttr × Shell Table)
command s = finished 0 (attr, record s { world = set s.world 1 (some 99) })

world_of : Table → Result (CmdAttr × Shell Table) → Table
world_of w (finished code (b, v)) = v.world
world_of w (jump target val (b, v)) = w
world_of w broken = w
world_of w out_of_fuel = w

command_keeps :
    (u v : Shell Table) (code : ℕ) (b : CmdAttr)
    → command u ≡ finished code (b, v)
    → (n : ℕ) → 3 ≤ n
    → file_at n u.world ≢ none
    → file_at n v.world ≡ file_at n u.world
unfolding world_of
command_keeps u v code b e n high is_open_ =
    ap (λ r. file_at n (world_of u.world r)) (sym e)
    ∙ get_or-set_ne u.world 1 n (some 99) none (ground (arith, high))

abbrev after : Shell Table
after = record shell { world = some 10 ∷ some 11 ∷ some 12 ∷ none ∷ none ∷ none ∷ none ∷ [] }

is_some : (f : ℕ) → some f ≢ none
is_some f e = cc

with_fds-runs : with_fds table attr command shell ≡ finished 0 (attr, after)
unfolding with_fds save_fds save_fd restore_fds redirect
with_fds-runs = refl

with_fds-Same_example : Same table file_at table-FdLaws shell.world after.world
with_fds-Same_example =
    with_fds-Same table file_at table-FdLaws attr command shell (is_some 10, is_some 11, is_some 12)
      (is_some 13, ground arith, ground arith) command_keeps 0 attr after with_fds-runs
      (ground arith)
