-- ===== src/Driver/Source.antt =====
-- The builtin `.`: bi_source.c.
use epita_42sh.Ast.{Tree}
use epita_42sh.Base.Int.{pos}
use epita_42sh.Base.Text.{Str, codes, lacks}
use epita_42sh.Base.{
  ℕ, ◌+◌, Bool, false, Option, none, some, List, [], ◌∷◌, ◌++◌, if◌then◌else◌, ◌==◌, is_nil, take,
}
use epita_42sh.Builtins.Cd.{Os}
use epita_42sh.Command.Compound.{status_of}
use epita_42sh.Command.{Kernel}
use epita_42sh.Context.{Context, exit_with_loop_exit, exit_without_loop_exit}
use epita_42sh.Driver.{ParserArgs, Called, called, stray, fuel_out, crashed, parser_loop}
use epita_42sh.Exec.Words.{Shell}
use epita_42sh.Exec.{Result, finished, jump, broken, out_of_fuel}
use epita_42sh.Io.{Read, Cstream, reached_eof}
use epita_42sh.Symtab.{kv_word, symtab_lookup}

-- `access(path, F_OK) == 0`, and `fopen(path, "r")` with the results that the reads of the file
-- will give; `none` is NULL.
pub record Files {ℓ} (W : Type ℓ) : Type ℓ where
  pub access : Str → W → Bool
  pub fopen : Str → W → Option (List Read) × W

-- A stream on results to come, as `zalloc` makes it.
unfoldable pub new_stream : List Read → Cstream
new_stream input = record { input = input; has_buffer = false; buffer = pos 0; line_start = false }

-- The parts between the delimiters of `strtok_r(…, ":", …)`, of which it skips the empty ones.
unfoldable pub split_colons : Str → Str → List Str
split_colons part [] = part ∷ []
split_colons part (c ∷ s) =
    if c == b':' then part ∷ split_colons [] s else split_colons (part ++ c ∷ []) s

module _ {ℓ} {W : Type ℓ} (k : Kernel W) (os : Os W) (files : Files W) where
  -- The loop of `__search_in_path`. The buffer takes 4095 bytes of a path.
  unfoldable pub search_parts : List Str → Str → W → Option Str
  search_parts [] file w = none
  search_parts (part ∷ parts) file w =
      let rest = search_parts parts file w in
      let path = take 4095 (part ++ b'/' ∷ file) in
      if is_nil part then rest else if files.access path w then some path else rest

  -- `__search_in_path`; the outer `none` is a PATH that is NULL.
  unfoldable pub search_in_path : Str → Shell W → Option (Option Str)
  unfolding search_parts split_colons
  search_in_path file s = elim (symtab_lookup s.st (codes "PATH") kv_word) [
    | none ↦ some none
    | some kv ↦ elim kv.word [
      | none ↦ none
      | some path ↦ some (search_parts (split_colons [] path) file s.world)
    ]
  ]

  -- `__exit`
  unfoldable pub exit_from : Context → ℕ → Shell W → Result (Shell W)
  exit_from ctx status s =
      jump ctx.exit_jump
        (if ctx.flags.is_interactive then exit_without_loop_exit else exit_with_loop_exit)
        (record s { exit_status = pos status })

  unfoldable pub complain : Str → Str → Str → Shell W → Shell W
  complain name what path s = record s {
    world = k.write 2 (name ++ (what ++ (path ++ codes "!\n"))) s.world;
  }

  -- The arguments of the parser for a file.
  unfoldable pub source_args : Context → ParserArgs
  source_args ctx = record {
    interactive = false;
    flags = record {
      debug = false;
      print_ast = false;
      print_ast_dot = false;
      ctx_flags = record ctx.flags { is_interactive = false };
    };
    program_args = ctx.program_args;
  }

  module _ (fuel : ℕ) (run : Context → Tree → Shell W → Result (Shell W)) where
    -- What follows the loop over the lines of the file.
    unfoldable pub after_source : Context → Called (Shell W) → Result (Shell W)
    unfolding exit_from status_of
    after_source ctx (called err cs s) = elim err [
      | reached_eof ↦ finished (status_of s.exit_status) s
      | _ ↦ exit_from ctx 2 s
    ]
    after_source ctx (stray target val s) = jump target val s
    after_source ctx fuel_out = out_of_fuel
    after_source ctx crashed = broken

    -- `bi_source` on the path that it found. The parser's buffer is its own.
    unfoldable pub source_path : Context → Str → Str → Shell W → Result (Shell W)
    unfolding exit_from complain source_args after_source new_stream parser_loop
    source_path ctx name path s =
        let (file, w) = files.fopen path s.world in
        let t = record s { world = w } in
        elim file [
          | none ↦ exit_from ctx 127 (complain name (codes ": could not open ") path t)
          | some input ↦ after_source ctx (
              parser_loop k os fuel run fuel (source_args ctx) (ctx.exit_jump + 1)
                (new_stream input) t)
        ]

    -- `bi_source`, with its own name first.
    unfoldable pub bi_source : Context → List Str → Shell W → Result (Shell W)
    unfolding search_in_path source_path
    bi_source ctx [] s = broken
    bi_source ctx (name ∷ []) s = finished 0 s
    bi_source ctx (name ∷ (file ∷ args)) s =
        let found = if lacks b'/' file then search_in_path file s else some (some file) in
        elim found [
          | none ↦ broken
          | some none ↦ exit_from ctx 2 (complain name (codes ": could not find ") file s)
          | some (some path) ↦ source_path ctx name path s
        ]
