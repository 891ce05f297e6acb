-- ===== src/Driver/Stray/Source.antt =====
-- The jumps of the builtin `.`: bi_source.c.
use epita_42sh.Ast.{Tree}
use epita_42sh.Base.Text.{Str, codes, lacks}
use epita_42sh.Base.{
  ℕ, ◌+◌, refl, inl, inr, Option, none, some, List, [], ◌∷◌, if◌then◌else◌, Bool-cases,
}
use epita_42sh.Builtins.Cd.{Os}
use epita_42sh.Command.Compound.{status_of}
use epita_42sh.Command.{Kernel}
use epita_42sh.Context.{Context}
use epita_42sh.Driver.Source.{
  Files, search_in_path, exit_from, complain, after_source, source_args, new_stream, source_path,
  bi_source,
}
use epita_42sh.Driver.{Called, called, stray, fuel_out, crashed, parser_loop}
use epita_42sh.Exec.Scoped.{Scoped}
use epita_42sh.Exec.Words.{Shell}
use epita_42sh.Exec.{Result, finished, broken}
use epita_42sh.Io.{Error, reached_eof, Read}
use epita_42sh.Driver.Stray.{Caught, parser_loop-Caught}

module _ {ℓ} {W : Type ℓ} (k : Kernel W) (os : Os W) (fuel : ℕ)
    (run : Context → Tree → Shell W → Result (Shell W))
    (scoped : (ctx : Context) (tree : Tree) (s : Shell W) → Scoped ctx (run ctx tree s))
    (files : Files W) where
  exit_from-Scoped :
      (ctx : Context) (status : ℕ) (s : Shell W) → Scoped ctx (exit_from k os files ctx status s)
  unfolding exit_from
  exit_from-Scoped ctx status s = elim (Bool-cases ctx.flags.is_interactive) [
    | inl e ↦ rw e refl
    | inr e ↦ rw e refl
  ]

  after_source-Scoped :
      (ctx : Context) (c : Called (Shell W))
      → Caught c
      → Scoped ctx (after_source k os files fuel run ctx c)
  unfolding after_source
  after_source-Scoped ctx (called err cs s) h = code-Scoped err
    where
      code-Scoped :
          (err : Error)
          → Scoped {S = Shell W} ctx (elim err [
            | reached_eof ↦ finished (status_of s.exit_status) s
            | _ ↦ exit_from k os files ctx 2 s
          ])
      code-Scoped reached_eof = tt
      code-Scoped _ = exit_from-Scoped ctx 2 s
  after_source-Scoped ctx (stray target val s) h = absurd h
  after_source-Scoped ctx fuel_out h = tt
  after_source-Scoped ctx crashed h = tt

  source_path-Scoped :
      (ctx : Context) (name path : Str) (s : Shell W)
      → Scoped ctx (source_path k os files fuel run ctx name path s)
  unfolding source_path
  source_path-Scoped ctx name path s = opened-Scoped (files.fopen path s.world)
    where
      opened-Scoped :
          (o : Option (List Read) × W)
          → Scoped ctx (elim o.0 [
            | none ↦ exit_from k os files ctx 127 (
                complain k os files name
                  (codes ": could not open ")
                  path
                  (record s { world = o.1 }))
            | some input ↦ after_source k os files fuel run ctx (
                parser_loop k os fuel run fuel
                  (source_args k os files ctx)
                  (ctx.exit_jump + 1)
                  (new_stream input)
                  (record s { world = o.1 }))
          ])
      opened-Scoped (none, w) =
          exit_from-Scoped ctx 127
            (complain k os files name (codes ": could not open ") path (record s { world = w }))
      opened-Scoped (some input, w) = after_source-Scoped ctx _ (
          parser_loop-Caught k os fuel run scoped fuel (source_args k os files ctx)
            (ctx.exit_jump + 1) (new_stream input) (record s { world = w }))

  pub bi_source-Scoped :
      (ctx : Context) (args : List Str) (s : Shell W)
      → Scoped ctx (bi_source k os files fuel run ctx args s)
  unfolding bi_source
  bi_source-Scoped ctx [] s = tt
  bi_source-Scoped ctx (name ∷ []) s = tt
  bi_source-Scoped ctx (name ∷ (file ∷ args)) s =
      found-Scoped (if lacks b'/' file then search_in_path k os files file s else some (some file))
    where
      found-Scoped :
          (o : Option (Option Str))
          → Scoped ctx (elim o [
            | none ↦ broken
            | some none ↦
                exit_from k os files ctx 2
                  (complain k os files name (codes ": could not find ") file s)
            | some (some path) ↦ source_path k os files fuel run ctx name path s
          ])
      found-Scoped none = tt
      found-Scoped (some none) =
          exit_from-Scoped ctx 2 (complain k os files name (codes ": could not find ") file s)
      found-Scoped (some (some path)) = source_path-Scoped ctx name path s
