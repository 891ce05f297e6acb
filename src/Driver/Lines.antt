-- ===== src/Driver/Lines.antt =====
-- A call of `parser` of parser.c, by what `rl_input` gives.
use epita_42sh.Ast.{Tree, t_lf, t_eof}
use epita_42sh.Base.Int.{pos}
use epita_42sh.Base.Text.{Str}
use epita_42sh.Base.{ℕ, ◌≡◌, ◌⊎◌, Bool, true, false}
use epita_42sh.Builtins.Cd.{Os}
use epita_42sh.Command.{Kernel}
use epita_42sh.Context.{Context}
use epita_42sh.Driver.{ParserArgs, Called, called, fuel_out, crashed, execute}
use epita_42sh.Exec.Words.{Shell}
use epita_42sh.Exec.{Result}
use epita_42sh.Io.{Error, Cstream, parser_error}
use epita_42sh.Parser.Accepted.{Accepted}
use epita_42sh.Parser.{Parsed, returned, endless, misread, yes_, no_, wrong}

-- Outside of interactive mode the call ends the loop over the lines.
abbrev pub Ends : Bool → Error → Type 0
Ends true err = Unit
Ends false err = err ≡ parser_error

module _ {ℓ} {W : Type ℓ} (k : Kernel W) (os : Os W) (fuel : ℕ)
    (run : Context → Tree → Shell W → Result (Shell W)) (args : ParserArgs) (buffer : ℕ)
    (s : Shell W) where
  -- Nothing is executed: a message is written, the status is 2, and the table and the rest stay.
  abbrev pub Refused : Called (Shell W) → Type ℓ
  Refused c =
      (err : Error) × (cs : Cstream) × (text : Str) × (c
        ≡ called err cs (record s { exit_status = pos 2; world = k.write 2 text s.world }))
      × Ends args.interactive err

  abbrev pub Line : Parsed → Called (Shell W) → Type ℓ
  Line (returned r yes_) c =
      (Accepted t_lf r ⊎ Accepted t_eof r) × (c ≡ execute k os fuel run args buffer r s)
  Line (returned r no_) c = Refused c
  Line (returned r (wrong e)) c = Refused c
  Line endless c = c ≡ fuel_out
  Line misread c = c ≡ crashed
