-- ===== src/Io/File.antt =====
-- Input from a FILE: io/cstream_file.c. A result of `fgetc` is a byte, an error, or EOF behind the
-- end of the list; the error indicator of the FILE stays set.
pub mod Laws
mod Tests
use epita_42sh.Base.Int.{pos}
use epita_42sh.Base.{
  ℕ, Bool, true, false, not, ◌&&◌, Option, none, some, List, [], ◌∷◌, if◌then◌else◌,
}
use epita_42sh.Io.{Error, no_error, io_error, Read, char, failed, eof}

-- What a call of `fgetc` meets.
pub data Fgetc : Type 0 where
  byte : ℕ → Fgetc
  faulty : Fgetc

pub record File : Type 0 where
  pub bytes : List Fgetc
  pub has_error : Bool
  pub cloexec : Bool

-- `struct cstream_file`.
pub record CstreamFile : Type 0 where
  pub fclose_on_free : Bool
  pub file : File

-- The byte that `fgetc` gives, or none for EOF.
abbrev pub fgetc : File → Option ℕ × File
fgetc f = elim f.bytes [
  | [] ↦ (none, f)
  | byte b ∷ rest ↦ (some b, record f { bytes = rest })
  | faulty ∷ rest ↦ (none, record f { bytes = rest; has_error = true })
]

unfoldable pub cstream_file_read : CstreamFile → Read × CstreamFile
cstream_file_read cs =
    let (res, f) = fgetc cs.file in
    (
      elim res [ none ↦ if f.has_error then failed io_error else char eof | some b ↦ char (pos b) ],
      record cs { file = f },
    )

-- The last argument says whether `fclose` gives EOF.
unfoldable pub cstream_file_free : CstreamFile → Bool → Error
cstream_file_free cs fclose_fails = if cs.fclose_on_free && fclose_fails then io_error else no_error

unfoldable pub cstream_file_create : Option File → Bool → Option CstreamFile
cstream_file_create none fclose_on_free = none
cstream_file_create (some f) fclose_on_free = some (record {
  fclose_on_free = fclose_on_free;
  file = if fclose_on_free then record f { cloexec = true } else f;
})
