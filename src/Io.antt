-- ===== src/Io.antt =====
-- The character streams of io/: io/cstream.h, io/cstream.c and io/cstream_string.c.
-- What `type->read` will return is the list `input` of read results, with EOF behind its end.
mod Tests
pub mod Laws
pub mod Terminal
pub mod File
use epita_42sh.Base.Int.{ℤ, pos, negsuc}
use epita_42sh.Base.Text.{Str}
use epita_42sh.Base.{
  ℕ, zero, suc, ◌+◌, ◌-◌, Bool, true, false, Option, none, some, List, [], ◌∷◌, if◌then◌else◌, ltb,
  length,
}

-- utils/error.h
pub data Error : Type 0 where
  no_error io_error lexer_error parser_error execution_error unknown_error : Error
  keyboard_interrupt break_interrupt continue_interrupt exit_interrupt reached_eof : Error

-- What a read gives: a character or EOF, or the error that it returns, which is not NO_ERROR.
pub data Read : Type 0 where
  char : ℤ → Read
  failed : Error → Read

-- `struct cstream` with the results still to come from its type's `read`.
pub record Cstream : Type 0 where
  pub input : List Read
  pub has_buffer : Bool
  pub buffer : ℤ
  pub line_start : Bool

abbrev pub eof : ℤ
eof = negsuc 0

unfoldable pub cstream_read : Cstream → Cstream × Read
cstream_read cs = elim cs.input [ [] ↦ (cs, char eof) | r ∷ rest ↦ (record cs { input = rest }, r) ]

unfoldable pub cstream_peek : Cstream → Cstream × Read
unfolding cstream_read
cstream_peek cs =
    let (cs', r) = cstream_read cs in
    if cs.has_buffer then (cs, char cs.buffer) else elim r [
      | failed e ↦ (cs', failed e)
      | char c ↦ (record cs' { buffer = c; has_buffer = true }, char c)
    ]

unfoldable pub cstream_pop : Cstream → Cstream × Read
unfolding cstream_read
cstream_pop cs =
    if cs.has_buffer then (record cs { has_buffer = false }, char cs.buffer) else cstream_read cs

-- `*c = *cstream->str` in cstream_string.c: `char` is signed, so a byte from 128 on is negative.
unfoldable pub signed_char : ℕ → ℤ
signed_char b = if ltb b 128 then pos b else negsuc (255 - b)

unfoldable pub string_input : Str → List Read
unfolding signed_char
string_input [] = []
string_input (b ∷ s) = char (signed_char b) ∷ string_input s

unfoldable pub cstream_string_create : Str → Cstream
unfolding string_input
cstream_string_create s = record {
  input = string_input s;
  has_buffer = false;
  buffer = pos 0;
  line_start = false;
}

-- What the lexer has still to read; EOF is not counted.
abbrev to_come : Cstream → ℕ
to_come cs = length cs.input + (if cs.has_buffer then 1 else 0)
