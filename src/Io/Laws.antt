-- ===== src/Io/Laws.antt =====
-- Peeking at a stream and popping from it, as io/cstream.h documents them.
use epita_42sh.Base.Int.{ℤ}
use epita_42sh.Base.{
  ℕ, zero, suc, ◌≡◌, refl, Bool, true, false, List, [], ◌∷◌, if◌then◌else◌, get_or,
}
use epita_42sh.Io.{Cstream, Read, char, failed, eof, cstream_peek, cstream_pop}

-- The results that are ahead in a stream, the character in the buffer first, and EOF for ever
-- behind them.
abbrev pub ahead : Cstream → ℕ → Read
ahead cs n = get_or (if cs.has_buffer then char cs.buffer ∷ cs.input else cs.input) n (char eof)

-- A call that gives the first result ahead, and takes it from the stream.
abbrev pub Takes : Cstream → Read → Cstream → Type 0
Takes cs r cs' = (r ≡ ahead cs 0) × ((n : ℕ) → ahead cs' n ≡ ahead cs (suc n))

-- A call that gives the first result ahead: a character stays where it is, so that the next peek
-- and the next pop give it too, and an error is taken from the stream.
abbrev pub Shows : Cstream → Read → Cstream → Type 0
Shows cs (char c) cs' =
    (char c ≡ ahead cs 0)
    × ((n : ℕ) → ahead cs' n ≡ ahead cs n)
    × (cstream_peek cs' ≡ (cs', char c))
    × ((cstream_pop cs').1 ≡ char c)
Shows cs (failed e) cs' = Takes cs (failed e) cs'

-- The stream by its fields, for the cases on the buffer and what is behind it.
abbrev stream_of : List Read → Bool → ℤ → Bool → Cstream
stream_of input has_buffer buffer line_start = record {
  input = input;
  has_buffer = has_buffer;
  buffer = buffer;
  line_start = line_start;
}

pop-Takes :
    (input : List Read) (has_buffer : Bool) (buffer : ℤ) (line_start : Bool)
    → let cs = stream_of input has_buffer buffer line_start in
      Takes cs (cstream_pop cs).1 (cstream_pop cs).0
unfolding cstream_pop
pop-Takes input true buffer line_start = (refl, λ n. refl)
pop-Takes [] false buffer line_start = (refl, λ n. refl)
pop-Takes (r ∷ rest) false buffer line_start = (refl, λ n. refl)

-- EOF ahead for ever is also EOF in the buffer and EOF behind it.
only_eof : (n : ℕ) → get_or (char eof ∷ []) n (char eof) ≡ char eof
only_eof zero = refl
only_eof (suc n) = refl

peek-Shows :
    (input : List Read) (has_buffer : Bool) (buffer : ℤ) (line_start : Bool)
    → let cs = stream_of input has_buffer buffer line_start in
      Shows cs (cstream_peek cs).1 (cstream_peek cs).0
unfolding cstream_peek cstream_pop
peek-Shows input true buffer line_start = (refl, λ n. refl, refl, refl)
peek-Shows [] false buffer line_start = (refl, only_eof, refl, refl)
peek-Shows (char c ∷ rest) false buffer line_start = (refl, λ n. refl, refl, refl)
peek-Shows (failed e ∷ rest) false buffer line_start = (refl, λ n. refl)

-- Any stream: a pop gives the first result ahead and takes it, be it a character, EOF or an error,
-- so that what was behind it is ahead; a peek gives the same result, and takes it only if it is an
-- error. Behind a peek that gives a character, another peek gives it again and changes nothing, and
-- a pop gives it.
pub cstream_pop-peek :
    (cs : Cstream)
    → Takes cs (cstream_pop cs).1 (cstream_pop cs).0
      × Shows cs (cstream_peek cs).1 (cstream_peek cs).0
cstream_pop-peek cs = (
  pop-Takes cs.input cs.has_buffer cs.buffer cs.line_start,
  peek-Shows cs.input cs.has_buffer cs.buffer cs.line_start,
)
