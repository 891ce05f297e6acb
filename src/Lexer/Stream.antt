-- ===== src/Lexer/Stream.antt =====
-- What the lexer reads and leaves of its stream: io/cstream.c as lexer.c uses it.
use epita_42sh.Base.Int.{ℤ, pos, negsuc}
use epita_42sh.Base.{
  ℕ, ◌+◌, ◌≡◌, ◌≤◌, ◌<◌, refl, Bool, true, false, List, [], ◌∷◌, if◌then◌else◌, ltb, ◌==◌, length,
  All, arith,
}
use epita_42sh.Io.{Read, char, failed, Cstream, cstream_read, cstream_peek, cstream_pop}

-- A result of a read that the automaton has a column for, or that is no character.
abbrev pub in_table : ℤ → Bool
in_table (pos c) = ltb c 256
in_table (negsuc n) = n == 0

abbrev pub is_readable : Read → Bool
is_readable (char z) = in_table z
is_readable (failed e) = true

-- What is read from the stream are bytes, EOF and errors.
pub record IsReadable (cs : Cstream) : Type 0 where
  pub input : All (λ r. is_readable r ≡ true) cs.input
  pub buffer : (if cs.has_buffer then in_table cs.buffer else true) ≡ true

-- The number of reads that may still bring a character.
abbrev pub weight : ℤ → ℕ
weight (pos c) = 1
weight (negsuc n) = 0

abbrev pub ahead : Cstream → ℕ
ahead cs = length cs.input + (if cs.has_buffer then weight cs.buffer else 0)

-- What a peek leaves, by what it shows.
abbrev pub Shown : Cstream → Read → Type 0
Shown cs (failed e) = Unit
Shown cs (char z) = (cs.has_buffer ≡ true) × (cs.buffer ≡ z)

pub record Peeked (cs : Cstream) (r : Cstream × Read) : Type 0 where
  pub readable : IsReadable r.0
  pub ahead_le : ahead r.0 ≤ ahead cs
  pub shown : Shown r.0 r.1
  pub in_table_ : is_readable r.1 ≡ true

weight_le : (z : ℤ) → weight z ≤ 1
weight_le (pos c) = omega arith
weight_le (negsuc n) = omega arith

abbrev stream : List Read → Bool → ℤ → Bool → Cstream
stream input b z l = record { input = input; has_buffer = b; buffer = z; line_start = l }

peek_fields :
    (input : List Read) (b : Bool) (z : ℤ) (l : Bool)
    → let cs = stream input b z l in IsReadable cs → Peeked cs (cstream_peek cs)
unfolding cstream_peek cstream_read
peek_fields input true z l ok = record {
  readable = ok;
  ahead_le = omega arith;
  shown = (refl, refl);
  in_table_ = ok.buffer;
}
peek_fields [] false z l ok = record {
  readable = record { input = tt; buffer = refl };
  ahead_le = omega arith;
  shown = (refl, refl);
  in_table_ = refl;
}
peek_fields (char c ∷ rest) false z l ok = record {
  readable = record { input = ok.input.1; buffer = ok.input.0 };
  ahead_le = omega (arith, weight_le c);
  shown = (refl, refl);
  in_table_ = ok.input.0;
}
peek_fields (failed e ∷ rest) false z l ok = record {
  readable = record { input = ok.input.1; buffer = refl };
  ahead_le = omega arith;
  shown = tt;
  in_table_ = refl;
}

pub cstream_peek-Peeked : (cs : Cstream) → IsReadable cs → Peeked cs (cstream_peek cs)
cstream_peek-Peeked cs ok = peek_fields cs.input cs.has_buffer cs.buffer cs.line_start ok

-- A pop takes the buffered character.
pub pop_fields :
    (input : List Read) (b l : Bool) (z : ℤ) (c : ℕ)
    → let cs = stream input b z l in
      IsReadable cs
      → b ≡ true
      → z ≡ pos c
      → IsReadable (cstream_pop cs).0 × (ahead (cstream_pop cs).0 < ahead cs)
unfolding cstream_pop
pop_fields input true l z c ok e e' =
    (record { input = ok.input; buffer = refl }, rw e' (omega arith))
pop_fields input false l z c ok e e' = cc

-- A pop in any case.
pop_any_fields :
    (input : List Read) (b : Bool) (z : ℤ) (l : Bool)
    → let cs = stream input b z l in
      IsReadable cs → IsReadable (cstream_pop cs).0 × (ahead (cstream_pop cs).0 ≤ ahead cs)
unfolding cstream_pop cstream_read
pop_any_fields input true z l ok = (record { input = ok.input; buffer = refl }, omega arith)
pop_any_fields [] false z l ok = (record { input = tt; buffer = refl }, omega arith)
pop_any_fields (r ∷ rest) false z l ok = (record { input = ok.input.1; buffer = refl }, omega arith)

pub pop_any :
    (cs : Cstream)
    → IsReadable cs
    → IsReadable (cstream_pop cs).0 × (ahead (cstream_pop cs).0 ≤ ahead cs)
pop_any cs ok = pop_any_fields cs.input cs.has_buffer cs.buffer cs.line_start ok
