-- ===== src/Io/Tests.antt =====
-- The streams at a concrete input.
use epita_42sh.Base.Text.{codes}
use epita_42sh.Io.Laws.{Takes, Shows, cstream_pop-peek}
use epita_42sh.Io.{Cstream, cstream_string_create, cstream_peek, cstream_pop}

abbrev stream : Cstream
stream = cstream_string_create (codes "ls")

-- A stream that has been peeked at.
abbrev peeked : Cstream
peeked = (cstream_peek stream).0

cstream_pop-peek_example :
    Takes peeked (cstream_pop peeked).1 (cstream_pop peeked).0
    × Shows peeked (cstream_peek peeked).1 (cstream_peek peeked).0
cstream_pop-peek_example = cstream_pop-peek peeked
