-- ===== src/Io/File/Tests.antt =====
-- A file of two bytes between which a read fails.
use epita_42sh.Base.Int.{pos}
use epita_42sh.Base.{◌≡◌, true, false, List, [], ◌∷◌}
use epita_42sh.Io.{char, failed, io_error}
use epita_42sh.Io.File.Laws.{file_of, file_reads, cstream_file_read-results}
use epita_42sh.Io.File.{Fgetc, byte, faulty, cstream_file_read}

abbrev answers : List Fgetc
answers = byte 255 ∷ faulty ∷ byte 10 ∷ []

cstream_file_read-results_example :
    let (rs, cs) = file_reads 3 (file_of answers false false true) in
    (rs ≡ char (pos 255) ∷ failed io_error ∷ char (pos 10) ∷ [])
    × (cs.file.bytes ≡ [])
    × ((cstream_file_read cs).0 ≡ failed io_error)
cstream_file_read-results_example = cstream_file_read-results answers false false true
