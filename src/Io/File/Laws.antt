-- ===== src/Io/File/Laws.antt =====
-- What reading from a FILE gives, to its end and behind an error.
use epita_42sh.Base.Int.{pos}
use epita_42sh.Base.{
  ℕ, ◌≡◌, refl, ap, Bool, true, false, ◌||◌, if◌then◌else◌, List, [], ◌∷◌, length, zero, suc,
}
use epita_42sh.Io.{Read, char, failed, eof, io_error}
use epita_42sh.Io.File.{CstreamFile, Fgetc, byte, faulty, cstream_file_read}

abbrev pub results : List Fgetc → List Read
results [] = []
results (byte b ∷ rest) = char (pos b) ∷ results rest
results (faulty ∷ rest) = failed io_error ∷ results rest

abbrev pub any_faulty : List Fgetc → Bool
any_faulty [] = false
any_faulty (byte b ∷ rest) = any_faulty rest
any_faulty (faulty ∷ rest) = true

-- What a read behind the end gives.
abbrev pub ending : Bool → Read
ending had_error = if had_error then failed io_error else char eof

-- The results of a number of reads.
abbrev pub file_reads : ℕ → CstreamFile → List Read × CstreamFile
file_reads zero cs = ([], cs)
file_reads (suc n) cs =
    let (r, cs') = cstream_file_read cs in let (rs, cs'') = file_reads n cs' in (r ∷ rs, cs'')

-- A FILE with these answers to come, and its error indicator.
abbrev pub file_of : List Fgetc → Bool → Bool → Bool → CstreamFile
file_of answers has_error cloexec closes = record {
  fclose_on_free = closes;
  file = record { bytes = answers; has_error = has_error; cloexec = cloexec };
}

-- A stream over a FILE: as many reads as the file has answers of `fgetc` give its bytes as unsigned
-- characters and IO_ERROR for each error, and then no answers are left; the next read gives EOF if
-- neither the file before nor one of these answers had an error, and IO_ERROR if one had.
pub cstream_file_read-results :
    (answers : List Fgetc) (has_error cloexec closes : Bool)
    → let (rs, cs) = file_reads (length answers) (file_of answers has_error cloexec closes) in
      (rs ≡ results answers)
      × (cs.file.bytes ≡ [])
      × ((cstream_file_read cs).0 ≡ ending (has_error || any_faulty answers))
unfolding cstream_file_read
cstream_file_read-results [] true cloexec closes = (refl, refl, refl)
cstream_file_read-results [] false cloexec closes = (refl, refl, refl)
cstream_file_read-results (byte b ∷ answers) has_error cloexec closes =
    let (rs, left, last) = cstream_file_read-results answers has_error cloexec closes in
    (ap (λ xs. char (pos b) ∷ xs) rs, left, last)
cstream_file_read-results (faulty ∷ answers) true cloexec closes =
    let (rs, left, last) = cstream_file_read-results answers true cloexec closes in
    (ap (λ xs. failed io_error ∷ xs) rs, left, last)
cstream_file_read-results (faulty ∷ answers) false cloexec closes =
    let (rs, left, last) = cstream_file_read-results answers true cloexec closes in
    (ap (λ xs. failed io_error ∷ xs) rs, left, last)
