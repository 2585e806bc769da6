-- ===== src/Formats/BinaryIo/Tests.antt =====
-- Two requests, of which the second is empty, cut in the middle of a size and of a body.
use framer.Base.{◌≡◌, refl, Bytes, List, [], ◌∷◌, map, concat, some, codes, All, arith}
use framer.Formats.BinaryIo.{
  Outcome, IoError, read_next, read_size, fill_size, sized, decimal_digits, write_next,
}
use framer.Formats.BinaryIo.Whole.{Delivers, Fits, written, read_next-written}

abbrev requests : List Bytes
requests = codes "0123456789a" ∷ [] ∷ []

abbrev cuts : List Bytes
cuts = codes "1" ∷ [] ∷ codes "1\n0123" ∷ codes "456789a" ∷ codes "\n0\n\n" ∷ []

abbrev fits : All Fits requests
fits = (omega arith, (omega arith, tt))

together : concat cuts ≡ written requests
unfolding write_next decimal_digits
together = refl

read_next-written_example : Delivers requests (record { unprocessed = []; reads = map some cuts })
read_next-written_example = read_next-written requests cuts fits together

-- A character that is no digit, and a size that does not fit in an `int`.
bad_size :
    read_next (record { unprocessed = codes "1x2"; reads = [] })
    ≡ Outcome.failed (IoError.unexpected_char 120) (record { unprocessed = codes "2"; reads = [] })
unfolding read_next read_size fill_size sized
bad_size = refl

negative_size :
    read_next (record { unprocessed = codes "9223372036854775808\n"; reads = [] })
    ≡ Outcome.failed IoError.panicked (record { unprocessed = []; reads = [] })
unfolding read_next read_size fill_size sized
negative_size = refl
