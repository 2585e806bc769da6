-- ===== src/Formats/BinaryIo.antt =====
-- formats/grpc/ozon/binary/io/io.go: requests in a file, each as its length in decimal, a line break,
-- its bytes and a line break. What the calls of `io.Reader.Read` return is the list `reads`: the bytes
-- that are read, or an error; the end of the list is `io.EOF`. Bytes that a call returns with an error or
-- with `io.EOF` are dropped by `fillUnprocessed`, and the list leaves them out. An `int` is its 64 bits,
-- and a negative one is 2^63 or more. `fillUnprocessed` is the case on `reads` in each loop.
pub mod Decimal
pub mod Streams
pub mod Newlines
pub mod Whole
mod Tests
use framer.Base.{
  ℕ, zero, suc, ◌+◌, ◌-◌, ◌*◌, ◌/◌, ◌%◌, ◌^◌, Bytes, List, [], ◌∷◌, ◌++◌, Option, none, some, Bool,
  true, false, ◌&&◌, if◌then◌else◌, ◌==◌, ltb, leb, length, take, drop,
}

-- The errors of `ReadNext`; `panicked` is a slice bound out of range.
pub data IoError : Type 0 where
  eof read_failed panicked : IoError
  unexpected_char : ℕ → IoError

-- `Reader`, with what its `r` will return.
pub record Reader : Type 0 where
  pub unprocessed : Bytes
  pub reads : List (Option Bytes)

-- What a method of the reader returns.
pub data Outcome (A : Type 0) : Type 0 where
  ok : A → Reader → Outcome A
  failed : IoError → Reader → Outcome A

-- How `fillSize` ends: `nil`, `io.ErrUnexpectedEOF`, and the error for another character.
pub data SizeEnd : Type 0 where
  complete unexpected_eof : SizeEnd
  bad_char : ℕ → SizeEnd

abbrev pub i64 : ℕ → ℕ
i64 x = x % 18_446_744_073_709_551_616

abbrev pub is_digit : ℕ → Bool
is_digit b = leb 48 b && leb b 57

-- `fillSize`: the number so far, the bytes consumed, and the end.
unfoldable pub fill_size : ℕ → Bytes → ℕ × ℕ × SizeEnd
fill_size acc [] = (acc, 0, SizeEnd.unexpected_eof)
fill_size acc (b ∷ rest) =
    let (acc', n, e) = fill_size (i64 (acc * 10 + (b - 48))) rest in
    if is_digit b
    then (acc', suc n, e)
    else if b == 10
    then (acc, 1, SizeEnd.complete)
    else (acc, 1, SizeEnd.bad_char b)

-- The first loop of `ReadNext`, once `fillSize` has ended; `more` is what it does at an
-- `io.ErrUnexpectedEOF`.
sized : ℕ × ℕ × SizeEnd → Reader → Outcome ℕ → Outcome ℕ
sized (size, n, SizeEnd.complete) r more = Outcome.ok size r
sized (size, n, SizeEnd.bad_char c) r more = Outcome.failed (IoError.unexpected_char c) r
sized (size, n, SizeEnd.unexpected_eof) r more = more

abbrev after_size : ℕ → Bytes → List (Option Bytes) → Reader
after_size acc u rs = record { unprocessed = drop (fill_size acc u).1 u; reads = rs }

-- The first loop of `ReadNext`, on the size so far, `unprocessed` and `reads`.
unfoldable pub read_size : ℕ → Bytes → List (Option Bytes) → Outcome ℕ
unfolding sized
read_size acc u [] =
    sized (fill_size acc u) (after_size acc u []) (Outcome.failed IoError.eof (after_size acc u []))
read_size acc u (none ∷ rs) =
    sized (fill_size acc u) (after_size acc u (none ∷ rs))
      (Outcome.failed IoError.read_failed (after_size acc u rs))
read_size acc u (some b ∷ rs) =
    sized (fill_size acc u) (after_size acc u (some b ∷ rs)) (read_size (fill_size acc u).0 b rs)

-- The second loop: `need` bytes are still to be copied behind `b`.
unfoldable pub read_body : ℕ → Bytes → Bytes → List (Option Bytes) → Outcome Bytes
read_body need b u [] =
    if leb need (length u)
    then Outcome.ok (b ++ take need u) (record { unprocessed = drop need u; reads = [] })
    else Outcome.failed IoError.eof (record { unprocessed = []; reads = [] })
read_body need b u (none ∷ rs) =
    if leb need (length u)
    then Outcome.ok (b ++ take need u) (record { unprocessed = drop need u; reads = none ∷ rs })
    else Outcome.failed IoError.read_failed (record { unprocessed = []; reads = rs })
read_body need b u (some c ∷ rs) =
    let rest = read_body (need - length u) (b ++ u) c rs in
    if leb need (length u)
    then Outcome.ok (b ++ take need u) (record { unprocessed = drop need u; reads = some c ∷ rs })
    else rest

-- `r.unprocessed` without the line breaks at its start.
abbrev pub strip : Bytes → Bytes
strip [] = []
strip (b ∷ u) = if b == 10 then strip u else b ∷ u

-- The third loop, once the line breaks of the buffer are gone; `more` is what follows where nothing
-- else is in the buffer.
stripped : Bytes → List (Option Bytes) → Outcome (Unit {0}) → Outcome (Unit {0})
stripped [] rs more = more
stripped (b ∷ u) rs more = Outcome.ok tt (record { unprocessed = b ∷ u; reads = rs })

unfoldable pub skip_newlines : Bytes → List (Option Bytes) → Outcome (Unit {0})
unfolding stripped
skip_newlines u [] = stripped (strip u) [] (Outcome.ok tt (record { unprocessed = []; reads = [] }))
skip_newlines u (none ∷ rs) =
    stripped (strip u) (none ∷ rs)
      (Outcome.failed IoError.read_failed (record { unprocessed = []; reads = rs }))
skip_newlines u (some b ∷ rs) = stripped (strip u) (some b ∷ rs) (skip_newlines b rs)

-- The rest of `ReadNext`, where a part of it has returned.
abbrev pub then_with : {A B : Type 0} → Outcome A → (A → Reader → Outcome B) → Outcome B
then_with (Outcome.ok a r) f = f a r
then_with (Outcome.failed e r) f = Outcome.failed e r

-- `ReadNext`; `b[:size]` panics for a negative size.
unfoldable pub read_next : Reader → Outcome Bytes
unfolding read_size read_body skip_newlines
read_next r = then_with (read_size 0 r.unprocessed r.reads) (λ size r1.
    if leb 9_223_372_036_854_775_808 size
    then Outcome.failed IoError.panicked r1
    else then_with (read_body size [] r1.unprocessed r1.reads)
        (λ b r2. then_with (skip_newlines r2.unprocessed r2.reads) (λ _ r3. Outcome.ok b r3)))

-- `strconv.AppendUint(nil, n, 10)`, on fuel.
unfoldable pub decimal_digits : ℕ → ℕ → Bytes
decimal_digits zero n = []
decimal_digits (suc k) n = elim (ltb n 10) [
  | true ↦ (48 + n) ∷ []
  | false ↦ decimal_digits k (n / 10) ++ (48 + n % 10) ∷ []
]

-- Each division makes a number that is not 0 smaller, so that the number itself is enough.
abbrev pub decimal : ℕ → Bytes
decimal n = decimal_digits (suc n) n

-- `WriteNext`, where the answers say whether its two calls of `Write` succeed: the calls that it
-- makes, and whether it succeeds.
unfoldable pub write_next : Bool → Bool → Bytes → List Bytes × Bool
write_next prefix_ok body_ok p =
    if prefix_ok
    then ((decimal (length p) ++ 10 ∷ []) ∷ (p ++ 10 ∷ []) ∷ [], body_ok)
    else ((decimal (length p) ++ 10 ∷ []) ∷ [], false)
