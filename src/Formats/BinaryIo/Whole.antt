-- ===== src/Formats/BinaryIo/Whole.antt =====
-- `ReadNext` on what `WriteNext` has written.
use framer.Base.{
  ℕ, suc, ◌+◌, ◌/◌, ◌%◌, ◌<◌, ◌≡◌, ◌≢◌, refl, ap, ◌∙◌, sym, subst, Bytes, List, [], ◌∷◌, ◌++◌, map,
  concat, some, true, false, ◌==◌, leb, ltb, length, All, append-nil, append_assoc, arith, inl, inr,
  Bool-cases,
}
use framer.Formats.BinaryIo.{
  Reader, Outcome, IoError, read_size, read_body, strip, skip_newlines, read_next, decimal,
  write_next, decimal_digits,
}
use framer.Formats.BinaryIo.Decimal.{IsDigit, decimal-value, one_digit, more_digits}
use framer.Formats.BinaryIo.Streams.{Holds, size_read, size_at_end, body_read}
use framer.Formats.BinaryIo.Newlines.{newlines_skipped}

-- The bytes that calls of `WriteNext` write, where no call of `Write` fails.
abbrev pub written : List Bytes → Bytes
written [] = []
written (p ∷ ps) = concat (write_next true true p).0 ++ written ps

-- `Delivers ps r`: calls of `ReadNext` return the requests `ps`, in order, and then `io.EOF`.
pub Delivers : List Bytes → Reader → Type 0
Delivers [] r = (r' : Reader) × (read_next r ≡ Outcome.failed IoError.eof r')
Delivers (p ∷ ps) r = (r' : Reader) × (read_next r ≡ Outcome.ok p r') × Delivers ps r'

-- A length that an `int` can hold.
abbrev pub Fits : Bytes → Type 0
Fits p = length p < 9_223_372_036_854_775_808

written_one :
    (p : Bytes) (ps : List Bytes)
    → written (p ∷ ps) ≡ decimal (length p) ++ 10 ∷ (p ++ 10 ∷ written ps)
unfolding write_next
written_one p ps =
    let d = decimal (length p) in
    ap (λ t. d ++ 10 ∷ [] ++ t ++ written ps) (append-nil (p ++ 10 ∷ []))
    ∙ append_assoc (d ++ 10 ∷ []) (p ++ 10 ∷ []) (written ps)
    ∙ append_assoc d (10 ∷ []) (p ++ 10 ∷ [] ++ written ps)
    ∙ ap (λ t. d ++ 10 ∷ t) (append_assoc p (10 ∷ []) (written ps))

-- Digits are not skipped.
strip_digits : (ds y : Bytes) → All IsDigit ds → ds ≢ [] → strip (ds ++ y) ≡ ds ++ y
strip_digits [] y d some_digit = absurd (some_digit refl)
strip_digits (x ∷ ds) y d some_digit =
    let (low, high) = d.0 in let e : (x == 10) ≡ false = ground arith in rw e refl

append_some : (xs : Bytes) (y : ℕ) → xs ++ y ∷ [] ≢ []
append_some [] y e = cc
append_some (x ∷ xs) y e = cc

decimal_some : (k n : ℕ) → decimal_digits (suc k) n ≢ []
decimal_some k n = elim (Bool-cases (ltb n 10)) [
  | inl e ↦ rw (one_digit k n e) (λ q. cc)
  | inr e ↦ rw (more_digits k n e) (append_some (decimal_digits k (n / 10)) (48 + n % 10))
]

strip_written : (ps : List Bytes) → All Fits ps → strip (10 ∷ written ps) ≡ written ps
strip_written [] h = refl
strip_written (p ∷ ps) h =
    let n = length p in
    let s = 10 ∷ (p ++ 10 ∷ written ps) in
    let small : n < 18_446_744_073_709_551_616 = omega (arith, h.0) in
    subst (λ x. strip x ≡ x) (sym (written_one p ps))
      (strip_digits (decimal n) s (decimal-value n small).0 (decimal_some n n))

next_ok :
    (r r1 r2 r3 : Reader) (size : ℕ) (p : Bytes)
    → read_size 0 r.unprocessed r.reads ≡ Outcome.ok size r1
    → leb 9_223_372_036_854_775_808 size ≡ false
    → read_body size [] r1.unprocessed r1.reads ≡ Outcome.ok p r2
    → skip_newlines r2.unprocessed r2.reads ≡ Outcome.ok tt r3
    → read_next r ≡ Outcome.ok p r3
unfolding read_next
next_ok r r1 r2 r3 size p sized whole body skipped = rw (sized, whole, body, skipped) refl

one_read :
    (r : Reader) (p : Bytes) (ps : List Bytes)
    → Fits p
    → All Fits ps
    → Holds r (written (p ∷ ps))
    → (r' : Reader) × (read_next r ≡ Outcome.ok p r') × Holds r' (written ps)
one_read r p ps h hs o =
    let n = length p in
    let small : n < 18_446_744_073_709_551_616 = omega (arith, h) in
    let (digits, total) = decimal-value n small in
    let (r1, sized, o1) =
      size_read 0 r.unprocessed o.cuts (decimal n) (p ++ 10 ∷ written ps) digits
        (o.together ∙ written_one p ps) in
    let (r2, body, o2) = body_read [] r1.unprocessed o1.cuts p (10 ∷ written ps) o1.together in
    let (r3, skipped, o3) = newlines_skipped r2.unprocessed o2.cuts in
    (
      r3,
      next_ok r r1 r2 r3 n p
          (ap (read_size 0 r.unprocessed) o.succeed ∙ sized ∙ ap (λ t. Outcome.ok t r1) total)
          (ground arith) (ap (read_body n [] r1.unprocessed) o1.succeed ∙ body)
          (ap (skip_newlines r2.unprocessed) o2.succeed ∙ skipped),
      subst (Holds r3) (ap strip o2.together ∙ strip_written ps hs) o3,
    )

at_end : (r : Reader) → Holds r [] → (r' : Reader) × (read_next r ≡ Outcome.failed IoError.eof r')
unfolding read_next
at_end r o =
    let (r', ran) = size_at_end 0 r.unprocessed o.cuts o.together in
    let whole : read_size 0 r.unprocessed r.reads ≡ Outcome.failed IoError.eof r' =
      ap (read_size 0 r.unprocessed) o.succeed ∙ ran in
    (r', rw whole refl)

all_read : (ps : List Bytes) (r : Reader) → All Fits ps → Holds r (written ps) → Delivers ps r
unfolding Delivers
all_read [] r h o = at_end r o
all_read (p ∷ ps) r h o =
    let (r', ran, o') = one_read r p ps h.0 h.1 o in (r', ran, all_read ps r' h.1 o')

-- Whatever requests are written with `WriteNext`, each of a length that an `int` can hold, and
-- however the bytes are then cut into reads: `ReadNext` returns the same requests, in order, and then
-- `io.EOF`.
pub read_next-written :
    (ps cuts : List Bytes)
    → All Fits ps
    → concat cuts ≡ written ps
    → Delivers ps (record { unprocessed = []; reads = map some cuts })
read_next-written ps cuts h e =
    all_read ps _ h (record { cuts = cuts; succeed = refl; together = e })
