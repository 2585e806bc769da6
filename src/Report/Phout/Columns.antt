-- ===== src/Report/Phout/Columns.antt =====
-- The line of a stream has the twelve columns of the phout format, which its calls determine.
use framer.Base.{
  ℕ, zero, suc, ◌+◌, ◌/◌, ◌%◌, ◌≡◌, refl, sym, ap, ◌∙◌, Bytes, List, [], ◌∷◌, ◌++◌, Option, none,
  some, Bool, true, false, if◌then◌else◌, ◌==◌, ltb, codes, All, All-append, arith, inl, inr,
  Bool-cases,
}
use mathlib.Core.Option as Option
use framer.Datasource.Middleware.{eq_bytes}
use framer.Formats.BinaryIo.{decimal, decimal_digits}
use framer.Formats.BinaryIo.Decimal.{one_digit, more_digits}
use framer.Report.Phout.{StreamState, errno, proto_code}

-- One byte more in the first column.
abbrev pub with_byte : ℕ → List Bytes → List Bytes
with_byte b [] = (b ∷ []) ∷ []
with_byte b (c ∷ cs) = (b ∷ c) ∷ cs

-- A line cut at its tabs. Only what ends in a line break, its only one, is a line.
unfoldable pub columns : Bytes → Option (List Bytes)
columns [] = none
columns (b ∷ l) =
    let rest = columns l in
    if b == 10
    then elim l [ [] ↦ some ([] ∷ []) | c ∷ m ↦ none ]
    else if b == 9
    then Option.map (◌∷◌ []) rest
    else Option.map (with_byte b) rest

-- Without a tab and a line break.
abbrev pub IsInColumn : ℕ → Type 0
IsInColumn b = ((b == 9) ≡ false) × ((b == 10) ≡ false)

abbrev pub IsColumn : Bytes → Type 0
IsColumn = All IsInColumn

one_more :
    (b : ℕ) (c : Bytes) (o : Option (List Bytes))
    → Option.map (with_byte b) (Option.map (◌∷◌ c) o) ≡ Option.map (◌∷◌ (b ∷ c)) o
one_more b c none = refl
one_more b c (some cs) = refl

pub columns-tab : (c l : Bytes) → IsColumn c → columns (c ++ 9 ∷ l) ≡ Option.map (◌∷◌ c) (columns l)
unfolding columns
columns-tab [] l h = refl
columns-tab (b ∷ c) l ((p, q), h) = rw (p, q, columns-tab c l h, columns) (one_more b c (columns l))

pub columns-end : (c : Bytes) → IsColumn c → columns (c ++ 10 ∷ []) ≡ some (c ∷ [])
unfolding columns
columns-end [] h = refl
columns-end (b ∷ c) ((p, q), h) = rw (p, q, columns-end c h, columns) refl

pub decimal_digits-IsColumn : (k n : ℕ) → IsColumn (decimal_digits k n)
unfolding decimal_digits
decimal_digits-IsColumn zero n = tt
decimal_digits-IsColumn (suc k) n = elim (Bool-cases (ltb n 10)) [
  | inl e ↦ rw (one_digit k n e) ((ground arith, ground arith), tt)
  | inr e ↦ rw (more_digits k n e) (
      All-append IsInColumn (decimal_digits k (n / 10)) ((48 + n % 10) ∷ [])
        (decimal_digits-IsColumn k (n / 10)) ((ground arith, ground arith), tt))
]

-- Words that are written out.
abbrev pub is_column : Bytes → Bool
is_column [] = true
is_column (b ∷ c) = if b == 9 then false else if b == 10 then false else is_column c

pub column_of : (c : Bytes) → is_column c ≡ true → IsColumn c
column_of [] e = tt
column_of (b ∷ c) e = elim (Bool-cases (b == 9)) [
  | inl p ↦
      let bad : false ≡ true =
        sym (ap (λ x. if x then false else if b == 10 then false else is_column c) p) ∙ e in
      absurd (cc bad)
  | inr p ↦
      let f : (if b == 10 then false else is_column c) ≡ true =
        sym (ap (λ x. if x then false else if b == 10 then false else is_column c) p) ∙ e in
      elim (Bool-cases (b == 10)) [
        | inl q ↦
            let bad : false ≡ true = sym (ap (λ x. if x then false else is_column c) q) ∙ f in
            absurd (cc bad)
        | inr q ↦ ((p, q), column_of c (sym (ap (λ x. if x then false else is_column c) q) ∙ f))
      ]
]

pub with_number : (c : Bytes) (n : ℕ) → is_column c ≡ true → IsColumn (c ++ decimal n)
with_number c n e =
    All-append IsInColumn c (decimal n) (column_of c e) (decimal_digits-IsColumn (suc n) n)

pub errno-IsColumn : (e : Option (Option ℕ)) → IsColumn (errno e)
errno-IsColumn none = column_of (codes "0") refl
errno-IsColumn (some none) = column_of (codes "999") refl
errno-IsColumn (some (some n)) = decimal_digits-IsColumn (suc n) n

-- The last column, by what the calls said last: a request's error, RST_STREAM, GOAWAY, the timeout, the
-- status of the response and that of gRPC.
abbrev pub code_of : Bool → Option ℕ → Option ℕ → Bool → Bytes → Bytes → Bytes
code_of true _ _ _ _ _ = codes "client_error"
code_of false (some c) _ _ _ _ = codes "rst_" ++ decimal c
code_of false none (some c) _ _ _ = codes "goaway_" ++ decimal c
code_of false none none true _ _ = codes "grpc_4"
code_of false none none false [] _ = codes "http2_1"
code_of false none none false (b ∷ h) [] = codes "http2_1"
code_of false none none false (b ∷ h) (c ∷ g) = codes "grpc_" ++ c ∷ g

pub code_of-IsColumn :
    (rq : Bool) (rst away : Option ℕ) (out : Bool) (h g : Bytes)
    → IsColumn g
    → IsColumn (code_of rq rst away out h g)
code_of-IsColumn true rst away out h g k = column_of (codes "client_error") refl
code_of-IsColumn false (some c) away out h g k = with_number (codes "rst_") c refl
code_of-IsColumn false none (some c) out h g k = with_number (codes "goaway_") c refl
code_of-IsColumn false none none true h g k = column_of (codes "grpc_4") refl
code_of-IsColumn false none none false [] g k = column_of (codes "http2_1") refl
code_of-IsColumn false none none false (b ∷ h) [] k = column_of (codes "http2_1") refl
code_of-IsColumn false none none false (b ∷ h) (c ∷ g) k =
    All-append IsInColumn (codes "grpc_") (c ∷ g) (column_of (codes "grpc_") refl) k

pub proto_code-code_of :
    (s : StreamState)
    → proto_code s
      ≡ code_of s.request_error s.rst_stream_code s.go_away_code s.timeouted s.http2_code_header
          s.grpc_code_header
unfolding proto_code
proto_code-code_of s =
    chain s.request_error s.rst_stream_code s.go_away_code s.timeouted s.http2_code_header
      s.grpc_code_header
  where
    chain :
        (rq : Bool) (rst away : Option ℕ) (out : Bool) (h g : Bytes)
        → (if rq then codes "client_error" else elim rst [
          | some c ↦ codes "rst_" ++ decimal c
          | none ↦ elim away [
            | some c ↦ codes "goaway_" ++ decimal c
            | none ↦
                if out
                then codes "grpc_4"
                else if eq_bytes h []
                then codes "http2_1"
                else if eq_bytes g []
                then codes "http2_1"
                else codes "grpc_" ++ g
          ]
        ])
          ≡ code_of rq rst away out h g
    chain true rst away out h g = refl
    chain false (some c) away out h g = refl
    chain false none (some c) out h g = refl
    chain false none none true h g = refl
    chain false none none false [] g = refl
    chain false none none false (b ∷ h) [] = refl
    chain false none none false (b ∷ h) (c ∷ g) = refl
