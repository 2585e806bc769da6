-- ===== src/Report/Phout/Rows.antt =====
-- The line that the report writes of a stream: its columns, which its calls determine, put together.
use framer.Base.{
  ℕ, suc, ◌-◌, ◌/◌, ◌%◌, ◌≡◌, refl, ap, ◌∙◌, Bytes, List, [], ◌∷◌, ◌++◌, Option, none, some, false,
  codes, All, All-append,
}
use mathlib.Core.Option as Option
use framer.Formats.BinaryIo.{decimal}
use framer.Report.Phout.{Call, errno}
use framer.Report.Phout.Fields.{
  last, says_request_error, says_timeout, says_size, says_rst, says_go_away, says_io, says_header,
}
use framer.Report.Phout.Columns.{
  columns, IsInColumn, IsColumn, columns-tab, columns-end, decimal_digits-IsColumn, column_of,
  errno-IsColumn, code_of, code_of-IsColumn,
}

-- A stream's tag, the times of its start and of its end, and the calls between.
pub record Life : Type 0 where
  pub tag : Bytes
  pub start_time : ℕ
  pub end_time : ℕ
  pub calls : List Call

-- The seconds and the milliseconds of the start.
abbrev pub started : ℕ → Bytes
started t = decimal (t / 1_000_000_000) ++ codes "." ++ decimal (t % 1_000_000_000 / 1_000_000)

-- The value of the last header of a name.
abbrev pub header_of : Bytes → List Call → Bytes
header_of name cs = last (says_header name) [] cs

-- The twelve columns of the format, the first by itself.
unfoldable pub row : Bytes → ℕ → ℕ → Option (Option ℕ) → Bytes → List Bytes
row tag elapsed size io code =
    tag
    ∷ decimal (elapsed / 1_000)
    ∷ codes "0"
    ∷ codes "0"
    ∷ codes "0"
    ∷ codes "0"
    ∷ codes "0"
    ∷ decimal size
    ∷ codes "0"
    ∷ errno io
    ∷ code
    ∷ []

unfoldable pub columns_of : Life → List Bytes
unfolding row
columns_of l =
    started l.start_time
    ∷ row l.tag (l.end_time - l.start_time) (last says_size 0 l.calls) (last says_io none l.calls) (
        code_of (last says_request_error false l.calls) (last says_rst none l.calls)
          (last says_go_away none l.calls) (last says_timeout false l.calls)
          (header_of (codes ":status") l.calls) (header_of (codes "grpc-status") l.calls))

-- Its tag and the status of gRPC have no tab and no line break.
abbrev pub IsClean : Life → Type 0
IsClean l = IsColumn l.tag × IsColumn (header_of (codes "grpc-status") l.calls)

abbrev number : (n : ℕ) → IsColumn (decimal n)
number n = decimal_digits-IsColumn (suc n) n

-- Columns put together to a line, with tabs between and a line break at the end.
abbrev pub joined : Bytes → List Bytes → Bytes
joined c [] = c ++ 10 ∷ []
joined c (d ∷ cs) = c ++ 9 ∷ joined d cs

abbrev pub joined_all : List Bytes → Bytes
joined_all [] = []
joined_all (c ∷ cs) = joined c cs

-- The line of a stream.
unfoldable pub line_of : Life → Bytes
line_of l = joined_all (columns_of l)

columns-joined :
    (c : Bytes) (cs : List Bytes) → All IsColumn (c ∷ cs) → columns (joined c cs) ≡ some (c ∷ cs)
columns-joined c [] h = columns-end c h.0
columns-joined c (d ∷ cs) h =
    columns-tab c (joined d cs) h.0 ∙ ap (Option.map (◌∷◌ c)) (columns-joined d cs h.1)

row-IsColumn :
    (tag : Bytes) (elapsed size : ℕ) (io : Option (Option ℕ)) (code : Bytes)
    → IsColumn tag
    → IsColumn code
    → All IsColumn (row tag elapsed size io code)
unfolding row
row-IsColumn tag elapsed size io code t c =
    let z : IsColumn (codes "0") = column_of (codes "0") refl in
    (
      t,
      (
        number (elapsed / 1_000),
        (z, (z, (z, (z, (z, (number size, (z, (errno-IsColumn io, (c, tt))))))))),
      ),
    )

started-IsColumn : (t : ℕ) → IsColumn (started t)
started-IsColumn t =
    All-append IsInColumn (decimal (t / 1_000_000_000) ++ codes ".")
      (decimal (t % 1_000_000_000 / 1_000_000))
      (All-append IsInColumn (decimal (t / 1_000_000_000)) (codes ".") (number (t / 1_000_000_000))
        (column_of (codes ".") refl))
      (number (t % 1_000_000_000 / 1_000_000))

pub line_of-columns : (l : Life) → IsClean l → columns (line_of l) ≡ some (columns_of l)
unfolding line_of columns_of
line_of-columns l (t, g) = columns-joined (started l.start_time) _ (
  started-IsColumn l.start_time,
  row-IsColumn l.tag _ _ _ _ t (
      code_of-IsColumn (last says_request_error false l.calls) (last says_rst none l.calls)
        (last says_go_away none l.calls) (last says_timeout false l.calls)
        (header_of (codes ":status") l.calls) (header_of (codes "grpc-status") l.calls) g),
)
