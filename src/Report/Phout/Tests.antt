-- ===== src/Report/Phout/Tests.antt =====
-- A stream that is reset, and then one that is answered, in the state of the first.
use framer.Base.{◌≡◌, refl, Bytes, List, [], ◌∷◌, ◌++◌, some, map, codes}
use framer.Formats.BinaryIo.{decimal_digits}
use framer.Utils.SlicePool as SlicePool
use framer.Report.Phout.{Call, Reporter, on_calls, acquire, end_stream, run}
use framer.Report.Phout.Fields.{last}
use framer.Report.Phout.Columns.{columns}
use framer.Report.Phout.Rows.{Life, columns_of, joined_all}
use framer.Report.Phout.Lines.{lives, live, lives-columns_of}

abbrev reset_stream : Life
reset_stream = record {
  tag = codes "a";
  start_time = 7_005_000_000;
  end_time = 7_006_000_000;
  calls = Call.set_size 12 ∷ Call.rst_stream 8 ∷ [];
}

abbrev answered_stream : Life
answered_stream = record {
  tag = codes "b";
  start_time = 8_000_000_000;
  end_time = 8_000_002_000;
  calls =
      Call.on_header (codes ":status") (codes "200")
      ∷ Call.on_header (codes "grpc-status") (codes "0")
      ∷ [];
}

abbrev fresh_reporter : Reporter
fresh_reporter = record { pool = []; ch = []; written = [] }

lives-columns_of_example :
    (ws : List Bytes) × ((lives (reset_stream ∷ answered_stream ∷ []) fresh_reporter).written
      ≡ [] ++ ws)
    × (ws ≡ map (λ l. joined_all (columns_of l)) (reset_stream ∷ answered_stream ∷ []))
    × (map columns ws ≡ map (λ l. some (columns_of l)) (reset_stream ∷ answered_stream ∷ []))
unfolding last
lives-columns_of_example =
    lives-columns_of (reset_stream ∷ answered_stream ∷ []) fresh_reporter refl
      ((((refl, refl), tt), tt), ((((refl, refl), tt), ((refl, refl), tt)), tt))

-- The five milliseconds of the start stand behind the point without zeros.
reset_written :
    (live reset_stream fresh_reporter).written
    ≡ (codes "7.5"
        ++ 9 ∷ codes "a"
        ++ 9 ∷ codes "1000"
        ++ 9 ∷ codes "0"
        ++ 9 ∷ codes "0"
        ++ 9 ∷ codes "0"
        ++ 9 ∷ codes "0"
        ++ 9 ∷ codes "0"
        ++ 9 ∷ codes "12"
        ++ 9 ∷ codes "0"
        ++ 9 ∷ codes "0"
        ++ 9 ∷ codes "rst_8"
        ++ 10 ∷ [])
      ∷ []
unfolding live acquire on_calls end_stream run decimal_digits SlicePool.acquire
reset_written = refl
