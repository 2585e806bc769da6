-- ===== src/Reciever/Processors/Tests.antt =====
-- The frame processors on short frames, over the plain map of streams.
use framer.Base.{ℕ, ◌+◌, ◌≡◌, refl, Bytes, List, [], ◌∷◌, ◌++◌, some, arith}
use framer.FrameHeader.{stream_id_field}
use framer.Streams.Store.Map.{streams_map}
use framer.Reciever.Loop.{Error, err, ok}
use framer.Reciever.World.{World, Effect, emit, send_frame}
use framer.Reciever.Processors.{new_go_away, new_ping, new_data, ping_ack_header, process_go_away}
use framer.Reciever.Processors.BigEndian.{big_endian, run_pieces}
use framer.Reciever.Processors.Farewell.{go_away-pieces}
use framer.Reciever.Processors.Echo.{Ready, ping_pieces, ping-pieces}
use framer.Reciever.Processors.Windows.{
  Counting, announced, sum, count_all, windows_conserved, new_data-Counting,
}
use framer.Reciever.Processors.Ends.{on_rst_stream, Without, taken, rst_stream-pieces}

-- Stream 3 is open.
abbrev one_stream : World (streams_map ℕ)
one_stream = record { store = (3, 30) ∷ []; trace = [] }

abbrev short_pieces : List Bytes
short_pieces = (0 ∷ 0 ∷ []) ∷ (0 ∷ 7 ∷ 0 ∷ []) ∷ []

go_away-pieces_example :
    run_pieces process_go_away new_go_away short_pieces (0 ∷ 0 ∷ 2 ∷ 104 ∷ 105 ∷ [])
    ≡ err (Error.go_away 2 7 (104 ∷ 105 ∷ [])) new_go_away
go_away-pieces_example =
    go_away-pieces short_pieces (0 ∷ 0 ∷ 2 ∷ 104 ∷ 105 ∷ []) 0 0 0 7 0 0 0 2 (104 ∷ 105 ∷ [])
      (omega arith) (omega arith) refl

ping-pieces_example :
    Ready (ping_pieces (streams_map ℕ) new_ping one_stream ((1 ∷ []) ∷ []) (2 ∷ 3 ∷ [])).0
    × ((ping_pieces (streams_map ℕ) new_ping one_stream ((1 ∷ []) ∷ []) (2 ∷ 3 ∷ [])).1
        ≡ emit (streams_map ℕ) (send_frame (ping_ack_header ++ 1 ∷ 2 ∷ 3 ∷ [])) one_stream)
ping-pieces_example =
    ping-pieces (streams_map ℕ) new_ping one_stream ((1 ∷ []) ∷ []) (2 ∷ 3 ∷ [])
      (record { current = refl; next = refl })

abbrev two_frames : List ℕ
two_frames = 16000 ∷ 1000 ∷ []

windows_conserved_example :
    Counting (count_all (streams_map ℕ) new_data one_stream two_frames).0
    × (announced (count_all (streams_map ℕ) new_data one_stream two_frames).1.trace
          + (count_all (streams_map ℕ) new_data one_stream two_frames).0.window_update_acc
        ≡ announced (one_stream.trace) + 0 + sum two_frames)
windows_conserved_example =
    windows_conserved (streams_map ℕ) new_data one_stream two_frames (omega arith) new_data-Counting

abbrev rst_header : Bytes
rst_header = 0 ∷ 0 ∷ 4 ∷ 3 ∷ 0 ∷ 0 ∷ 0 ∷ 0 ∷ 3 ∷ []

rst_header-names : stream_id_field rst_header ≡ some 3
unfolding stream_id_field
rst_header-names = refl

rst_stream-pieces_example :
    (t : List (ℕ × ℕ)) × (run_pieces
        (on_rst_stream (streams_map ℕ) rst_header)
        (5, one_stream)
        ((0 ∷ []) ∷ [])
        (0 ∷ 0 ∷ 8 ∷ [])
      ≡ ok (
        big_endian 0 0 0 8,
        record {
          store = t;
          trace =
              []
              ++ (Effect.limiter_release
                  ∷ taken
                      (λ v. Effect.rst_stream v 8 ∷ Effect.end_stream v ∷ [])
                      ((streams_map ℕ).view ((3, 30) ∷ []) 3));
        },
      ))
    × Without (streams_map ℕ) one_stream 3 t
rst_stream-pieces_example =
    rst_stream-pieces (streams_map ℕ) rst_header 5 one_stream ((0 ∷ []) ∷ []) (0 ∷ 0 ∷ 8 ∷ []) 3 0 0
      0 8 rst_header-names tt tt (omega arith) refl
