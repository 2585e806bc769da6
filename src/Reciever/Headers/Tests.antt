-- ===== src/Reciever/Headers/Tests.antt =====
-- A HEADERS frame that ends its stream, and its continuation, under a decoder that gives each block
-- as one field.
use framer.Base.{
  ℕ, ◌≡◌, refl, Bytes, List, [], ◌∷◌, ◌++◌, some, Bool, false, if◌then◌else◌, ◌==◌, none, bit_and,
}
use framer.FrameHeader.{flags_field, stream_id_field}
use framer.Streams.Store.Map.{streams_map}
use framer.Reciever.Loop.{ok}
use framer.Reciever.World.{World, end_stream, limiter_release}
use framer.Reciever.Headers.{Hpack, HeadersFrameProcessor, new_headers, process_headers}
use framer.Reciever.Headers.Fields.{header_calls, world_after, headers-open, headers-ended}

abbrev pub whole_blocks : Hpack
whole_blocks = record {
  Decoder = Unit {0};
  new_decoder = tt;
  write = λ d emit payload. (d, if emit then (payload, payload) ∷ [] else [], false);
  write_silent = λ d payload. refl;
}

-- `http2.Flags.Has`
abbrev pub has : ℕ → ℕ → Bool
has f v = bit_and f v == v

abbrev open_three : World (streams_map ℕ)
open_three = record { store = (3, 30) ∷ []; trace = [] }

abbrev trailers : Bytes
trailers = 0 ∷ 0 ∷ 1 ∷ 1 ∷ 1 ∷ 0 ∷ 0 ∷ 0 ∷ 3 ∷ []

abbrev continuation : Bytes
continuation = 0 ∷ 0 ∷ 1 ∷ 9 ∷ 4 ∷ 0 ∷ 0 ∷ 0 ∷ 3 ∷ []

trailers_id : stream_id_field trailers ≡ some 3
unfolding stream_id_field
trailers_id = refl

trailers_flags : flags_field trailers ≡ some 1
unfolding flags_field
trailers_flags = refl

continuation_id : stream_id_field continuation ≡ some 3
unfolding stream_id_field
continuation_id = refl

continuation_flags : flags_field continuation ≡ some 4
unfolding flags_field
continuation_flags = refl

three_found : (streams_map ℕ).view (open_three.store) 3 ≡ some 30
three_found = unfold framer.Streams.Store.get in refl

headers-open_example :
    (q : HeadersFrameProcessor (streams_map ℕ) whole_blocks) × (t : List (ℕ × ℕ)) × (process_headers
        (streams_map ℕ)
        whole_blocks
        has
        (new_headers (streams_map ℕ) whole_blocks)
        open_three
        trailers
        (7 ∷ [])
        false
      ≡ ok (
        q,
        record {
          store = t;
          trace =
              ([] ++ header_calls 30 ((7 ∷ [], 7 ∷ []) ∷ []))
              ++ (end_stream 30 ∷ limiter_release ∷ []);
        },
      ))
    × Unit {0}
    × ((j : ℕ)
        → Unit {0}
        → (streams_map ℕ).view t j
          ≡ (if 3 == j then none else (streams_map ℕ).view ((3, 30) ∷ []) j))
headers-open_example =
    headers-open (streams_map ℕ) whole_blocks has (new_headers (streams_map ℕ) whole_blocks)
      open_three trailers (7 ∷ []) 3 1 trailers_id trailers_flags tt tt 30 three_found refl

headers-ended_example :
    (q : HeadersFrameProcessor (streams_map ℕ) whole_blocks) × (w' : World (streams_map ℕ))
    × (process_headers
          (streams_map ℕ)
          whole_blocks
          has
          (new_headers (streams_map ℕ) whole_blocks)
          open_three
          trailers
          (7 ∷ [])
          false
        ≡ ok (q, w'))
    × (w'.trace
        ≡ ([] ++ header_calls 30 ((7 ∷ [], 7 ∷ []) ∷ [])) ++ (end_stream 30 ∷ limiter_release ∷ []))
    × (world_after
          (streams_map ℕ)
          (process_headers (streams_map ℕ) whole_blocks has q w' continuation (8 ∷ []) false)
        ≡ some w')
headers-ended_example =
    headers-ended (streams_map ℕ) whole_blocks has (new_headers (streams_map ℕ) whole_blocks)
      open_three trailers (7 ∷ []) continuation (8 ∷ []) 3 1 4 false 30 trailers_id trailers_flags
      continuation_id continuation_flags refl tt tt three_found refl
