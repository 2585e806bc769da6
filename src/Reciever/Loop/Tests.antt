-- ===== src/Reciever/Loop/Tests.antt =====
-- A frame and the beginning of another, cut into three buffers.
use framer.Base.{ℕ, ◌≡◌, refl, Bytes, List, [], ◌∷◌, some, length}
use framer.FrameHeader.{length_field}
use framer.Reciever.Framer.{Framer, new_framer, next}
use framer.Reciever.Framer.Frames.{Frame}
use framer.Reciever.Loop.{Handler, Result, run}

-- A handler that records how many bytes of payload it got.
abbrev counting : Handler ℕ
counting header payload incomplete n = Result.ok (length payload)

abbrev data_frame : Frame
data_frame = record { header = 0 ∷ 0 ∷ 2 ∷ 0 ∷ 1 ∷ 0 ∷ 0 ∷ 0 ∷ 3 ∷ []; payload = 7 ∷ 8 ∷ [] }

abbrev three_buffers : List Bytes
three_buffers = (0 ∷ 0 ∷ 2 ∷ 0 ∷ 1 ∷ []) ∷ (0 ∷ 0 ∷ 0 ∷ 3 ∷ 7 ∷ []) ∷ (8 ∷ 0 ∷ 0 ∷ []) ∷ []

-- The last piece that the handler gets is one byte.
run_counts :
    run counting new_framer 0 three_buffers
    ≡ some (
        Result.ok (
          1,
          record {
            current_header = 0 ∷ 0 ∷ [];
            header = data_frame.header;
            payload_left = 1;
            buf = 0 ∷ 0 ∷ [];
          },
        ))
unfolding run next length_field
run_counts = refl
