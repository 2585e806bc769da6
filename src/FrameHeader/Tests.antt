-- ===== src/FrameHeader/Tests.antt =====
-- Runs of the accessors, and the theorems at a header of a DATA frame on stream 3.
use framer.Base.{◌≡◌, refl, some, ◌∷◌, [], length, none, Bytes, arith}
use framer.FrameHeader.{
  new_frame_header, fill, length_field, type_field, flags_field, stream_id_field,
}
use framer.FrameHeader.Fields.{fields-fill}

fill_run : fill new_frame_header 70000 0 1 259 ≡ some (1 ∷ 17 ∷ 112 ∷ 0 ∷ 1 ∷ 0 ∷ 0 ∷ 1 ∷ 3 ∷ [])
unfolding fill new_frame_header
fill_run = refl

short_slice : length_field (1 ∷ 2 ∷ []) ≡ none
unfolding length_field
short_slice = refl

fields-fill_example :
    (g : Bytes) × (fill new_frame_header 70000 0 1 259 ≡ some g)
    × (length g ≡ 9)
    × (length_field g ≡ some 70000)
    × (type_field g ≡ some 0)
    × (flags_field g ≡ some 1)
    × (stream_id_field g ≡ some 259)
fields-fill_example =
    fields-fill new_frame_header 70000 0 1 259 (unfold new_frame_header in refl) (omega arith)
      (omega arith) (omega arith) (omega arith)
