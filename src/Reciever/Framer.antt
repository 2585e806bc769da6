-- ===== src/Reciever/Framer.antt =====
-- loader/reciever/framer.go: the framer cuts a stream that arrives in buffers of any size into
-- frames, without copying payloads. `none` is a panic. The slices `header` and `currentHeader` share
-- an array in the source: `Header()` is read before the next `append` only, so the model keeps copies.
pub mod Frames
pub mod Next
use framer.Base.{
  ℕ, ◌+◌, ◌-◌, Bytes, List, [], ◌∷◌, ◌++◌, Option, none, some, Bool, true, false, take, drop,
  length, if◌then◌else◌, ltb, ◌==◌, ◌>>=◌,
}
use framer.FrameHeader.{length_field}

-- `Status`
pub data Status : Type 0 where
  frame_done frame_done_buf_empty header_incomplete payload_incomplete : Status

pub record Framer : Type 0 where
  pub current_header : Bytes
  pub header : Bytes
  pub payload_left : ℕ
  pub buf : Bytes

-- `new(Framer)`
abbrev pub new_framer : Framer
new_framer = record { current_header = []; header = []; payload_left = 0; buf = [] }

-- `Fill`
abbrev pub fill : Framer → Bytes → Framer
fill p b = record p { buf = b }

-- The first block of `Next`: go on with the header, if it is not complete. The flag tells whether it
-- is complete now. (A header of more than nine bytes would make the slice bound negative.)
pub fill_header : Framer → Option (Framer × Bool)
fill_header p =
    let current_header_len = length p.current_header in
    let need_to_fill = 9 - current_header_len in
    let header = p.current_header ++ take need_to_fill p.buf in
    if current_header_len == 9
    then some (p, true)
    else if ltb 9 current_header_len
    then none
    else if ltb (length p.buf) need_to_fill
    then some (record p { current_header = p.current_header ++ p.buf }, false)
    else (length_field header >>= λ n. some (
      record p { current_header = header; buf = drop need_to_fill p.buf; payload_left = n },
      true,
    ))

-- The rest of `Next`: what the buffer holds of the payload.
pub take_payload : Framer → Bytes × Status × Framer
take_payload p =
    if ltb p.payload_left (length p.buf)
    then (
      take p.payload_left p.buf,
      Status.frame_done,
      record p { buf = drop p.payload_left p.buf; current_header = [] },
    )
    else if length p.buf == p.payload_left
    then (p.buf, Status.frame_done_buf_empty, record p { current_header = [] })
    else (
      p.buf,
      Status.payload_incomplete,
      record p { payload_left = p.payload_left - length p.buf },
    )

-- `Next`: the payload bytes, the status, and the framer after the call. `Header` is its field.
unfoldable pub next : Framer → Option (Bytes × Status × Framer)
unfolding fill_header take_payload
next p = fill_header p >>= λ r. elim r.1 [
  | true ↦ some (take_payload (record (r.0) { header = (r.0).current_header }))
  | false ↦ some ([], Status.header_incomplete, r.0)
]
