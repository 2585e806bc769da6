-- ===== src/FrameHeader.antt =====
-- frameheader/frameheader.go: the nine-byte header of an HTTP/2 frame, read and written in place.
-- A header is a slice of bytes; `none` is the panic of an index out of range. The setters return
-- the slice as it stands after the writes. `String` (a debug print) is not modelled.
pub mod Fields
pub mod Layout
mod Tests
use framer.Base.{
  ℕ, suc, ◌+◌, ◌*◌, ◌/◌, ◌^◌, ◌≤◌, Bytes, List, [], ◌∷◌, Option, none, some, bit_or, byte, u32,
  replicate, get_elem?, set, length, if◌then◌else◌, ltb, ◌>>=◌,
}

-- `NewFrameHeader`
unfoldable pub new_frame_header : Bytes
new_frame_header = replicate 9 0

-- `_ = f[k]`, the bounds check in front of a run of accesses.
abbrev pub checked : ℕ → Bytes → Bytes → Option Bytes
checked k f r = if ltb k (length f) then some r else none

-- `SetLength`
unfoldable pub set_length : Bytes → ℕ → Option Bytes
set_length f l =
    checked 2 f (set (set (set f 0 (byte (l / 2 ^ 16))) 1 (byte (l / 2 ^ 8))) 2 (byte l))

-- `SetType`
unfoldable pub set_type : Bytes → ℕ → Option Bytes
set_type f t = checked 3 f (set f 3 (byte t))

-- `SetFlags`
unfoldable pub set_flags : Bytes → ℕ → Option Bytes
set_flags f flag = checked 4 f (set f 4 (byte flag))

-- `SetStreamID`
unfoldable pub set_stream_id : Bytes → ℕ → Option Bytes
set_stream_id f id = checked 8 f (
    set (set (set (set f 5 (byte (id / 2 ^ 24))) 6 (byte (id / 2 ^ 16))) 7 (byte (id / 2 ^ 8))) 8
      (byte id))

-- `Fill`
unfoldable pub fill : Bytes → ℕ → ℕ → ℕ → ℕ → Option Bytes
fill f length t flags stream_id =
    let f1 =
      set (set (set f 0 (byte (length / 2 ^ 16))) 1 (byte (length / 2 ^ 8))) 2 (byte length) in
    let f2 = set (set f1 3 (byte t)) 4 (byte flags) in
    checked 8 f (
      set
        (set (set (set f2 5 (byte (stream_id / 2 ^ 24))) 6 (byte (stream_id / 2 ^ 16))) 7
          (byte (stream_id / 2 ^ 8)))
        8 (byte stream_id))

-- `Length`: `int(f[0])<<16 | int(f[1])<<8 | int(f[2])`
unfoldable pub length_field : Bytes → Option ℕ
length_field f = do
  b2 ← get_elem? f 2
  b0 ← get_elem? f 0
  b1 ← get_elem? f 1
  some (bit_or (bit_or (b0 * 2 ^ 16) (b1 * 2 ^ 8)) b2)

-- `Type`
unfoldable pub type_field : Bytes → Option ℕ
type_field f = get_elem? f 3

-- `Flags`
unfoldable pub flags_field : Bytes → Option ℕ
flags_field f = get_elem? f 4

-- `StreamID`: `binary.BigEndian.Uint32(f[5:])`, the number that four bytes spell.
unfoldable pub stream_id_field : Bytes → Option ℕ
stream_id_field f = do
  b0 ← get_elem? f 5
  b1 ← get_elem? f 6
  b2 ← get_elem? f 7
  b3 ← get_elem? f 8
  some (b0 * 2 ^ 24 + b1 * 2 ^ 16 + b2 * 2 ^ 8 + b3)
