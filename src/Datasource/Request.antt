-- ===== src/Datasource/Request.antt =====
-- datasource/request.go: `RequestAdapter.SetUp` cuts a request into HEADERS, CONTINUATION and DATA
-- frames. `none` is a panic. A header is written over nine bytes that `frameHeaders.Get` hands out,
-- which may be left over from an earlier request: `stale k` is what the k-th header of this request
-- is written over. A frame's chunks are the ones that are not nil. The prefix is one array in the
-- source, which every DATA frame of the request shares; nothing writes to it in between.
pub mod Headers
pub mod Payload
pub mod Message
pub mod Whole
mod Tests
use framer.Base.{
  ℕ, zero, suc, ◌+◌, ◌-◌, ◌/◌, ◌%◌, ◌^◌, Bytes, List, [], ◌∷◌, ◌++◌, Option, none, some, Bool, true,
  false, if◌then◌else◌, ◌==◌, ltb, length, take, drop, min, byte, u32, ◌>>=◌, codes,
}
use framer.FrameHeader.{fill, set_length, set_type, set_flags, set_stream_id}
use framer.Http2.{frame_data, frame_headers, frame_continuation, flag_end_stream, flag_end_headers}
use framer.Datasource.Middleware.{Field, MetaMiddleware}

-- `types.Frame`
pub record Frame : Type 0 where
  pub chunks : List Bytes
  pub flow_control_price : ℕ

-- What the adapter keeps of the frames: `frames`, `size`, and the count of headers handed out.
pub record Output : Type 0 where
  pub frames : List Frame
  pub size : ℕ
  pub handed_out : ℕ

abbrev pub push : Frame → ℕ → Output → Output
push f n o = record {
  frames = o.frames ++ f ∷ [];
  size = o.size + n;
  handed_out = o.handed_out + 1;
}

-- HEADERS for the first frame, CONTINUATION for the others.
abbrev pub header_type : List Frame → ℕ
header_type [] = frame_headers
header_type (f ∷ fs) = frame_continuation

-- `payloadPrefix`: its first byte is never written.
abbrev pub payload_prefix : ℕ → Bytes
payload_prefix n = 0 ∷ byte (n / 2 ^ 24) ∷ byte (n / 2 ^ 16) ∷ byte (n / 2 ^ 8) ∷ byte n ∷ []

module _ (stale : ℕ → Bytes) (max_frame_payload_len stream_id : ℕ) where
  -- One round of the loop of `setUpHeaders`, on the bytes `b` that `Next` gives.
  pub header_frame : Bytes → Output → Option Output
  header_frame b o =
      let t = header_type o.frames in
      let flags = if ltb (length b) max_frame_payload_len then flag_end_headers else 0 in
      set_length (stale o.handed_out) (length b) >>= λ f1. set_type f1 t >>= λ f2.
      set_flags f2 flags >>= λ f3. set_stream_id f3 stream_id >>= λ f4.
      some (push (record { chunks = f4 ∷ b ∷ []; flow_control_price = 0 }) (9 + length b) o)

  -- The loop of `setUpHeaders`, on fuel, over the bytes that are left in `headersBuf`.
  pub header_frames : ℕ → Bytes → Output → Option Output
  unfolding header_frame
  header_frames zero buf o = none
  header_frames (suc n) buf o =
      let b = take max_frame_payload_len buf in
      header_frame b o >>= λ o'.
      let rest = header_frames n (drop max_frame_payload_len buf) o' in
      if ltb (length b) max_frame_payload_len then some o' else rest

  -- A DATA frame of `setUpPayload`.
  pub data_frame : Bytes → Bytes → ℕ → ℕ → Output → Option Output
  data_frame prefix b len flags o =
      fill (stale o.handed_out) len frame_data flags stream_id >>= λ f.
      some
        (push (record { chunks = f ∷ prefix ∷ b ∷ []; flow_control_price = u32 len }) (9 + len) o)

  -- The loop of `setUpPayload` over the rest of the message, on fuel.
  pub data_frames : Bytes → ℕ → Bytes → Output → Option Output
  unfolding data_frame
  data_frames prefix zero pl o = none
  data_frames prefix (suc n) pl o =
      let b_len = min (length pl) max_frame_payload_len in
      let left = drop b_len pl in
      let flags = if ltb b_len max_frame_payload_len then flag_end_stream else 0 in
      data_frame prefix (take b_len pl) b_len flags o >>= λ o'.
      let rest = data_frames prefix n left o' in if length left == 0 then some o' else rest

  -- `setUpPayload`; a frame limit below 5 makes a slice bound negative.
  unfoldable pub set_up_payload : Bytes → Output → Option Output
  unfolding data_frame data_frames
  set_up_payload pl o =
      let prefix = payload_prefix (length pl) in
      let b_len = min (length pl) (max_frame_payload_len - 5) in
      let left = drop b_len pl in
      let flags = if length left == 0 then flag_end_stream else 0 in
      if ltb max_frame_payload_len 5
      then none
      else (data_frame prefix (take b_len pl) (b_len + 5) flags o >>= λ o'.
          let rest = data_frames prefix (suc (length left)) left o' in
          if length left == 0 then some o' else rest)

-- golang.org/x/net/http2/hpack.Encoder, as `hpackwrapper.Wrapper` calls it: the bytes that one field
-- appends to the buffer.
pub record HpackEncoder : Type 1 where
  pub Encoder : Type 0
  pub write_field : Encoder → Field → Encoder × Bytes

-- `decoder.Data`
pub record Request : Type 0 where
  pub tag : Bytes
  pub method : Bytes
  pub metadata : List Field
  pub message : Bytes

module _ (mw : MetaMiddleware) where
  -- The metadata that `setUpHeaders` does not skip.
  pub allowed : List Field → List Field
  allowed [] = []
  allowed (f ∷ fs) = if mw.is_allowed f.0 then f ∷ allowed fs else allowed fs

  -- The fields that `setUpHeaders` writes, in order.
  unfoldable pub header_fields : Request → List Field
  unfolding allowed
  header_fields r = (codes ":path", r.method) ∷ (mw.additional ++ allowed r.metadata)

  -- `headerListSize`: the additional fields are not counted.
  pub list_size : List Field → ℕ
  list_size [] = 0
  list_size (f ∷ fs) = length f.0 + length f.1 + list_size fs

  unfoldable pub header_list_size : Request → ℕ
  unfolding allowed list_size
  header_list_size r = 5 + length r.method + list_size (allowed r.metadata)

module _ (H : HpackEncoder) where
  -- `hpack.WriteField` on each field, and what `headersBuf` holds afterwards.
  pub write_fields : H.Encoder → List Field → Bytes → H.Encoder × Bytes
  write_fields e [] buf = (e, buf)
  write_fields e (f ∷ fs) buf = write_fields (H.write_field e f).0 fs (buf ++ (H.write_field e f).1)

  module _ (stale : ℕ → Bytes) (mw : MetaMiddleware)
      (max_frame_payload_len max_header_list_size : ℕ) (stream_id : ℕ) where
    -- `setUpHeaders`: the encoder after it, whether it fails, and the frames. The buffer's length is
    -- enough fuel, since each round but the last takes at least one byte.
    unfoldable pub set_up_headers : H.Encoder → Request → Option (H.Encoder × Bool × Output)
    unfolding write_fields header_fields header_list_size header_frames
    set_up_headers e r =
        let (e', buf) = write_fields e (header_fields mw r) [] in
        let o : Output = record { frames = []; size = 0; handed_out = 0 } in
        if ltb max_header_list_size (header_list_size mw r)
        then some (e', true, o)
        else (header_frames stale max_frame_payload_len stream_id (suc (length buf)) buf o >>= λ o'.
            some (e', false, o'))

    -- `SetUp`: the payload is set up also where the headers failed.
    unfoldable pub set_up : H.Encoder → Request → Option (H.Encoder × Bool × Output)
    set_up e r = set_up_headers e r >>= λ h.
        set_up_payload stale max_frame_payload_len stream_id r.message h.2 >>= λ o.
        some (h.0, h.1, o)
