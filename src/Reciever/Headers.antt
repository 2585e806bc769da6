-- ===== src/Reciever/Headers.antt =====
-- loader/reciever/processor.go: the processor of HEADERS and CONTINUATION frames.
pub mod Fields
pub mod Tests
use framer.Base.{
  ℕ, Bytes, List, [], ◌∷◌, ◌++◌, Option, none, some, Bool, false, if◌then◌else◌, ◌≡◌, is_some,
}
use framer.FrameHeader.{flags_field, stream_id_field}
use framer.Http2.{flag_end_stream}
use framer.Streams.Store.Interface.{StreamStore}
use framer.Reciever.Loop.{Result, Error, ok, err, panic}
use framer.Reciever.World.{World, emit, or_panic, ◌>>=◌, on_header, end_stream, limiter_release}

-- golang.org/x/net/http2/hpack.Decoder: `Write` under `SetEmitEnabled(emit)` gives the header fields
-- on which it calls back, in order, and whether it failed. While emitting is off it calls nothing.
pub record Hpack : Type 1 where
  pub Decoder : Type 0
  pub new_decoder : Decoder
  pub write : Decoder → Bool → Bytes → Decoder × List (Bytes × Bytes) × Bool
  pub write_silent : (d : Decoder) (payload : Bytes) → (write d false payload).1 ≡ []

module _ {V : Type 0} (S : StreamStore V) (H : Hpack) where
  -- `headersFrameProcessor`
  pub record HeadersFrameProcessor : Type 0 where
    pub hpack_decoder : H.Decoder
    pub current_stream : Option V

  -- `newHeadersFrameProcessor`
  abbrev pub new_headers : HeadersFrameProcessor
  new_headers = record { hpack_decoder = H.new_decoder; current_stream = none }

  -- `OnHeader` on each field; with no current stream it is a call on nil.
  pub on_headers : Option V → List (Bytes × Bytes) → World S → Result (World S) (World S)
  on_headers stream [] w = ok w
  on_headers none (f ∷ fs) w = panic
  on_headers (some v) ((name, value) ∷ fs) w =
      on_headers (some v) fs (emit S (on_header v name value) w)

  -- the end of `headersFrameProcessor.Process`
  pub end_of_headers :
      (ℕ → ℕ → Bool)
      → HeadersFrameProcessor
      → World S
      → ℕ
      → ℕ
      → Option V
      → Result (HeadersFrameProcessor × World S) (World S)
  end_of_headers has p w flags id none = ok (p, w)
  end_of_headers has p w flags id (some v) =
      if has flags flag_end_stream
      then (or_panic (S.delete w.store id) >>= λ store.
          ok
            (p, record { store = store; trace = w.trace ++ (end_stream v ∷ limiter_release ∷ []) }))
      else ok (p, w)

  -- `headersFrameProcessor.Process`
  unfoldable pub process_headers :
      (ℕ → ℕ → Bool)
      → HeadersFrameProcessor
      → World S
      → Bytes
      → Bytes
      → Bool
      → Result (HeadersFrameProcessor × World S) (World S)
  unfolding on_headers end_of_headers
  process_headers has p w header payload incomplete = or_panic (stream_id_field header) >>= λ id.
      or_panic (S.get w.store id) >>= λ stream.
      let (decoder, fields, failed) = H.write p.hpack_decoder (is_some stream) payload in
      let q : HeadersFrameProcessor = record { hpack_decoder = decoder; current_stream = stream } in
      on_headers stream fields w >>= λ w'.
      if failed
      then err Error.hpack_decoding w'
      else if incomplete
      then ok (q, w')
      else (or_panic (flags_field header) >>= λ flags. end_of_headers has q w' flags id stream)
