-- ===== src/Reciever/Processors/Echo.antt =====
-- PING in pieces: the answer.
use framer.Base.{◌≡◌, ◌∙◌, ap, Bytes, List, [], ◌∷◌, ◌++◌, true, false, take, append_assoc}
use framer.Streams.Store.Interface.{StreamStore}
use framer.Reciever.World.{World, emit, send_frame}
use framer.Reciever.Processors.{PingFrameProcessor, ping_ack_header, process_ping}
use framer.Reciever.Processors.BigEndian.{payload_of}

-- The processor between two frames: both of its slices begin with the header of the answer.
pub record Ready (p : PingFrameProcessor) : Type 0 where
  pub current : p.current_ping_ack_frame ≡ ping_ack_header
  pub next : take 9 p.next_ping_ack_frame ≡ ping_ack_header

module _ {V : Type 0} (S : StreamStore V) where
  -- The processor called on the pieces of one frame.
  abbrev pub ping_pieces :
      PingFrameProcessor → World S → List Bytes → Bytes → PingFrameProcessor × World S
  ping_pieces p w [] last = process_ping S p w last false
  ping_pieces p w (b ∷ ps) last =
      ping_pieces (process_ping S p w b true).0 (process_ping S p w b true).1 ps last

  answered :
      (p : PingFrameProcessor) (w : World S) (got : Bytes) (ps : List Bytes) (last : Bytes)
      → p.current_ping_ack_frame ≡ ping_ack_header ++ got
      → take 9 p.next_ping_ack_frame ≡ ping_ack_header
      → Ready (ping_pieces p w ps last).0
        × ((ping_pieces p w ps last).1
            ≡ emit S (send_frame (ping_ack_header ++ (got ++ payload_of ps last))) w)
  unfolding process_ping
  answered p w got [] last c n = (
    record { current = n; next = ap (λ f. take 9 (f ++ last)) c },
    ap (λ f. emit S (send_frame (f ++ last)) w) c,
  )
  answered p w got (b ∷ ps) last c n =
      let (r, e) =
        answered (record p { current_ping_ack_frame = p.current_ping_ack_frame ++ b }) w (got ++ b)
          ps last (ap (λ f. f ++ b) c) n in
      (
        r,
        e
            ∙ ap (λ f. emit S (send_frame (ping_ack_header ++ f)) w)
                (append_assoc got b (payload_of ps last)),
      )

  -- However the payload of a PING frame is cut into pieces, one frame is sent, and nothing else is
  -- done: the header of an acknowledgement with that payload. The processor is ready for the next.
  pub ping-pieces :
      (p : PingFrameProcessor) (w : World S) (ps : List Bytes) (last : Bytes)
      → Ready p
      → Ready (ping_pieces p w ps last).0
        × ((ping_pieces p w ps last).1
            ≡ emit S (send_frame (ping_ack_header ++ payload_of ps last)) w)
  ping-pieces p w ps last r = answered p w [] ps last r.current r.next
