-- ===== src/Sender/Send/Tests.antt =====
-- A request of two frames, of which the second is not let through.
use framer.Base.{ℕ, ◌≡◌, refl, [], ◌∷◌, some, Bool, true, ltb, take, All, arith}
use framer.Sender.Batched.Groups.{cbs_of}
use framer.Sender.Send.{Prepared, Req, send, send_all}
use framer.Sender.Send.Calls.{
  pushes, stored, chunks_sent, chunks_asked, granted, callbacks, send-pushes, stored-IsOdd,
}
use framer.Streams.Store.Sharded.{IsOdd}

abbrev always : ℕ → Bool
always i = true

abbrev once : ℕ → Bool
once i = ltb i 1

abbrev two_frames : Prepared
two_frames = record {
  frames =
      record { chunks = (1 ∷ []) ∷ []; flow_control_price = 0 }
      ∷ record { chunks = (2 ∷ []) ∷ []; flow_control_price = 9 }
      ∷ [];
  size = 20;
}

abbrev two_frame_request : Req
two_frame_request = record { tag = []; set_up = λ id. some two_frames }

send-pushes_example :
    (chunks_sent (pushes (send always once 1 two_frame_request).1)
      ≡ take (granted always once 0 two_frames.frames) (chunks_asked two_frames.frames))
    × (cbs_of (pushes (send always once 1 two_frame_request).1)
        ≡ callbacks 3 0 (granted always once 0 two_frames.frames) 2)
send-pushes_example = send-pushes always once 1 two_frame_request two_frames refl (omega arith)

-- The third request would have the identifier 2^32 + 1.
stored-IsOdd_example : All IsOdd (
    stored (
      send_all
        (λ _. always)
        (λ _. always)
        0
        4294967293
        (two_frame_request ∷ two_frame_request ∷ [])))
stored-IsOdd_example =
    stored-IsOdd (λ _. always) (λ _. always) 0 4294967293
      (two_frame_request ∷ two_frame_request ∷ []) refl
