-- ===== src/Sender/Batched/Tests.antt =====
-- Two frames, a window update between them, and the end.
use framer.Base.{◌≡◌, refl, List, [], ◌∷◌, ◌++◌, arith}
use framer.Sender.Batched.{Callback, Frame, Event, new_batcher, batched_processor}
use framer.Sender.Batched.Groups.{Group, frames_in, fronts_in}
use framer.Sender.Batched.Writes.{Explains}
use framer.Sender.Batched.Whole.{batched_processor-groups}
use framer.Sender.Batched.Bounds.{IsBounded, batched_processor-IsBounded}

abbrev headers : Frame
headers = record { chunks = (1 ∷ []) ∷ (2 ∷ []) ∷ []; cbs = Callback.first_byte_sent 3 ∷ [] }

abbrev message : Frame
message = record {
  chunks = (3 ∷ []) ∷ (4 ∷ []) ∷ [];
  cbs = Callback.last_byte_sent 3 ∷ Callback.request_release 3 ∷ [];
}

abbrev some_events : List Event
some_events =
    Event.frame headers
    ∷ Event.priority (9 ∷ [])
    ∷ Event.frame message
    ∷ Event.tick
    ∷ Event.cancel
    ∷ []

some_writes :
    (batched_processor some_events new_batcher).written
    ≡ record {
      bufs = (9 ∷ []) ∷ (1 ∷ []) ∷ (2 ∷ []) ∷ [];
      on_release = Callback.first_byte_sent 3 ∷ [];
    }
      ∷ record {
        bufs = (3 ∷ []) ∷ (4 ∷ []) ∷ [];
        on_release = Callback.last_byte_sent 3 ∷ Callback.request_release 3 ∷ [];
      }
      ∷ []
unfolding batched_processor
some_writes = refl

batched_processor-groups_example :
    (gs : List Group) × (held : List Frame) × Explains gs held
      (batched_processor some_events new_batcher)
    × (frames_in gs ++ held ≡ headers ∷ message ∷ [])
    × (fronts_in gs ≡ (9 ∷ []) ∷ [])
batched_processor-groups_example = batched_processor-groups some_events

batched_processor-IsBounded_example : IsBounded (batched_processor some_events new_batcher)
batched_processor-IsBounded_example = batched_processor-IsBounded some_events (omega arith)
