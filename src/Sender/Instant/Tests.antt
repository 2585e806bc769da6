-- ===== src/Sender/Instant/Tests.antt =====
-- A frame and a priority chunk.
use framer.Base.{◌≡◌, List, [], ◌∷◌, ◌++◌}
use framer.Sender.Batched.{Frame, Event, Phase, new_batcher, batched_processor}
use framer.Sender.Batched.Groups.{Group, commands, frames_in, fronts_in}
use framer.Sender.Batched.Writes.{Explains}
use framer.Sender.Instant.{instant_processor, instant-batched}

abbrev two_events : List Event
two_events =
    Event.frame (record { chunks = (1 ∷ []) ∷ []; cbs = [] }) ∷ Event.priority (9 ∷ []) ∷ []

instant-batched_example :
    (hs gs : List Group) × (held : List Frame) × (instant_processor Phase.batching two_events
      ≡ commands hs)
    × Explains gs held (batched_processor two_events new_batcher)
    × (frames_in hs ≡ frames_in gs ++ held)
    × (fronts_in hs ≡ fronts_in gs)
instant-batched_example = instant-batched two_events
