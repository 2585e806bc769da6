-- ===== src/Sender/Instant.antt =====
-- loader/sender/sender.go: `instantProcessor`, which sends a command for each frame and each priority
-- chunk, and what it has in common with `batchedProcessor`.
mod Tests
use framer.Base.{
  ◌+◌, ◌≡◌, refl, sym, ap, ap₂, ◌∙◌, Bytes, List, [], ◌∷◌, ◌++◌, none, some, append_assoc,
  append-nil,
}
use framer.Sender.Batched.{
  Callback, Frame, WriteCmd, Event, Phase, Batcher, new_batcher, batched_processor,
}
use framer.Sender.Batched.Groups.{
  Group, command, commands, frames_in, fronts_in, next_phase, received_frames, received_fronts,
}
use framer.Sender.Batched.Writes.{Explains}
use framer.Sender.Batched.Whole.{batched_processor-groups}

-- `doWrite`: the command, with empty `buffers` and `cbs` behind it.
abbrev cmd : List Bytes → List Callback → WriteCmd
cmd bufs cbs = record { bufs = bufs; on_release = cbs }

-- The commands of one round of the loop that runs. There is no timer.
pub instant_round : Phase → Event → List WriteCmd
instant_round Phase.stopped e = []
instant_round p (Event.priority c) = cmd (c ∷ []) [] ∷ []
instant_round Phase.batching (Event.frame f) = cmd f.chunks f.cbs ∷ []
instant_round p e = []

-- `instantProcessor` on what it receives.
unfoldable pub instant_processor : Phase → List Event → List WriteCmd
unfolding instant_round
instant_processor p [] = []
instant_processor p (e ∷ es) = instant_round p e ++ instant_processor (next_phase e p) es

-- The groups of one frame or of one priority chunk.
abbrev alone : Frame → Group
alone f = record { front = none; frames = f ∷ [] }

abbrev in_front : Bytes → Group
in_front c = record { front = some c; frames = [] }

alone-command : (f : Frame) → cmd f.chunks f.cbs ≡ command (alone f)
alone-command f =
    λ i. record { bufs = sym (append-nil f.chunks) i; on_release = sym (append-nil f.cbs) i }

abbrev Alike : List WriteCmd → Phase → List Event → Type 0
Alike ws p es =
    (hs : List Group) × (ws ≡ commands hs)
    × (frames_in hs ≡ received_frames p es)
    × (fronts_in hs ≡ received_fronts p es)

instant-groups : (p : Phase) (es : List Event) → Alike (instant_processor p es) p es
unfolding instant_processor
instant-groups p [] = ([], refl, refl, refl)
instant-groups Phase.stopped (Event.priority c ∷ es) = instant-groups Phase.stopped es
instant-groups Phase.stopped (Event.frame f ∷ es) = instant-groups Phase.stopped es
instant-groups Phase.stopped (Event.flush ∷ es) = instant-groups Phase.stopped es
instant-groups Phase.stopped (Event.tick ∷ es) = instant-groups Phase.stopped es
instant-groups Phase.stopped (Event.cancel ∷ es) = instant-groups Phase.stopped es
instant-groups Phase.batching (Event.priority c ∷ es) =
    let (hs, a, b, d) = instant-groups Phase.batching es in
    (in_front c ∷ hs, ap (◌∷◌ (cmd (c ∷ []) [])) a, b, ap (◌∷◌ c) d)
instant-groups Phase.batching (Event.frame f ∷ es) =
    let (hs, a, b, d) = instant-groups Phase.batching es in
    (alone f ∷ hs, ap₂ ◌∷◌ (alone-command f) a, ap (◌∷◌ f) b, d)
instant-groups Phase.batching (Event.flush ∷ es) = instant-groups Phase.draining es
instant-groups Phase.batching (Event.tick ∷ es) = instant-groups Phase.batching es
instant-groups Phase.batching (Event.cancel ∷ es) = instant-groups Phase.stopped es
instant-groups Phase.draining (Event.priority c ∷ es) =
    let (hs, a, b, d) = instant-groups Phase.draining es in
    (in_front c ∷ hs, ap (◌∷◌ (cmd (c ∷ []) [])) a, b, ap (◌∷◌ c) d)
instant-groups Phase.draining (Event.frame f ∷ es) = instant-groups Phase.draining es
instant-groups Phase.draining (Event.flush ∷ es) = instant-groups Phase.draining es
instant-groups Phase.draining (Event.tick ∷ es) = instant-groups Phase.draining es
instant-groups Phase.draining (Event.cancel ∷ es) = instant-groups Phase.stopped es

-- On the same events the two processors send groups of the same frames and of the same priority
-- chunks, each in the same order, but for the frames that the batched one still holds.
pub instant-batched :
    (es : List Event)
    → (hs gs : List Group) × (held : List Frame) × (instant_processor Phase.batching es
        ≡ commands hs)
      × Explains gs held (batched_processor es new_batcher)
      × (frames_in hs ≡ frames_in gs ++ held)
      × (fronts_in hs ≡ fronts_in gs)
instant-batched es =
    let (hs, a, b, d) = instant-groups Phase.batching es in
    let (gs, held, e, frames, fronts) = batched_processor-groups es in
    (hs, gs, held, a, e, b ∙ sym frames, d ∙ sym fronts)
