-- ===== src/Sender/Batched/Whole.antt =====
-- Whole runs of `batchedProcessor`.
use framer.Base.{
  ◌≡◌, refl, sym, ap, ap₂, ◌∙◌, List, [], ◌∷◌, ◌++◌, Bool, true, false, append_assoc, append-nil,
  arith,
}
use framer.Sender.Batched.{
  Frame, Event, Phase, Batcher, new_batcher, do_write, add_frame, batching_round, draining_round,
  round_in, batched_processor,
}
use framer.Sender.Batched.Groups.{
  Group, frames_in, fronts_in, frames_in-append, fronts_in-append, next_phase, frame_of,
  received_frames, received_fronts,
}
use framer.Sender.Batched.Writes.{Explains, Moved, round-Moved}

do_write-phase : (w : Bool) (b : Batcher) → (do_write w b).phase ≡ b.phase
unfolding do_write
do_write-phase true b = refl
do_write-phase false b = ground arith

add_frame-phase : (f : Frame) (b : Batcher) → (add_frame f b).phase ≡ b.phase
unfolding add_frame
add_frame-phase f b = ground (arith, do_write-phase false b)

round_in-phase :
    (p : Phase) (e : Event) (b : Batcher) → b.phase ≡ p → (round_in p e b).phase ≡ next_phase e p
unfolding round_in batching_round draining_round
round_in-phase Phase.batching (Event.priority c) b h =
    do_write-phase true (record b { first = c }) ∙ h
round_in-phase Phase.batching (Event.frame f) b h = add_frame-phase f b ∙ h
round_in-phase Phase.batching Event.flush b h = refl
round_in-phase Phase.batching Event.tick b h = do_write-phase false b ∙ h
round_in-phase Phase.batching Event.cancel b h = refl
round_in-phase Phase.draining (Event.priority c) b h =
    do_write-phase true (record b { first = c }) ∙ h
round_in-phase Phase.draining (Event.frame f) b h = h
round_in-phase Phase.draining Event.flush b h = h
round_in-phase Phase.draining Event.tick b h = h
round_in-phase Phase.draining Event.cancel b h = refl
round_in-phase Phase.stopped (Event.priority c) b h = h
round_in-phase Phase.stopped (Event.frame f) b h = h
round_in-phase Phase.stopped Event.flush b h = h
round_in-phase Phase.stopped Event.tick b h = h
round_in-phase Phase.stopped Event.cancel b h = h

batched-Moved :
    (es : List Event) (gs : List Group) (pend : List Frame) (b : Batcher) (p : Phase)
    → b.phase ≡ p
    → Explains gs pend b
    → Moved gs pend (batched_processor es b) (received_frames p es) (received_fronts p es)
unfolding batched_processor
batched-Moved [] gs pend b p h e = ([], pend, rw (append-nil gs) e, sym (append-nil pend), refl)
batched-Moved (ev ∷ es) gs pend b p h e =
    let step : batched_processor (ev ∷ es) b ≡ batched_processor es (round_in p ev b) =
      ap (λ q. batched_processor es (round_in q ev b)) h in
    let (hs, waiting, e', frames, fronts) = round-Moved p ev gs pend b e in
    let (ks, left, e'', frames', fronts') =
      batched-Moved es (gs ++ hs) waiting (round_in p ev b) (next_phase ev p)
        (round_in-phase p ev b h) e' in
    (
      hs ++ ks,
      left,
      rw step (rw (append_assoc gs hs ks) at e''),
      ap (λ l. l ++ left) (frames_in-append hs ks)
          ∙ append_assoc (frames_in hs) (frames_in ks) left
          ∙ ap (◌++◌ (frames_in hs)) frames'
          ∙ sym (append_assoc (frames_in hs) waiting (received_frames (next_phase ev p) es))
          ∙ ap (λ l. l ++ received_frames (next_phase ev p) es) frames
          ∙ append_assoc pend (frame_of ev p) (received_frames (next_phase ev p) es),
      fronts_in-append hs ks ∙ ap₂ ◌++◌ fronts fronts',
    )

-- Whatever frames, priority chunks, ticks, flush and cancellation come in, and in whatever order: the
-- commands sent are those of groups, each a priority chunk or none and then whole frames with just
-- their callbacks; the frames of the groups and then those still held are the frames received, in
-- order; and the priority chunks of the groups are those received, in order.
pub batched_processor-groups :
    (es : List Event)
    → (gs : List Group) × (held : List Frame) × Explains gs held (batched_processor es new_batcher)
      × (frames_in gs ++ held ≡ received_frames Phase.batching es)
      × (fronts_in gs ≡ received_fronts Phase.batching es)
batched_processor-groups es =
    batched-Moved es [] [] new_batcher Phase.batching refl
      (record { sent = refl; chunks = refl; callbacks = refl })
