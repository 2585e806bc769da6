-- ===== src/Sender/Batched/Writes.antt =====
-- `batchedProcessor` against the groups: every write is one, and nothing is lost, split or reordered.
use framer.Base.{
  ◌+◌, ◌≡◌, refl, sym, ap, ap₂, ◌∙◌, Bytes, List, [], ◌∷◌, ◌++◌, Option, none, some, true, false,
  ltb, length, append_assoc, append-nil, Bool-cases, inl, inr,
}
use framer.Sender.Batched.{
  Frame, WriteCmd, Event, Phase, Batcher, nonempty, write_out, do_write, add_frame, batching_round,
  draining_round, round_in,
}
use framer.Sender.Batched.Groups.{
  Group, front_chunk, chunks_of, cbs_of, command, commands, frames_in, fronts_in, chunks_of-append,
  cbs_of-append, commands-append, frame_of, front_of,
}

-- The commands sent are those of the groups, and what is still to be written are the frames `pend`.
pub record Explains (gs : List Group) (pend : List Frame) (b : Batcher) : Type 0 where
  pub sent : b.written ≡ commands gs
  pub chunks : b.rest ≡ chunks_of pend
  pub callbacks : b.cbs ≡ cbs_of pend

-- The batcher after a step in which the frames `fs` and the priority chunks `cs` came in.
abbrev pub Moved : List Group → List Frame → Batcher → List Frame → List Bytes → Type 0
Moved gs pend b' fs cs =
    (hs : List Group) × (pend' : List Frame) × Explains (gs ++ hs) pend' b'
    × (frames_in hs ++ pend' ≡ pend ++ fs)
    × (fronts_in hs ≡ cs)

unmoved :
    (gs : List Group) (pend : List Frame) (b : Batcher) → Explains gs pend b → Moved gs pend b [] []
unmoved gs pend b e = ([], pend, rw (append-nil gs) e, sym (append-nil pend), refl)

write_out-Moved :
    (gs : List Group) (pend : List Frame) (b : Batcher) (bufs : List Bytes) (front : Option Bytes)
    → bufs ≡ front_chunk front ++ b.rest
    → Explains gs pend b
    → Moved gs pend (write_out bufs b) [] (front_chunk front)
write_out-Moved gs pend b bufs front shape e = (
  g ∷ [],
  [],
  record {
    sent =
        ap₂ (λ (w : List WriteCmd) (c : WriteCmd). w ++ c ∷ []) e.sent same
        ∙ sym (commands-append gs (g ∷ []));
    chunks = refl;
    callbacks = refl;
  },
  ap (λ l. l ++ []) (append-nil pend),
  append-nil (front_chunk front),
)
  where
    g : Group
    g = record { front = front; frames = pend }

    all : bufs ≡ front_chunk front ++ chunks_of pend
    all = shape ∙ ap (◌++◌ (front_chunk front)) e.chunks

    same : record { bufs = bufs; on_release = b.cbs } ≡ command g
    same = λ i. record { bufs = all i; on_release = e.callbacks i }

do_write-Moved :
    (gs : List Group) (pend : List Frame) (b : Batcher)
    → Explains gs pend b
    → Moved gs pend (do_write false b) [] []
unfolding do_write
do_write-Moved gs pend b e = elim (Bool-cases (nonempty b.rest)) [
  | inl some_rest ↦ rw some_rest (write_out-Moved gs pend b b.rest none refl e)
  | inr no_rest ↦ rw no_rest (unmoved gs pend b e)
]

-- A frame that is put behind those that wait.
append-Moved :
    (gs : List Group) (pend : List Frame) (b : Batcher) (f : Frame)
    → Moved gs pend b [] []
    → Moved gs pend (record b { rest = b.rest ++ f.chunks; cbs = b.cbs ++ f.cbs }) (f ∷ []) []
append-Moved gs pend b f (hs, waiting, e, frames, fronts) = (
  hs,
  waiting ++ f ∷ [],
  record {
    sent = e.sent;
    chunks =
        ap₂ ◌++◌ e.chunks (sym (append-nil f.chunks)) ∙ sym (chunks_of-append waiting (f ∷ []));
    callbacks =
        ap₂ ◌++◌ e.callbacks (sym (append-nil f.cbs)) ∙ sym (cbs_of-append waiting (f ∷ []));
  },
  sym (append_assoc (frames_in hs) waiting (f ∷ []))
      ∙ ap (λ l. l ++ f ∷ []) (frames ∙ append-nil pend),
  fronts,
)

add_frame-Moved :
    (gs : List Group) (pend : List Frame) (b : Batcher) (f : Frame)
    → Explains gs pend b
    → Moved gs pend (add_frame f b) (f ∷ []) []
unfolding add_frame
add_frame-Moved gs pend b f e = elim (Bool-cases (ltb 2048 (3 + (1 + length b.rest)))) [
  | inl full ↦ rw full (append-Moved gs pend (do_write false b) f (do_write-Moved gs pend b e))
  | inr room ↦ rw room (append-Moved gs pend b f (unmoved gs pend b e))
]

-- The phase is no part of what is explained.
rephased :
    (gs : List Group) (pend : List Frame) (b : Batcher) (p : Phase) (fs : List Frame)
    (cs : List Bytes)
    → Moved gs pend b fs cs
    → Moved gs pend (record b { phase = p }) fs cs
rephased gs pend b p fs cs (hs, waiting, e, frames, fronts) = (
  hs,
  waiting,
  record { sent = e.sent; chunks = e.chunks; callbacks = e.callbacks },
  frames,
  fronts,
)

priority-Moved :
    (gs : List Group) (pend : List Frame) (b : Batcher) (c : Bytes)
    → Explains gs pend b
    → Moved gs pend (do_write true (record b { first = c })) [] (c ∷ [])
unfolding do_write
priority-Moved gs pend b c e =
    write_out-Moved gs pend (record b { first = c }) (c ∷ b.rest) (some c) refl
      (record { sent = e.sent; chunks = e.chunks; callbacks = e.callbacks })

pub round-Moved :
    (p : Phase) (ev : Event) (gs : List Group) (pend : List Frame) (b : Batcher)
    → Explains gs pend b
    → Moved gs pend (round_in p ev b) (frame_of ev p) (front_of ev p)
unfolding round_in batching_round draining_round
round-Moved Phase.batching (Event.priority c) gs pend b e = priority-Moved gs pend b c e
round-Moved Phase.batching (Event.frame f) gs pend b e = add_frame-Moved gs pend b f e
round-Moved Phase.batching Event.flush gs pend b e =
    rephased gs pend (do_write false b) Phase.draining [] [] (do_write-Moved gs pend b e)
round-Moved Phase.batching Event.tick gs pend b e = do_write-Moved gs pend b e
round-Moved Phase.batching Event.cancel gs pend b e =
    rephased gs pend (do_write false b) Phase.stopped [] [] (do_write-Moved gs pend b e)
round-Moved Phase.draining (Event.priority c) gs pend b e = priority-Moved gs pend b c e
round-Moved Phase.draining (Event.frame f) gs pend b e = unmoved gs pend b e
round-Moved Phase.draining Event.flush gs pend b e = unmoved gs pend b e
round-Moved Phase.draining Event.tick gs pend b e = unmoved gs pend b e
round-Moved Phase.draining Event.cancel gs pend b e =
    rephased gs pend b Phase.stopped [] [] (unmoved gs pend b e)
round-Moved Phase.stopped (Event.priority c) gs pend b e = unmoved gs pend b e
round-Moved Phase.stopped (Event.frame f) gs pend b e = unmoved gs pend b e
round-Moved Phase.stopped Event.flush gs pend b e = unmoved gs pend b e
round-Moved Phase.stopped Event.tick gs pend b e = unmoved gs pend b e
round-Moved Phase.stopped Event.cancel gs pend b e = unmoved gs pend b e
