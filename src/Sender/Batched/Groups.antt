-- ===== src/Sender/Batched/Groups.antt =====
-- The abstract side: a write is a priority chunk, if there is one, and some frames behind it.
use framer.Base.{
  ◌≡◌, refl, sym, ap, ◌∙◌, Bytes, List, [], ◌∷◌, ◌++◌, Option, none, some, append_assoc,
}
use framer.Sender.Batched.{Callback, Frame, WriteCmd, Event, Phase}

pub record Group : Type 0 where
  pub front : Option Bytes
  pub frames : List Frame

abbrev pub front_chunk : Option Bytes → List Bytes
front_chunk none = []
front_chunk (some c) = c ∷ []

abbrev pub chunks_of : List Frame → List Bytes
chunks_of [] = []
chunks_of (f ∷ fs) = f.chunks ++ chunks_of fs

abbrev pub cbs_of : List Frame → List Callback
cbs_of [] = []
cbs_of (f ∷ fs) = f.cbs ++ cbs_of fs

-- The command of a group: every frame's chunks, whole and in order, and just their callbacks.
abbrev pub command : Group → WriteCmd
command g = record {
  bufs = front_chunk g.front ++ chunks_of g.frames;
  on_release = cbs_of g.frames;
}

abbrev pub commands : List Group → List WriteCmd
commands [] = []
commands (g ∷ gs) = command g ∷ commands gs

abbrev pub frames_in : List Group → List Frame
frames_in [] = []
frames_in (g ∷ gs) = g.frames ++ frames_in gs

abbrev pub fronts_in : List Group → List Bytes
fronts_in [] = []
fronts_in (g ∷ gs) = front_chunk g.front ++ fronts_in gs

pub chunks_of-append : (fs gs : List Frame) → chunks_of (fs ++ gs) ≡ chunks_of fs ++ chunks_of gs
chunks_of-append [] gs = refl
chunks_of-append (f ∷ fs) gs =
    ap (◌++◌ f.chunks) (chunks_of-append fs gs)
    ∙ sym (append_assoc f.chunks (chunks_of fs) (chunks_of gs))

pub cbs_of-append : (fs gs : List Frame) → cbs_of (fs ++ gs) ≡ cbs_of fs ++ cbs_of gs
cbs_of-append [] gs = refl
cbs_of-append (f ∷ fs) gs =
    ap (◌++◌ f.cbs) (cbs_of-append fs gs) ∙ sym (append_assoc f.cbs (cbs_of fs) (cbs_of gs))

pub commands-append : (gs hs : List Group) → commands (gs ++ hs) ≡ commands gs ++ commands hs
commands-append [] hs = refl
commands-append (g ∷ gs) hs = ap (◌∷◌ (command g)) (commands-append gs hs)

pub frames_in-append : (gs hs : List Group) → frames_in (gs ++ hs) ≡ frames_in gs ++ frames_in hs
frames_in-append [] hs = refl
frames_in-append (g ∷ gs) hs =
    ap (◌++◌ g.frames) (frames_in-append gs hs)
    ∙ sym (append_assoc g.frames (frames_in gs) (frames_in hs))

pub fronts_in-append : (gs hs : List Group) → fronts_in (gs ++ hs) ≡ fronts_in gs ++ fronts_in hs
fronts_in-append [] hs = refl
fronts_in-append (g ∷ gs) hs =
    ap (◌++◌ (front_chunk g.front)) (fronts_in-append gs hs)
    ∙ sym (append_assoc (front_chunk g.front) (fronts_in gs) (fronts_in hs))

-- What was received while the loops ran: frames until the channel is closed, and priority chunks;
-- nothing after the context is done.
abbrev pub next_phase : Event → Phase → Phase
next_phase Event.flush Phase.batching = Phase.draining
next_phase Event.cancel p = Phase.stopped
next_phase _ p = p

abbrev pub frame_of : Event → Phase → List Frame
frame_of (Event.frame f) Phase.batching = f ∷ []
frame_of _ _ = []

abbrev pub front_of : Event → Phase → List Bytes
front_of _ Phase.stopped = []
front_of (Event.priority c) _ = c ∷ []
front_of _ _ = []

abbrev pub received_frames : Phase → List Event → List Frame
received_frames p [] = []
received_frames p (e ∷ es) = frame_of e p ++ received_frames (next_phase e p) es

abbrev pub received_fronts : Phase → List Event → List Bytes
received_fronts p [] = []
received_fronts p (e ∷ es) = front_of e p ++ received_fronts (next_phase e p) es
