-- ===== src/Reciever/Loop/Chunks.antt =====
-- The pieces that the processors get, put together to frames, and one buffer taken to its end.
use framer.Base.{
  ℕ, zero, suc, ◌<◌, ◌≡◌, refl, ◌∙◌, ap, Bytes, List, [], ◌∷◌, ◌++◌, some, true, false, length, All,
  append_assoc, append-nil, arith,
}
use framer.Reciever.Framer.{Framer, Status, next}
use framer.Reciever.Framer.Frames.{Frame, IsFrame, wire}
use framer.Reciever.Framer.Next.{Shape, Outcome, next-Outcome}
use framer.Reciever.Loop.Drains.{Event, Drains}

-- The pieces put together: the frames that ended, and what is there of an open payload. `part` is
-- what came before.
unfoldable pub frames_of : Bytes → List Event → List Frame
frames_of part [] = []
frames_of part (e ∷ es) = elim e.incomplete [
  | true ↦ frames_of (part ++ e.fragment) es
  | false ↦ record { header = e.header; payload = part ++ e.fragment } ∷ frames_of [] es
]

unfoldable pub open_part : Bytes → List Event → Bytes
open_part part [] = part
open_part part (e ∷ es) = elim e.incomplete [
  | true ↦ open_part (part ++ e.fragment) es
  | false ↦ open_part [] es
]

pub frames_of-append :
    (part : Bytes) (es fs : List Event)
    → frames_of part (es ++ fs) ≡ frames_of part es ++ frames_of (open_part part es) fs
unfolding frames_of open_part
frames_of-append part [] fs = refl
frames_of-append part (e ∷ es) fs =
    ground (arith, frames_of-append (part ++ e.fragment) es fs, frames_of-append [] es fs)

pub open_part-append :
    (part : Bytes) (es fs : List Event)
    → open_part part (es ++ fs) ≡ open_part (open_part part es) fs
unfolding open_part
open_part-append part [] fs = refl
open_part-append part (e ∷ es) fs =
    ground (arith, open_part-append (part ++ e.fragment) es fs, open_part-append [] es fs)

-- What one buffer comes to: whole frames, and a framer that stands at their end.
pub record Drained (p : Framer) (part : Bytes) (es : List Event) (q : Framer) : Type 0 where
  pub drains : Drains p es q
  pub shape : Shape q (open_part part es)
  pub whole : All IsFrame (frames_of part es)
  pub spelled :
      wire (frames_of part es) ++ (q.current_header ++ open_part part es)
      ≡ p.current_header ++ (part ++ p.buf)

Drained-open :
    (p : Framer) (part b : Bytes) (q : Framer)
    → next p ≡ some (b, Status.payload_incomplete, q)
    → Shape q (part ++ b)
    → q.current_header ++ (part ++ b) ≡ p.current_header ++ (part ++ p.buf)
    → (es : List Event) × (q : Framer) × Drained p part es q
unfolding frames_of open_part
Drained-open p part b q e w k =
    (_, q, record { drains = Drains.open_end p b q e; shape = w; whole = tt; spelled = k })

empty_Shape : (q : Framer) → q.current_header ≡ [] → Shape q []
empty_Shape q empty = Shape.reading_header (omega (arith, ap length empty)) refl

Drained-clean :
    (p : Framer) (part b : Bytes) (q : Framer)
    → next p ≡ some (b, Status.frame_done_buf_empty, q)
    → q.current_header ≡ []
    → IsFrame (record { header = q.header; payload = part ++ b })
    → q.header ++ (part ++ b) ≡ p.current_header ++ (part ++ p.buf)
    → (es : List Event) × (q : Framer) × Drained p part es q
unfolding frames_of open_part
Drained-clean p part b q e empty f k = (
  _,
  q,
  record {
    drains = Drains.clean_end p b q e;
    shape = empty_Shape q empty;
    whole = (f, tt);
    spelled = rw empty (simp append-nil k);
  },
)

Drained-more :
    (p : Framer) (part b : Bytes) (q : Framer) (es : List Event) (r : Framer)
    → next p ≡ some (b, Status.frame_done, q)
    → q.current_header ≡ []
    → length q.buf < length p.buf
    → IsFrame (record { header = q.header; payload = part ++ b })
    → q.header ++ ((part ++ b) ++ q.buf) ≡ p.current_header ++ (part ++ p.buf)
    → Drained q [] es r
    → (es : List Event) × (q : Framer) × Drained p part es q
unfolding frames_of open_part
Drained-more p part b q es r e empty less f k d = (
  _,
  r,
  record {
    drains = Drains.more p b q es r e less d.drains;
    shape = d.shape;
    whole = (f, d.whole);
    spelled =
        append_assoc q.header _ _
        ∙ ap (◌++◌ q.header) (
            append_assoc (part ++ b) _ _
            ∙ ap (◌++◌ (part ++ b)) (d.spelled ∙ ap (λ h. h ++ q.buf) empty))
        ∙ k;
  },
)

-- Every buffer is taken to its end.
pub drained :
    (n : ℕ) (p : Framer) (part : Bytes)
    → length p.buf < n
    → Shape p part
    → (es : List Event) × (q : Framer) × Drained p part es q
drained zero p part h w = absurd (omega arith)
drained (suc n) p part h w = elim (next-Outcome p part w) [
  | Outcome.still_header q e w' k ↦ (
    [],
    q,
    record {
      drains = Drains.head_only p q e;
      shape = unfold open_part in w';
      whole = unfold frames_of in tt;
      spelled = unfold frames_of open_part in k;
    },
  )
  | Outcome.still_payload b q e w' k ↦ Drained-open p part b q e w' k
  | Outcome.ended b q e empty f k ↦ Drained-clean p part b q e empty f k
  | Outcome.went_on b q e empty less f k ↦
      let (es, r, d) = drained n q [] (omega arith) (empty_Shape q empty) in
      Drained-more p part b q es r e empty less f k d
]
