-- ===== src/Reciever/Framer/Next.antt =====
-- One call of `Next`: it does not panic, and the bytes that it hands out are the bytes that it took.
use framer.Base.{
  ℕ, ◌+◌, ◌-◌, ◌≤◌, ◌<◌, ◌≡◌, refl, Bytes, [], ◌∷◌, ◌++◌, some, true, false, take, drop, length,
  length-append, length-take, length-drop, take-append-drop, append_assoc, append-nil, arith, inl,
  inr, ◌∙◌, ap, compare_cases, dec_lt,
}
use framer.FrameHeader.{length_field}
use framer.Reciever.Framer.{Framer, Status, fill_header, take_payload, next}
use framer.Reciever.Framer.Frames.{IsFrame}

-- Where the framer stands between two calls, `part` being what it handed out of an open frame.
pub data Shape (p : Framer) (part : Bytes) : Type 0 where
  reading_header : length p.current_header < 9 → part ≡ [] → Shape p part
  reading_payload :
      length p.current_header ≡ 9
      → 0 < p.payload_left
      → length_field p.current_header ≡ some (length part + p.payload_left)
      → Shape p part

-- The framer with its header complete.
record Headed (p : Framer) (part : Bytes) (q : Framer) : Type 0 where
  called : fill_header p ≡ some (q, true)
  nine : length q.current_header ≡ 9
  announced : length_field q.current_header ≡ some (length part + q.payload_left)
  kept : q.current_header ++ (part ++ q.buf) ≡ p.current_header ++ (part ++ p.buf)
  shorter : length q.buf ≤ length p.buf
  moves : length q.buf < length p.buf + q.payload_left

length_field-some : (f : Bytes) → length f ≡ 9 → (n : ℕ) × (length_field f ≡ some n)
unfolding length_field
length_field-some (a ∷ b ∷ c ∷ f) e = (_, refl)
length_field-some [] e = absurd (omega arith)
length_field-some (_ ∷ []) e = absurd (omega arith)
length_field-some (_ ∷ _ ∷ []) e = absurd (omega arith)

fill_header_short :
    (p : Framer)
    → length p.current_header + length p.buf < 9
    → fill_header p ≡ some (record p { current_header = p.current_header ++ p.buf }, false)
unfolding fill_header
fill_header_short p h = ground arith

fill_header_long :
    (p : Framer)
    → length p.current_header < 9
    → 9 ≤ length p.current_header + length p.buf
    → (q : Framer) × Headed p [] q
unfolding fill_header
fill_header_long p h k =
    let need = 9 - length p.current_header in
    let header = p.current_header ++ take need p.buf in
    let full : length header ≡ 9 =
      omega (arith, length-append p.current_header (take need p.buf), length-take need p.buf) in
    let (n, e) = length_field-some header full in
    (
      record p { current_header = header; buf = drop need p.buf; payload_left = n },
      record {
        called = ground (arith, e);
        nine = full;
        announced = e ∙ ap some (omega arith);
        kept =
            append_assoc p.current_header (take need p.buf) (drop need p.buf)
            ∙ ap (◌++◌ p.current_header) (take-append-drop need p.buf);
        shorter = omega (arith, length-drop need p.buf);
        moves = omega (arith, length-drop need p.buf);
      },
    )

fill_header_done :
    (p : Framer) (part : Bytes)
    → length p.current_header ≡ 9
    → 0 < p.payload_left
    → length_field p.current_header ≡ some (length part + p.payload_left)
    → Headed p part p
unfolding fill_header
fill_header_done p part h pos e = record {
  called = ground arith;
  nine = h;
  announced = e;
  kept = refl;
  shorter = omega arith;
  moves = omega arith;
}

-- What a call of `Next` does to a framer that handed out `part` of an open frame: the buffer ends
-- within the header, or it ends within the payload, or a frame ends, with or without bytes left.
pub data Outcome (p : Framer) (part : Bytes) : Type 0 where
  still_header :
      (q : Framer)
      → next p ≡ some ([], Status.header_incomplete, q)
      → Shape q part
      → q.current_header ++ part ≡ p.current_header ++ (part ++ p.buf)
      → Outcome p part
  still_payload :
      (b : Bytes) (q : Framer)
      → next p ≡ some (b, Status.payload_incomplete, q)
      → Shape q (part ++ b)
      → q.current_header ++ (part ++ b) ≡ p.current_header ++ (part ++ p.buf)
      → Outcome p part
  ended :
      (b : Bytes) (q : Framer)
      → next p ≡ some (b, Status.frame_done_buf_empty, q)
      → q.current_header ≡ []
      → IsFrame (record { header = q.header; payload = part ++ b })
      → q.header ++ (part ++ b) ≡ p.current_header ++ (part ++ p.buf)
      → Outcome p part
  went_on :
      (b : Bytes) (q : Framer)
      → next p ≡ some (b, Status.frame_done, q)
      → q.current_header ≡ []
      → length q.buf < length p.buf
      → IsFrame (record { header = q.header; payload = part ++ b })
      → q.header ++ ((part ++ b) ++ q.buf) ≡ p.current_header ++ (part ++ p.buf)
      → Outcome p part

next-Headed :
    (p : Framer) (part : Bytes) (q : Framer)
    → fill_header p ≡ some (q, true)
    → next p ≡ some (take_payload (record q { header = q.current_header }))
unfolding next
next-Headed p part q e = rw e

Headed-less :
    (p : Framer) (part : Bytes) (q : Framer)
    → Headed p part q
    → length q.buf < q.payload_left
    → Outcome p part
unfolding take_payload
Headed-less p part q h less =
    still_payload q.buf
      (record q { header = q.current_header; payload_left = q.payload_left - length q.buf })
      (next-Headed p part q h.called ∙ ground arith)
      (reading_payload h.nine (omega arith)
        (h.announced ∙ ap some (omega (arith, length-append part q.buf))))
      h.kept

Headed-equal :
    (p : Framer) (part : Bytes) (q : Framer)
    → Headed p part q
    → length q.buf ≡ q.payload_left
    → Outcome p part
unfolding take_payload
Headed-equal p part q h same =
    ended q.buf (record q { header = q.current_header; current_header = [] })
      (next-Headed p part q h.called ∙ ground arith) refl
      (record {
        nine = h.nine;
        announced = h.announced ∙ ap some (omega (arith, length-append part q.buf));
      })
      h.kept

Headed-more :
    (p : Framer) (part : Bytes) (q : Framer)
    → Headed p part q
    → q.payload_left < length q.buf
    → Outcome p part
unfolding take_payload
Headed-more p part q h more =
    let b = take q.payload_left q.buf in
    let rest = drop q.payload_left q.buf in
    went_on b (record q { header = q.current_header; buf = rest; current_header = [] })
      (next-Headed p part q h.called ∙ ground arith) refl
      (omega (arith, length-drop q.payload_left q.buf, h.moves, h.shorter))
      (record {
        nine = h.nine;
        announced =
            h.announced
            ∙ ap some (omega (arith, length-append part b, length-take q.payload_left q.buf));
      })
      (ap (◌++◌ q.current_header)
          (append_assoc part b rest ∙ ap (◌++◌ part) (take-append-drop q.payload_left q.buf))
        ∙ h.kept)

Headed-any : (p : Framer) (part : Bytes) (q : Framer) → Headed p part q → Outcome p part
Headed-any p part q h = elim (compare_cases (length q.buf) q.payload_left) [
  | inl less ↦ Headed-less p part q h less
  | inr (inl same) ↦ Headed-equal p part q h same
  | inr (inr more) ↦ Headed-more p part q h more
]

-- `Next` never panics, and every byte of the buffer is accounted for.
pub next-Outcome : (p : Framer) (part : Bytes) → Shape p part → Outcome p part
next-Outcome p part (reading_payload h pos e) =
    Headed-any p part p (fill_header_done p part h pos e)
next-Outcome p part (reading_header h empty) =
    elim (dec_lt (length p.current_header + length p.buf) 9) [
      | yes short ↦ rw empty (first_short p h short)
      | no long ↦ rw empty (let (q, w) = fill_header_long p h (omega arith) in Headed-any p [] q w)
    ]
  where
    first_short :
        (p : Framer)
        → length p.current_header < 9
        → length p.current_header + length p.buf < 9
        → Outcome p []
    first_short p h short =
        still_header (record p { current_header = p.current_header ++ p.buf })
          (unfold next in rw (fill_header_short p short))
          (reading_header (omega (arith, length-append p.current_header p.buf)) refl)
          (append-nil (p.current_header ++ p.buf))
