-- ===== src/Datasource/Request/Headers.antt =====
-- The frames of a header block.
use framer.Base.{
  ℕ, zero, suc, ◌+◌, ◌*◌, ◌<◌, ◌≡◌, refl, ap, ◌∙◌, Bytes, List, [], ◌∷◌, ◌++◌, Option, some,
  if◌then◌else◌, ltb, ltb→lt, length, take, drop, take_all, length-take, length-drop,
  take-append-drop, concat, append_assoc, append-nil, Bool-cases, inl, inr, arith, u32_mod,
}
use framer.FrameHeader.{
  length_field, type_field, flags_field, stream_id_field, set_length, set_type, set_flags,
  set_stream_id,
}
use framer.FrameHeader.Layout.{layout, nine}
use framer.FrameHeader.Fields.{fields-layout}
use framer.Http2.{frame_continuation, flag_end_headers}
use framer.Datasource.Request.{Frame, Output, push, header_type, header_frame, header_frames}

-- A header that the four readers read back.
pub record Announces (header : Bytes) (len t flags id : ℕ) : Type 0 where
  pub nine : length header ≡ 9
  pub len_field : length_field header ≡ some len
  pub type_read : type_field header ≡ some t
  pub flags_read : flags_field header ≡ some flags
  pub id_read : stream_id_field header ≡ some id

pub layout-Announces :
    (len t flags id : ℕ)
    → len < 16777216
    → t < 256
    → flags < 256
    → id < u32_mod
    → Announces (layout len t flags id) len t flags id
layout-Announces len t flags id a b c d =
    let (w, x, y, z) = fields-layout len t flags id a b c d in
    record { nine = refl; len_field = w; type_read = x; flags_read = y; id_read = z }

-- A frame of two chunks: a header that announces the piece of the block, and the piece.
pub record IsPiece (t flags id : ℕ) (b : Bytes) (f : Frame) : Type 0 where
  pub header : Bytes
  pub shape : f.chunks ≡ header ∷ b ∷ []
  pub free : f.flow_control_price ≡ 0
  pub announces : Announces header (length b) t flags id

-- A block in pieces: all but the last are full, and the last, which is shorter, has END_HEADERS. The
-- first has the type that is given, and the others are CONTINUATION frames.
pub data Block (max id : ℕ) : ℕ → List Bytes → List Frame → Type 0 where
  last :
      {t : ℕ} {b : Bytes} {f : Frame}
      → length b < max
      → IsPiece t flag_end_headers id b f
      → Block max id t (b ∷ []) (f ∷ [])
  more :
      {t : ℕ} {b : Bytes} {f : Frame} {bs : List Bytes} {fs : List Frame}
      → length b ≡ max
      → IsPiece t 0 id b f
      → Block max id frame_continuation bs fs
      → Block max id t (b ∷ bs) (f ∷ fs)

header_type_later : (fs : List Frame) (f : Frame) → header_type (fs ++ f ∷ []) ≡ frame_continuation
header_type_later [] f = refl
header_type_later (g ∷ fs) f = refl

header_type-lt : (fs : List Frame) → header_type fs < 256
header_type-lt [] = omega arith
header_type-lt (f ∷ fs) = omega arith

-- Two states of the adapter with the same fields.
pub same_output :
    (o p : Output) → o.frames ≡ p.frames → o.size ≡ p.size → o.handed_out ≡ p.handed_out → o ≡ p
same_output o p a b c = λ i. record { frames = a i; size = b i; handed_out = c i }

abbrev pub empty : Output
empty = record { frames = []; size = 0; handed_out = 0 }

-- The adapter once frames of `n` bytes in all are added.
abbrev pub after : Output → List Frame → ℕ → Output
after o fs n = record {
  frames = o.frames ++ fs;
  size = o.size + (9 * length fs + n);
  handed_out = o.handed_out + length fs;
}

module _ (stale : ℕ → Bytes) (max id : ℕ) (nines : (k : ℕ) → length (stale k) ≡ 9) where
  abbrev flags_of : Bytes → ℕ
  flags_of b = if ltb (length b) max then flag_end_headers else 0

  abbrev piece : ℕ → Bytes → Frame
  piece t b = record {
    chunks = layout (length b) t (flags_of b) id ∷ b ∷ [];
    flow_control_price = 0;
  }

  header_frame_lem :
      (b : Bytes) (o : Output)
      → header_frame stale max id b o
        ≡ some (push (piece (header_type o.frames) b) (9 + length b) o)
  unfolding header_frame set_length set_type set_flags set_stream_id
  header_frame_lem b o =
      let (a1, a2, a3, a4, a5, a6, a7, a8, a9, shape) =
        nine (stale o.handed_out) (nines o.handed_out) in
      rw shape

  piece-IsPiece :
      (t flags : ℕ) (b : Bytes)
      → flags_of b ≡ flags
      → length b < 16777216
      → t < 256
      → flags < 256
      → id < u32_mod
      → IsPiece t flags id b (piece t b)
  piece-IsPiece t flags b e hb ht hf hi = record {
    header = layout (length b) t (flags_of b) id;
    shape = refl;
    free = refl;
    announces = rw e (layout-Announces (length b) t flags id hb ht hf hi);
  }

  header_frames_step :
      (n : ℕ) (buf : Bytes) (o : Output)
      → let b = take max buf in
        let o' = push (piece (header_type o.frames) b) (9 + length b) o in
        header_frames stale max id (suc n) buf o
        ≡ (if ltb (length b) max then some o' else header_frames stale max id n (drop max buf) o')
  unfolding header_frames
  header_frames_step n buf o = rw (header_frame_lem (take max buf) o)

  module _ (pos : 0 < max) (small : max < 16777216) (fits : id < u32_mod) where
    -- From any state of the adapter, with enough fuel the loop makes a block of the bytes.
    pub header_frames-Block :
        (n : ℕ) (buf : Bytes) (o : Output)
        → length buf < n
        → (bs : List Bytes) × (fs : List Frame) × (header_frames stale max id n buf o
            ≡ some (after o fs (length buf)))
          × (concat bs ≡ buf)
          × Block max id (header_type o.frames) bs fs
    header_frames-Block zero buf o h = absurd (omega arith)
    header_frames-Block (suc n) buf o h = elim (Bool-cases (ltb (length b) max)) [
      | inl e ↦
          let whole : b ≡ buf =
            take_all max buf (omega (arith, ltb→lt (length b) max e, length-take max buf)) in
          (
            b ∷ [],
            f ∷ [],
            header_frames_step n buf o
                ∙ ap (λ c. if c then some o' else again) e
                ∙ ap some (same_output _ _ refl (omega (arith, ap length whole)) refl),
            append-nil b ∙ whole,
            Block.last (ltb→lt (length b) max e) (
                piece-IsPiece t flag_end_headers b (rw e) (omega (arith, ltb→lt (length b) max e))
                  (header_type-lt o.frames) (omega arith) fits),
          )
      | inr e ↦
          let full : length b ≡ max = ground (arith, length-take max buf) in
          let (bs, fs, run, joined, block) =
            header_frames-Block n (drop max buf) (push f (9 + length b) o)
              (omega (arith, length-drop max buf, length-take max buf)) in
          (
            b ∷ bs,
            f ∷ fs,
            header_frames_step n buf o
                ∙ ap (λ c. if c then some o' else again) e
                ∙ run
                ∙ ap some (
                    same_output _ _ (append_assoc o.frames (f ∷ []) fs)
                      (omega (arith, length-drop max buf, length-take max buf)) (omega arith)),
            ap (◌++◌ b) joined ∙ take-append-drop max buf,
            Block.more full
                (piece-IsPiece t 0 b (rw e) (omega arith) (header_type-lt o.frames) (omega arith)
                  fits)
                (rw (header_type_later o.frames f) at block),
          )
    ]
      where
        b : Bytes
        b = take max buf

        t : ℕ
        t = header_type o.frames

        f : Frame
        f = piece t b

        o' : Output
        o' = push f (9 + length b) o

        again : Option Output
        again = header_frames stale max id n (drop max buf) o'
