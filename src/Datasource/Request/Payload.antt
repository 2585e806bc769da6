-- ===== src/Datasource/Request/Payload.antt =====
-- The DATA frames of a message: one frame where it fits, and what becomes of a longer one.
use framer.Base.{
  ℕ, zero, suc, ◌+◌, ◌≤◌, ◌<◌, ◌≡◌, ◌≢◌, subst, refl, sym, ap, ◌∙◌, Bytes, List, [], ◌∷◌, ◌++◌,
  Option, some, if◌then◌else◌, ltb, ◌==◌, ==_iff, length, take, drop, take_all, length-take,
  length-drop, take-append-drop, concat, append_assoc, append-nil, Bool-cases, inl, inr, arith,
  u32_mod, u32, min,
}
use framer.FrameHeader.Layout.{layout, fill-layout}
use framer.Http2.{frame_data, flag_end_stream}
use framer.Datasource.Request.{Frame, Output, push, data_frame, data_frames}
use framer.Datasource.Request.Headers.{Announces, layout-Announces, same_output, after}

-- A frame of three chunks: a header that announces `len` bytes, the prefix, and a piece of the
-- message.
pub record IsData (len flags id : ℕ) (prefix b : Bytes) (f : Frame) : Type 0 where
  pub header : Bytes
  pub shape : f.chunks ≡ header ∷ prefix ∷ b ∷ []
  pub price : f.flow_control_price ≡ len
  pub announces : Announces header len frame_data flags id

-- The frames after the first. Each announces the length of its piece, and holds the five bytes of the
-- prefix besides. The last has END_STREAM only where its piece is not full.
pub data Tail (max id : ℕ) (prefix : Bytes) : List Bytes → List Frame → Type 0 where
  last :
      {b : Bytes} {f : Frame}
      → length b ≤ max
      → IsData (length b) (if ltb (length b) max then flag_end_stream else 0) id prefix b f
      → Tail max id prefix (b ∷ []) (f ∷ [])
  more :
      {b : Bytes} {f : Frame} {bs : List Bytes} {fs : List Frame}
      → length b ≡ max
      → 0 < length (concat bs)
      → IsData (length b) 0 id prefix b f
      → Tail max id prefix bs fs
      → Tail max id prefix (b ∷ bs) (f ∷ fs)

module _ (stale : ℕ → Bytes) (max id : ℕ) (nines : (k : ℕ) → length (stale k) ≡ 9) where
  abbrev pub framed : Bytes → Bytes → ℕ → ℕ → Frame
  framed prefix b len flags = record {
    chunks = layout len frame_data flags id ∷ prefix ∷ b ∷ [];
    flow_control_price = u32 len;
  }

  pub data_frame_lem :
      (prefix b : Bytes) (len flags : ℕ) (o : Output)
      → data_frame stale max id prefix b len flags o
        ≡ some (push (framed prefix b len flags) (9 + len) o)
  unfolding data_frame
  data_frame_lem prefix b len flags o =
      rw (fill-layout (stale o.handed_out) len frame_data flags id (nines o.handed_out))

  framed-IsData :
      (prefix b : Bytes) (len flags : ℕ)
      → len < 16777216
      → flags < 256
      → id < u32_mod
      → IsData len flags id prefix b (framed prefix b len flags)
  framed-IsData prefix b len flags hl hf hi = record {
    header = layout len frame_data flags id;
    shape = refl;
    price = omega arith;
    announces = layout-Announces len frame_data flags id hl (omega arith) hf hi;
  }

  pub framed-as :
      (prefix b b' : Bytes) (len len' flags flags' : ℕ)
      → b ≡ b'
      → len ≡ len'
      → flags ≡ flags'
      → len' < 16777216
      → flags' < 256
      → id < u32_mod
      → IsData len' flags' id prefix b' (framed prefix b len flags)
  framed-as prefix b b' len len' flags flags' p q r hl hf hi =
      subst (IsData len' flags' id prefix b') (λ i. framed prefix (sym p i) (sym q i) (sym r i))
        (framed-IsData prefix b' len' flags' hl hf hi)

  module _ (pos : 0 < max) (small : max < 16777216) (fits : id < u32_mod) (prefix : Bytes) where
    pub data_frames-Tail :
        (n : ℕ) (pl : Bytes) (o : Output)
        → length pl < n
        → (bs : List Bytes) × (fs : List Frame) × (data_frames stale max id prefix n pl o
            ≡ some (after o fs (length pl)))
          × (concat bs ≡ pl)
          × Tail max id prefix bs fs
    data_frames-Tail zero pl o h = absurd (omega arith)
    data_frames-Tail (suc n) pl o h = elim (Bool-cases (length left == 0)) [
      | inl e ↦
          let none_left : length left ≡ 0 = (==_iff _ _).0 e in
          let all : length pl ≤ k = omega (arith, length-drop k pl) in
          let whole : b ≡ pl = take_all k pl all in
          let same : length b ≡ k = ap length whole ∙ omega arith in
          (
            b ∷ [],
            f ∷ [],
            step
                ∙ ap (λ c. if c then some o' else again) e
                ∙ ap some (same_output _ _ refl (omega (arith, ap length whole)) refl),
            append-nil b ∙ whole,
            Tail.last (omega arith)
                (rw same (framed-IsData prefix b k flags (omega arith) flags-lt fits)),
          )
      | inr e ↦
          let some_left : length left ≢ 0 = λ z. cc ((==_iff _ _).1 z) in
          let full : k ≡ max = omega (arith, length-drop k pl) in
          let same : length b ≡ k = omega (arith, length-take k pl) in
          let (bs, fs, run, joined, tail) =
            data_frames-Tail n left o' (omega (arith, length-drop k pl)) in
          (
            b ∷ bs,
            f ∷ fs,
            step
                ∙ ap (λ c. if c then some o' else again) e
                ∙ run
                ∙ ap some (
                    same_output _ _ (append_assoc o.frames (f ∷ []) fs)
                      (omega (arith, length-drop k pl)) (omega arith)),
            ap (◌++◌ b) joined ∙ take-append-drop k pl,
            Tail.more (omega arith) (omega (arith, ap length joined))
                (framed-as prefix b b k (length b) flags 0 refl (sym same) (unended full)
                  (omega arith) (omega arith) fits)
                tail,
          )
    ]
      where
        k : ℕ
        k = min (length pl) max

        b : Bytes
        b = take k pl

        left : Bytes
        left = drop k pl

        flags : ℕ
        flags = if ltb k max then flag_end_stream else 0

        flags-lt : flags < 256
        flags-lt = ground arith

        unended : k ≡ max → flags ≡ 0
        unended full = ground arith

        f : Frame
        f = framed prefix b k flags

        o' : Output
        o' = push f (9 + k) o

        again : Option Output
        again = data_frames stale max id prefix n left o'

        step :
            data_frames stale max id prefix (suc n) pl o
            ≡ (if length left == 0 then some o' else again)
        step = unfold data_frames in rw (data_frame_lem prefix b k flags o)
