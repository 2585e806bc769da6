-- ===== src/Datasource/Request/Message.antt =====
-- `setUpPayload` as a whole: a message that fits in one frame, and a longer one.
use framer.Base.{
  ℕ, suc, ◌+◌, ◌-◌, ◌≤◌, ◌<◌, ◌≡◌, ◌≢◌, refl, ap, ◌∙◌, Bytes, List, [], ◌∷◌, ◌++◌, some, true,
  false, if◌then◌else◌, ltb, ◌==◌, ==_iff, length, take, drop, take_all, length-take, length-drop,
  take-append-drop, concat, append_assoc, arith, u32_mod, min,
}
use framer.Http2.{flag_end_stream}
use framer.Datasource.Request.{Frame, Output, push, payload_prefix, data_frames, set_up_payload}
use framer.Datasource.Request.Payload.{
  IsData, Tail, framed, data_frame_lem, framed-as, data_frames-Tail,
}
use framer.Datasource.Request.Headers.{same_output, after}

module _ (stale : ℕ → Bytes) (max id : ℕ) (nines : (k : ℕ) → length (stale k) ≡ 9)
    (small : max < 16777216) (fits : id < u32_mod) (room : 5 ≤ max) where
  first_step :
      (pl : Bytes) (o : Output)
      → let k = min (length pl) (max - 5) in
        let prefix = payload_prefix (length pl) in
        let left = drop k pl in
        let flags = if length left == 0 then flag_end_stream else 0 in
        let o' =
          push (framed stale max id nines prefix (take k pl) (k + 5) flags) (9 + (k + 5)) o in
        set_up_payload stale max id pl o ≡ (
          if length left == 0
          then some o'
          else data_frames stale max id prefix (suc (length left)) left o')
  unfolding set_up_payload
  first_step pl o =
      let e : ltb max 5 ≡ false = ground arith in
      rw (
        e,
        data_frame_lem stale max id nines (payload_prefix (length pl))
            (take (min (length pl) (max - 5)) pl) (min (length pl) (max - 5) + 5) _ o,
      )

  -- A message that fits with its prefix makes one DATA frame, which announces both, carries them
  -- in that order and ends the stream.
  pub payload-fits :
      (pl : Bytes) (o : Output)
      → length pl + 5 ≤ max
      → (f : Frame) × (set_up_payload stale max id pl o ≡ some (after o (f ∷ []) (length pl + 5)))
        × IsData (length pl + 5) flag_end_stream id (payload_prefix (length pl)) pl f
  payload-fits pl o h =
      let k = min (length pl) (max - 5) in
      let prefix = payload_prefix (length pl) in
      let size : k ≡ length pl = omega arith in
      let none_left : length (drop k pl) ≡ 0 = omega (arith, length-drop k pl) in
      let done : (length (drop k pl) == 0) ≡ true = (==_iff _ _).1 none_left in
      let flags = if length (drop k pl) == 0 then flag_end_stream else 0 in
      let ended : flags ≡ flag_end_stream = rw done in
      let whole : take k pl ≡ pl = take_all k pl (omega arith) in
      let f = framed stale max id nines prefix (take k pl) (k + 5) flags in
      (
        f,
        first_step pl o
            ∙ ap
                (λ c.
                  if c
                  then some (push f (9 + (k + 5)) o)
                  else data_frames stale max id prefix (suc (length (drop k pl))) (drop k pl)
                      (push f (9 + (k + 5)) o))
                done
            ∙ ap some (same_output _ _ refl (omega arith) refl),
        framed-as stale max id nines prefix (take k pl) pl (k + 5) (length pl + 5) flags
            flag_end_stream whole (omega arith) ended (omega arith) (omega arith) fits,
      )

  -- A longer message: the first frame is full and does not end the stream, the pieces make up the
  -- message, and the frames after the first are a `Tail`: each carries five bytes more than it
  -- announces.
  pub payload-long :
      (pl : Bytes) (o : Output)
      → max < length pl + 5
      → (b : Bytes) × (f : Frame) × (bs : List Bytes) × (fs : List Frame) × (set_up_payload stale
            max id pl o
          ≡ some (after o (f ∷ fs) (length pl + 5)))
        × (b ++ concat bs ≡ pl)
        × (length b ≡ max - 5)
        × IsData max 0 id (payload_prefix (length pl)) b f
        × Tail max id (payload_prefix (length pl)) bs fs
  payload-long pl o h =
      let k = min (length pl) (max - 5) in
      let prefix = payload_prefix (length pl) in
      let left = drop k pl in
      let some_left : length left ≢ 0 = omega (arith, length-drop k pl) in
      let more : (length left == 0) ≡ false = ground arith in
      let flags = if length left == 0 then flag_end_stream else 0 in
      let unended : flags ≡ 0 = rw more in
      let f = framed stale max id nines prefix (take k pl) (k + 5) flags in
      let (bs, fs, run, joined, tail) =
        data_frames-Tail stale max id nines (omega arith) small fits prefix (suc (length left)) left
          (push f (9 + (k + 5)) o) (omega arith) in
      (
        take k pl,
        f,
        bs,
        fs,
        first_step pl o
            ∙ ap
                (λ c.
                  if c
                  then some (push f (9 + (k + 5)) o)
                  else data_frames stale max id prefix (suc (length left)) left
                      (push f (9 + (k + 5)) o))
                more
            ∙ run
            ∙ ap some (
                same_output _ _ (append_assoc o.frames (f ∷ []) fs)
                  (omega (arith, length-drop k pl)) (omega arith)),
        ap (◌++◌ (take k pl)) joined ∙ take-append-drop k pl,
        omega (arith, length-take k pl),
        framed-as stale max id nines prefix (take k pl) (take k pl) (k + 5) max flags 0 refl
            (omega arith) unended (omega arith) (omega arith) fits,
        tail,
      )
