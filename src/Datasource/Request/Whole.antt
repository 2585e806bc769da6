-- ===== src/Datasource/Request/Whole.antt =====
-- Whole requests: the order of the header fields, the frames of a request that fits, and the message
-- lengths at which no frame ends the stream.
use framer.Base.{
  ℕ, zero, suc, ◌+◌, ◌*◌, ◌-◌, ◌≤◌, ◌<◌, ◌≡◌, refl, ap, ◌∙◌, Bytes, List, [], ◌∷◌, ◌++◌, some,
  false, if◌then◌else◌, ltb, length, concat, append_assoc, length-append, Bool-cases, inl, inr,
  arith, u32_mod, All, All-append, codes,
}
use framer.FrameHeader.{flags_field}
use framer.Http2.{frame_headers, flag_end_stream}
use framer.Datasource.Middleware.{
  Field, MetaMiddleware, DefaultMiddleware, new_default_middleware, is_allowed, as_middleware,
}
use framer.Datasource.Middleware.Fields.{
  IsPseudo, IsRegular, new_default_middleware-IsSorted, is_allowed-IsRegular,
}
use framer.Datasource.Request.{
  Frame, Output, Request, HpackEncoder, allowed, header_fields, header_list_size, write_fields,
  payload_prefix, set_up_payload, header_frames, set_up_headers, set_up,
}
use framer.Datasource.Request.Headers.{Block, after, empty, header_frames-Block, same_output}
use framer.Datasource.Request.Payload.{IsData, Tail}
use framer.Datasource.Request.Message.{payload-fits, payload-long}

allowed-IsRegular :
    (m : DefaultMiddleware) (fs : List Field) → All IsRegular (allowed (as_middleware m) fs)
unfolding allowed as_middleware
allowed-IsRegular m [] = tt
allowed-IsRegular m (f ∷ fs) = elim (Bool-cases (is_allowed m f.0)) [
  | inl e ↦ rw e (is_allowed-IsRegular m f.0 e, allowed-IsRegular m fs)
  | inr e ↦ rw e (allowed-IsRegular m fs)
]

-- Whatever the additional headers and the metadata of a request are, the fields that are written are
-- `:path` with the request's method first, then fields that are all pseudo-header fields, and then
-- fields none of which is one.
pub header_fields-sorted :
    (next : MetaMiddleware) (hs : List Bytes) (m : DefaultMiddleware) (r : Request)
    → new_default_middleware next hs ≡ some m
    → (ps rs : List Field) × (header_fields (as_middleware m) r
        ≡ (codes ":path", r.method) ∷ (ps ++ rs))
      × All IsPseudo ps
      × All IsRegular rs
unfolding header_fields as_middleware
header_fields-sorted next hs m r e =
    let s = new_default_middleware-IsSorted next hs m e in
    let metadata = allowed (as_middleware m) r.metadata in
    (
      m.static_pseudo,
      m.static_regular ++ metadata,
      ap
            (λ next_fields.
              (codes ":path", r.method)
              ∷ ((m.static_pseudo ++ (next_fields ++ m.static_regular)) ++ metadata))
            (ap (λ n. n.additional) s.last)
          ∙ ap (◌∷◌ (codes ":path", r.method))
              (append_assoc m.static_pseudo m.static_regular metadata),
      s.pseudo,
      All-append IsRegular m.static_regular metadata s.regular (allowed-IsRegular m r.metadata),
    )

-- A frame whose flags are 0.
abbrev pub Unended : Frame → Type 0
Unended f =
    (header : Bytes) × (rest : List Bytes) × (f.chunks ≡ header ∷ rest)
    × (flags_field header ≡ some 0)

data-Unended : (len id : ℕ) (prefix b : Bytes) (f : Frame) → IsData len 0 id prefix b f → Unended f
data-Unended len id prefix b f d = (d.header, _, d.shape, d.announces.flags_read)

Tail-Unended :
    (max id : ℕ) (prefix : Bytes) (bs : List Bytes) (fs : List Frame) (k : ℕ)
    → Tail max id prefix bs fs
    → length (concat bs) ≡ k * max
    → 0 < length (concat bs)
    → All Unended fs
Tail-Unended max id prefix _ _ zero t e h = absurd (omega arith)
Tail-Unended max id prefix _ _ (suc k) (Tail.last {b} {f} fits d) e h =
    let full : length b ≡ max = omega (arith, length-append b []) in
    let flag : (if ltb (length b) max then flag_end_stream else 0) ≡ 0 = ground arith in
    (data-Unended (length b) id prefix b f (rw flag at d), tt)
Tail-Unended max id prefix _ _ (suc k) (Tail.more {b} {f} {bs} {fs} full left d t) e h = (
  data-Unended (length b) id prefix b f d,
  Tail-Unended max id prefix bs fs k t (omega (arith, length-append b (concat bs))) left,
)

length-Tail :
    {max id : ℕ} {prefix : Bytes} {bs : List Bytes} {fs : List Frame}
    → Tail max id prefix bs fs
    → 0 < length fs
length-Tail (Tail.last h d) = omega arith
length-Tail (Tail.more h g d t) = omega arith

module _ (stale : ℕ → Bytes) (max id : ℕ) (nines : (k : ℕ) → length (stale k) ≡ 9)
    (small : max < 16777216) (fits : id < u32_mod) (room : 5 ≤ max) where
  -- A message that fills its first frame and then one or more frames exactly is sent with no
  -- END_STREAM flag at all.
  pub payload-Unended :
      (pl : Bytes) (o : Output) (k : ℕ)
      → length pl ≡ (max - 5) + suc k * max
      → (fs : List Frame) × (set_up_payload stale max id pl o ≡ some (after o fs (length pl + 5)))
        × (1 < length fs)
        × All Unended fs
  payload-Unended pl o k e =
      let (b, f, bs, fs, run, joined, size, d, t) =
        payload-long stale max id nines small fits room pl o (omega arith) in
      let rest : length (concat bs) ≡ suc k * max =
        omega (arith, ap length joined, length-append b (concat bs)) in
      (
        f ∷ fs,
        run,
        omega (arith, length-Tail t),
        (
          data-Unended max id (payload_prefix (length pl)) b f d,
          Tail-Unended max id (payload_prefix (length pl)) bs fs (suc k) t rest (omega arith),
        ),
      )

  module _ (H : HpackEncoder) (mw : MetaMiddleware) (max_list : ℕ) where
    headers_made :
        (e : H.Encoder) (r : Request) (o : Output)
        → let w = write_fields H e (header_fields mw r) [] in
          header_list_size mw r ≤ max_list
          → header_frames stale max id (suc (length w.1)) w.1 empty ≡ some o
          → set_up_headers H stale mw max max_list id e r ≡ some (w.0, false, o)
    unfolding set_up_headers
    headers_made e r o h made =
        let e' : ltb max_list (header_list_size mw r) ≡ false = ground arith in rw (e', made)

    -- A request whose headers are within the limit and whose message fits in a frame: `SetUp`
    -- succeeds; its frames are the header block, whole and in order, and one DATA frame with the
    -- prefix and the message that ends the stream; and the size is that of all their bytes.
    pub set_up-fits :
        (e : H.Encoder) (r : Request)
        → header_list_size mw r ≤ max_list
        → length r.message + 5 ≤ max
        → let w = write_fields H e (header_fields mw r) [] in
          (bs : List Bytes) × (fs : List Frame) × (f : Frame) × (set_up H stale mw max max_list id e
              r
            ≡ some (
              w.0,
              false,
              record {
                frames = fs ++ f ∷ [];
                size = 9 * length (fs ++ f ∷ []) + length w.1 + (length r.message + 5);
                handed_out = length (fs ++ f ∷ []);
              },
            ))
          × (concat bs ≡ w.1)
          × Block max id frame_headers bs fs
          × IsData
              (length r.message + 5)
              flag_end_stream
              id
              (payload_prefix (length r.message))
              r.message
              f
    unfolding set_up
    set_up-fits e r small_list fit =
        let w = write_fields H e (header_fields mw r) [] in
        let (bs, fs, run, joined, block) =
          header_frames-Block stale max id nines (omega arith) small fits (suc (length w.1)) w.1
            empty (omega arith) in
        let (f, sent, d) =
          payload-fits stale max id nines small fits room r.message (after empty fs (length w.1))
            fit in
        (
          bs,
          fs,
          f,
          rw (headers_made e r (after empty fs (length w.1)) small_list run, sent)
              (ap (λ o. some (w.0, false, o))
                (same_output _ _ refl (omega (arith, length-append fs (f ∷ [])))
                  (omega (arith, length-append fs (f ∷ []))))),
          joined,
          block,
          d,
        )
