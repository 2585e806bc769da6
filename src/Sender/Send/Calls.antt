-- ===== src/Sender/Send/Calls.antt =====
-- What a request puts on the channel, and under which identifiers streams are stored.
use framer.Base.{
  ℕ, suc, ◌+◌, ◌-◌, ◌<◌, ◌≡◌, refl, sym, ap, ◌∙◌, Bytes, List, [], ◌∷◌, ◌++◌, Option, none, some,
  Bool, if◌then◌else◌, ◌==◌, ◌&&◌, length, take, append-nil, Bool-cases, inl, inr, arith, All,
  All-append, u32, ltb,
}
use framer.Datasource.Request as Request
use framer.Sender.Batched.{Frame, Callback}
use framer.Sender.Batched.Groups.{cbs_of}
use framer.Sender.Send.{Call, Prepared, Req, cbs_at, send_frames, send_on, send, send_all}
use framer.Streams.Store.Sharded.{IsOdd}

-- The frames that were pushed, and the identifiers that were stored.
abbrev pub pushes : List Call → List Frame
pushes [] = []
pushes (Call.push f ∷ cs) = f ∷ pushes cs
pushes (_ ∷ cs) = pushes cs

abbrev pub stored : List Call → List ℕ
stored [] = []
stored (Call.store_set id ∷ cs) = id ∷ stored cs
stored (_ ∷ cs) = stored cs

abbrev pub chunks_sent : List Frame → List (List Bytes)
chunks_sent [] = []
chunks_sent (f ∷ fs) = f.chunks ∷ chunks_sent fs

abbrev pub chunks_asked : List Request.Frame → List (List Bytes)
chunks_asked [] = []
chunks_asked (f ∷ fs) = f.chunks ∷ chunks_asked fs

-- The callbacks of `n` of `len` frames.
abbrev pub callbacks : ℕ → ℕ → ℕ → ℕ → List Callback
callbacks id i n len =
    (if (i == 0) && ltb 0 n then Callback.first_byte_sent id ∷ [] else [])
    ++ (if n == len then Callback.last_byte_sent id ∷ Callback.request_release id ∷ [] else [])

callbacks_none : (id i len : ℕ) → 0 < len → callbacks id i 0 len ≡ []
callbacks_none id i len h = ground arith

callbacks_one :
    (id last_index i : ℕ) → i ≡ last_index → cbs_at id last_index i ++ [] ≡ callbacks id i 1 1
callbacks_one id last_index i e = ground (arith, append-nil (cbs_at id last_index i))

callbacks_more :
    (id last_index i n len : ℕ)
    → i < last_index
    → cbs_at id last_index i ++ callbacks id (i + 1) n len ≡ callbacks id i (suc n) (suc len)
callbacks_more id last_index i n len h = ground arith

module _ (stream_ok conn_ok : ℕ → Bool) where
  -- How many of the frames both windows let through, from the first on.
  pub granted : ℕ → List Request.Frame → ℕ
  granted i [] = 0
  granted i (f ∷ fs) = if stream_ok i && conn_ok i then suc (granted (i + 1) fs) else 0

  frames_pushed :
      (id last_index i : ℕ) (fs : List Request.Frame)
      → chunks_sent (pushes (send_frames stream_ok conn_ok id last_index i fs))
        ≡ take (granted i fs) (chunks_asked fs)
  unfolding send_frames granted
  frames_pushed id last_index i [] = refl
  frames_pushed id last_index i (f ∷ fs) = elim (Bool-cases (stream_ok i)) [
    | inr no_stream ↦ rw no_stream
    | inl ok_stream ↦ elim (Bool-cases (conn_ok i)) [
      | inr no_conn ↦ rw (ok_stream, no_conn)
      | inl ok_conn ↦
          rw (ok_stream, ok_conn) (ap (◌∷◌ f.chunks) (frames_pushed id last_index (i + 1) fs))
    ]
  ]

  callbacks_pushed :
      (id last_index i : ℕ) (f : Request.Frame) (fs : List Request.Frame)
      → i + length fs ≡ last_index
      → cbs_of (pushes (send_frames stream_ok conn_ok id last_index i (f ∷ fs)))
        ≡ callbacks id i (granted i (f ∷ fs)) (suc (length fs))
  unfolding send_frames granted
  callbacks_pushed id last_index i f [] e = elim (Bool-cases (stream_ok i)) [
    | inr no_stream ↦ rw no_stream (sym (callbacks_none id i 1 (omega arith)))
    | inl ok_stream ↦ elim (Bool-cases (conn_ok i)) [
      | inr no_conn ↦ rw (ok_stream, no_conn) (sym (callbacks_none id i 1 (omega arith)))
      | inl ok_conn ↦ rw (ok_stream, ok_conn) (callbacks_one id last_index i (omega arith))
    ]
  ]
  callbacks_pushed id last_index i f (g ∷ gs) e = elim (Bool-cases (stream_ok i)) [
    | inr no_stream ↦ rw no_stream (sym (callbacks_none id i (suc (suc (length gs))) (omega arith)))
    | inl ok_stream ↦ elim (Bool-cases (conn_ok i)) [
      | inr no_conn ↦
          rw (ok_stream, no_conn) (sym (callbacks_none id i (suc (suc (length gs))) (omega arith)))
      | inl ok_conn ↦
          rw (ok_stream, ok_conn)
            (ap (◌++◌ (cbs_at id last_index i))
                (callbacks_pushed id last_index (i + 1) g gs (omega arith))
              ∙ callbacks_more id last_index i (granted (i + 1) (g ∷ gs)) (suc (length gs))
                  (omega arith))
    ]
  ]

  stored_frames :
      (id last_index i : ℕ) (fs : List Request.Frame)
      → stored (send_frames stream_ok conn_ok id last_index i fs) ≡ []
  unfolding send_frames
  stored_frames id last_index i [] = refl
  stored_frames id last_index i (f ∷ fs) = elim (Bool-cases (stream_ok i)) [
    | inr no_stream ↦ rw no_stream
    | inl ok_stream ↦ elim (Bool-cases (conn_ok i)) [
      | inr no_conn ↦ rw (ok_stream, no_conn)
      | inl ok_conn ↦ rw (ok_stream, ok_conn) (stored_frames id last_index (i + 1) fs)
    ]
  ]

  stored_on :
      (id : ℕ) (r : Req) (o : Option Prepared)
      → IsOdd id
      → All IsOdd (stored (send_on stream_ok conn_ok id r o))
  unfolding send_on
  stored_on id r none h = tt
  stored_on id r (some p) h = rw (stored_frames id (length p.frames - 1) 0 p.frames) (h, tt)

  -- Of a request with at least one frame, just the frames before the first that a window does not let
  -- through are pushed, whole and in order. The first of all carries the callback of the first byte,
  -- and the last of all, if it is pushed, the callback of the last byte and the request's release;
  -- there are no other callbacks.
  pub send-pushes :
      (stream_id : ℕ) (r : Req) (p : Prepared)
      → r.set_up (u32 (stream_id + 2)) ≡ some p
      → 0 < length p.frames
      → (chunks_sent (pushes (send stream_ok conn_ok stream_id r).1)
          ≡ take (granted 0 p.frames) (chunks_asked p.frames))
        × (cbs_of (pushes (send stream_ok conn_ok stream_id r).1)
            ≡ callbacks (u32 (stream_id + 2)) 0 (granted 0 p.frames) (length p.frames))
  unfolding send send_on
  send-pushes stream_id r p e h =
      rw e (frames_pushed id (length p.frames - 1) 0 p.frames, calls p.frames h)
    where
      id : ℕ
      id = u32 (stream_id + 2)

      calls :
          (fs : List Request.Frame)
          → 0 < length fs
          → cbs_of (pushes (send_frames stream_ok conn_ok id (length fs - 1) 0 fs))
            ≡ callbacks id 0 (granted 0 fs) (length fs)
      calls [] h = absurd (omega arith)
      calls (f ∷ fs) h = callbacks_pushed id (length (f ∷ fs) - 1) 0 f fs (omega arith)

stored-append : (cs ds : List Call) → stored (cs ++ ds) ≡ stored cs ++ stored ds
stored-append [] ds = refl
stored-append (Call.store_set id ∷ cs) ds = ap (◌∷◌ id) (stored-append cs ds)
stored-append (Call.limiter_wait ∷ cs) ds = stored-append cs ds
stored-append (Call.pool_acquire id tag ∷ cs) ds = stored-append cs ds
stored-append (Call.request_error id ∷ cs) ds = stored-append cs ds
stored-append (Call.stream_end id ∷ cs) ds = stored-append cs ds
stored-append (Call.set_size id n ∷ cs) ds = stored-append cs ds
stored-append (Call.stream_wait n ∷ cs) ds = stored-append cs ds
stored-append (Call.conn_wait n ∷ cs) ds = stored-append cs ds
stored-append (Call.push f ∷ cs) ds = stored-append cs ds

-- From an odd identifier on, as the sender's first is, every identifier that requests are stored
-- under is odd, also where the 32 bits wrap around; so the sharded store serves it.
pub stored-IsOdd :
    (stream_ok conn_ok : ℕ → ℕ → Bool) (n stream_id : ℕ) (rs : List Req)
    → IsOdd stream_id
    → All IsOdd (stored (send_all stream_ok conn_ok n stream_id rs))
unfolding send_all send
stored-IsOdd stream_ok conn_ok n stream_id [] h = tt
stored-IsOdd stream_ok conn_ok n stream_id (r ∷ rs) h =
    let id = u32 (stream_id + 2) in
    let odd : IsOdd id = omega arith in
    rw
      (stored-append (send_on (stream_ok n) (conn_ok n) id r (r.set_up id))
        (send_all stream_ok conn_ok (n + 1) id rs))
      (All-append IsOdd (stored (send_on (stream_ok n) (conn_ok n) id r (r.set_up id))) _
        (stored_on (stream_ok n) (conn_ok n) id r (r.set_up id) odd)
        (stored-IsOdd stream_ok conn_ok (n + 1) id rs odd))
