-- ===== src/Reciever/Headers/Fields.antt =====
-- HEADERS and CONTINUATION frames on a store that implements the interface: what an open stream is
-- told, and what becomes of the frames of a stream that has ended.
use framer.Base.{
  ℕ, ◌≡◌, refl, sym, ◌∙◌, ap, Bytes, List, [], ◌∷◌, ◌++◌, Option, none, some, Bool, true, false,
  if◌then◌else◌, ◌==◌, append_assoc, append-nil, Bool-cases, inl, inr, ==_iff,
}
use framer.FrameHeader.{flags_field, stream_id_field}
use framer.Http2.{flag_end_stream}
use framer.Streams.Store.Interface.{StreamStore}
use framer.Reciever.Loop.{Result, ok}
use framer.Reciever.World.{
  World, Effect, emit, or_panic, ◌>>=◌, on_header, end_stream, limiter_release,
}
use framer.Reciever.Headers.{
  Hpack, HeadersFrameProcessor, on_headers, end_of_headers, process_headers,
}

-- The calls of `OnHeader` for the decoded fields.
abbrev pub header_calls : {V : Type 0} → V → List (Bytes × Bytes) → List (Effect V)
header_calls v [] = []
header_calls v (f ∷ fs) = on_header v f.0 f.1 ∷ header_calls v fs

module _ {V : Type 0} (S : StreamStore V) where
  -- The world that a call leaves, whether or not it fails.
  abbrev pub world_after {ℓ} : {P : Type ℓ} → Result (P × World S) (World S) → Option (World S)
  world_after (Result.ok r) = some r.1
  world_after (Result.err e w) = some w
  world_after Result.panic = none

module _ {V : Type 0} (S : StreamStore V) (H : Hpack) where
  on_headers_lem :
      (v : V) (fs : List (Bytes × Bytes)) (w : World S)
      → on_headers S H (some v) fs w
        ≡ ok (record { store = w.store; trace = w.trace ++ header_calls v fs })
  unfolding on_headers
  on_headers_lem v [] w = ap (λ l. ok (record { store = w.store; trace = l })) (sym (append-nil _))
  on_headers_lem v ((a, b) ∷ fs) w =
      on_headers_lem v fs (emit S (on_header v a b) w)
      ∙ ap (λ l. ok (record { store = w.store; trace = l }))
          (append_assoc w.trace (on_header v a b ∷ []) (header_calls v fs))

  module _ (has : ℕ → ℕ → Bool) (p : HeadersFrameProcessor S H) (w : World S)
      (header payload : Bytes) (id flags : ℕ) (named : stream_id_field header ≡ some id)
      (flagged : flags_field header ≡ some flags) (built : S.IsBuilt w.store)
      (served : S.Served id) where
    -- A frame of a stream that the store does not have: no call of any stream, and no change to the
    -- store.
    absent :
        (incomplete : Bool)
        → S.view w.store id ≡ none
        → world_after S (process_headers S H has p w header payload incomplete) ≡ some w
    unfolding process_headers end_of_headers on_headers
    absent incomplete gone =
        rw (named, S.get_lem w.store id built served, gone)
          (rw (H.write_silent p.hpack_decoder payload)
            (elim (Bool-cases (H.write p.hpack_decoder false payload).2) [
              | inl e ↦ rw e
              | inr e ↦ rw e (after incomplete)
            ]))
      where
        after :
            (b : Bool)
            → world_after S (
                let q : HeadersFrameProcessor S H = record {
                  hpack_decoder = (H.write p.hpack_decoder false payload).0;
                  current_stream = none;
                } in
                if b
                then ok (q, w)
                else (or_panic (flags_field header) >>= λ fl.
                    end_of_headers S H has q w fl id none))
              ≡ some w
        after true = refl
        after false = rw flagged

    abbrev pub opened : V → HeadersFrameProcessor S H
    opened v = record {
      hpack_decoder = (H.write p.hpack_decoder true payload).0;
      current_stream = some v;
    }

    open_stream :
        (v : V)
        → S.view w.store id ≡ some v
        → (H.write p.hpack_decoder true payload).2 ≡ false
        → process_headers S H has p w header payload false
          ≡ end_of_headers S H has
              (opened v)
              (record {
                store = w.store;
                trace = w.trace ++ header_calls v (H.write p.hpack_decoder true payload).1;
              })
              flags
              id
              (some v)
    unfolding process_headers
    open_stream v found fine =
        rw (named, S.get_lem w.store id built served, found)
          (rw (on_headers_lem v (H.write p.hpack_decoder true payload).1 w, fine, flagged))

    -- The world after a whole frame of the open stream `v`.
    abbrev pub told : V → S.Store → List (Effect V) → World S
    told v store rest = record {
      store = store;
      trace = (w.trace ++ header_calls v (H.write p.hpack_decoder true payload).1) ++ rest;
    }

    -- A whole HEADERS frame of an open stream whose block decodes: the stream is told each field in
    -- order. If the frame ends the stream, the stream is then ended, the limiter is released once and
    -- the store is without the stream; if not, there is nothing else.
    pub headers-open :
        (v : V)
        → S.view w.store id ≡ some v
        → (H.write p.hpack_decoder true payload).2 ≡ false
        → (q : HeadersFrameProcessor S H) × (t : S.Store) × (process_headers S H has p w header
              payload false
            ≡ ok (
              q,
              told v t
                  (if has flags flag_end_stream then end_stream v ∷ limiter_release ∷ [] else []),
            ))
          × S.IsBuilt t
          × ((j : ℕ)
              → S.Served j
              → S.view t j ≡ (
                  if has flags flag_end_stream
                  then (if id == j then none else S.view w.store j)
                  else S.view w.store j))
    unfolding end_of_headers
    headers-open v found fine = elim (Bool-cases (has flags flag_end_stream)) [
      | inl e ↦
          let (t, deleted, c, l) = S.delete_lem w.store id built served in
          (opened v, t, rw e (open_stream v found fine ∙ rw (e, deleted)), c, λ j h. rw e (l j h))
      | inr e ↦ (
        opened v,
        w.store,
        rw e (
            open_stream v found fine
            ∙ rw e (
                ap (λ l. ok (opened v, record { store = w.store; trace = l }))
                  (sym (append-nil _)))),
        built,
        λ j h. rw e,
      )
    ]

  -- A HEADERS frame with END_STREAM may be continued, but its stream is gone by then: whatever a
  -- further frame on the identifier holds, no stream is told of it, and nothing else is done.
  pub headers-ended :
      (has : ℕ → ℕ → Bool) (p : HeadersFrameProcessor S H) (w : World S)
      (header payload more rest : Bytes) (id flags more_flags : ℕ) (incomplete : Bool) (v : V)
      → stream_id_field header ≡ some id
      → flags_field header ≡ some flags
      → stream_id_field more ≡ some id
      → flags_field more ≡ some more_flags
      → has flags flag_end_stream ≡ true
      → S.IsBuilt w.store
      → S.Served id
      → S.view w.store id ≡ some v
      → (H.write p.hpack_decoder true payload).2 ≡ false
      → (q : HeadersFrameProcessor S H) × (w' : World S) × (process_headers S H has p w header
            payload false
          ≡ ok (q, w'))
        × (w'.trace
            ≡ (w.trace ++ header_calls v (H.write p.hpack_decoder true payload).1)
              ++ (end_stream v ∷ limiter_release ∷ []))
        × (world_after S (process_headers S H has q w' more rest incomplete) ≡ some w')
  headers-ended has p w header payload more rest id flags more_flags incomplete v n f n' f' e b h
        found fine =
      let (q, t, run, c, l) = headers-open has p w header payload id flags n f b h v found fine in
      (
        q,
        _,
        rw e at run,
        refl,
        absent has q _ more rest id more_flags n' f' c h incomplete
            (l id h ∙ rw (e, (==_iff id id).1 refl)),
      )
