-- ===== src/Reciever/Processors/Ends.antt =====
-- RST_STREAM, WINDOW_UPDATE and the ends of streams, on a store that implements the interface.
use framer.Base.{
  ℕ, ◌≡◌, refl, sym, ◌∙◌, ap, Bytes, List, [], ◌∷◌, ◌++◌, Option, none, some, Bool, true, false,
  if◌then◌else◌, ◌==◌, append_assoc, AllBytes, append-nil,
}
use framer.FrameHeader.{stream_id_field}
use framer.Streams.Store.Interface.{StreamStore}
use framer.Reciever.Loop.{Result, ok}
use framer.Reciever.World.{
  World, Effect, emit, ◌>>=◌, or_panic, limiter_release, rst_stream, end_stream,
}
use framer.Reciever.Processors.{shift_all, take_stream, process_rst_stream, process_window_update}
use framer.Reciever.Processors.BigEndian.{
  big_endian, payload_of, run_pieces, shift_all-append, shift_all_four,
}

-- The effects on the stream that was there, if one was.
abbrev pub taken : {V : Type 0} → (V → List (Effect V)) → Option V → List (Effect V)
taken effects none = []
taken effects (some v) = effects v

module _ {V : Type 0} (S : StreamStore V) where
  -- The processors as functions of their own fields and the world.
  abbrev pub on_rst_stream : Bytes → ℕ × World S → Bytes → Bool → Result (ℕ × World S) (World S)
  on_rst_stream header p payload incomplete = process_rst_stream S p.0 p.1 header payload incomplete

  abbrev pub on_window_update : Bytes → ℕ × World S → Bytes → Bool → Result (ℕ × World S) (World S)
  on_window_update header p payload incomplete =
      process_window_update S p.0 p.1 header payload incomplete

  -- The last piece of an RST_STREAM frame, once its bytes are shifted in.
  abbrev finish_rst : ℕ → World S → Bytes → Result (ℕ × World S) (World S)
  finish_rst code w header = or_panic (stream_id_field header) >>= λ id.
      take_stream S (emit S limiter_release w) id (λ v. rst_stream v code ∷ end_stream v ∷ [])
      >>= λ w'. ok (code, w')

  rst_at :
      (header : Bytes) (code : ℕ) (w : World S) (payload : Bytes)
      → process_rst_stream S code w header payload false
        ≡ finish_rst (shift_all code payload) w header
  unfolding process_rst_stream
  rst_at header code w payload = refl

  -- A frame in pieces is the frame in one piece.
  rst_in_one :
      (header : Bytes) (code : ℕ) (w : World S) (ps : List Bytes) (last : Bytes)
      → run_pieces (on_rst_stream header) (code, w) ps last
        ≡ finish_rst (shift_all code (payload_of ps last)) w header
  rst_in_one header code w [] last = rst_at header code w last
  rst_in_one header code w (b ∷ ps) last =
      ap (λ r. r >>= λ q. run_pieces (on_rst_stream header) q ps last) first
      ∙ rst_in_one header (shift_all code b) w ps last
      ∙ ap (λ c. finish_rst c w header) (sym (shift_all-append code b (payload_of ps last)))
    where
      first : process_rst_stream S code w header b true ≡ ok (shift_all code b, w)
      first = unfold process_rst_stream in refl

  take_stream_at :
      (w : World S) (id : ℕ) (effects : V → List (Effect V)) (r : Option V) (t : S.Store)
      → S.get_and_delete w.store id ≡ some (r, t)
      → take_stream S w id effects ≡ ok (record { store = t; trace = w.trace ++ taken effects r })
  unfolding take_stream
  take_stream_at w id effects none t e =
      rw (e, take_stream)
        (ap (λ l. ok (record { store = t; trace = l })) (sym (append-nil w.trace)))
  take_stream_at w id effects (some v) t e = rw (e, take_stream)

  -- The store after a stream was taken out.
  abbrev pub Without : World S → ℕ → S.Store → Type 0
  Without w id t =
      S.IsBuilt t
      × ((j : ℕ) → S.Served j → S.view t j ≡ (if id == j then none else S.view w.store j))

  -- What taking a stream out of the store comes to.
  take_stream_lem :
      (w : World S) (id : ℕ) (effects : V → List (Effect V))
      → S.IsBuilt w.store
      → S.Served id
      → (t : S.Store) × (take_stream S w id effects
          ≡ ok (record { store = t; trace = w.trace ++ taken effects (S.view w.store id) }))
        × Without w id t
  take_stream_lem w id effects b h =
      let (t, e, c, l) = S.get_and_delete_lem w.store id b h in
      (t, take_stream_at w id effects (S.view w.store id) t e, (c, l))

  -- RST_STREAM in pieces that make four bytes, on a stream identifier that the store serves: the
  -- limiter is released; the stream, if the store has it, is told the code that the four bytes
  -- spell, whatever codes came before, and is ended; and the store is without it, and otherwise as
  -- it was.
  pub rst_stream-pieces :
      (header : Bytes) (old : ℕ) (w : World S) (ps : List Bytes) (last : Bytes) (id a b c d : ℕ)
      → stream_id_field header ≡ some id
      → S.IsBuilt w.store
      → S.Served id
      → AllBytes (a ∷ b ∷ c ∷ d ∷ [])
      → payload_of ps last ≡ a ∷ b ∷ c ∷ d ∷ []
      → let code = big_endian a b c d in
        (t : S.Store) × (run_pieces (on_rst_stream header) (old, w) ps last
          ≡ ok (
            code,
            record {
              store = t;
              trace =
                  w.trace
                  ++ (limiter_release
                      ∷ taken (λ v. rst_stream v code ∷ end_stream v ∷ []) (S.view w.store id));
            },
          ))
        × Without w id t
  rst_stream-pieces header old w ps last id a b c d e built served v shape =
      let code = big_endian a b c d in
      let (t, f, rest) =
        take_stream_lem (emit S limiter_release w) id (λ v. rst_stream v code ∷ end_stream v ∷ [])
          built served in
      (
        t,
        rst_in_one header old w ps last
            ∙ ap (λ p. finish_rst (shift_all old p) w header) shape
            ∙ ap (λ k. finish_rst k w header) (shift_all_four old a b c d v)
            ∙ rw (e, f)
                (ap (λ l. ok (code, record { store = t; trace = l }))
                  (append_assoc w.trace (limiter_release ∷ []) _)),
        rest,
      )
