-- ===== src/Loader/Run/Goodbyes.antt =====
-- Which streams are told of a GOAWAY.
use framer.Base.{
  ℕ, ◌≡◌, refl, ap, ◌∙◌, Bytes, List, [], ◌∷◌, Option, none, some, false, if◌then◌else◌, ◌==◌, ltb,
  arith,
}
use framer.Reciever.Loop.{Error}
use framer.Reciever.Buffers.{Failure}
use framer.Streams.Store.{ShardedStreamsMap}
use framer.Streams.Store.Sharded.{IsOdd, sharded_view}
use framer.Streams.Store.Keyed.{with_id, found}
use framer.Streams.Store.Each.{Reached, sharded_each-found}
use framer.Loader.Run.{Told, tell, run_reciever}

module _ {V : Type 0} (id : V → ℕ) where
  abbrev stream_of : Told V → V
  stream_of (Told.go_away v code debug) = v
  stream_of (Told.end_stream v) = v

  -- The calls on the streams with one identifier.
  unfoldable pub calls_on : ℕ → List (Told V) → List (Told V)
  calls_on i [] = []
  calls_on i (t ∷ ts) = if id (stream_of t) == i then t ∷ calls_on i ts else calls_on i ts

  calls_on-tell :
      (i code last : ℕ) (debug : Bytes) (vs : List V)
      → calls_on i (tell id code last debug vs) ≡ tell id code last debug (with_id id i vs)
  unfolding calls_on tell with_id
  calls_on-tell i code last debug [] = refl
  calls_on-tell i code last debug (v ∷ vs) = ground (arith, calls_on-tell i code last debug vs)

  -- What the stream of an identifier is told.
  abbrev pub told_of : ℕ → ℕ → Bytes → Option V → List (Told V)
  told_of code last debug none = []
  told_of code last debug (some v) =
      if ltb last (id v) then Told.go_away v code debug ∷ Told.end_stream v ∷ [] else []

  tell-found :
      (code last : ℕ) (debug : Bytes) (o : Option V)
      → tell id code last debug (found id o) ≡ told_of code last debug o
  unfolding tell
  tell-found code last debug none = refl
  tell-found code last debug (some v) = refl

  -- When a GOAWAY ends the receiver and the context is not cancelled, `runReciever` does not panic,
  -- whatever calls on odd identifiers made the store. Of the stream that the store has under an odd
  -- identifier it makes two calls, `GoAway` with the frame's code and debug data and then `End`, if the
  -- identifier is above the last stream of the frame, and otherwise none; and it makes none where the
  -- store has no stream. Its error is the GOAWAY, but nil if the code is 0. (The comment at `GoAway` in
  -- loader/types/stream.go has the identifier of the frame above that of the stream; the code follows
  -- RFC 9113, section 6.8.)
  pub run_reciever-told :
      {s : ShardedStreamsMap V} (code last : ℕ) (debug : Bytes)
      → Reached id s
      → (i : ℕ) → IsOdd i
      → (told : List (Told V)) × (run_reciever id false
            (some (Failure.processing (Error.go_away code last debug)))
            s
          ≡ some (
            told,
            if code == 0 then none else some (Failure.processing (Error.go_away code last debug)),
          ))
        × (calls_on i told ≡ told_of code last debug (sharded_view s i))
  unfolding run_reciever
  run_reciever-told {s} code last debug r i odd =
      let (vs, e, f) = sharded_each-found id r in
      (
        tell id code last debug vs,
        rw e,
        calls_on-tell i code last debug vs
            ∙ ap (tell id code last debug) (f i odd)
            ∙ tell-found code last debug (sharded_view s i),
      )
