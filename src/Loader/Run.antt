-- ===== src/Loader/Run.antt =====
-- loader/loader.go: what `runReciever` does with the end of `Reciever.Run`, and the goroutine of `Run` that
-- ends streams whose time is over. A stream is a value of `V` with the identifier `id`.
pub mod Goodbyes
pub mod Timeouts
mod Tests
use framer.Base.{
  ℕ, Bytes, List, [], ◌∷◌, ◌++◌, Option, none, some, Bool, true, false, if◌then◌else◌, ◌==◌, ltb,
  ◌>>=◌,
}
use framer.Reciever.Loop.{Error}
use framer.Reciever.Buffers.{Failure}
use framer.Streams.Store.{ShardedStreamsMap, sharded_each, sharded_get_and_delete}

-- The calls of a stream.
pub data Told (V : Type 0) : Type 0 where
  go_away : V → ℕ → Bytes → Told V
  end_stream : V → Told V

module _ {V : Type 0} (id : V → ℕ) where
  -- The function that `Each` is called with, on a list of streams.
  unfoldable pub tell : ℕ → ℕ → Bytes → List V → List (Told V)
  tell code last debug [] = []
  tell code last debug (v ∷ vs) =
      if ltb last (id v)
      then Told.go_away v code debug ∷ Told.end_stream v ∷ tell code last debug vs
      else tell code last debug vs

  -- `runReciever` after `Reciever.Run` has returned an error: the streams' calls, and the error that it
  -- returns itself. `http2.ErrCodeNo` is 0.
  unfoldable pub of_failure :
      Failure → ShardedStreamsMap V → Option (List (Told V) × Option Failure)
  unfolding tell
  of_failure (Failure.processing (Error.go_away code last debug)) s = sharded_each s >>= λ vs.
      some (
        tell code last debug vs,
        if code == 0 then none else some (Failure.processing (Error.go_away code last debug)),
      )
  of_failure e s = some ([], some e)

  -- `runReciever`, with the result of `Reciever.Run` and whether the context is cancelled. `none` is a
  -- panic.
  unfoldable pub run_reciever :
      Bool → Option Failure → ShardedStreamsMap V → Option (List (Told V) × Option Failure)
  unfolding of_failure
  run_reciever cancelled none s = some ([], none)
  run_reciever true (some e) s = some ([], none)
  run_reciever false (some e) s = of_failure e s

module _ {V : Type 0} where
  -- A round of the goroutine after `timeoutQueue.Next` has returned an identifier: the streams that it
  -- ends, with their identifiers.
  unfoldable pub expire : ShardedStreamsMap V → ℕ → Option (List (ℕ × V) × ShardedStreamsMap V)
  expire s i = sharded_get_and_delete s i >>= λ r. elim r.0 [
    | none ↦ some ([], r.1)
    | some v ↦ some ((i, v) ∷ [], r.1)
  ]

  -- The goroutine on the identifiers that the queue gives.
  unfoldable pub expire_all :
      ShardedStreamsMap V → List ℕ → Option (List (ℕ × V) × ShardedStreamsMap V)
  unfolding expire
  expire_all s [] = some ([], s)
  expire_all s (i ∷ is) = expire s i >>= λ r. expire_all r.1 is >>= λ q. some (r.0 ++ q.0, q.1)
