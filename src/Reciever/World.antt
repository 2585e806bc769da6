-- ===== src/Reciever/World.antt =====
-- What the processors act on: the store of streams, and everything else that they call, as a trace of
-- effects in order. A stream is a reference of the type `V`.
use framer.Base.{ℕ, Bytes, List, [], ◌∷◌, ◌++◌, Option, none, some}
use framer.Streams.Store.Interface.{StreamStore}
use framer.Reciever.Loop.{Result, ok, panic}

-- The calls of `StreamsLimiter`, `Stream`, `FlowControl` and the priority channel.
pub data Effect (V : Type 0) : Type 0 where
  -- `outFramesChan <- frame`
  send_frame : Bytes → Effect V
  -- `streamsLimiter.Release()`
  limiter_release : Effect V
  -- `stream.OnHeader(name, value)`, `stream.RSTStream(code)` and `stream.End()`
  on_header : V → Bytes → Bytes → Effect V
  rst_stream : V → ℕ → Effect V
  end_stream : V → Effect V
  -- `Add` of the connection's window, and of a stream's
  conn_window_add : ℕ → Effect V
  stream_window_add : V → ℕ → Effect V

module _ {V : Type 0} (S : StreamStore V) where
  pub record World : Type 0 where
    pub store : S.Store
    pub trace : List (Effect V)

  abbrev pub emit : Effect V → World → World
  emit e w = record w { trace = w.trace ++ e ∷ [] }

-- An `Option`, its `none` being a panic.
abbrev pub or_panic {ℓ κ} : {A : Type ℓ} {T : Type κ} → Option A → Result A T
or_panic none = panic
or_panic (some a) = ok a

infixl 5 ◌>>=◌
abbrev pub ◌>>=◌ {ℓ κ ι} :
    {A : Type ℓ} {B : Type κ} {T : Type ι} → Result A T → (A → Result B T) → Result B T
◌>>=◌ (Result.ok a) f = f a
◌>>=◌ (Result.err e t) f = Result.err e t
◌>>=◌ Result.panic f = Result.panic
