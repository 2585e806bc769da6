-- ===== src/Sender/Send.antt =====
-- loader/sender/sender.go: `send`, as the calls that it makes. The answers of the two windows'
-- `Wait`, which may block, are given for each frame of the request by its index.
pub mod Calls
mod Tests
use framer.Base.{
  ℕ, suc, ◌+◌, ◌-◌, Bytes, List, [], ◌∷◌, ◌++◌, Option, none, some, Bool, true, false,
  if◌then◌else◌, ◌==◌, length, u32,
}
use framer.Sender.Batched.{Frame, Callback}
use framer.Datasource.Request as Request

-- The calls of `send`, on the limiter, the pool, the stream, the store, the windows and the channel.
pub data Call : Type 0 where
  limiter_wait : Call
  pool_acquire : ℕ → Bytes → Call
  request_error stream_end : ℕ → Call
  set_size : ℕ → ℕ → Call
  store_set : ℕ → Call
  stream_wait conn_wait : ℕ → Call
  push : Frame → Call

-- What `SetUp` of a request returns for a stream: `none` is an error.
pub record Prepared : Type 0 where
  pub frames : List Request.Frame
  pub size : ℕ

-- `types.Req`
pub record Req : Type 0 where
  pub tag : Bytes
  pub set_up : ℕ → Option Prepared

-- The callbacks of the frame at an index.
abbrev pub cbs_at : ℕ → ℕ → ℕ → List Callback
cbs_at id last_index i =
    (if i == 0 then Callback.first_byte_sent id ∷ [] else [])
    ++ (if i == last_index
        then Callback.last_byte_sent id ∷ Callback.request_release id ∷ []
        else [])

module _ (stream_ok conn_ok : ℕ → Bool) where
  -- The loop over the frames.
  pub send_frames : ℕ → ℕ → ℕ → List Request.Frame → List Call
  send_frames id last_index i [] = []
  send_frames id last_index i (f ∷ fs) =
      let rest = send_frames id last_index (i + 1) fs in
      stream_wait f.flow_control_price
      ∷ (if stream_ok i
          then conn_wait f.flow_control_price
            ∷ (if conn_ok i
                then push (record { chunks = f.chunks; cbs = cbs_at id last_index i }) ∷ rest
                else [])
          else [])

  -- `send`, after the identifier is set.
  pub send_on : ℕ → Req → Option Prepared → List Call
  unfolding send_frames
  send_on id r none = limiter_wait ∷ pool_acquire id r.tag ∷ request_error id ∷ stream_end id ∷ []
  send_on id r (some p) =
      limiter_wait
      ∷ pool_acquire id r.tag
      ∷ set_size id p.size
      ∷ store_set id
      ∷ send_frames id (length p.frames - 1) 0 p.frames

  -- `send`: the sender's `streamID` after it, and the calls.
  unfoldable pub send : ℕ → Req → ℕ × List Call
  unfolding send_on
  send stream_id r = let id = u32 (stream_id + 2) in (id, send_on id r (r.set_up id))

-- `Send` of one request after the other: the answers of the windows, by the place of the request and
-- the index of the frame.
pub send_all : (ℕ → ℕ → Bool) → (ℕ → ℕ → Bool) → ℕ → ℕ → List Req → List Call
send_all stream_ok conn_ok n stream_id [] = []
send_all stream_ok conn_ok n stream_id (r ∷ rs) =
    let (id, calls) = send (stream_ok n) (conn_ok n) stream_id r in
    calls ++ send_all stream_ok conn_ok (n + 1) id rs
