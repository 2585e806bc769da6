-- ===== src/Sender/Batched.antt =====
-- loader/sender/sender.go: `batchedProcessor`, from what its channels give to the commands that it
-- sends to `sendLoop`. What `select` receives next is an event; time enters as `tick`.
pub mod Groups
pub mod Writes
pub mod Whole
pub mod Bounds
mod Tests
use framer.Base.{
  ℕ, suc, ◌+◌, Bytes, List, [], ◌∷◌, ◌++◌, Option, none, some, Bool, true, false, if◌then◌else◌,
  ltb, length,
}

-- A callback, by what it is.
pub data Callback : Type 0 where
  first_byte_sent last_byte_sent request_release : ℕ → Callback

-- `frame`: its chunks up to the first nil, and its callbacks that are not nil.
pub record Frame : Type 0 where
  pub chunks : List Bytes
  pub cbs : List Callback

-- `writeCmd`: the buffers to write, and the callbacks that `onRelease` calls.
pub record WriteCmd : Type 0 where
  pub bufs : List Bytes
  pub on_release : List Callback

-- What the `select` statements receive.
pub data Event : Type 0 where
  -- from `priorityChunkChan`
  priority : Bytes → Event
  -- from `frameChan`, and that it is closed
  frame : Frame → Event
  flush : Event
  -- from `timerChan`
  tick : Event
  -- from `ctx.Done()`
  cancel : Event

-- Which of the two loops runs, if one does.
pub data Phase : Type 0 where
  batching draining stopped : Phase

-- The variables: the first of `buffers`, which is written in a priority write only, the rest of it,
-- `cbs`, and the commands sent so far. What `buffersNext` held was written before and is cut off.
pub record Batcher : Type 0 where
  pub phase : Phase
  pub first : Bytes
  pub rest : List Bytes
  pub cbs : List Callback
  pub written : List WriteCmd

abbrev pub new_batcher : Batcher
new_batcher = record { phase = Phase.batching; first = []; rest = []; cbs = []; written = [] }

abbrev pub nonempty {ℓ} : {A : Type ℓ} → List A → Bool
nonempty [] = false
nonempty (x ∷ xs) = true

-- `doWrite(true)` and `doWrite(false)`
abbrev pub write_out : List Bytes → Batcher → Batcher
write_out bufs b = record b {
  rest = [];
  cbs = [];
  written = b.written ++ record { bufs = bufs; on_release = b.cbs } ∷ [];
}

unfoldable pub do_write : Bool → Batcher → Batcher
do_write true b = write_out (b.first ∷ b.rest) b
do_write false b = if nonempty b.rest then write_out b.rest b else b

-- The case of a frame. `len(f.chunks)` is 3, and `len(buffers)` counts its first.
unfoldable pub add_frame : Frame → Batcher → Batcher
unfolding do_write
add_frame f b =
    let c = if ltb 2048 (3 + (1 + length b.rest)) then do_write false b else b in
    record c { rest = c.rest ++ f.chunks; cbs = c.cbs ++ f.cbs }

-- One round of the first loop, and of the second.
pub batching_round : Event → Batcher → Batcher
unfolding do_write add_frame
batching_round (Event.priority c) b = do_write true (record b { first = c })
batching_round (Event.frame f) b = add_frame f b
batching_round Event.flush b = record (do_write false b) { phase = Phase.draining }
batching_round Event.tick b = do_write false b
batching_round Event.cancel b = record (do_write false b) { phase = Phase.stopped }

pub draining_round : Event → Batcher → Batcher
unfolding do_write
draining_round (Event.priority c) b = do_write true (record b { first = c })
draining_round Event.cancel b = record b { phase = Phase.stopped }
draining_round _ b = b

pub round_in : Phase → Event → Batcher → Batcher
unfolding batching_round draining_round
round_in Phase.batching e b = batching_round e b
round_in Phase.draining e b = draining_round e b
round_in Phase.stopped e b = b

-- `batchedProcessor` on what it receives.
unfoldable pub batched_processor : List Event → Batcher → Batcher
unfolding round_in
batched_processor [] b = b
batched_processor (e ∷ es) b = batched_processor es (round_in b.phase e b)
