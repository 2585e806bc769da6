-- ===== src/Loader/TimeoutQueue.antt =====
-- loader/timeout_queue.go: deadlines of streams, first in, first out. Times are numbers. The lock is
-- modelled by whether it is held between two steps: `Next` returns from its loop without giving it
-- up. `none` is a goroutine that cannot go on: it waits for the lock, or on the condition.
pub mod Schedules
pub mod Order
pub mod Stopped
mod Tests
use framer.Base.{
  ℕ, ◌+◌, List, [], ◌∷◌, ◌++◌, Option, none, some, Bool, true, false, if◌then◌else◌, ltb,
}

-- `timeoutQueueItem`
pub record TimeoutQueueItem : Type 0 where
  pub stream_id : ℕ
  pub deadline : ℕ

-- `timeoutSliceQueue`
pub record TimeoutQueue : Type 0 where
  pub timeout : ℕ
  pub queue : List TimeoutQueueItem
  pub locked : Bool
  pub done : Bool

-- `NewTimeoutSliceQueue`
abbrev pub new_timeout_queue : ℕ → TimeoutQueue
new_timeout_queue timeout = record { timeout = timeout; queue = []; locked = false; done = false }

-- `Add` at the time `now`
unfoldable pub add : TimeoutQueue → ℕ → ℕ → Option TimeoutQueue
add q now stream_id =
    if q.locked
    then none
    else some (record q {
      queue = q.queue ++ record { stream_id = stream_id; deadline = now + q.timeout } ∷ [];
    })

-- How a pass of `Next` ends: with an item, or with `return 0, false`, which keeps the lock.
pub data Pass : Type 0 where
  stopped : Pass
  took : TimeoutQueueItem → Pass

-- `Next`, from a test of its loop to the unlock or the early return
pub pass_of : TimeoutQueue → List TimeoutQueueItem → Option (Pass × TimeoutQueue)
pass_of q [] = if q.done then some (Pass.stopped, record q { locked = true }) else none
pass_of q (i ∷ is) = some (Pass.took i, record q { queue = is })

unfoldable pub next : TimeoutQueue → Option (Pass × TimeoutQueue)
unfolding pass_of
next q = if q.locked then none else pass_of q q.queue

-- The end of `Next` at the time `now`, where the timer's channel is the one that is received from:
-- it is ready from the deadline on. The other channel gives `0, false`.
abbrev pub expires : TimeoutQueueItem → ℕ → Option (ℕ × Bool)
expires i now = if ltb now i.deadline then none else some (i.stream_id, true)

-- `Close`: `none` is the panic of a second `close(q.done)`.
unfoldable pub close : TimeoutQueue → Option TimeoutQueue
close q = if q.done then none else some (record q { done = true })
