-- ===== src/Loader/TimeoutQueue/Tests.antt =====
-- A stream is added at time 1 with a timeout of 11, and the queue is closed and emptied.
use framer.Base.{◌≡◌, refl, [], ◌∷◌, none, some, arith, true}
use framer.Loader.TimeoutQueue.{TimeoutQueue, TimeoutQueueItem, Pass, new_timeout_queue, add, next}
use framer.Loader.TimeoutQueue.Schedules.{State, start, Reach, here, later, adds, takes}
use framer.Loader.TimeoutQueue.Order.{IsOrdered, Reach-IsOrdered}
use framer.Loader.TimeoutQueue.Stopped.{stopped-blocks}

abbrev one_item : TimeoutQueueItem
one_item = record { stream_id = 3; deadline = 12 }

abbrev one_taken : State
one_taken = record { queue = new_timeout_queue 11; clock = 1; added = 3 ∷ []; taken = 3 ∷ [] }

one_taken-Reach : Reach (start 11) one_taken
unfolding add next
one_taken-Reach =
    later
      (later here
        (adds _ 1 3 (record (new_timeout_queue 11) { queue = one_item ∷ [] }) (omega arith) refl))
      (takes _ one_item (new_timeout_queue 11) refl)

Reach-IsOrdered_example : IsOrdered one_taken
Reach-IsOrdered_example = Reach-IsOrdered 11 one_taken one_taken-Reach

abbrev closed : TimeoutQueue
closed = record (new_timeout_queue 11) { done = true }

abbrev closed_state : State
closed_state = record { queue = closed; clock = 0; added = []; taken = [] }

closed-stops : next closed ≡ some (Pass.stopped, record closed { locked = true })
unfolding next
closed-stops = refl

stopped-blocks_example :
    (add (record closed { locked = true }) 5 7 ≡ none)
    × (next (record closed { locked = true }) ≡ none)
stopped-blocks_example =
    stopped-blocks closed_state (record closed_state { queue = record closed { locked = true } })
      (record closed { locked = true }) 5 7 closed-stops here
