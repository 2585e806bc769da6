-- ===== src/Loader/TimeoutQueue/Stopped.antt =====
-- What is left of the queue when a `Next` stops on it.
use framer.Base.{ℕ, ◌≡◌, sym, ap, none, some, true, arith}
use framer.Loader.TimeoutQueue.{TimeoutQueue, Pass, add, next, close}
use framer.Loader.TimeoutQueue.Schedules.{
  State, Step, Reach, adds, takes, stops, closes, here, later, stopped_inv,
}

-- A pass that stops keeps the lock: from then on, whatever else happens, no `Add` and no `Next` goes
-- on.
stuck : {s t : State} → Step s t → (s.queue).locked ≡ true → (t.queue).locked ≡ true
unfolding add next close
stuck (adds s now id q h e) l = cc (rw l at e)
stuck (takes s i q e) l = cc (rw l at e)
stuck (stops s q e) l = cc (rw l at e)
stuck (closes s q e) l = ground arith

stuck_on : (s t : State) → Reach s t → (s.queue).locked ≡ true → (t.queue).locked ≡ true
stuck_on s _ here l = l
stuck_on s _ (later {t} r st) l = stuck st (stuck_on s t r l)

-- Once a `Next` has found the queue empty and closed, every later `Add` and `Next` waits for ever.
pub stopped-blocks :
    (s t : State) (q : TimeoutQueue) (now id : ℕ)
    → next s.queue ≡ some (Pass.stopped, q)
    → Reach (record s { queue = q }) t
    → (add t.queue now id ≡ none) × (next t.queue ≡ none)
unfolding add next
stopped-blocks s t q now id e r =
    let (none_left, same) = stopped_inv s.queue q e in
    let l : (t.queue).locked ≡ true = stuck_on _ t r (ap (λ p. p.locked) (sym same)) in (rw l, rw l)
