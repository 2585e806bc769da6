-- ===== src/Loader/TimeoutQueue/Schedules.antt =====
-- The queue under any interleaving of `Add`, `Next` and `Close` on a clock that does not go back.
use framer.Base.{
  ℕ, ◌+◌, ◌≤◌, ◌≡◌, List, [], ◌∷◌, ◌++◌, none, some, true, if◌then◌else◌, Bool-cases, inl, inr,
  arith, subst,
}
use framer.Loader.TimeoutQueue.{
  TimeoutQueueItem, TimeoutQueue, new_timeout_queue, Pass, pass_of, add, next, close,
}

-- The queue, the clock, and the streams that were added and taken so far.
pub record State : Type 0 where
  pub queue : TimeoutQueue
  pub clock : ℕ
  pub added : List ℕ
  pub taken : List ℕ

abbrev pub start : ℕ → State
start timeout = record { queue = new_timeout_queue timeout; clock = 0; added = []; taken = [] }

pub data Step : State → State → Type 0 where
  adds :
      (s : State) (now id : ℕ) (q : TimeoutQueue)
      → s.clock ≤ now
      → add s.queue now id ≡ some q
      → Step s (record s { queue = q; clock = now; added = s.added ++ id ∷ [] })
  takes :
      (s : State) (i : TimeoutQueueItem) (q : TimeoutQueue)
      → next s.queue ≡ some (Pass.took i, q)
      → Step s (record s { queue = q; taken = s.taken ++ i.stream_id ∷ [] })
  stops :
      (s : State) (q : TimeoutQueue)
      → next s.queue ≡ some (Pass.stopped, q)
      → Step s (record s { queue = q })
  closes : (s : State) (q : TimeoutQueue) → close s.queue ≡ some q → Step s (record s { queue = q })

pub data Reach (s : State) : State → Type 0 where
  here : Reach s s
  later : {t u : State} → Reach s t → Step t u → Reach s u

-- What an `Add` that returns has done, and so for a pass of `Next`.
pub add_inv :
    (q p : TimeoutQueue) (now id : ℕ)
    → add q now id ≡ some p
    → record q { queue = q.queue ++ record { stream_id = id; deadline = now + q.timeout } ∷ [] } ≡ p
unfolding add
add_inv q p now id e = ground arith

pass_took :
    (q p : TimeoutQueue) (is : List TimeoutQueueItem) (i : TimeoutQueueItem)
    → pass_of q is ≡ some (Pass.took i, p)
    → (is ≡ i ∷ p.queue) × (p.timeout ≡ q.timeout)
unfolding pass_of
pass_took q p [] i e = ground arith
pass_took q p (j ∷ is) i e = ground arith

pub took_inv :
    (q p : TimeoutQueue) (i : TimeoutQueueItem)
    → next q ≡ some (Pass.took i, p)
    → (q.queue ≡ i ∷ p.queue) × (p.timeout ≡ q.timeout)
unfolding next
took_inv q p i e = elim (Bool-cases q.locked) [
  | inl l ↦ cc (rw l at e)
  | inr l ↦
      pass_took q p q.queue i
        (subst (λ b. (if b then none else pass_of q q.queue) ≡ some (Pass.took i, p)) l e)
]

pass_stopped :
    (q p : TimeoutQueue) (is : List TimeoutQueueItem)
    → pass_of q is ≡ some (Pass.stopped, p)
    → (is ≡ []) × (record q { locked = true } ≡ p)
unfolding pass_of
pass_stopped q p [] e = ground arith
pass_stopped q p (j ∷ is) e = cc

pub stopped_inv :
    (q p : TimeoutQueue)
    → next q ≡ some (Pass.stopped, p)
    → (q.queue ≡ []) × (record q { locked = true } ≡ p)
unfolding next
stopped_inv q p e = elim (Bool-cases q.locked) [
  | inl l ↦ cc (rw l at e)
  | inr l ↦
      pass_stopped q p q.queue
        (subst (λ b. (if b then none else pass_of q q.queue) ≡ some (Pass.stopped, p)) l e)
]

pub closed_inv :
    (q p : TimeoutQueue) → close q ≡ some p → (p.queue ≡ q.queue) × (p.timeout ≡ q.timeout)
unfolding close
closed_inv q p e = ground arith
