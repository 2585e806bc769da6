-- ===== src/Loader/TimeoutQueue/Order.antt =====
-- The queue is first in, first out, and so earliest deadline first.
use framer.Base.{
  ℕ, ◌+◌, ◌≤◌, ◌≡◌, refl, sym, ap, ◌∙◌, List, [], ◌∷◌, ◌++◌, arith, All, All-append, append_assoc,
  subst,
}
use framer.Loader.TimeoutQueue.{TimeoutQueueItem, TimeoutQueue}
use framer.Loader.TimeoutQueue.Schedules.{
  State, start, Step, Reach, adds, takes, stops, closes, here, later, add_inv, took_inv,
  stopped_inv, closed_inv,
}

-- Deadlines in order, from a bound on.
abbrev pub Sorted : ℕ → List TimeoutQueueItem → Type 0
Sorted b [] = Unit
Sorted b (i ∷ is) = (b ≤ i.deadline) × Sorted i.deadline is

abbrev ids : List TimeoutQueueItem → List ℕ
ids [] = []
ids (i ∷ is) = i.stream_id ∷ ids is

abbrev UpTo : ℕ → TimeoutQueueItem → Type 0
UpTo d i = i.deadline ≤ d

pub record IsOrdered (s : State) : Type 0 where
  pub fifo : s.taken ++ ids (s.queue).queue ≡ s.added
  pub sorted : Sorted 0 (s.queue).queue
  pub recent : All (UpTo (s.clock + (s.queue).timeout)) (s.queue).queue

Sorted-append :
    (b : ℕ) (is : List TimeoutQueueItem) (i : TimeoutQueueItem)
    → b ≤ i.deadline
    → Sorted b is
    → All (UpTo i.deadline) is
    → Sorted b (is ++ i ∷ [])
Sorted-append b [] i h s u = (h, tt)
Sorted-append b (j ∷ is) i h s u = (s.0, Sorted-append j.deadline is i u.0 s.1 u.1)

Sorted-less : (b c : ℕ) (is : List TimeoutQueueItem) → b ≤ c → Sorted c is → Sorted b is
Sorted-less b c [] h s = tt
Sorted-less b c (i ∷ is) h s = (omega (arith, s.0), s.1)

UpTo-more : (b c : ℕ) (is : List TimeoutQueueItem) → b ≤ c → All (UpTo b) is → All (UpTo c) is
UpTo-more b c [] h u = tt
UpTo-more b c (i ∷ is) h u = (omega (arith, u.0), UpTo-more b c is h u.1)

ids-append : (is js : List TimeoutQueueItem) → ids (is ++ js) ≡ ids is ++ ids js
ids-append [] js = refl
ids-append (i ∷ is) js = ap (◌∷◌ i.stream_id) (ids-append is js)

-- A step that leaves the items, the timeout and the histories alone.
kept :
    (s : State) (q : TimeoutQueue)
    → (q.queue ≡ (s.queue).queue) × (q.timeout ≡ (s.queue).timeout)
    → IsOrdered s
    → IsOrdered (record s { queue = q })
kept s q (same, time) o = record {
  fifo = ap (λ l. s.taken ++ ids l) same ∙ o.fifo;
  sorted = rw same o.sorted;
  recent = rw (same, time) o.recent;
}

Step-IsOrdered : {s t : State} → Step s t → IsOrdered s → IsOrdered t
Step-IsOrdered (adds s now id q h e) o =
    subst
      (λ p.
        IsOrdered (record { queue = p; clock = now; added = s.added ++ id ∷ []; taken = s.taken }))
      (add_inv s.queue q now id e)
      (record {
        fifo =
            ap (◌++◌ s.taken) (ids-append (s.queue).queue (i ∷ []))
            ∙ sym (append_assoc s.taken (ids (s.queue).queue) (id ∷ []))
            ∙ ap (λ l. l ++ id ∷ []) o.fifo;
        sorted = Sorted-append 0 (s.queue).queue i (omega arith) o.sorted all_before;
        recent =
            All-append (UpTo (now + (s.queue).timeout)) (s.queue).queue (i ∷ []) all_before
              (omega arith);
      })
  where
    i : TimeoutQueueItem
    i = record { stream_id = id; deadline = now + (s.queue).timeout }

    all_before : All (UpTo (now + (s.queue).timeout)) (s.queue).queue
    all_before = UpTo-more (s.clock + (s.queue).timeout) _ (s.queue).queue (omega arith) o.recent
Step-IsOrdered (takes s i q e) o =
    let (shape, time) = took_inv s.queue q i e in
    let sorted : Sorted 0 (i ∷ q.queue) = subst (Sorted 0) shape o.sorted in
    let recent : All (UpTo (s.clock + (s.queue).timeout)) (i ∷ q.queue) =
      subst (All (UpTo (s.clock + (s.queue).timeout))) shape o.recent in
    record {
      fifo =
          append_assoc s.taken (i.stream_id ∷ []) (ids q.queue)
          ∙ ap (λ l. s.taken ++ ids l) (sym shape)
          ∙ o.fifo;
      sorted = Sorted-less 0 i.deadline q.queue (omega arith) sorted.1;
      recent = rw time recent.1;
    }
Step-IsOrdered (stops s q e) o =
    let (none_left, same) = stopped_inv s.queue q e in
    kept s q (ap (λ p. p.queue) (sym same), ap (λ p. p.timeout) (sym same)) o
Step-IsOrdered (closes s q e) o = kept s q (closed_inv s.queue q e) o

-- Whatever calls of `Add`, `Next` and `Close` are interleaved, on a clock that does not go back: the
-- streams taken and then those in the queue are the streams added, in order, and the deadlines in
-- the queue are in order, so that the next item is one that is due first.
pub Reach-IsOrdered : (timeout : ℕ) (s : State) → Reach (start timeout) s → IsOrdered s
Reach-IsOrdered timeout _ here = record { fifo = refl; sorted = tt; recent = tt }
Reach-IsOrdered timeout _ (later {t} r st) = Step-IsOrdered st (Reach-IsOrdered timeout t r)
