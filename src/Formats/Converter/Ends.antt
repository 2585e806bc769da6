-- ===== src/Formats/Converter/Ends.antt =====
-- Every run of the converter comes to an end.
use framer.Base.{
  ℕ, zero, suc, ◌+◌, ◌<◌, ◌≤◌, ◌≡◌, ◌≢◌, ◌⊎◌, ◌*◌, refl, ◌==◌, arith, inl, inr, Bool-cases,
}
use framer.Formats.Converter.{
  Job, ConvertItem, Status, Writer, System, Step, write_item, channel_closed, Reach, start,
}
use framer.Formats.Converter.Writes.{write_item_cases}
use framer.Formats.Converter.Steps.{Reach-Inv}
use framer.Formats.Converter.Sums.{total}
use framer.Formats.Converter.Work.{work_left, IsShort, Step-less}
use framer.Formats.Converter.Progress.{IsWork, no_deadlock}

total_ones : (n : ℕ) → total n (λ _. 1) ≡ n
unfolding total
total_ones zero = refl
total_ones (suc n) = omega (arith, total_ones n)

module _ {M : Type 0} (J : Job M) where
  write-IsShort :
      (x : ConvertItem M) (w : Writer M)
      → (w.status ≡ Status.running → w.closed_chans < J.threads)
      → w.status ≡ Status.running
      → (write_item J x w).closed_chans < J.threads
  write-IsShort x w h r = elim (write_item_cases J x w) [
    | inl (p, e) ↦ rw e (h r)
    | inr (inl (p, e)) ↦ rw e (h r)
    | inr (inr e) ↦ rw e (h r)
  ]

  closed-IsShort :
      (w : Writer M)
      → w.closed_chans < J.threads
      → (channel_closed J w).status ≡ Status.running
      → (channel_closed J w).closed_chans < J.threads
  unfolding channel_closed
  closed-IsShort w h = elim (Bool-cases (w.closed_chans + 1 == J.threads)) [
    | inl p ↦ rw (p, channel_closed) (λ e. cc)
    | inr p ↦ rw (p, channel_closed) (λ e. ground arith)
  ]

  Step-IsShort : {s t : System M} → Step J s t → IsShort J s → IsShort J t
  Step-IsShort (Step.read e) h = h
  Step-IsShort (Step.send m e room) h = h
  Step-IsShort (Step.hand m e empty waits) h = h
  Step-IsShort (Step.take j m q l waits queued) h = h
  Step-IsShort (Step.drain j l waits empty over) h = h
  Step-IsShort {s} (Step.write x r e) h = λ _. write-IsShort x s.writer h r
  Step-IsShort {s} (Step.closed r e) h = closed-IsShort s.writer (h r)
  Step-IsShort (Step.cancel c) h = h
  Step-IsShort (Step.stop_reader m c e) h = h
  Step-IsShort (Step.stop_converter j c l live) h = h
  Step-IsShort (Step.stop_writer c r) h = λ e. cc

  Reach-IsShort : {s : System M} → 0 < J.threads → Reach J s → IsShort J s
  Reach-IsShort some_thread Reach.here = λ _. some_thread
  Reach-IsShort some_thread (Reach.later r st) = Step-IsShort st (Reach-IsShort some_thread r)

  -- How many steps a run has.
  pub steps : {s : System M} → Reach J s → ℕ
  steps Reach.here = 0
  steps (Reach.later r st) = suc (steps r)

  steps_left :
      {s : System M} (r : Reach J s)
      → 0 < J.threads
      → steps r + work_left J s ≤ work_left J (start J)
  unfolding steps
  steps_left Reach.here some_thread = omega arith
  steps_left (Reach.later r st) some_thread = omega (
    arith,
    steps_left r some_thread,
    Step-less J some_thread st (Reach-Inv J some_thread r) (Reach-IsShort some_thread r),
  )

  halts :
      {s : System M} (st : Status)
      → 0 < J.threads
      → Reach J s
      → s.writer.status ≡ st
      → (s.writer.status ≢ Status.running) ⊎ ((t : System M) × (step : Step J s t) × IsWork J step)
  halts Status.running some_thread r e = inr (no_deadlock J some_thread r e)
  halts Status.finished some_thread r e = inl (λ f. cc)
  halts Status.failed some_thread r e = inl (λ f. cc)
  halts Status.stopped some_thread r e = inl (λ f. cc)

  -- With some thread, every run of the converter, whatever fails and whenever it is cancelled, has at
  -- most four steps for each message, two for each thread and four more; and in every state that it
  -- reaches the writer has returned, or some goroutine can take a step of its work: one that is neither
  -- the cancellation from outside nor the return of a goroutine for a context that is cancelled.
  pub Reach-ends :
      {s : System M} (r : Reach J s)
      → 0 < J.threads
      → (steps r ≤ 4 * J.count + 2 * J.threads + 4)
        × ((s.writer.status ≢ Status.running)
            ⊎ ((t : System M) × (step : Step J s t) × IsWork J step))
  unfolding work_left
  Reach-ends {s} r some_thread = (
    omega (arith, steps_left r some_thread, total_ones J.threads),
    halts s.writer.status some_thread r refl,
  )
