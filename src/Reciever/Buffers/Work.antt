-- ===== src/Reciever/Buffers/Work.antt =====
-- What is left to do for the two goroutines falls with every step.
use framer.Base.{
  ℕ, ◌+◌, ◌<◌, ◌≤◌, ◌*◌, ap, Bool, true, false, Option, none, some, length, arith, take,
}
use framer.Reciever.Framer.{Framer}
use framer.Reciever.Loop.{Result, Handler, process}
use framer.Reciever.Buffers.{Reading, Processing, Reciever, processed, Step}

module _ {S : Type 0} (handle : Handler S) where
  abbrev pub reading_left : Reading → ℕ
  reading_left Reading.testing = 2
  reading_left Reading.reading = 1
  reading_left (Reading.sending n) = 5
  reading_left (Reading.ended e) = 0

  abbrev pub processing_left : Processing S → ℕ
  processing_left Processing.idle = 1
  processing_left (Processing.processing w n) = 3
  processing_left (Processing.blocked w n) = 2
  processing_left (Processing.ended r) = 0

  abbrev pub uncancelled : Bool → ℕ
  uncancelled true = 0
  uncancelled false = 1

  -- What is left to do.
  unfoldable pub work_left : Reciever S → ℕ
  work_left t =
      5 * length t.conn
      + reading_left t.reader
      + processing_left t.processor
      + uncancelled t.cancelled

  cancelled_less : (c : Bool) → uncancelled true ≤ uncancelled c
  cancelled_less true = omega arith
  cancelled_less false = omega arith

  processed-less :
      (r : Option (Result (S × Framer) S)) (t : Reciever S)
      → 2 ≤ processing_left t.processor
      → work_left (processed handle r t) < work_left t
  unfolding processed work_left
  processed-less (some (Result.ok (s, p))) t h = omega (arith, h)
  processed-less (some (Result.err x s)) t h = omega (arith, h, cancelled_less t.cancelled)
  processed-less (some Result.panic) t h = omega (arith, h, cancelled_less t.cancelled)
  processed-less none t h = omega (arith, h, cancelled_less t.cancelled)

  pub Step-less : {t u : Reciever S} → Step handle t u → work_left u < work_left t
  unfolding work_left
  Step-less (Step.test e c) = omega (arith, ap reading_left e)
  Step-less (Step.stop_loop e f c) = omega (arith, ap reading_left e)
  Step-less (Step.stop_read e c) = omega (arith, ap reading_left e)
  Step-less (Step.read c junk cs e f l) = omega (arith, ap reading_left e, ap length f)
  Step-less {t} (Step.fail_read b e l) =
      omega (arith, ap reading_left e, cancelled_less t.cancelled)
  Step-less (Step.send n e f) = omega (arith, ap reading_left e, ap processing_left f)
  Step-less (Step.stop_send n e c) = omega (arith, ap reading_left e)
  Step-less {t} (Step.finish w n e) =
      processed-less (process handle t.framer t.state (take n (t.buffer w))) t
        (omega (arith, ap processing_left e))
  Step-less (Step.block w n e) = omega (arith, ap processing_left e)
  Step-less {t} (Step.make_room w n e) =
      processed-less (process handle t.framer t.state (take n (t.buffer w))) t
        (omega (arith, ap processing_left e))
  Step-less (Step.close f e g) = omega (arith, ap processing_left e)
  Step-less (Step.cancel c) = omega (arith, ap uncancelled c)
