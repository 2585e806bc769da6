-- ===== src/Formats/Converter/Progress.antt =====
-- The converter does not come to a halt before its writer has returned.
use framer.Base.{◌<◌, ◌≡◌, refl, ap, ◌∙◌, List, [], ◌∷◌, arith, inl, inr, ◌⊎◌}
use framer.Formats.Converter.{Job, Reading, Converting, Status, System, Step, turn, Reach}
use framer.Formats.Converter.Slots.{slots}
use framer.Formats.Converter.Invariant.{Inv}
use framer.Formats.Converter.Keeps.{drained}
use framer.Formats.Converter.Steps.{turn-lt, Reach-Inv}
use framer.Formats.Converter.Order.{none_between}

module _ {M : Type 0} (J : Job M) where
  -- A step that a goroutine takes by itself in its work: not the cancellation from outside, and not the
  -- return of a goroutine that finds the context cancelled.
  abbrev pub IsWork : {s t : System M} → Step J s t → Type 0
  IsWork (Step.cancel c) = ⊥
  IsWork (Step.stop_reader m c e) = ⊥
  IsWork (Step.stop_converter j c l live) = ⊥
  IsWork (Step.stop_writer c r) = ⊥
  IsWork _ = Unit

module _ {M : Type 0} (J : Job M) (some_thread : 0 < J.threads) where
  abbrev Works : System M → Type 0
  Works s = (t : System M) × (st : Step J s t) × IsWork J st

  -- The reader's next step, where the converter of its channel waits with nothing in its buffer.
  reader_step :
      (s : System M) (r : Reading M)
      → s.reader.reading ≡ r
      → s.converter (turn J s.reader.i) ≡ Converting.idle
      → s.queue (turn J s.reader.i) ≡ []
      → (r ≡ Reading.ended) ⊎ Works s
  reader_step s Reading.idle e waits empty = inr (_, Step.read e, tt)
  reader_step s (Reading.sending m) e waits empty = inr (_, Step.hand m e empty waits, tt)
  reader_step s Reading.ended e waits empty = inl refl

  -- The next step for the converter whose turn it is to write.
  module _ (s : System M) (inv : Inv J s) (running : s.writer.status ≡ Status.running) where
    idle_step :
        (q : List M)
        → s.converter (turn J s.writer.i) ≡ Converting.idle
        → s.queue (turn J s.writer.i) ≡ q
        → Works s
    idle_step [] waits empty =
        let w = s.writer.i in
        let ks = slots J.threads (turn J w) w inv.gap in
        let gone : ks ≡ [] = drained J s inv (turn J w) (turn-lt J some_thread w) waits empty in
        let same : s.reader.i ≡ w = omega (arith, inv.read, none_between J w inv.gap gone) in
        elim (reader_step s s.reader.reading refl (ap (λ i. s.converter (turn J i)) same ∙ waits)
          (ap (λ i. s.queue (turn J i)) same ∙ empty)) [
            | inl over ↦ (_, Step.drain (turn J w) (turn-lt J some_thread w) waits empty over, tt)
            | inr st ↦ st
          ]
    idle_step (m ∷ q) waits queued =
        (_, Step.take (turn J s.writer.i) m q (turn-lt J some_thread s.writer.i) waits queued, tt)

    turn_step : (c : Converting M) → s.converter (turn J s.writer.i) ≡ c → Works s
    turn_step Converting.idle e = idle_step (s.queue (turn J s.writer.i)) e refl
    turn_step (Converting.sending x) e = (_, Step.write x running e, tt)
    turn_step Converting.ended e = (_, Step.closed running e, tt)

  -- In every state that the converter can reach and in which its writer runs, some goroutine can take
  -- a step of its work, without the cancellation of the context.
  pub no_deadlock :
      {s : System M}
      → Reach J s
      → s.writer.status ≡ Status.running
      → (t : System M) × (st : Step J s t) × IsWork J st
  no_deadlock {s} r running =
      turn_step s (Reach-Inv J some_thread r) running (s.converter (turn J s.writer.i)) refl
