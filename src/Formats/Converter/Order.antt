-- ===== src/Formats/Converter/Order.antt =====
-- What the converter has written, in every state that it can reach.
use framer.Base.{
  ℕ, zero, suc, ◌<◌, ◌≤◌, ◌≡◌, refl, sym, subst, ◌∙◌, List, [], ◌∷◌, Bool, true, false, ==_iff,
  arith, inl, inr,
}
use framer.Formats.Converter.{Job, Reading, Converting, Status, System, turn, Reach}
use framer.Formats.Converter.Slots.{slots, slots_first}
use framer.Formats.Converter.Invariant.{
  writes, failures, IsNext, IsPassing, IsLogged, IsClosing, Inv,
}
use framer.Formats.Converter.Steps.{turn-lt, Reach-Inv}

module _ {M : Type 0} (J : Job M) where
  log_of :
      (st : Status) (i : ℕ) (ms : List M) (es : List ℕ)
      → IsLogged J st i ms es
      → (k : ℕ) × (k ≤ i) × (ms ≡ writes J k) × (es ≡ failures J k) × (st ≡ Status.finished → k ≡ i)
  log_of Status.running i ms es (a, b) = (i, omega arith, a, b, λ e. refl)
  log_of Status.finished i ms es (a, b) = (i, omega arith, a, b, λ e. refl)
  log_of Status.stopped i ms es (a, b) = (i, omega arith, a, b, λ e. refl)
  log_of Status.failed i ms es (k, e, a, b) = (k, omega arith, a, b, λ f. cc)

  pub none_between : (w gap : ℕ) → slots J.threads (turn J w) w gap ≡ [] → gap ≡ 0
  none_between w zero h = refl
  none_between w (suc g) h =
      let bad : w ∷ slots J.threads (turn J w) (suc w) g ≡ [] =
        sym (slots_first J.threads (turn J w) w g ((==_iff _ _).1 refl)) ∙ h in
      cc

  -- A writer that has finished, with no cancellation, has written every message.
  all_written :
      0 < J.threads
      → (s : System M) → Inv J s
      → s.writer.status ≡ Status.finished
      → s.cancelled ≡ false
      → s.writer.i ≡ J.count
  all_written some_thread s inv f c =
      let w = s.writer.i in
      let gone : s.converter (turn J w) ≡ Converting.ended =
        subst (λ st. IsClosing J st s.writer.closed_chans (s.converter (turn J w))) f inv.closing in
      let left : IsPassing J Converting.ended (s.queue (turn J w))
          (slots J.threads (turn J w) w inv.gap) s.reader.reading s.cancelled =
        subst
          (λ x.
            IsPassing J x (s.queue (turn J w)) (slots J.threads (turn J w) w inv.gap)
              s.reader.reading s.cancelled)
          gone (inv.pass (turn J w) (turn-lt J some_thread w)) in
      elim left [
        | inl b ↦ let bad : true ≡ false = sym b ∙ c in cc
        | inr (over, empty) ↦
            let at_end : IsNext J Reading.ended s.reader.i s.cancelled =
              subst (λ x. IsNext J x s.reader.i s.cancelled) over inv.next in
            elim at_end [
              | inl b ↦ let bad : true ≡ false = sym b ∙ c in cc
              | inr e ↦ omega (arith, e, inv.read, none_between w inv.gap empty)
            ]
      ]

  -- A writer that has finished, and was not cancelled, has written every message.
  abbrev pub IsComplete : Status → Bool → ℕ → Type 0
  IsComplete Status.finished false k = k ≡ J.count
  IsComplete _ _ k = Unit

  complete :
      (st : Status) (b : Bool) (s : System M) (k : ℕ)
      → 0 < J.threads
      → Inv J s
      → s.writer.status ≡ st
      → s.cancelled ≡ b
      → (s.writer.status ≡ Status.finished → k ≡ s.writer.i)
      → IsComplete st b k
  complete Status.finished false s k some_thread inv e c last =
      last e ∙ all_written some_thread s inv e c
  complete _ _ s k some_thread inv e c last = tt

  -- In every state that the converter can reach, with some thread, whatever fails and whenever it is
  -- cancelled: what is written are the messages that are converted among the first `k`, in order, and
  -- the errors that are written are the numbers of the others among them; and if it has finished and
  -- was not cancelled, these are all messages.
  pub Reach-ordered :
      {s : System M}
      → 0 < J.threads
      → Reach J s
      → (k : ℕ) × (k ≤ J.count)
        × (s.writer.written ≡ writes J k)
        × (s.writer.errors ≡ failures J k)
        × IsComplete s.writer.status s.cancelled k
  Reach-ordered {s} some_thread r =
      let inv = Reach-Inv J some_thread r in
      let (k, le, ms, es, last) =
        log_of s.writer.status s.writer.i s.writer.written s.writer.errors inv.logged in
      (
        k,
        omega (arith, le, inv.read, inv.within),
        ms,
        es,
        complete s.writer.status s.cancelled s k some_thread inv refl refl last,
      )
