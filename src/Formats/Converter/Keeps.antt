-- ===== src/Formats/Converter/Keeps.antt =====
-- What a converter does keeps the invariant, and so do the cancellations.
use framer.Base.{
  ℕ, ◌<◌, ◌≡◌, refl, sym, ap, subst, ◌∙◌, List, [], ◌∷◌, true, ◌==◌, ==_iff, inl, inr, ◌⊎◌,
  Bool-cases,
}
use framer.Formats.Converter.{Job, Reading, Converting, System, update, converted, turn}
use framer.Formats.Converter.Slots.{slots}
use framer.Formats.Converter.Invariant.{
  IsPassing, Inv, IsPassing-mono, none_left, IsClosing-update, IsClosing-update_ended, IsNext-mono,
}

module _ {M : Type 0} (J : Job M) (s : System M) (inv : Inv J s) where
  open inv use {gap, read, within, next, pass, logged, closing}

  -- A converter receives a message.
  pub take-Inv :
      (j : ℕ) (m : M) (q : List M)
      → s.converter j ≡ Converting.idle
      → s.queue j ≡ m ∷ q
      → Inv J (record s {
        queue = update s.queue j q;
        converter = update s.converter j (Converting.sending (converted J m));
      })
  take-Inv j m q waits queued = record {
    gap = gap;
    read = read;
    within = within;
    next = next;
    pass = λ k h. elim (Bool-cases (j == k)) [
      | inl p ↦
          let here : j ≡ k = (==_iff j k).0 p in
          let c : s.converter k ≡ Converting.idle = ap s.converter (sym here) ∙ waits in
          let e : s.queue k ≡ m ∷ q = ap s.queue (sym here) ∙ queued in
          let ks = slots J.threads k s.writer.i gap in
          rw p (
            subst (λ x. IsPassing J Converting.idle x ks s.reader.reading s.cancelled) e
              (subst (λ x. IsPassing J x (s.queue k) ks s.reader.reading s.cancelled) c (pass k h)))
      | inr p ↦ rw p (pass k h)
    ];
    logged = logged;
    closing =
        IsClosing-update J s.writer.status s.writer.closed_chans s.converter j (turn J s.writer.i)
          (Converting.sending (converted J m))
          (λ k. let bad : Converting.idle ≡ Converting.ended = sym waits ∙ k in cc) closing;
  }

  -- A converter ends: there is nothing more for it, or it is stopped.
  pub end-Inv :
      (j : ℕ)
      → ((s.cancelled ≡ true)
          ⊎ ((s.reader.reading ≡ Reading.ended) × (slots J.threads j s.writer.i gap ≡ [])))
      → Inv J (record s { converter = update s.converter j Converting.ended })
  end-Inv j why = record {
    gap = gap;
    read = read;
    within = within;
    next = next;
    pass = λ k h. elim (Bool-cases (j == k)) [
      | inl p ↦
          let here : j ≡ k = (==_iff j k).0 p in
          rw p (
            subst
              (λ x.
                (s.cancelled ≡ true)
                ⊎ ((s.reader.reading ≡ Reading.ended) × (slots J.threads x s.writer.i gap ≡ [])))
              here why)
      | inr p ↦ rw p (pass k h)
    ];
    logged = logged;
    closing =
        IsClosing-update_ended J s.writer.status s.writer.closed_chans s.converter j
          (turn J s.writer.i) closing;
  }

  pub drained :
      (j : ℕ)
      → j < J.threads
      → s.converter j ≡ Converting.idle
      → s.queue j ≡ []
      → slots J.threads j s.writer.i gap ≡ []
  drained j h waits empty =
      let ks = slots J.threads j s.writer.i gap in
      none_left J ks (
        subst (λ x. IsPassing J Converting.idle x ks s.reader.reading s.cancelled) empty
          (subst (λ x. IsPassing J x (s.queue j) ks s.reader.reading s.cancelled) waits (pass j h)))

  pub cancel-Inv : Inv J (record s { cancelled = true })
  cancel-Inv = record {
    gap = gap;
    read = read;
    within = within;
    next = IsNext-mono J s.reader.reading s.reader.i true (λ c. refl) next;
    pass = λ j h.
        IsPassing-mono J (s.converter j) (s.queue j) (slots J.threads j s.writer.i gap) (λ c. refl)
          (λ f. f) (pass j h);
    logged = logged;
    closing = closing;
  }

  pub stop_reader-Inv :
      (m : M)
      → s.cancelled ≡ true
      → s.reader.reading ≡ Reading.sending m
      → Inv J (record s { reader = record (s.reader) { reading = Reading.ended } })
  stop_reader-Inv m c e = record {
    gap = gap;
    read = read;
    within = within;
    next = inl c;
    pass = λ j h.
        IsPassing-mono J (s.converter j) (s.queue j) (slots J.threads j s.writer.i gap) (λ c. c)
          (λ f. refl) (pass j h);
    logged = logged;
    closing = closing;
  }
