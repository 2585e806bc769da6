-- ===== src/Formats/Converter/Reads.antt =====
-- What the reader does keeps the invariant.
use framer.Base.{
  ℕ, suc, ◌<◌, ◌≡◌, refl, sym, ap, subst, ◌∙◌, [], ◌∷◌, ◌++◌, Bool, true, false, ◌||◌,
  if◌then◌else◌, ◌==◌, ==_iff, ltb, ltb→lt, arith, inl, inr, Bool-cases, append-nil,
}
use framer.Formats.Converter.{
  Job, Reading, Converting, System, update, read_next, read_error, converted, turn, sent,
}
use framer.Formats.Converter.Slots.{slots, slots-snoc}
use framer.Formats.Converter.Invariant.{
  IsNext, IsPassing, Inv, IsPassing-mono, IsPassing-snoc, IsClosing-update,
}

pub or_right : (a : Bool) {b : Bool} → b ≡ true → (a || b) ≡ true
or_right true h = refl
or_right false h = h

module _ {M : Type 0} (J : Job M) (s : System M) (inv : Inv J s) where
  open inv use {gap, read, within, next, pass, logged, closing}

  -- The messages of a channel, with the next.
  one_more :
      (j : ℕ)
      → slots J.threads j s.writer.i (suc gap)
        ≡ slots J.threads j s.writer.i gap
          ++ (if turn J s.reader.i == j then s.reader.i ∷ [] else [])
  one_more j = rw read (slots-snoc J.threads j s.writer.i gap)

  pub read-Inv :
      s.reader.reading ≡ Reading.idle
      → Inv J (record s {
        reader = read_next J s.reader;
        cancelled = read_error J s.reader || s.cancelled;
      })
  unfolding read_next read_error
  read-Inv e = elim (Bool-cases (ltb s.reader.i J.count)) [
    | inl l ↦ rw l (record {
      gap = gap;
      read = read;
      within = within;
      next = (refl, ltb→lt _ _ l);
      pass = λ j h.
          IsPassing-mono J (s.converter j) (s.queue j) (slots J.threads j s.writer.i gap) (λ c. c)
            (λ f. let bad : Reading.idle ≡ Reading.ended = sym e ∙ f in cc) (pass j h);
      logged = logged;
      closing = closing;
    })
    | inr l ↦ rw l (record {
      gap = gap;
      read = read;
      within = within;
      next = inr (ground arith);
      pass = λ j h.
          IsPassing-mono J (s.converter j) (s.queue j) (slots J.threads j s.writer.i gap)
            (λ c. or_right J.read_fails c) (λ f. refl) (pass j h);
      logged = logged;
      closing = closing;
    })
  ]

  -- The reader sends: what its channel has, and the others.
  module _ (m : M) (e : s.reader.reading ≡ Reading.sending m) where
    pub is_next : (m ≡ J.message s.reader.i) × (s.reader.i < J.count)
    is_next = subst (λ r. IsNext J r s.reader.i s.cancelled) e next

    sent_here :
        (j : ℕ)
        → j < J.threads
        → (turn J s.reader.i == j) ≡ true
        → IsPassing J
            (s.converter j)
            (s.queue j ++ m ∷ [])
            (slots J.threads j s.writer.i (suc gap))
            Reading.idle
            s.cancelled
    sent_here j h p =
        rw (one_more j, p)
          (IsPassing-snoc J (s.converter j) (s.queue j) (slots J.threads j s.writer.i gap) m
            s.reader.i Reading.idle s.cancelled is_next.0 e (pass j h))

    sent_elsewhere :
        (j : ℕ)
        → j < J.threads
        → (turn J s.reader.i == j) ≡ false
        → IsPassing J
            (s.converter j)
            (s.queue j)
            (slots J.threads j s.writer.i (suc gap))
            Reading.idle
            s.cancelled
    sent_elsewhere j h p =
        let same : slots J.threads j s.writer.i gap ++ [] ≡ slots J.threads j s.writer.i gap =
          append-nil (slots J.threads j s.writer.i gap) in
        rw (one_more j, p, same)
          (IsPassing-mono J (s.converter j) (s.queue j) (slots J.threads j s.writer.i gap) (λ c. c)
            (λ f. let bad : Reading.sending m ≡ Reading.ended = sym e ∙ f in cc) (pass j h))

    pub send-Inv : Inv J (record (sent J s) {
      queue = update s.queue (turn J s.reader.i) (s.queue (turn J s.reader.i) ++ m ∷ []);
    })
    send-Inv = record {
      gap = suc gap;
      read = omega (arith, read);
      within = omega (arith, is_next.1);
      next = tt;
      pass = λ j h. elim (Bool-cases (turn J s.reader.i == j)) [
        | inl p ↦ rw p (
            subst
              (λ k.
                IsPassing J (s.converter j) (s.queue k ++ m ∷ [])
                  (slots J.threads j s.writer.i (suc gap)) Reading.idle s.cancelled)
              (sym ((==_iff (turn J s.reader.i) j).0 p)) (sent_here j h p))
        | inr p ↦ rw p (sent_elsewhere j h p)
      ];
      logged = logged;
      closing = closing;
    }

    pub hand-Inv :
        s.queue (turn J s.reader.i) ≡ []
        → s.converter (turn J s.reader.i) ≡ Converting.idle
        → Inv J (record (sent J s) {
          converter = update s.converter (turn J s.reader.i) (Converting.sending (converted J m));
        })
    hand-Inv empty waits = record {
      gap = suc gap;
      read = omega (arith, read);
      within = omega (arith, is_next.1);
      next = tt;
      pass = λ j h. elim (Bool-cases (turn J s.reader.i == j)) [
        | inl p ↦
            let here : turn J s.reader.i ≡ j = (==_iff (turn J s.reader.i) j).0 p in
            let c : s.converter j ≡ Converting.idle = ap s.converter (sym here) ∙ waits in
            let q : s.queue j ≡ [] = ap s.queue (sym here) ∙ empty in
            let all = slots J.threads j s.writer.i (suc gap) in
            let u : IsPassing J Converting.idle (s.queue j ++ m ∷ []) all Reading.idle s.cancelled =
              subst (λ x. IsPassing J x (s.queue j ++ m ∷ []) all Reading.idle s.cancelled) c
                (sent_here j h p) in
            rw (p, q)
              (subst (λ x. IsPassing J Converting.idle (x ++ m ∷ []) all Reading.idle s.cancelled) q
                u)
        | inr p ↦ rw p (sent_elsewhere j h p)
      ];
      logged = logged;
      closing =
          IsClosing-update J s.writer.status s.writer.closed_chans s.converter (turn J s.reader.i)
            (turn J s.writer.i) (Converting.sending (converted J m))
            (λ k. let bad : Converting.idle ≡ Converting.ended = sym waits ∙ k in cc) closing;
    }
