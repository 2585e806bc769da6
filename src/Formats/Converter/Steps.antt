-- ===== src/Formats/Converter/Steps.antt =====
-- Every step of the converter keeps the invariant.
use framer.Base.{
  ℕ, zero, suc, ◌+◌, ◌<◌, ◌≡◌, refl, sym, ap, subst, ◌∙◌, List, ◌∷◌, true, ◌||◌, map, ◌==◌, ==_iff,
  arith, inl, inr, ◌⊎◌, Bool-cases,
}
use framer.Formats.Converter.{
  Job, ConvertItem, Converting, Status, System, Step, update, converted, write_item, channel_closed,
  turn, Reach, has_failed,
}
use framer.Formats.Converter.Slots.{slots, slots_first, slots_skip}
use framer.Formats.Converter.Invariant.{
  writes, failures, IsPassing, IsLogged, IsClosing, Inv, start-Inv, IsPassing-mono, IsNext-mono,
}
use framer.Formats.Converter.Reads.{read-Inv, send-Inv, hand-Inv, or_right}
use framer.Formats.Converter.Keeps.{take-Inv, end-Inv, drained, cancel-Inv, stop_reader-Inv}
use framer.Formats.Converter.Writes.{write_item-i, write_item-closing, write_item-logged}
use native.Mathlib.Nat.{mod-lt}

module _ {M : Type 0} (J : Job M) (some_thread : 0 < J.threads) where
  pub turn-lt : (i : ℕ) → turn J i < J.threads
  turn-lt i = mod-lt i some_thread

  same_turn : (i : ℕ) → (turn J i == turn J i) ≡ true
  same_turn i = (==_iff _ _).1 refl

  -- What an item in a converter's hands says of the messages that are read and not written.
  gap_pos :
      (x : ConvertItem M) (q : List M) (w gap : ℕ)
      → x ∷ map (converted J) q
        ≡ map (λ k. converted J (J.message k)) (slots J.threads (turn J w) w gap)
      → (g : ℕ) × (gap ≡ suc g)
        × (x ≡ converted J (J.message w))
        × (map (converted J) q
            ≡ map (λ k. converted J (J.message k)) (slots J.threads (turn J w) (suc w) g))
  unfolding slots
  gap_pos x q w zero h = cc
  gap_pos x q w (suc g) h =
      let all : x ∷ map (converted J) q
          ≡ converted J (J.message w)
            ∷ map (λ k. converted J (J.message k)) (slots J.threads (turn J w) (suc w) g) =
        h
        ∙ ap (map (λ k. converted J (J.message k)))
            (slots_first J.threads (turn J w) w g (same_turn w)) in
      (g, refl, cc, cc)

  module _ (s : System M) (inv : Inv J s) (r : s.writer.status ≡ Status.running) where
    open inv use {gap, read, within, next, pass, logged, closing}

    running_logged :
        (s.writer.written ≡ writes J s.writer.i) × (s.writer.errors ≡ failures J s.writer.i)
    running_logged =
        subst (λ st. IsLogged J st s.writer.i s.writer.written s.writer.errors) r logged

    running_closing :
        (s.writer.closed_chans ≡ 0) ⊎ (s.converter (turn J s.writer.i) ≡ Converting.ended)
    running_closing =
        subst (λ st. IsClosing J st s.writer.closed_chans (s.converter (turn J s.writer.i))) r
          closing

    write-Inv :
        (x : ConvertItem M)
        → s.converter (turn J s.writer.i) ≡ Converting.sending x
        → Inv J (record s {
          converter = update s.converter (turn J s.writer.i) Converting.idle;
          writer = write_item J x s.writer;
          cancelled = has_failed J (write_item J x s.writer).status || s.cancelled;
        })
    write-Inv x e =
        let w = s.writer.i in
        let t = turn J w in
        let b = has_failed J (write_item J x s.writer).status in
        let has : x ∷ map (converted J) (s.queue t)
            ≡ map (λ k. converted J (J.message k)) (slots J.threads t w gap) =
          subst
            (λ c. IsPassing J c (s.queue t) (slots J.threads t w gap) s.reader.reading s.cancelled)
            e (pass t (turn-lt w)) in
        let (g, one, item, rest) = gap_pos x (s.queue t) w gap has in
        let i' = write_item-i J x s.writer in
        let z : s.writer.closed_chans ≡ 0 = elim running_closing [
          | inl z ↦ z
          | inr k ↦ let bad : Converting.sending x ≡ Converting.ended = sym e ∙ k in cc
        ] in
        let (a, f) = running_logged in
        record {
          gap = g;
          read = omega (arith, read, one, i');
          within = within;
          next = IsNext-mono J s.reader.reading s.reader.i (b || s.cancelled) (or_right b) next;
          pass = λ j h. rw i' (elim (Bool-cases (t == j)) [
            | inl p ↦
                let here : t ≡ j = (==_iff t j).0 p in
                rw p (
                  subst
                    (λ k.
                      map (converted J) (s.queue k)
                      ≡ map (λ k. converted J (J.message k)) (slots J.threads k (suc w) g))
                    here rest)
            | inr p ↦
                let fewer : slots J.threads j w gap ≡ slots J.threads j (suc w) g =
                  ap (slots J.threads j w) one ∙ slots_skip J.threads j w g p in
                rw p (
                  IsPassing-mono J (s.converter j) (s.queue j) (slots J.threads j (suc w) g)
                    (or_right b) (λ f. f)
                    (subst
                      (λ l. IsPassing J (s.converter j) (s.queue j) l s.reader.reading s.cancelled)
                      fewer (pass j h)))
          ]);
          logged = write_item-logged J x s.writer item r a f;
          closing = write_item-closing J x s.writer _ r z;
        }

    closed-Inv :
        s.converter (turn J s.writer.i) ≡ Converting.ended
        → Inv J (record s { writer = channel_closed J s.writer })
    unfolding channel_closed
    closed-Inv e = elim (Bool-cases (s.writer.closed_chans + 1 == J.threads)) [
      | inl p ↦ rw p (record {
        gap = gap;
        read = read;
        within = within;
        next = next;
        pass = pass;
        logged = running_logged;
        closing = e;
      })
      | inr p ↦ rw p (record {
        gap = gap;
        read = read;
        within = within;
        next = next;
        pass = pass;
        logged = logged;
        closing =
            subst
              (λ st. IsClosing J st (s.writer.closed_chans + 1) (s.converter (turn J s.writer.i)))
              (sym r) (inr e);
      })
    ]

    stop_writer-Inv : Inv J (record s { writer = record (s.writer) { status = Status.stopped } })
    stop_writer-Inv = record {
      gap = gap;
      read = read;
      within = within;
      next = next;
      pass = pass;
      logged = running_logged;
      closing = running_closing;
    }

  pub Step-Inv : {s t : System M} → Step J s t → Inv J s → Inv J t
  Step-Inv {s} (Step.read e) inv = read-Inv J s inv e
  Step-Inv {s} (Step.send m e room) inv = send-Inv J s inv m e
  Step-Inv {s} (Step.hand m e empty waits) inv = hand-Inv J s inv m e empty waits
  Step-Inv {s} (Step.take j m q h waits queued) inv = take-Inv J s inv j m q waits queued
  Step-Inv {s} (Step.drain j h waits empty over) inv =
      end-Inv J s inv j (inr (over, drained J s inv j h waits empty))
  Step-Inv {s} (Step.write x r e) inv = write-Inv s inv r x e
  Step-Inv {s} (Step.closed r e) inv = closed-Inv s inv r e
  Step-Inv {s} (Step.cancel c) inv = cancel-Inv J s inv
  Step-Inv {s} (Step.stop_reader m c e) inv = stop_reader-Inv J s inv m c e
  Step-Inv {s} (Step.stop_converter j c h live) inv = end-Inv J s inv j (inl c)
  Step-Inv {s} (Step.stop_writer c r) inv = stop_writer-Inv s inv r

  pub Reach-Inv : {s : System M} → Reach J s → Inv J s
  Reach-Inv Reach.here = start-Inv J
  Reach-Inv (Reach.later r st) = Step-Inv st (Reach-Inv r)
