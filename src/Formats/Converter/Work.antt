-- ===== src/Formats/Converter/Work.antt =====
-- A measure of what is left to do, from which each step of the converter takes.
use framer.Base.{
  ℕ, suc, ◌+◌, ◌-◌, ◌<◌, ◌≤◌, ◌≡◌, ◌≢◌, ◌*◌, refl, length-append, sym, ap, List, [], ◌∷◌, ◌++◌,
  Bool, true, false, ◌||◌, ◌==◌, ltb, length, arith, inl, inr, Bool-cases,
}
use framer.Formats.Converter.{
  Job, ConvertItem, Reading, Reader, Converting, Status, Writer, System, Step, update, read_next,
  read_error, converted, write_item, channel_closed, turn, has_failed,
}
use framer.Formats.Converter.Invariant.{Inv}
use framer.Formats.Converter.Reads.{is_next}
use framer.Formats.Converter.Writes.{write_item_cases}
use framer.Formats.Converter.Steps.{turn-lt}
use framer.Formats.Converter.Sums.{total, total_other, update_self, update_other}

module _ {M : Type 0} (J : Job M) where
  abbrev reading_left : Reading M → ℕ
  reading_left Reading.idle = 2
  reading_left (Reading.sending m) = 1
  reading_left Reading.ended = 0

  abbrev converting_left : Converting M → ℕ
  converting_left Converting.idle = 1
  converting_left (Converting.sending x) = 2
  converting_left Converting.ended = 0

  abbrev writing_left : Status → ℕ → ℕ
  writing_left Status.running n = suc (J.threads - n)
  writing_left _ n = 0

  abbrev uncancelled : Bool → ℕ
  uncancelled true = 0
  uncancelled false = 1

  abbrev reader_left : Reader M → ℕ
  reader_left r = 4 * (J.count - r.i) + reading_left r.reading

  abbrev load : (ℕ → Converting M) → (ℕ → List M) → ℕ → ℕ
  load c q j = converting_left (c j) + 2 * length (q j)

  unfoldable pub work_left : System M → ℕ
  work_left s =
      reader_left s.reader
      + total J.threads (load s.converter s.queue)
      + writing_left s.writer.status s.writer.closed_chans
      + uncancelled s.cancelled

  -- While the writer runs, it has not seen all channels closed.
  abbrev pub IsShort : System M → Type 0
  IsShort s = s.writer.status ≡ Status.running → s.writer.closed_chans < J.threads

  -- The load after another buffer, another converter's round, and both.
  queue_load :
      (c : ℕ → Converting M) (q : ℕ → List M) (i : ℕ) (l : List M)
      → i < J.threads
      → total J.threads (load c (update q i l)) + 2 * length (q i)
        ≡ total J.threads (load c q) + 2 * length l
  queue_load c q i l h = omega (
    arith,
    total_other J.threads (load c q) (load c (update q i l)) i h
        (λ k n. ap (λ x. converting_left (c k) + 2 * length x) (sym (update_other q i l k n))),
    ap (λ x. 2 * length x) (update_self q i l),
  )

  converter_load :
      (c : ℕ → Converting M) (q : ℕ → List M) (i : ℕ) (x : Converting M)
      → i < J.threads
      → total J.threads (load (update c i x) q) + converting_left (c i)
        ≡ total J.threads (load c q) + converting_left x
  converter_load c q i x h = omega (
    arith,
    total_other J.threads (load c q) (load (update c i x) q) i h
        (λ k n. ap (λ y. converting_left y + 2 * length (q k)) (sym (update_other c i x k n))),
    ap converting_left (update_self c i x),
  )

  uncancelled_le : (b c : Bool) → uncancelled (b || c) ≤ uncancelled c
  uncancelled_le true c = omega arith
  uncancelled_le false c = omega arith

  read_less :
      (r : Reader M) → r.reading ≡ Reading.idle → reader_left (read_next J r) < reader_left r
  unfolding read_next
  read_less r e = elim (Bool-cases (ltb r.i J.count)) [
    | inl p ↦ rw (p, read_next) (omega (arith, ap reading_left e))
    | inr p ↦ rw (p, read_next) (omega (arith, ap reading_left e))
  ]

  write_less :
      (x : ConvertItem M) (w : Writer M)
      → w.status ≡ Status.running
      → writing_left (write_item J x w).status (write_item J x w).closed_chans
        ≤ writing_left w.status w.closed_chans
  write_less x w r = elim (write_item_cases J x w) [
    | inl (p, e) ↦ rw e (omega arith)
    | inr (inl (p, e)) ↦ rw e (omega arith)
    | inr (inr e) ↦ rw e (omega arith)
  ]

  closed_less :
      (w : Writer M)
      → w.status ≡ Status.running
      → w.closed_chans < J.threads
      → writing_left (channel_closed J w).status (channel_closed J w).closed_chans
        < writing_left w.status w.closed_chans
  unfolding channel_closed
  closed_less w r h =
      let here : writing_left w.status w.closed_chans ≡ suc (J.threads - w.closed_chans) =
        ap (λ st. writing_left st w.closed_chans) r in
      elim (Bool-cases (w.closed_chans + 1 == J.threads)) [
        | inl p ↦ rw (p, channel_closed) (omega (arith, here))
        | inr p ↦
            rw (p, channel_closed)
              (omega (arith, here, ap (λ st. writing_left st (w.closed_chans + 1)) r))
      ]

  -- Each step takes from it.
  pub Step-less :
      {s t : System M}
      → 0 < J.threads
      → Step J s t
      → Inv J s
      → IsShort s
      → work_left t < work_left s
  unfolding work_left
  Step-less {s} some_thread (Step.read e) inv h =
      omega (arith, read_less s.reader e, uncancelled_le (read_error J s.reader) s.cancelled)
  Step-less {s} some_thread (Step.send m e room) inv h =
      let t = turn J s.reader.i in
      omega (
        arith,
        ap reading_left e,
        (is_next J s inv m e).1,
        queue_load s.converter s.queue t (s.queue t ++ m ∷ []) (turn-lt J some_thread s.reader.i),
        length-append (s.queue t) (m ∷ []),
      )
  Step-less {s} some_thread (Step.hand m e empty waits) inv h =
      let t = turn J s.reader.i in
      omega (
        arith,
        ap reading_left e,
        (is_next J s inv m e).1,
        converter_load s.converter s.queue t (Converting.sending (converted J m))
            (turn-lt J some_thread s.reader.i),
        ap converting_left waits,
      )
  Step-less {s} some_thread (Step.take j m q l waits queued) inv h = omega (
    arith,
    converter_load s.converter (update s.queue j q) j (Converting.sending (converted J m)) l,
    queue_load s.converter s.queue j q l,
    ap converting_left waits,
    ap length queued,
  )
  Step-less {s} some_thread (Step.drain j l waits empty over) inv h =
      omega
        (arith, converter_load s.converter s.queue j Converting.ended l, ap converting_left waits)
  Step-less {s} some_thread (Step.write x r e) inv h = omega (
    arith,
    converter_load s.converter s.queue (turn J s.writer.i) Converting.idle
        (turn-lt J some_thread s.writer.i),
    ap converting_left e,
    write_less x s.writer r,
    uncancelled_le (has_failed J (write_item J x s.writer).status) s.cancelled,
  )
  Step-less {s} some_thread (Step.closed r e) inv h = omega (arith, closed_less s.writer r (h r))
  Step-less {s} some_thread (Step.cancel c) inv h = omega (arith, ap uncancelled c)
  Step-less {s} some_thread (Step.stop_reader m c e) inv h = omega (arith, ap reading_left e)
  Step-less {s} some_thread (Step.stop_converter j c l live) inv h = omega (
    arith,
    converter_load s.converter s.queue j Converting.ended l,
    some_left (s.converter j) live,
  )
    where
      some_left : (c : Converting M) → c ≢ Converting.ended → 0 < converting_left c
      some_left Converting.idle n = omega arith
      some_left (Converting.sending x) n = omega arith
      some_left Converting.ended n = absurd (n refl)
  Step-less {s} some_thread (Step.stop_writer c r) inv h =
      omega (arith, ap (λ st. writing_left st s.writer.closed_chans) r)
